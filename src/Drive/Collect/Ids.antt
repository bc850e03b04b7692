-- ===== src/Drive/Collect/Ids.antt =====
-- What `CollectItemIds` collects, item by item.
use pan_client.Base.{
  ◌≡◌, refl, ap, sym, ◌∙◌, inl, inr, Bool, true, false, not, ◌&&◌, ◌||◌, is_empty, if◌then◌else◌,
  Option, none, some, List, [], ◌∷◌, ◌++◌, append-nil, append_assoc, Text, text_eq, Result, ok, err,
  Bool-cases,
}
use pan_client.Errors.{GoError}
use pan_client.Drive.{PanObj, is_dir, Call}
use pan_client.Drive.Collect.{
  has_id, has_path, mark, mark_parent, CollectResult, empty_result, keep_item, keep_found,
  collect_item, collect_items, collect_item_ids,
}

-- The object that an item stands for: itself by its id, else what its path leads to.
unfoldable pub target : {D : Type 0} → (Text → Result (GoError D) PanObj) → PanObj → Option PanObj
target look item =
    if has_id item
    then some item
    else (if has_path item
        then elim (look item.path) [ ok obj ↦ some obj | err e ↦ none ]
        else none)

abbrev pub target_ids : Option PanObj → List Text
target_ids none = []
target_ids (some obj) = obj.id ∷ []

-- The ids of the targets, in the order of the items.
unfoldable pub ids_of : {D : Type 0} → (Text → Result (GoError D) PanObj) → List PanObj → List Text
ids_of look [] = []
ids_of look (item ∷ items) = target_ids (target look item) ++ ids_of look items

abbrev pub keep_target : Bool → PanObj → Option PanObj → CollectResult → CollectResult
keep_target for_delete item none result = result
keep_target for_delete item (some obj) result = keep_item for_delete item obj result

abbrev pub is_parent : Option Text → Text → Bool
is_parent none j = false
is_parent (some id) j = not (is_empty id) && text_eq j id

-- Whether an item with the given target has the directory `j` reloaded.
abbrev pub touches : Bool → PanObj → Option PanObj → Text → Bool
touches for_delete item none j = false
touches for_delete item (some obj) j =
    if is_dir obj then text_eq j obj.id else for_delete && is_parent item.parent_id j

unfoldable pub reloads :
    {D : Type 0} → (Text → Result (GoError D) PanObj) → Bool → List PanObj → Text → Bool
reloads look for_delete [] j = false
reloads look for_delete (item ∷ items) j =
    touches for_delete item (target look item) j || reloads look for_delete items j

pub or_false : (b : Bool) → (b || false) ≡ b
or_false true = refl
or_false false = refl

pub or_assoc : (a b c : Bool) → ((a || b) || c) ≡ (a || (b || c))
or_assoc true b c = refl
or_assoc false b c = refl

or_swap : (a b : Bool) → (if a then true else b) ≡ (b || a)
or_swap true true = refl
or_swap true false = refl
or_swap false true = refl
or_swap false false = refl

mark_parent-or :
    (p : Option Text) → (f : Text → Bool) → (j : Text) → mark_parent p f j ≡ (f j || is_parent p j)
mark_parent-or none f j = sym (or_false (f j))
mark_parent-or (some []) f j = sym (or_false (f j))
mark_parent-or (some (b ∷ bs)) f j = or_swap (text_eq j (b ∷ bs)) (f j)

mark-or :
    (dir fd : Bool)
    → (id : Text) → (p : Option Text) → (f : Text → Bool) → (j : Text)
    → (if dir then mark id f else (if fd then mark_parent p f else f)) j
      ≡ (f j || (if dir then text_eq j id else fd && is_parent p j))
mark-or true fd id p f j = or_swap (text_eq j id) (f j)
mark-or false true id p f j = mark_parent-or p f j
mark-or false false id p f j = sym (or_false (f j))

pub keep_target-reloads :
    (fd : Bool)
    → (item : PanObj) → (t : Option PanObj) → (r : CollectResult) → (j : Text)
    → (keep_target fd item t r).reload_dir_ids j ≡ (r.reload_dir_ids j || touches fd item t j)
unfolding keep_item
keep_target-reloads fd item none r j = sym (or_false (r.reload_dir_ids j))
keep_target-reloads fd item (some obj) r j =
    mark-or (is_dir obj) fd obj.id item.parent_id r.reload_dir_ids j

module _ {S D : Type 0} (get : Text → Bool → Call S D PanObj)
    (look : Text → Result (GoError D) PanObj)
    (looks : (path : Text) → (s : S) → get path true s ≡ (look path, s)) where
  keep_found_lem :
      (fd : Bool)
      → (item : PanObj) → (r : CollectResult) → (s : S) → (found : Result (GoError D) PanObj)
      → keep_found get fd item r (found, s)
        ≡ (keep_target fd item (elim found [ ok obj ↦ some obj | err e ↦ none ]) r, s)
  unfolding keep_found
  keep_found_lem fd item r s (ok obj) = refl
  keep_found_lem fd item r s (err e) = refl

  collect_item-target :
      (fd : Bool)
      → (item : PanObj) → (r : CollectResult) → (s : S)
      → collect_item get fd item r s ≡ (keep_target fd item (target look item) r, s)
  unfolding collect_item target
  collect_item-target fd item r s = elim (Bool-cases (has_id item)) [
    | inl by_id ↦ rw (by_id) refl
    | inr no_id ↦ elim (Bool-cases (has_path item)) [
      | inl path ↦ rw (no_id, path, looks item.path s) (keep_found_lem fd item r s (look item.path))
      | inr bare ↦ rw (no_id, bare) refl
    ]
  ]

  -- The ids of a result grow by the target's.
  keep_target-ids :
      (fd : Bool)
      → (item : PanObj) → (t : Option PanObj) → (r : CollectResult)
      → (keep_target fd item t r).obj_ids ≡ r.obj_ids ++ target_ids t
  unfolding keep_item
  keep_target-ids fd item none r = sym (append-nil r.obj_ids)
  keep_target-ids fd item (some obj) r = refl

  collect_items-ids :
      (fd : Bool)
      → (items : List PanObj) → (r : CollectResult) → (s : S)
      → (collect_items get fd items r s).0.obj_ids ≡ r.obj_ids ++ ids_of look items
  unfolding collect_items ids_of
  collect_items-ids fd [] r s = sym (append-nil r.obj_ids)
  collect_items-ids fd (item ∷ items) r s =
      let r' = keep_target fd item (target look item) r in
      ap (λ next. (collect_items get fd items next.0 next.1).0.obj_ids)
        (collect_item-target fd item r s)
      ∙ collect_items-ids fd items r' s
      ∙ ap (λ ids. ids ++ ids_of look items) (keep_target-ids fd item (target look item) r)
      ∙ append_assoc r.obj_ids (target_ids (target look item)) (ids_of look items)

  collect_item_ids-ids :
      (items : List PanObj)
      → (fd : Bool) → (s : S) → (collect_item_ids get items fd s).0.obj_ids ≡ ids_of look items
  unfolding collect_item_ids
  collect_item_ids-ids items fd s = collect_items-ids fd items empty_result s

  collect_items-reloads :
      (fd : Bool)
      → (items : List PanObj) → (r : CollectResult) → (s : S) → (j : Text)
      → (collect_items get fd items r s).0.reload_dir_ids j
        ≡ (r.reload_dir_ids j || reloads look fd items j)
  unfolding collect_items reloads
  collect_items-reloads fd [] r s j = sym (or_false (r.reload_dir_ids j))
  collect_items-reloads fd (item ∷ items) r s j =
      let r' = keep_target fd item (target look item) r in
      ap (λ next. (collect_items get fd items next.0 next.1).0.reload_dir_ids j)
        (collect_item-target fd item r s)
      ∙ collect_items-reloads fd items r' s j
      ∙ ap (λ b. b || reloads look fd items j) (keep_target-reloads fd item (target look item) r j)
      ∙ or_assoc (r.reload_dir_ids j) (touches fd item (target look item) j)
          (reloads look fd items j)

  collect_item_ids-reloads :
      (items : List PanObj)
      → (fd : Bool) → (s : S) → (j : Text)
      → (collect_item_ids get items fd s).0.reload_dir_ids j ≡ reloads look fd items j
  unfolding collect_item_ids
  collect_item_ids-reloads items fd s j = collect_items-reloads fd items empty_result s j

  -- `CollectItemIds`, where a path always leads to the same, collects, in the order of the items, the id of
  -- every item that has one and of every other item what its path leads to, and leaves out what is not
  -- found; it marks for a reload exactly the directories among these targets and, for a deletion, the
  -- parents, where an item knows its parent's id, of the targets that are no directories.
  pub collect_item_ids_lem :
      (items : List PanObj)
      → (fd : Bool) → (s : S) → (j : Text)
      → ((collect_item_ids get items fd s).0.obj_ids ≡ ids_of look items)
        × ((collect_item_ids get items fd s).0.reload_dir_ids j ≡ reloads look fd items j)
  collect_item_ids_lem items fd s j =
      (collect_item_ids-ids items fd s, collect_item_ids-reloads items fd s j)
