-- ===== src/Cloudreve/Directory/Moving/Grouped.antt =====
-- What `Move` and `Delete` ask the server for.
use pan_client.Base.{
  ◌≡◌, refl, sym, ap, ◌∙◌, Bool, true, false, inl, inr, ◌⊎◌, subst, Bool-cases, if◌then◌else◌, List,
  [], ◌∷◌, ◌++◌, append_assoc, append-nil, Text, text_eq, text_eq→eq, text_eq_refl, keep, All, ok,
}
use pan_client.Errors.{GoError}
use pan_client.Cache.{GroupDo}
use pan_client.Drive.{PanObj, ◌>>◌, is_dir}
use pan_client.Drive.Collect.{mark, has_id, has_path}
use pan_client.Cloudreve.{Value, Server, State}
use pan_client.Cloudreve.Replies.{object_delete}
use pan_client.Cloudreve.Directory.{lookup_obj}
use pan_client.Cloudreve.Directory.Moving.{
  Groups, add_item, same_src, drop_marked, pick_found, pick_result, pick_item, pick_items, delete,
}

-- `Delete` of an item that has no id but a path, below the root, deletes the directory that the path leads to, which
-- is the one that holds the item: the name of the item is not looked at.
delete-pick_dir :
    {W D : Type 0} (server : Server W D) (group_do : GroupDo Value W (GoError D))
    (order : Groups → Groups) (item dir : PanObj) (s t : State W)
    → has_id item ≡ false
    → has_path item ≡ true
    → lookup_obj server group_do item.path true s ≡ (ok dir, t)
    → is_dir dir ≡ true
    → delete server group_do order (item ∷ []) s
      ≡ (object_delete server (record { items = []; dirs = dir.id ∷ [] })
            >> drop_marked (mark dir.id (λ id. false)))
          t
unfolding delete pick_items pick_item pick_result pick_found
delete-pick_dir server group_do order item dir s t no_id path found folder =
    rw (no_id, path, found, folder) refl

-- The items that are grouped under a path.
abbrev pub items_of : Text → Groups → List PanObj
items_of path [] = []
items_of path ((src, items) ∷ groups) =
    (if text_eq src path then items else []) ++ items_of path groups

-- No path has two groups.
abbrev pub Apart : Groups → Type 0
Apart [] = Unit
Apart ((src, items) ∷ groups) =
    All (λ (g : Text × List PanObj). text_eq g.0 src ≡ false) groups × Apart groups

abbrev one_if : Bool → PanObj → List PanObj
one_if b item = if b then item ∷ [] else []

items_of-others :
    (path : Text) (groups : Groups)
    → All (λ (g : Text × List PanObj). text_eq g.0 path ≡ false) groups
    → items_of path groups ≡ []
items_of-others path [] h = refl
items_of-others path ((src, items) ∷ groups) h = rw h.0 (items_of-others path groups h.1)

-- An item that joins the first group.
joins :
    (path src q : Text) (item : PanObj) (items : List PanObj) (groups : Groups)
    → All (λ (g : Text × List PanObj). text_eq g.0 src ≡ false) groups
    → src ≡ q
    → (text_eq src path ≡ true) ⊎ (text_eq src path ≡ false)
    → (if text_eq src path then items ++ item ∷ [] else []) ++ items_of path groups
      ≡ ((if text_eq src path then items else []) ++ items_of path groups)
        ++ one_if (text_eq q path) item
joins path src q item items groups h e (inl there) =
    let none_else = items_of-others path groups (
      subst (λ p. All (λ (g : Text × List PanObj). text_eq g.0 p ≡ false) groups)
        (text_eq→eq src path there) h) in
    rw (← e, there, none_else)
      (append-nil (items ++ item ∷ []) ∙ ap (λ l. l ++ item ∷ []) (sym (append-nil items)))
joins path src q item items groups h e (inr elsewhere) =
    rw (← e, elsewhere) (sym (append-nil (items_of path groups)))

items_of-add_item :
    (path : Text) (item : PanObj) (groups : Groups)
    → Apart groups
    → items_of path (add_item item groups)
      ≡ items_of path groups ++ one_if (text_eq item.path path) item
unfolding add_item
items_of-add_item path item [] h = append-nil (one_if (text_eq item.path path) item)
items_of-add_item path item ((src, items) ∷ groups) h = elim (Bool-cases (text_eq src item.path)) [
  | inl same ↦ rw same (
      joins path src item.path item items groups h.0 (text_eq→eq src item.path same)
        (Bool-cases (text_eq src path)))
  | inr other ↦ rw other (
      ap (λ l. (if text_eq src path then items else []) ++ l)
        (items_of-add_item path item groups h.1)
      ∙ sym (
          append_assoc (if text_eq src path then items else []) (items_of path groups)
            (one_if (text_eq item.path path) item)))
]

add_item-others :
    (src : Text) (item : PanObj) (groups : Groups)
    → text_eq item.path src ≡ false
    → All (λ (g : Text × List PanObj). text_eq g.0 src ≡ false) groups
    → All (λ (g : Text × List PanObj). text_eq g.0 src ≡ false) (add_item item groups)
unfolding add_item
add_item-others src item [] other h = (other, tt)
add_item-others src item ((key, items) ∷ groups) other h =
    elim (Bool-cases (text_eq key item.path)) [
      | inl same ↦ rw same (h.0, h.1)
      | inr unlike ↦ rw unlike (h.0, add_item-others src item groups other h.1)
    ]

text_eq_sym : (s t : Text) → text_eq s t ≡ false → text_eq t s ≡ false
text_eq_sym s t h = elim (Bool-cases (text_eq t s)) [
  | inr other ↦ other
  | inl same ↦ absurd (cc (h, text_eq→eq t s same, text_eq_refl s))
]

add_item-Apart : (item : PanObj) (groups : Groups) → Apart groups → Apart (add_item item groups)
unfolding add_item
add_item-Apart item [] h = (tt, tt)
add_item-Apart item ((src, items) ∷ groups) h = elim (Bool-cases (text_eq src item.path)) [
  | inl same ↦ rw same h
  | inr other ↦ rw other (
    add_item-others src item groups (text_eq_sym src item.path other) h.0,
    add_item-Apart item groups h.1,
  )
]

keep_cons :
    (path : Text) (item : PanObj) (items : List PanObj)
    → one_if (text_eq item.path path) item ++ keep (λ (o : PanObj). text_eq o.path path) items
      ≡ keep (λ (o : PanObj). text_eq o.path path) (item ∷ items)
unfolding keep
keep_cons path item items = by_test (text_eq item.path path)
  where
    by_test :
        (b : Bool)
        → one_if b item ++ keep (λ (o : PanObj). text_eq o.path path) items ≡ elim b [
          | true ↦ item ∷ keep (λ (o : PanObj). text_eq o.path path) items
          | false ↦ keep (λ (o : PanObj). text_eq o.path path) items
        ]
    by_test true = refl
    by_test false = refl

same_src-from :
    (path : Text) (items : List PanObj) (groups : Groups)
    → Apart groups
    → (items_of path (same_src items groups)
        ≡ items_of path groups ++ keep (λ (item : PanObj). text_eq item.path path) items)
      × Apart (same_src items groups)
unfolding same_src keep
same_src-from path [] groups h = (sym (append-nil (items_of path groups)), h)
same_src-from path (item ∷ items) groups h =
    let rest = same_src-from path items (add_item item groups) (add_item-Apart item groups h) in
    (
      rest.0
          ∙ ap (λ l. l ++ keep (λ (o : PanObj). text_eq o.path path) items)
              (items_of-add_item path item groups h)
          ∙ append_assoc (items_of path groups) (one_if (text_eq item.path path) item)
              (keep (λ (o : PanObj). text_eq o.path path) items)
          ∙ ap (λ l. items_of path groups ++ l) (keep_cons path item items),
      rest.1,
    )

-- `Move` groups its items by their paths: the items of a path stand together, in their order, none of them twice or left out,
-- and no path has two groups, hence two requests.
pub same_src_lem :
    (path : Text) (items : List PanObj)
    → (items_of path (same_src items []) ≡ keep (λ (item : PanObj). text_eq item.path path) items)
      × Apart (same_src items [])
same_src_lem path items = same_src-from path items [] tt
