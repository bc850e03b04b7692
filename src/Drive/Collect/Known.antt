-- ===== src/Drive/Collect/Known.antt =====
-- What `CollectItemIds` does with items that all have ids: nothing is looked up.
use pan_client.Base.{
  ◌≡◌, refl, ap, sym, subst, ◌∙◌, Bool, true, false, ◌||◌, some, List, [], ◌∷◌, ◌++◌, append-nil,
  append_assoc, map, All, Text,
}
use pan_client.Drive.{PanObj, Call}
use pan_client.Drive.Collect.{
  has_id, CollectResult, empty_result, keep_item, collect_item, collect_items, collect_item_ids,
}
use pan_client.Drive.Collect.Ids.{touches, or_assoc, or_false, keep_target-reloads}

abbrev pub HasId : PanObj → Type 0
HasId item = has_id item ≡ true

abbrev pub id_of : PanObj → Text
id_of item = item.id

-- Whether the listing of the directory with this id is to be dropped.
unfoldable pub drops : Bool → List PanObj → Text → Bool
drops for_delete [] id = false
drops for_delete (item ∷ items) id =
    let rest = drops for_delete items id in touches for_delete item (some item) id || rest

module _ {S D : Type 0} (get : Text → Bool → Call S D PanObj) (fd : Bool) where
  collect_item-HasId :
      (item : PanObj) (r : CollectResult) (s : S)
      → HasId item
      → collect_item get fd item r s ≡ (keep_item fd item item r, s)
  unfolding collect_item
  collect_item-HasId item r s known = rw known refl

  -- The state is as it was, the ids of the items are added, and the marks that they make.
  abbrev pub IsCollected : List PanObj → CollectResult → S → CollectResult × S → Type 0
  IsCollected items r s c =
      (c.1 ≡ s)
      × (c.0.obj_ids ≡ r.obj_ids ++ map id_of items)
      × ((id : Text) → c.0.reload_dir_ids id ≡ (r.reload_dir_ids id || drops fd items id))

  collect_items-known :
      (items : List PanObj) (r : CollectResult) (s : S)
      → All HasId items
      → IsCollected items r s (collect_items get fd items r s)
  unfolding collect_items drops keep_item
  collect_items-known [] r s known =
      (refl, sym (append-nil r.obj_ids), λ id. sym (or_false (r.reload_dir_ids id)))
  collect_items-known (item ∷ items) r s known =
      let rest = collect_items-known items (keep_item fd item item r) s known.1 in
      subst (λ next. IsCollected (item ∷ items) r s (collect_items get fd items next.0 next.1))
        (sym (collect_item-HasId item r s known.0))
        (
          rest.0,
          rest.1 ∙ append_assoc r.obj_ids (item.id ∷ []) (map id_of items),
          λ id.
              rest.2 id
              ∙ ap (λ b. b || drops fd items id) (keep_target-reloads fd item (some item) r id)
              ∙ or_assoc (r.reload_dir_ids id) (touches fd item (some item) id) (drops fd items id),
        )

  pub collect_item_ids-known :
      (items : List PanObj) (s : S)
      → All HasId items
      → let c = collect_item_ids get items fd s in
        (c.1 ≡ s)
        × (c.0.obj_ids ≡ map id_of items)
        × ((id : Text) → c.0.reload_dir_ids id ≡ drops fd items id)
  unfolding collect_item_ids
  collect_item_ids-known items s known = collect_items-known items empty_result s known
