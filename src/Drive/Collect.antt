-- ===== src/Drive/Collect.antt =====
-- pan/driver.go: `CollectItemIds`, the ids of the items of a move or a deletion. The map
-- `ReloadDirIds` is a function from ids.
pub mod Ids
pub mod Known
use pan_client.Base.{
  Bool, true, false, not, ◌&&◌, if◌then◌else◌, Option, none, some, List, [], ◌∷◌, ◌++◌, Text, codes,
  text_eq, is_empty, slash, Result, ok, err,
}
use pan_client.Errors.{GoError}
use pan_client.Drive.{PanObj, is_dir, Call}

pub record CollectResult : Type 0 where
  pub obj_ids : List Text
  pub reload_dir_ids : Text → Bool

abbrev pub empty_result : CollectResult
empty_result = record { obj_ids = []; reload_dir_ids = λ id. false }

abbrev pub mark : Text → (Text → Bool) → Text → Bool
mark id ids j = if text_eq j id then true else ids j

-- `item.Parent != nil && item.Parent.Id != ""`.
abbrev pub mark_parent : Option Text → (Text → Bool) → Text → Bool
mark_parent none ids = ids
mark_parent (some id) ids = if not (is_empty id) then mark id ids else ids

unfoldable pub has_id : PanObj → Bool
has_id item = not (text_eq item.id (codes "0")) && not (is_empty item.id)

unfoldable pub has_path : PanObj → Bool
has_path item = not (is_empty item.path) && not (text_eq item.path (slash ∷ []))

-- `obj` is the item, or what its path leads to.
unfoldable pub keep_item : Bool → PanObj → PanObj → CollectResult → CollectResult
keep_item for_delete item obj result = record {
  obj_ids = result.obj_ids ++ obj.id ∷ [];
  reload_dir_ids =
      if is_dir obj
      then mark obj.id result.reload_dir_ids
      else (if for_delete
          then mark_parent item.parent_id result.reload_dir_ids
          else result.reload_dir_ids);
}

module _ {S D : Type 0} (get_pan_obj : Text → Bool → Call S D PanObj) where
  -- An item whose path is not found is left out.
  unfoldable pub keep_found :
      Bool → PanObj → CollectResult → Result (GoError D) PanObj × S → CollectResult × S
  keep_found for_delete item result (err e, s) = (result, s)
  keep_found for_delete item result (ok obj, s) = (keep_item for_delete item obj result, s)

  unfoldable pub collect_item : Bool → PanObj → CollectResult → S → CollectResult × S
  unfolding keep_found
  collect_item for_delete item result s =
      if has_id item
      then (keep_item for_delete item item result, s)
      else (if has_path item
          then keep_found for_delete item result (get_pan_obj item.path true s)
          else (result, s))

  unfoldable pub collect_items : Bool → List PanObj → CollectResult → S → CollectResult × S
  unfolding collect_item
  collect_items for_delete [] result s = (result, s)
  collect_items for_delete (item ∷ items) result s =
      let next = collect_item for_delete item result s in
      collect_items for_delete items next.0 next.1

  unfoldable pub collect_item_ids : List PanObj → Bool → S → CollectResult × S
  unfolding collect_items
  collect_item_ids items for_delete s = collect_items for_delete items empty_result s
