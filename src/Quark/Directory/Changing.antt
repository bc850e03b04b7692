-- ===== src/Quark/Directory/Changing.antt =====
-- pan/driver/quark/driver.go: `ObjRename`, `Move` and `Delete`, with the listings that they drop.
pub mod Dropped
use pan_client.Base.{
  ℕ, zero, suc, ◌-◌, ◌*◌, ◌==◌, Bool, true, false, not, ◌&&◌, ◌||◌, if◌then◌else◌, Option, none,
  some, List, [], ◌∷◌, ◌++◌, map, Text, codes, text_eq, is_empty, has_prefix, trim, trim_right,
  split, slash, length, drop, take, contains, has_ext, rel, replace_byte, Result, ok, err,
}
use pan_client.Errors.{GoError, nil, other, wrapped, driver, only_error, only_msg}
use pan_client.Cache.{Cache, GroupDo, get_or_load}
use pan_client.Cache as Store
use pan_client.Drive.Listings.{del_dirs}
use pan_client.Drive.{
  MkdirReq, MovieReq, PanObj, ListReq, dir_type, file_type, Call, ◌>>=◌, ◌>>◌, return, fail,
  relabel, on_error,
}
use pan_client.Drive.Lookup.{root_dir, get_pan_obj}
use pan_client.Drive.Collect.{CollectResult, collect_item_ids}
use pan_client.Drive.Rename.{ObjRenameReq}
use pan_client.Http.{world}
use pan_client.Quark.{File, Server, State}
use pan_client.Quark.Replies.{
  no_return, create_directory, object_rename, object_move, object_delete,
}
use pan_client.Quark.Pages.{file_sort}
use pan_client.Quark.Directory.{del_dir, list, dir_path}
use pan_client.Quark.Directory.Making.{mkdir}

module _ {W D : Type 0} (server : Server W D) (group_do : GroupDo (List PanObj) W (GoError D))
    (fuel : ℕ) where
  module _ (depth : ℕ) where
    -- `q.GetPanObj` over `q.List`.
    abbrev pub lookup_obj : Text → Bool → Call (State W) D PanObj
    lookup_obj = get_pan_obj (list server group_do fuel depth)

    abbrev del_parent : Option Text → Call (State W) D (Unit {0})
    del_parent none = fail no_return
    del_parent (some id) = del_dir id (return tt)

    unfoldable pub obj_rename : ObjRenameReq → Call (State W) D (Unit {0})
    obj_rename req =
        let obj = req.obj in
        let found : Call (State W) D PanObj =
          if is_empty obj.id
          then lookup_obj (trim slash obj.path ++ slash ∷ obj.name) true
          else return obj in
        if text_eq obj.id (codes "0") || (text_eq obj.path (codes "/") && is_empty obj.name)
        then fail (only_msg (codes "not support rename root path"))
        else (found >>= λ object.
            object_rename server fuel object.id req.new_name >> del_parent object.parent_id)

  after_change :
      CollectResult
      → Result (GoError D) (Unit {0}) × State W
      → Result (GoError D) (Unit {0}) × State W
  after_change collected (err e, s) = (err e, s)
  after_change collected (ok u, s) = (ok u, del_dirs collected.reload_dir_ids s)

  move_items : ℕ → List PanObj → Text → Call (State W) D (Unit {0})
  unfolding after_change
  move_items depth items target_id s =
      let collected =
        collect_item_ids (get_pan_obj (list server group_do fuel depth)) items false s in
      after_change collected.0
        (relabel only_error (object_move server fuel collected.0.obj_ids target_id collected.1))

  unfoldable pub move : ℕ → MovieReq → Call (State W) D (Unit {0})
  unfolding move_items mkdir
  move depth req =
      let target = req.target_obj in
      let found : Call (State W) D PanObj =
        if is_empty target.id
        then mkdir server group_do fuel depth
            (record { new_path = trim slash target.path ++ slash ∷ target.name; parent = none })
        else return target in
      if text_eq target.type file_type
      then fail (only_msg (codes "target is a file"))
      else (found >>= λ t. move_items depth req.items t.id)

  delete_items : CollectResult × State W → Result (GoError D) (Unit {0}) × State W
  unfolding after_change
  delete_items (collected, s) =
      if is_empty collected.obj_ids
      then (ok tt, s)
      else after_change collected (object_delete server fuel collected.obj_ids s)

  unfoldable pub delete : ℕ → List PanObj → Call (State W) D (Unit {0})
  unfolding delete_items
  delete depth items s =
      if is_empty items
      then (ok tt, s)
      else delete_items
          (collect_item_ids (get_pan_obj (list server group_do fuel depth)) items true s)
