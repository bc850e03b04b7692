-- ===== src/Quark/Directory.antt =====
-- pan/driver/quark/driver.go: `List`, the listing of a directory through the cache.
pub mod Listing
pub mod Making
pub mod Changing
mod Examples
use pan_client.Base.{
  ℕ, zero, suc, ◌-◌, ◌*◌, ◌==◌, Bool, true, false, not, ◌&&◌, ◌||◌, if◌then◌else◌, Option, none,
  some, List, [], ◌∷◌, ◌++◌, map, Text, codes, text_eq, is_empty, has_prefix, trim, trim_right,
  split, slash, length, drop, take, contains, has_ext, rel, replace_byte, Result, ok, err,
}
use pan_client.Errors.{GoError, nil, other, wrapped, driver, only_error, only_msg}
use pan_client.Cache.{Cache, GroupDo, get_or_load}
use pan_client.Cache as Store
use pan_client.Drive.Listings.{cache_key}
use pan_client.Drive.{
  PanObj, ListReq, dir_type, file_type, Call, ◌>>=◌, ◌>>◌, return, fail, relabel, on_error,
}
use pan_client.Drive.Lookup.{root_dir, get_pan_obj}
use pan_client.Drive.Collect.{CollectResult, collect_item_ids}
use pan_client.Drive.Rename.{ObjRenameReq}
use pan_client.Http.{world}
use pan_client.Quark.{File, Server, State}
use pan_client.Quark.Replies.{
  no_return, create_directory, object_rename, object_move, object_delete,
}
use pan_client.Quark.Pages.{file_sort}

-- `List` writes the id of the root into the directory that it is given.
unfoldable pub with_root_id : PanObj → PanObj
with_root_id dir =
    if text_eq dir.path (codes "/") && is_empty dir.name then record dir { id = codes "0" } else dir

abbrev pub dir_path : PanObj → Text
dir_path dir = trim_right slash dir.path ++ slash ∷ dir.name

-- `parent` is the id of the directory that `List` was given.
unfoldable pub obj_of : Text → PanObj → File → PanObj
obj_of parent query_dir item = record {
  id = item.fid;
  name = item.file_name;
  path = if text_eq query_dir.id (codes "0") then codes "/" else dir_path query_dir;
  size = item.size;
  type = if item.file_type == 0 then dir_type else file_type;
  parent_id = some parent;
}

module _ {W D : Type 0} where
  -- `q.Del(cacheDirectoryPrefix + id)`.
  abbrev pub del_dir : {A : Type 0} → Text → Call (State W) D A → Call (State W) D A
  del_dir id m (c, w) = m (Store.del (cache_key id) c, w)

module _ {W D : Type 0} (server : Server W D) (group_do : GroupDo (List PanObj) W (GoError D))
    (fuel : ℕ) where
  load_dir : Text → PanObj → Call (State W) D (List PanObj)
  load_dir parent query_dir =
      file_sort server fuel query_dir.id >>= λ files. return (map (obj_of parent query_dir) files)

  drop_if : Bool → Text → State W → State W
  drop_if reload id (c, w) = if reload then (Store.del (cache_key id) c, w) else (c, w)

  unfoldable pub list_known : Bool → Text → PanObj → Call (State W) D (List PanObj)
  unfolding load_dir drop_if
  list_known reload parent query_dir s =
      get_or_load server.clock group_do (cache_key query_dir.id) (load_dir parent query_dir)
        (drop_if reload query_dir.id s)

  -- `List`. A directory without an id is looked up by its path, which lists the directories on the way;
  -- these have ids, unless the server gave an object none: `depth` bounds such lookups in lookups.
  unfoldable pub list : ℕ → ListReq → Call (State W) D (List PanObj)
  unfolding list_known
  list zero req = let dir = with_root_id req.dir in list_known req.reload dir.id dir
  list (suc depth) req =
      let dir = with_root_id req.dir in
      let found : Call (State W) D PanObj =
        if is_empty dir.id then get_pan_obj (list depth) (dir_path dir) true else return dir in
      found >>= λ query_dir. list_known req.reload dir.id query_dir
