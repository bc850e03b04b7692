-- ===== src/Baidu/Directory.antt =====
-- pan/driver/baidu_netdisk/driver.go: `Disk`, `List`, and what changes directories, `ObjRename`, `Mkdir`,
-- `Move` and `Delete`. A directory is known by its path.
pub mod Dropped
use pan_client.Base.{
  ℕ, zero, suc, ◌/◌, ◌-◌, ◌^◌, ◌%◌, ◌==◌, Bool, true, false, not, ◌&&◌, ◌||◌, sub64, div64,
  if◌then◌else◌, Option, none, some, List, [], ◌∷◌, ◌++◌, map, Text, codes, text_eq, is_empty, trim,
  trim_right, slash, replace_byte, Result, ok, err,
}
use pan_client.Errors.{GoError, only_msg}
use pan_client.Cache.{Cache, GroupDo, get_or_load}
use pan_client.Cache as Store
use pan_client.Download.Names.{format_int, base}
use pan_client.Drive.{
  PanObj, ListReq, MkdirReq, MovieReq, DiskResp, dir_type, file_type, Call, ◌>>=◌, ◌>>◌, return,
  fail,
}
use pan_client.Drive.Listings.{cache_key, del_dirs}
use pan_client.Drive.Lookup.{root_dir}
use pan_client.Drive.Rename.{ObjRenameReq}
use pan_client.Drive.Upload.{dir_of}
use pan_client.Baidu.{BaiduProperties, BaiduFile, ApiResp, Server, State}
use pan_client.Baidu.Requests.{request}
use pan_client.Baidu.Requests.Files.{FileList, renames, moves, paths, get_files, manage, create}

-- The path of an object.
abbrev pub full_path : PanObj → Text
full_path obj = trim_right slash obj.path ++ slash ∷ obj.name

-- The path under which a directory is listed.
unfoldable pub dir_path : PanObj → Text
dir_path dir =
    if text_eq dir.path (codes "/") && is_empty dir.name then codes "/" else full_path dir

abbrev name_of : BaiduFile → Text
name_of f = if is_empty f.server_filename then base f.path else f.server_filename

unfoldable pub obj_of : PanObj → BaiduFile → PanObj
obj_of dir f = record {
  id = format_int f.fs_id;
  name = name_of f;
  path = dir_path dir;
  size = f.size;
  type = if f.isdir == 1 then dir_type else file_type;
  parent_id = some dir.id;
}

-- Whether the listing of a directory is dropped for the items: it is the path of one of them.
unfoldable pub holds_item : List PanObj → Text → Bool
holds_item [] path = false
holds_item (item ∷ items) path = let rest = holds_item items path in text_eq path item.path || rest

unfoldable pub mkdir_path : MkdirReq → Text
mkdir_path req =
    let below = slash ∷ trim slash req.new_path in
    elim req.parent [
      | none ↦ below
      | some p ↦
          if is_empty p.path
          then below
          else (trim_right slash p.path ++ (if is_empty p.name then [] else slash ∷ p.name))
            ++ below
    ]

abbrev pub move_of : Text → PanObj → Text × Text × Text
move_of target item = (full_path item, target, item.name)

module _ {W D : Type 0} (server : Server W D) where
  unfoldable pub disk : Call (State W) D DiskResp
  disk =
      request server (record {
        url = codes "https://pan.baidu.com/api/quota";
        post = false;
        params = [];
        form = [];
      })
      >>= λ resp.
          let total = div64 (div64 resp.total 1024) 1024 in
          let used = div64 (div64 resp.used 1024) 1024 in
          return (record { total = total; free = sub64 total used; used = used })

  unfoldable pub mkdir : MkdirReq → Call (State W) D PanObj
  mkdir req =
      let target = mkdir_path req in
      let make : Call (State W) D PanObj = create server target 0 1 [] [] >>= λ resp.
      return (record {
        id = format_int resp.file.fs_id;
        name = base target;
        path = replace_byte b'\\' slash (dir_of target);
        size = 0;
        type = dir_type;
        parent_id = none;
      }) in
      if is_empty req.new_path then return root_dir else make

module _ {W : Type 0} where
  drop_if : Bool → Text → State W → State W
  drop_if reload path (c, w) = if reload then (Store.del (cache_key path) c, w) else (c, w)

module _ {W D : Type 0} where
  -- What follows a change that the server has made.
  drop_after :
      (Text → Bool) → Result (GoError D) ApiResp × State W → Result (GoError D) (Unit {0}) × State W
  drop_after gone (err e, s) = (err e, s)
  drop_after gone (ok resp, s) = (ok tt, del_dirs gone s)

module _ {W D : Type 0} (server : Server W D) (marshal : FileList → Text) where
  unfoldable pub obj_rename : ObjRenameReq → Call (State W) D (Unit {0})
  unfolding drop_after
  obj_rename req s =
      drop_after (text_eq req.obj.path) (
        manage server marshal (codes "rename") (renames ((full_path req.obj, req.new_name) ∷ [])) s)

  unfoldable pub move : MovieReq → Call (State W) D (Unit {0})
  unfolding drop_after
  move req s =
      let target = dir_path req.target_obj in
      let moved = manage server marshal (codes "move") (moves (map (move_of target) req.items)) s in
      if text_eq req.target_obj.type file_type
      then (err (only_msg (codes "target must be a directory")), s)
      else drop_after (λ path. holds_item req.items path || text_eq path target) moved

  unfoldable pub delete : List PanObj → Call (State W) D (Unit {0})
  unfolding drop_after
  delete items s =
      if is_empty items
      then (ok tt, s)
      else drop_after (holds_item items)
          (manage server marshal (codes "delete") (paths (map full_path items)) s)

module _ {W D : Type 0} (server : Server W D)
    (group_do : GroupDo (List PanObj) (BaiduProperties × W) (GoError D)) (fuel : ℕ) where
  load_dir : PanObj → Call (State W) D (List PanObj)
  load_dir dir =
      get_files server fuel (dir_path dir) 0 [] >>= λ files. return (map (obj_of dir) files)

  unfoldable pub list : ListReq → Call (State W) D (List PanObj)
  unfolding load_dir drop_if
  list req s =
      get_or_load (λ pw. server.clock pw.1) group_do (cache_key (dir_path req.dir))
        (load_dir req.dir) (drop_if req.reload (dir_path req.dir) s)
