-- ===== src/Cloudreve/Directory.antt =====
-- pan/driver/cloudreve/driver.go: `Disk`, `List`, `DirectLink`, and what changes directories, `ObjRename` and `Mkdir`.
pub mod Moving
pub mod Stuck
use pan_client.Base.{
  ℕ, zero, suc, ◌/◌, Bool, true, false, not, ◌&&◌, ◌||◌, if◌then◌else◌, Option, none, some, List,
  [], ◌∷◌, ◌++◌, map, Text, codes, text_eq, is_empty, trim, trim_right, slash, split, has_ext, rel,
  replace_byte, Result, ok, err,
}
use pan_client.Errors.{GoError, other, only_error, only_msg}
use pan_client.Cache.{GroupDo, get_or_load}
use pan_client.Cache as Store
use pan_client.Drive.{
  PanObj, ListReq, MkdirReq, DiskResp, dir_type, is_dir, Call, ◌>>=◌, ◌>>◌, return, fail, map_error,
}
use pan_client.Drive.Listings.{cache_key}
use pan_client.Drive.Lookup.{root_dir, get_pan_obj}
use pan_client.Drive.Rename.{ObjRenameReq}
use pan_client.Cloudreve.{
  Object, ObjectList, Item, Sources, Value, listing, policy, session, uploaded, err_times, Server,
  State,
}
use pan_client.Cloudreve.Replies.{
  no_return, user_storage, file_get_source, create_directory, list_directory, object_rename,
}

-- `List` writes the id of the root into the directory that it is given.
unfoldable pub with_root_id : PanObj → PanObj
with_root_id dir =
    if text_eq dir.path (codes "/") && is_empty dir.name then record dir { id = codes "0" } else dir

abbrev pub dir_path : PanObj → Text
dir_path dir = trim_right slash dir.path ++ slash ∷ dir.name

abbrev pub obj_of : PanObj → Object → PanObj
obj_of dir item = record {
  id = item.id;
  name = item.name;
  path = item.path;
  size = item.size;
  type = item.type;
  parent_id = some dir.id;
}

abbrev pub cache_policy : Text
cache_policy = codes "policy"

-- The listing that a value of the cache is, else none.
abbrev pub listing_of : Value → List PanObj
listing_of (listing objs) = objs
listing_of (policy p) = []
listing_of (session s) = []
listing_of (uploaded n) = []
listing_of (err_times n) = []

abbrev pub exist_path : PanObj → Text
exist_path obj =
    if text_eq obj.id (codes "0") || text_eq obj.path (codes "/")
    then slash ∷ obj.name
    else obj.path ++ slash ∷ obj.name

unfoldable pub target_path : MkdirReq → Text
target_path req = elim req.parent [
  | none ↦ slash ∷ trim slash req.new_path
  | some p ↦
      if text_eq p.id (codes "0") || text_eq p.path (codes "/")
      then p.path ++ slash ∷ trim slash req.new_path
      else slash ∷ trim slash req.new_path
]

abbrev pub first_part : List Text → Text
first_part [] = []
first_part (p ∷ ps) = p

abbrev pub src_of : PanObj → Item
src_of obj =
    if is_dir obj
    then record { items = []; dirs = obj.id ∷ [] }
    else record { items = obj.id ∷ []; dirs = [] }

-- A link that is asked for: a `DirectLink`.
pub record DirectLink : Type 0 where
  pub file_id : Text
  pub name : Text
  pub link : Text

-- The address of the last source of a name.
unfoldable pub url_of : Text → List Sources → Option Text
url_of name [] = none
url_of name (s ∷ ss) = elim (url_of name ss) [
  | some u ↦ some u
  | none ↦ if text_eq s.name name then some s.url else none
]

unfoldable pub with_link : List Sources → DirectLink → DirectLink
with_link sources file = elim (url_of file.name sources) [
  | some u ↦ record file { link = u }
  | none ↦ file
]

module _ {W D : Type 0} where
  -- `c.Del(cacheDirectoryPrefix + id)`.
  abbrev pub del_dir : {A : Type 0} → Text → Call (State W) D A → Call (State W) D A
  del_dir id m (c, w) = m (Store.del (cache_key id) c, w)

module _ {W D : Type 0} (server : Server W D) where
  unfoldable pub disk : Call (State W) D DiskResp
  disk = user_storage server >>= λ storage. return (record {
    total = storage.total / 1024 / 1024;
    free = storage.free / 1024 / 1024;
    used = storage.used / 1024 / 1024;
  })

  unfoldable pub direct_link : List DirectLink → Call (State W) D (List DirectLink)
  direct_link files =
      file_get_source server (map (λ (f : DirectLink). f.file_id) files) >>= λ sources.
      return (map (with_link sources) files)

  -- `c.Set`, at the time of the world.
  abbrev pub set_value : Text → Value → State W → State W
  set_value key v (c, w) = (Store.set (server.clock w) key v c, w)

  -- The loader of a listing. It keeps the policy as well.
  unfoldable pub load_dir : PanObj → Call (State W) D Value
  load_dir dir = list_directory server (dir_path dir) >>= λ directory s. (
    ok (listing (map (obj_of dir) directory.objects)),
    set_value cache_policy (policy directory.policy) s,
  )

  drop_if : Bool → Text → State W → State W
  drop_if reload id (c, w) = if reload then (Store.del (cache_key id) c, w) else (c, w)

  module _ (group_do : GroupDo Value W (GoError D)) where
    unfoldable pub list : ListReq → Call (State W) D (List PanObj)
    unfolding drop_if
    list req s =
        let dir = with_root_id req.dir in
        let load : Call (State W) D Value =
          get_or_load server.clock group_do (cache_key dir.id) (load_dir dir) in
        (load >>= λ v. return (listing_of v)) (drop_if req.reload dir.id s)

    -- `c.GetPanObj` over `c.List`.
    abbrev pub lookup_obj : Text → Bool → Call (State W) D PanObj
    lookup_obj = get_pan_obj list

    abbrev del_parent : Option Text → Call (State W) D (Unit {0})
    del_parent none = fail no_return
    del_parent (some id) = del_dir id (return tt)

    unfoldable pub obj_rename : ObjRenameReq → Call (State W) D (Unit {0})
    obj_rename req =
        let obj = req.obj in
        let found : Call (State W) D PanObj =
          if is_empty obj.id
          then lookup_obj (trim slash obj.path ++ slash ∷ obj.name) true
          else return obj in
        if text_eq obj.id (codes "0") || (text_eq obj.path (codes "/") && is_empty obj.name)
        then fail (only_msg (codes "not support rename root path"))
        else (found >>= λ object.
            object_rename server (record { src = src_of object; new_name = req.new_name })
            >> del_parent object.parent_id)

    -- A part of the path that is not there is created, before the next round.
    unfoldable pub make_first : PanObj → Text → Option Text → Call (State W) D (Unit {0})
    make_first obj exist none = fail (only_error (other (codes "Rel: can't make relative")))
    make_first obj exist (some r) =
        map_error only_error (
          create_directory server
            (exist ++ slash ∷ first_part (split slash (replace_byte b'\\' slash r))))
        >> del_dir obj.id (return tt)

    -- `Mkdir`, which calls itself after each part, on fuel.
    unfoldable pub mkdir : ℕ → MkdirReq → Call (State W) D PanObj
    unfolding make_first
    mkdir zero req = fail no_return
    mkdir (suc fuel) req =
        let again = mkdir fuel req in
        let go : PanObj → Call (State W) D PanObj = λ obj.
          (if text_eq (exist_path obj) (target_path req)
            then return obj
            else make_first obj (exist_path obj) (rel (exist_path obj) (target_path req))
              >> again) in
        if is_empty req.new_path
        then return root_dir
        else (if has_ext req.new_path
            then fail (only_msg (codes "please set a dir"))
            else (lookup_obj (target_path req) false >>= go))
