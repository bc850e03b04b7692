-- ===== src/Quark/Directory/Making.antt =====
-- pan/driver/quark/driver.go: `Mkdir`, the directories of a path, made part by part.
pub mod Found
use pan_client.Base.{
  ℕ, ◌-◌, Bool, false, not, ◌&&◌, ◌||◌, if◌then◌else◌, Option, none, some, List, [], ◌∷◌, ◌++◌,
  Text, codes, text_eq, is_empty, trim, split, slash, length, take, contains, has_ext, rel,
  replace_byte,
}
use pan_client.Errors.{GoError, nil, other, wrapped, driver, only_error, only_msg}
use pan_client.Cache.{GroupDo}
use pan_client.Drive.{MkdirReq, PanObj, dir_type, Call, ◌>>=◌, return, fail, on_error}
use pan_client.Drive.Lookup.{root_dir, get_pan_obj}
use pan_client.Http.{world}
use pan_client.Quark.{File, Server, State}
use pan_client.Quark.Replies.{create_directory}
use pan_client.Quark.Pages.{file_sort}
use pan_client.Quark.Directory.{del_dir, list}

-- `GetMsg` of a driver's error.
abbrev get_msg : {D : Type 0} → GoError D → Text
get_msg (driver code msg cause extra) = msg
get_msg nil = []
get_msg (other m) = []
get_msg (wrapped m e) = []

abbrev pub create_waits : List ℕ
create_waits = 1000 ∷ 2000 ∷ 3000 ∷ []

abbrev pub find_dir : Text → List File → Text
find_dir name [] = []
find_dir name (f ∷ fs) = if text_eq f.file_name name && f.dir then f.fid else find_dir name fs

abbrev exist_path : PanObj → Text
exist_path obj =
    if text_eq obj.id (codes "0") || text_eq obj.path (codes "/")
    then slash ∷ obj.name
    else obj.path ++ slash ∷ obj.name

unfoldable pub target_path : MkdirReq → Text
target_path req = elim req.parent [
  | none ↦ slash ∷ trim slash req.new_path
  | some p ↦
      if text_eq p.id (codes "0") || text_eq p.path (codes "/")
      then p.path ++ slash ∷ trim slash req.new_path
      else slash ∷ trim slash req.new_path
]

abbrev slash_if_empty : Text → Text
slash_if_empty [] = slash ∷ []
slash_if_empty (b ∷ s) = b ∷ s

made_dir : Text → PanObj → Text × Text → PanObj
made_dir target obj (fid, last) = record {
  id = fid;
  name = last;
  path = slash_if_empty (take (length target - length last - 1) target);
  size = 0;
  type = dir_type;
  parent_id = some obj.id;
}

module _ {W D : Type 0} (server : Server W D) (group_do : GroupDo (List PanObj) W (GoError D))
    (fuel : ℕ) where
  -- `findChildDirId`; no id is the empty text.
  unfoldable pub find_child_dir_id : Text → Text → Call (State W) D Text
  find_child_dir_id parent_id name s =
      on_error (λ e. return [])
        ((file_sort server fuel parent_id >>= λ files. return (find_dir name files)) s)

  -- The attempts to create a directory: after each but the last a wait, in milliseconds, if the server
  -- is busy with it.
  unfoldable pub create_attempts : List ℕ → Text → Text → Call (State W) D Text
  create_attempts [] name id s = create_directory server name id s
  create_attempts (wait ∷ waits) name id s =
      let retry = world (server.sleep wait) (create_attempts waits name id) in
      on_error (λ e. if contains (get_msg e) (codes "file is doloading") then retry else fail e)
        (create_directory server name id s)

  -- A part of the path that is not there: it is created, and after an error looked up again.
  unfoldable pub make_part : Text → Text → Call (State W) D Text
  unfolding create_attempts find_child_dir_id
  make_part id name s =
      on_error
        (λ e. del_dir id (
          find_child_dir_id id name >>= λ fid.
          if not (is_empty fid) then return fid else fail (only_error e)))
        (create_attempts create_waits name id s)

  unfoldable pub mkdir_parts : Text → Text → List Text → Call (State W) D (Text × Text)
  unfolding make_part
  mkdir_parts id last [] = return (id, last)
  mkdir_parts id last (name ∷ names) = find_child_dir_id id name >>= λ there.
      (if not (is_empty there) then return there else make_part id name) >>= λ fid.
      mkdir_parts fid name names

  make_rest : Text → PanObj → Option Text → Call (State W) D PanObj
  unfolding made_dir mkdir_parts
  make_rest target obj none = fail (only_error (other (codes "Rel: can't make " ++ target)))
  make_rest target obj (some rest) =
      mkdir_parts obj.id [] (split slash (replace_byte b'\\' slash rest)) >>= λ made.
      del_dir obj.id (return (made_dir target obj made))

  unfoldable pub mkdir : ℕ → MkdirReq → Call (State W) D PanObj
  unfolding make_rest target_path
  mkdir depth req =
      let target = target_path req in
      let make : Call (State W) D PanObj =
        get_pan_obj (list server group_do fuel depth) target false >>= λ obj.
        if text_eq (exist_path obj) target
        then return obj
        else make_rest target obj (rel (exist_path obj) target) in
      if is_empty req.new_path
      then return root_dir
      else (if has_ext req.new_path then fail (only_msg (codes "please set a dir")) else make)
