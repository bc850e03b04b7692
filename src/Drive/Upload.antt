-- ===== src/Drive/Upload.antt =====
-- pan/driver.go: `BaseUploadPath`, which uploads a directory with what lies below it, over the driver's
-- `UploadFile`. The walk of package filepath runs on fuel, a level of directories for each unit; `none`
-- means that the fuel ran out. Logging and callbacks are left out.
pub mod Asked
pub mod Kept
mod Examples
use pan_client.Base.{
  ℕ, zero, suc, Bool, true, false, not, ◌&&◌, if◌then◌else◌, Option, none, some, List, [], ◌∷◌,
  ◌++◌, Text, codes, text_eq, is_empty, has_suffix, trim_right, split, slash, take, length, ◌-◌,
  join_parts, replace_byte, Result, ok, err,
}
use pan_client.Errors.{GoError, only_error, only_msg}
use pan_client.Download.Names.{base}
use pan_client.Drive.{Call}
use pan_client.Drive.Filter.{Filter, skips_file, skips_dir}
use pan_client.Drive.Tree.{Walked, done, then_next}

pub record UploadFileReq : Type 0 where
  pub local_file : Text
  pub remote_path : Text
  pub resumable : Bool
  pub only_fast : Bool
  pub success_del : Bool
  pub remote_path_transfer : Option (Text → Text)
  pub remote_name_transfer : Option (Text → Text)

pub record UploadPathReq : Type 0 where
  pub local_path : Text
  pub remote_path : Text
  pub resumable : Bool
  pub skip_file_err : Bool
  pub success_del : Bool
  pub only_fast : Bool
  pub filter : Filter
  pub remote_path_transfer : Option (Text → Text)
  pub remote_name_transfer : Option (Text → Text)

-- The operating system. `stat` and `lstat` tell whether a path is a directory, `read_dir` gives the sorted
-- names in a directory, and `first_name` a name in it, or none.
pub record LocalTree (S D : Type 0) : Type 0 where
  pub stat : Text → S → Result (GoError D) Bool
  pub lstat : Text → S → Result (GoError D) Bool
  pub read_dir : Text → S → Result (GoError D) (List Text)
  pub first_name : Text → S → Result (GoError D) (Option Text)
  pub remove : Text → S → S

abbrev drop_last : List Text → List Text
drop_last [] = []
drop_last (p ∷ []) = []
drop_last (p ∷ q ∷ ps) = p ∷ drop_last (q ∷ ps)

abbrev dot_or_parts : List Text → Text
dot_or_parts [] = codes "."
dot_or_parts ([] ∷ []) = codes "/"
dot_or_parts (p ∷ ps) = join_parts (p ∷ ps)

-- `filepath.Dir` and `filepath.Join` of clean paths.
unfoldable pub dir_of : Text → Text
dir_of path = dot_or_parts (drop_last (split slash path))

unfoldable pub below_dir : Text → Text → Text
below_dir dir name = if text_eq dir (codes ".") then name else trim_right slash dir ++ slash ∷ name

-- `strings.TrimSuffix`.
abbrev pub trim_suffix : Text → Text → Text
trim_suffix s p = if has_suffix s p then take (length s - length p) s else s

-- The remote directory of a file, from its path relative to the root of the walk and its name.
unfoldable pub remote_of : UploadPathReq → Text → Text → Text
remote_of req rel name =
    trim_right slash req.remote_path ++ slash ∷ trim_suffix (replace_byte b'\\' slash rel) name

-- The request for a file: both functions are the one for paths.
abbrev pub upload_req : UploadPathReq → Text → Text → UploadFileReq
upload_req req local_file remote_path = record {
  local_file = local_file;
  remote_path = remote_path;
  resumable = req.resumable;
  only_fast = req.only_fast;
  success_del = req.success_del;
  remote_path_transfer = req.remote_path_transfer;
  remote_name_transfer = req.remote_path_transfer;
}

-- `IsEmptyDir`, whose error is not looked at.
unfoldable pub is_empty_dir : {S D : Type 0} → LocalTree S D → Text → S → Bool
is_empty_dir files dir s = elim (files.first_name dir s) [
  | err e ↦ false
  | ok found ↦ elim found [ none ↦ true | some name ↦ false ]
]

module _ {S D : Type 0} (files : LocalTree S D) (upload_file : UploadFileReq → Call S D (Unit {0}))
    (req : UploadPathReq) where
  unfoldable pub remove_empty : Text → S → S
  remove_empty dir s =
      if req.success_del && (not (text_eq dir (codes ".")) && is_empty_dir files dir s)
      then files.remove dir s
      else s

  unfoldable pub after_upload :
      Text → Result (GoError D) (Unit {0}) × S → Result (GoError D) (Unit {0}) × S
  unfolding remove_empty
  after_upload dir (ok u, s) = (ok tt, remove_empty dir s)
  after_upload dir (err e, s) = (if not req.skip_file_err then err e else ok tt, s)

  unfoldable pub visit_file : Text → Text → Text → Call S D (Unit {0})
  unfolding after_upload
  visit_file path rel name s =
      if skips_file req.filter name
      then (ok tt, s)
      else after_upload (dir_of path) (upload_file (upload_req req path (remote_of req rel name)) s)

  -- What `filepath.Walk` does with a name in a directory; an error of `Lstat` comes back from the function
  -- that it calls.
  unfoldable pub walk_names :
      (Text → Text → Text → Bool → S → Walked S D) → Text → Text → List Text → S → Walked S D
  walk_names visit path rel [] s = done s
  walk_names visit path rel (name ∷ names) s =
      let child = below_dir path name in
      let first : Walked S D = elim (files.lstat child s) [
        | err e ↦ some (err e, s)
        | ok is_dir ↦ visit child (below_dir rel name) name is_dir s
      ] in
      then_next false first (walk_names visit path rel names)

  -- A path with its path relative to the root, its name, and whether it is a directory. A directory that
  -- cannot be read is an error; one with an ignored name is left out.
  unfoldable pub walk : ℕ → Text → Text → Text → Bool → S → Walked S D
  unfolding walk_names visit_file
  walk zero path rel name is_dir s = none
  walk (suc fuel) path rel name false s = some (visit_file path rel name s)
  walk (suc fuel) path rel name true s =
      let below : Text → Text → Text → Bool → S → Walked S D = walk fuel in
      elim (files.read_dir path s) [
        | err e ↦ some (err e, s)
        | ok names ↦
            if skips_dir req.filter (base path) then done s else walk_names below path rel names s
      ]

  -- The root of the walk, and `BaseUploadPath`.
  unfoldable pub walk_root : ℕ → S → Walked S D
  unfolding walk
  walk_root fuel s = elim (files.lstat req.local_path s) [
    | err e ↦ some (err e, s)
    | ok is_dir ↦ walk fuel req.local_path (codes ".") (base req.local_path) is_dir s
  ]

  unfoldable pub upload_path : ℕ → S → Walked S D
  unfolding walk_root
  upload_path fuel s =
      if is_empty req.local_path
      then some (err (only_msg (codes "path is empty")), s)
      else elim (files.stat req.local_path s) [
        | err e ↦ some (err (only_error e), s)
        | ok is_dir ↦
            if not is_dir
            then some (upload_file (upload_req req req.local_path req.remote_path) s)
            else walk_root fuel s
      ]
