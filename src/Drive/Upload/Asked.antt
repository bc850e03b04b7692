-- ===== src/Drive/Upload/Asked.antt =====
-- The requests that an upload of a path may make, spelled out.
use pan_client.Base.{
  ◌≡◌, ◌⊎◌, inr, refl, Bool, true, false, Option, none, some, ◌∷◌, ◌++◌, Text, codes, trim_right,
  slash, replace_byte, Result, ok, err,
}
use pan_client.Errors.{GoError}
use pan_client.Download.Names.{base}
use pan_client.Drive.Filter.{skips_file}
use pan_client.Drive.Upload.{
  UploadFileReq, UploadPathReq, LocalTree, below_dir, trim_suffix, remote_of, upload_req,
  is_empty_dir,
}

-- A place on the walk, with its path relative to the root and its name.
pub data Below (root : Text) : Text → Text → Text → Type 0 where
  at_root : Below root root (codes ".") (base root)
  in_dir :
      (path rel parent name : Text)
      → Below root path rel parent
      → Below root (below_dir path name) (below_dir rel name) name

-- A request for a file has the flags of the request for the path, and its function for paths in place of
-- both functions.
abbrev pub Carries : UploadPathReq → UploadFileReq → Type 0
Carries req r =
    (r.resumable ≡ req.resumable)
    × (r.only_fast ≡ req.only_fast)
    × (r.success_del ≡ req.success_del)
    × (r.remote_path_transfer ≡ req.remote_path_transfer)
    × (r.remote_name_transfer ≡ req.remote_path_transfer)

-- It is for the path itself, or for a place on the walk whose name the filter does not leave out; this one
-- goes to the remote path with the directory of the place below it.
abbrev pub IsWanted : UploadPathReq → UploadFileReq → Type 0
IsWanted req r =
    ((r.local_file ≡ req.local_path) × (r.remote_path ≡ req.remote_path))
    ⊎ ((rel : Text) × (name : Text) × Below req.local_path r.local_file rel name
        × (skips_file req.filter name ≡ false)
        × (r.remote_path
            ≡ trim_right slash req.remote_path
              ++ slash ∷ trim_suffix (replace_byte b'\\' slash rel) name))

pub upload_req-Carries :
    (req : UploadPathReq) (local_file remote_path : Text)
    → Carries req (upload_req req local_file remote_path)
upload_req-Carries req local_file remote_path = (refl, refl, refl, refl, refl)

pub upload_req-IsWanted :
    (req : UploadPathReq) (path rel name : Text)
    → Below req.local_path path rel name
    → skips_file req.filter name ≡ false
    → IsWanted req (upload_req req path (remote_of req rel name))
unfolding remote_of
upload_req-IsWanted req path rel name there wanted = inr (rel, name, there, wanted, refl)

abbrev is_none_found : {D : Type 0} → Result (GoError D) (Option Text) → Bool
is_none_found found = elim found [
  | err e ↦ false
  | ok first ↦ elim first [ none ↦ true | some name ↦ false ]
]

none_found :
    {D : Type 0} (found : Result (GoError D) (Option Text))
    → is_none_found found ≡ true
    → found ≡ ok none
none_found (ok none) h = refl
none_found (ok (some name)) h = cc
none_found (err e) h = cc

pub is_empty_dir-first_name :
    {S D : Type 0} (files : LocalTree S D) (dir : Text) (s : S)
    → is_empty_dir files dir s ≡ true
    → files.first_name dir s ≡ ok none
unfolding is_empty_dir
is_empty_dir-first_name files dir s bare = none_found (files.first_name dir s) bare
