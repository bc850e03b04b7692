-- ===== src/Drive/Upload/Examples.antt =====
-- The upload of a small directory.
use pan_client.Base.{
  ℕ, suc, ◌≡◌, refl, sym, subst, ◌∙◌, Bool, true, false, if◌then◌else◌, Option, inl, inr,
  Bool-cases, All-append, none, some, List, [], ◌∷◌, ◌++◌, All, Text, codes, text_eq, trim_right,
  has_suffix, split, replace_byte, Result, ok, err,
}
use pan_client.Errors.{GoError, other}
use pan_client.Drive.{Call}
use pan_client.Drive.Filter.{skips_dir, skips_file}
use pan_client.Drive.Upload.{
  UploadFileReq, UploadPathReq, LocalTree, below_dir, upload_path, dir_of, is_empty_dir, remote_of,
}
use pan_client.Drive.Upload.Kept.{Ends, Nested, upload_path-Ends}

-- `/d` has the files `a` and `b.tmp` and the directory `s`, which has the file `c`.
abbrev names_in : Text → Result (GoError ℕ) (List Text)
names_in path =
    if text_eq path (codes "/d")
    then ok (codes "a" ∷ codes "b.tmp" ∷ codes "s" ∷ [])
    else (if text_eq path (codes "/d/s")
        then ok (codes "c" ∷ [])
        else err (other (codes "not a directory")))

abbrev kind_of : Text → Bool
kind_of path = if text_eq path (codes "/d") then true else text_eq path (codes "/d/s")

-- What was uploaded and where, the functions for the names, and the directories that were removed.
record Log : Type 0 where
  asked : List Text
  transfers : List (Option (Text → Text))
  removed : List Text

abbrev empty_log : Log
empty_log = record { asked = []; transfers = []; removed = [] }

-- The directory `s` is said to be empty, as it is when its file was uploaded.
abbrev disk_tree : LocalTree Log ℕ
disk_tree = record {
  stat = λ path s. ok (kind_of path);
  lstat = λ path s. ok (kind_of path);
  read_dir = λ path s. names_in path;
  first_name = λ path s. if text_eq path (codes "/d/s") then ok none else ok (some (codes "a"));
  remove = λ path s. record s { removed = s.removed ++ path ∷ [] };
}

-- An upload is noted.
abbrev note_upload : UploadFileReq → Call Log ℕ (Unit {0})
note_upload req s = (
  ok tt,
  record s {
    asked = s.asked ++ (req.remote_path ++ req.local_file) ∷ [];
    transfers = s.transfers ++ req.remote_name_transfer ∷ [];
  },
)

abbrev to_path : Text → Text
to_path name = codes "path"

abbrev to_name : Text → Text
to_name name = codes "name"

abbrev whole_dir : UploadPathReq
whole_dir = record {
  local_path = codes "/d";
  remote_path = codes "/r/";
  resumable = false;
  skip_file_err = false;
  success_del = true;
  only_fast = false;
  filter = record {
    ignore_paths = [];
    ignore_files = [];
    extensions = [];
    ignore_extensions = codes ".tmp" ∷ [];
  };
  remote_path_transfer = some to_path;
  remote_name_transfer = some to_name;
}

leaf-Nested :
    (n : ℕ) (path : Text)
    → ((names : List Text) → names_in path ≡ ok names → ⊥)
    → (d : Bool) → Nested disk_tree (suc n) path d
leaf-Nested n path file false = tt
leaf-Nested n path file true = λ s names found. absurd (file names found)

node-Nested :
    (n : ℕ) (path : Text) (here : List Text)
    → names_in path ≡ ok here
    → All
        (λ name.
          (t : Log) (d : Bool)
          → disk_tree.lstat (below_dir path name) t ≡ ok d
          → Nested disk_tree n (below_dir path name) d)
        here
    → (d : Bool) → Nested disk_tree (suc n) path d
node-Nested n path here has below false = tt
node-Nested n path here has below true = λ s names found.
    let same : here ≡ names = cc (sym has ∙ found) in
    subst
      (λ ns.
        All
          (λ name.
            (t : Log) (d : Bool)
            → disk_tree.lstat (below_dir path name) t ≡ ok d
            → Nested disk_tree n (below_dir path name) d)
          ns)
      same below

dir-Nested : (d : Bool) → Nested disk_tree 3 (codes "/d") d
unfolding below_dir text_eq trim_right
dir-Nested = node-Nested 2 (codes "/d") (codes "a" ∷ codes "b.tmp" ∷ codes "s" ∷ []) refl (
  λ t d e. leaf-Nested 1 (codes "/d/a") (λ names h. cc h) d,
  (
    λ t d e. leaf-Nested 1 (codes "/d/b.tmp") (λ names h. cc h) d,
    (
      λ t d e.
          node-Nested 1 (codes "/d/s") (codes "c" ∷ []) refl
            (λ u k h. leaf-Nested 0 (codes "/d/s/c") (λ names g. cc g) k, tt) d,
      tt,
    ),
  ),
)

uploads_two :
    upload_path disk_tree note_upload whole_dir 3 empty_log
    ≡ some (
      ok tt,
      record {
        asked = codes "/r//d/a" ∷ codes "/r/s//d/s/c" ∷ [];
        transfers = some to_path ∷ some to_path ∷ [];
        removed = codes "/d/s" ∷ [];
      },
    )
unfolding upload_path text_eq skips_dir below_dir trim_right skips_file has_suffix dir_of split
    is_empty_dir remote_of replace_byte
uploads_two = refl

-- Names were changed only by the function for paths, and only the empty directory was removed.
abbrev IsTidy : Log → Type 0
IsTidy s =
    All (λ f. f ≡ some to_path) s.transfers
    × All (λ dir. text_eq dir (codes "/d/s") ≡ true) s.removed

remove-IsTidy :
    (dir : Text) (t : Log)
    → disk_tree.first_name dir t ≡ ok none
    → IsTidy t
    → IsTidy (disk_tree.remove dir t)
remove-IsTidy dir t bare tidy = elim (Bool-cases (text_eq dir (codes "/d/s"))) [
  | inl there ↦ (tidy.0, All-append _ t.removed (dir ∷ []) tidy.1 (there, tt))
  | inr elsewhere ↦ absurd (cc (rw elsewhere at bare))
]

upload_path-Ends_example : Ends IsTidy (upload_path disk_tree note_upload whole_dir 3 empty_log)
upload_path-Ends_example =
    upload_path-Ends disk_tree note_upload whole_dir IsTidy 3 empty_log
      (λ r t carries wanted tidy. (
        All-append (λ f. f ≡ some to_path) t.transfers (r.remote_name_transfer ∷ []) tidy.0
            (carries.4, tt),
        tidy.1,
      ))
      (λ dir t del bare tidy. remove-IsTidy dir t bare tidy) dir-Nested (tt, tt)
