-- ===== src/Drive/Upload/Kept.antt =====
-- What `BaseUploadPath` asks for, and that it ends.
use pan_client.Base.{
  ℕ, zero, suc, ◌≡◌, refl, inl, inr, Bool, true, false, not, if◌then◌else◌, none, some, List, [],
  ◌∷◌, All, Text, codes, text_eq, is_empty, Result, ok, err, Bool-cases,
}
use pan_client.Errors.{GoError, only_error}
use pan_client.Download.Names.{base}
use pan_client.Drive.{Call}
use pan_client.Drive.Filter.{skips_file, skips_dir}
use pan_client.Drive.Tree.{Walked, done, then_next}
use pan_client.Drive.Upload.{
  UploadFileReq, UploadPathReq, LocalTree, below_dir, dir_of, remote_of, upload_req, is_empty_dir,
  remove_empty, after_upload, visit_file, walk_names, walk, walk_root, upload_path,
}
use pan_client.Drive.Upload.Asked.{
  Below, at_root, in_dir, Carries, IsWanted, upload_req-Carries, upload_req-IsWanted,
  is_empty_dir-first_name,
}

-- A walk that ends, and where it does.
abbrev pub Ends : {S D : Type 0} → (S → Type 0) → Walked S D → Type 0
Ends P none = ⊥
Ends P (some (r, s)) = P s

-- Below the path directories are nested at most so deep, whenever it is looked at.
abbrev pub Nested : {S D : Type 0} → LocalTree S D → ℕ → Text → Bool → Type 0
Nested files zero path is_dir = ⊥
Nested files (suc n) path false = Unit
Nested {S = S} files (suc n) path true =
    (s : S) (names : List Text)
    → files.read_dir path s ≡ ok names
    → All
        (λ name.
          (t : S) (d : Bool)
          → files.lstat (below_dir path name) t ≡ ok d
          → Nested files n (below_dir path name) d)
        names

Ends-then_next :
    {S D : Type 0} (P : S → Type 0) (w : Walked S D) (rest : S → Walked S D)
    → Ends P w
    → ((s : S) → P s → Ends P (rest s))
    → Ends P (then_next false w rest)
Ends-then_next P none rest h k = h
Ends-then_next P (some (ok u, s)) rest h k = k s h
Ends-then_next P (some (err e, s)) rest h k = h

module _ {S D : Type 0} (files : LocalTree S D) (upload_file : UploadFileReq → Call S D (Unit {0}))
    (req : UploadPathReq) (P : S → Type 0)
    (uploads : (path rel name : Text) (s : S)
      → Below req.local_path path rel name
      → skips_file req.filter name ≡ false
      → P s
      → P (upload_file (upload_req req path (remote_of req rel name)) s).1)
    (removes : (dir : Text) (s : S)
      → req.success_del ≡ true
      → is_empty_dir files dir s ≡ true
      → P s
      → P (files.remove dir s)) where
  remove_empty-P : (dir : Text) (s : S) → P s → P (remove_empty files upload_file req dir s)
  unfolding remove_empty
  remove_empty-P dir s p = elim (Bool-cases req.success_del) [
    | inr stays ↦ rw stays p
    | inl del ↦ elim (Bool-cases (text_eq dir (codes "."))) [
      | inl here ↦ rw (del, here) p
      | inr there ↦ elim (Bool-cases (is_empty_dir files dir s)) [
        | inr full ↦ rw (del, there, full) p
        | inl bare ↦ rw (del, there, bare) (removes dir s del bare p)
      ]
    ]
  ]

  after_upload-P :
      (dir : Text) (r : Result (GoError D) (Unit {0}) × S)
      → P r.1
      → P (after_upload files upload_file req dir r).1
  unfolding after_upload
  after_upload-P dir (ok u, s) p = remove_empty-P dir s p
  after_upload-P dir (err e, s) p = p

  visit_file-P :
      (path rel name : Text) (s : S)
      → Below req.local_path path rel name
      → P s
      → P (visit_file files upload_file req path rel name s).1
  unfolding visit_file
  visit_file-P path rel name s there p = elim (Bool-cases (skips_file req.filter name)) [
    | inl skipped ↦ rw skipped p
    | inr wanted ↦ rw wanted (
        after_upload-P (dir_of path) (upload_file (upload_req req path (remote_of req rel name)) s)
          (uploads path rel name s there wanted p))
  ]

  abbrev Visits : ℕ → (Text → Text → Text → Bool → S → Walked S D) → Type 0
  Visits n visit =
      (path rel name : Text) (d : Bool) (s : S)
      → Nested files n path d
      → Below req.local_path path rel name
      → P s
      → Ends P (visit path rel name d s)

  abbrev after_lstat : (Bool → Walked S D) → S → Result (GoError D) Bool → Walked S D
  after_lstat visit s found = elim found [ err e ↦ some (err e, s) | ok is_dir ↦ visit is_dir ]

  after_lstat-Ends :
      (visit : Bool → Walked S D) (s : S) (found : Result (GoError D) Bool)
      → P s
      → ((d : Bool) → found ≡ ok d → Ends P (visit d))
      → Ends P (after_lstat visit s found)
  after_lstat-Ends visit s (ok d) p h = h d refl
  after_lstat-Ends visit s (err e) p h = p

  walk_names-Ends :
      (n : ℕ) (visit : Text → Text → Text → Bool → S → Walked S D)
      → Visits n visit
      → (path rel parent : Text) (names : List Text) (s : S) → Below req.local_path path rel parent
      → All
          (λ name.
            (t : S) (d : Bool)
            → files.lstat (below_dir path name) t ≡ ok d
            → Nested files n (below_dir path name) d)
          names
      → P s
      → Ends P (walk_names files upload_file req visit path rel names s)
  unfolding walk_names
  walk_names-Ends n visit visits path rel parent [] s there deep p = p
  walk_names-Ends n visit visits path rel parent (name ∷ names) s there deep p =
      let child = below_dir path name in
      Ends-then_next P
        (after_lstat (λ d. visit child (below_dir rel name) name d s) s (files.lstat child s))
        (walk_names files upload_file req visit path rel names)
        (after_lstat-Ends (λ d. visit child (below_dir rel name) name d s) s (files.lstat child s) p
          (λ d found.
            visits child (below_dir rel name) name d s (deep.0 s d found)
              (in_dir path rel parent name there) p))
        (λ t q. walk_names-Ends n visit visits path rel parent names t there deep.1 q)

  abbrev after_names : (List Text → Walked S D) → S → Result (GoError D) (List Text) → Walked S D
  after_names rest s found = elim found [ err e ↦ some (err e, s) | ok names ↦ rest names ]

  after_names-Ends :
      (rest : List Text → Walked S D) (s : S) (found : Result (GoError D) (List Text))
      → P s
      → ((names : List Text) → found ≡ ok names → Ends P (rest names))
      → Ends P (after_names rest s found)
  after_names-Ends rest s (ok names) p h = h names refl
  after_names-Ends rest s (err e) p h = p

  walk-Ends : (fuel : ℕ) → Visits fuel (walk files upload_file req fuel)
  unfolding walk
  walk-Ends zero path rel name d s deep there p = deep
  walk-Ends (suc fuel) path rel name false s deep there p = visit_file-P path rel name s there p
  walk-Ends (suc fuel) path rel name true s deep there p =
      let visit : Text → Text → Text → Bool → S → Walked S D = walk files upload_file req fuel in
      after_names-Ends
        (λ names.
          if skips_dir req.filter (base path)
          then done s
          else walk_names files upload_file req visit path rel names s)
        s (files.read_dir path s) p
        (λ names found. elim (Bool-cases (skips_dir req.filter (base path))) [
          | inl ignored ↦ rw ignored p
          | inr read ↦ rw read (
              walk_names-Ends fuel visit (walk-Ends fuel) path rel name names s there
                (deep s names found) p)
        ])

  walk_root-Ends :
      (fuel : ℕ) (s : S)
      → ((d : Bool) → Nested files fuel req.local_path d)
      → P s
      → Ends P (walk_root files upload_file req fuel s)
  unfolding walk_root
  walk_root-Ends fuel s deep p =
      after_lstat-Ends
        (λ d. walk files upload_file req fuel req.local_path (codes ".") (base req.local_path) d s)
        s (files.lstat req.local_path s) p
        (λ d found.
          walk-Ends fuel req.local_path (codes ".") (base req.local_path) d s (deep d) at_root p)

  -- What follows `Stat`, as `upload_path` has it.
  abbrev after_stat : Walked S D → S → Result (GoError D) Bool → Walked S D
  after_stat down s found = elim found [
    | err e ↦ some (err (only_error e), s)
    | ok is_dir ↦
        if not is_dir
        then some (upload_file (upload_req req req.local_path req.remote_path) s)
        else down
  ]

  after_stat-Ends :
      (down : Walked S D) (s : S) (found : Result (GoError D) Bool)
      → Ends P down
      → P (upload_file (upload_req req req.local_path req.remote_path) s).1
      → P s
      → Ends P (after_stat down s found)
  after_stat-Ends down s (err e) goes one p = p
  after_stat-Ends down s (ok true) goes one p = goes
  after_stat-Ends down s (ok false) goes one p = one

-- `BaseUploadPath` of a path below which directories are nested at most so deep, whatever happens to
-- the files meanwhile, ends. It asks `UploadFile` only for the path itself, or for places on the walk
-- whose name its filter does not leave out, each to its place below the remote path, and always with the
-- flags of the request and with its function for paths in place of the one for names; it removes only
-- directories in which no name is found, and only with `SuccessDel`: what such uploads and removals
-- keep true of the state is true where it ends, by an error too.
pub upload_path-Ends :
    {S D : Type 0} (files : LocalTree S D) (upload_file : UploadFileReq → Call S D (Unit {0}))
    (req : UploadPathReq) (P : S → Type 0) (fuel : ℕ) (s : S)
    → ((r : UploadFileReq) (t : S) → Carries req r → IsWanted req r → P t → P (upload_file r t).1)
    → ((dir : Text) (t : S)
        → req.success_del ≡ true
        → files.first_name dir t ≡ ok none
        → P t
        → P (files.remove dir t))
    → ((d : Bool) → Nested files fuel req.local_path d)
    → P s
    → Ends P (upload_path files upload_file req fuel s)
unfolding upload_path
upload_path-Ends {S} files upload_file req P fuel s asks bare deep p =
    elim (Bool-cases (is_empty req.local_path)) [
      | inl no_path ↦ rw no_path p
      | inr a_path ↦ rw a_path (
          after_stat-Ends files upload_file req P uploads removes
            (walk_root files upload_file req fuel s) s (files.stat req.local_path s)
            (walk_root-Ends files upload_file req P uploads removes fuel s deep p) one p)
    ]
  where
    one : P (upload_file (upload_req req req.local_path req.remote_path) s).1
    one =
        asks (upload_req req req.local_path req.remote_path) s
          (upload_req-Carries req req.local_path req.remote_path) (inl (refl, refl)) p

    uploads :
        (path rel name : Text) (t : S)
        → Below req.local_path path rel name
        → skips_file req.filter name ≡ false
        → P t
        → P (upload_file (upload_req req path (remote_of req rel name)) t).1
    uploads path rel name t there wanted q =
        asks (upload_req req path (remote_of req rel name)) t
          (upload_req-Carries req path (remote_of req rel name))
          (upload_req-IsWanted req path rel name there wanted) q

    removes :
        (dir : Text) (t : S)
        → req.success_del ≡ true
        → is_empty_dir files dir t ≡ true
        → P t
        → P (files.remove dir t)
    removes dir t del empty q = bare dir t del (is_empty_dir-first_name files dir t empty) q
