-- ===== src/Drive/Tree/Depth.antt =====
-- `BaseDownloadPath` ends where directories are nested to a bounded depth.
use pan_client.Base.{
  ℕ, zero, suc, ◌≡◌, refl, sym, subst, inl, inr, Bool, true, false, not, ◌&&◌, none, some, is_some,
  List, [], ◌∷◌, All, Result, ok, err, Bool-cases, arith,
}
use pan_client.Errors.{GoError}
use pan_client.Drive.{PanObj, ListReq, is_dir, Call}
use pan_client.Drive.Filter.{skips_file, skips_dir}
use pan_client.Drive.Tree.{
  DownloadPathReq, DownloadFileReq, Walked, transfer, sub_req, then_next, then_objects,
  download_object, download_objects, download_path,
}

-- The directories at and below an object are nested `depth` deep at most.
abbrev pub IsWithin : (PanObj → List PanObj) → ℕ → PanObj → Type 0
IsWithin tree zero o = is_dir o ≡ false
IsWithin tree (suc depth) o = All (IsWithin tree depth) (tree o)

is_some-then_next :
    {S D : Type 0}
    → (skip : Bool) → (w : Walked S D) → (rest : S → Walked S D) → is_some w ≡ true
    → ((s : S) → is_some (rest s) ≡ true)
    → is_some (then_next skip w rest) ≡ true
is_some-then_next skip none rest h k = ground arith
is_some-then_next skip (some (ok u, s)) rest h k = k s
is_some-then_next true (some (err e, s)) rest h k = k s
is_some-then_next false (some (err e, s)) rest h k = refl

module _ {S D : Type 0} (list : ListReq → Call S D (List PanObj))
    (download : DownloadFileReq → Call S D (Unit {0})) (tree : PanObj → List PanObj) where
  download_object-ends :
      (below : DownloadPathReq → S → Walked S D)
      → (req : DownloadPathReq) → (o : PanObj) → (s : S)
      → (is_dir o ≡ true → is_some (below (sub_req req o) s) ≡ true)
      → is_some (download_object list download below req o s) ≡ true
  unfolding download_object
  download_object-ends below req o s ends = elim (Bool-cases (is_dir o)) [
    | inl dir ↦
        elim (Bool-cases (
          not (skips_dir req.filter (transfer req.name_transfer o.name)) && not req.not_traverse)) [
            | inl goes ↦ rw (dir, goes) (ends dir)
            | inr stays ↦ rw (dir, stays) refl
          ]
    | inr file ↦ elim (Bool-cases (skips_file req.filter (transfer req.name_transfer o.name))) [
      | inl skipped ↦ rw (file, skipped) refl
      | inr wanted ↦ rw (file, wanted) refl
    ]
  ]

  download_objects-ends :
      (below : DownloadPathReq → S → Walked S D)
      → (req : DownloadPathReq) → (depth : ℕ)
      → ((o : PanObj)
          → (s : S) → is_dir o ≡ true
          → IsWithin tree depth o
          → is_some (below (sub_req req o) s) ≡ true)
      → (objects : List PanObj) → (s : S) → All (IsWithin tree depth) objects
      → is_some (download_objects list download below req objects s) ≡ true
  unfolding download_objects
  download_objects-ends below req depth ends [] s within = refl
  download_objects-ends below req depth ends (o ∷ os) s within =
      is_some-then_next req.skip_file_err (download_object list download below req o s)
        (download_objects list download below req os)
        (download_object-ends below req o s (λ dir. ends o s dir (within.0)))
        (λ t. download_objects-ends below req depth ends os t (within.1))

  then_objects-ends :
      (rest : List PanObj → S → Walked S D)
      → (r : Result (GoError D) (List PanObj) × S)
      → ((objects : List PanObj) → (s : S) → r ≡ (ok objects, s) → is_some (rest objects s) ≡ true)
      → is_some (then_objects rest r) ≡ true
  then_objects-ends rest (ok objects, s) ends = ends objects s refl
  then_objects-ends rest (err e, s) ends = refl

  -- `BaseDownloadPath` ends, and does not recurse deeper than the directories are nested, where a listing
  -- that succeeds gives what a tree has at the directory, whatever the downloads do.
  pub download_path-IsWithin :
      ((o : PanObj)
        → (s s' : S) → (objects : List PanObj)
        → list (record { reload = true; dir = o }) s ≡ (ok objects, s')
        → objects ≡ tree o)
      → (depth : ℕ) → (req : DownloadPathReq) → (s : S) → is_dir req.remote_path ≡ true
      → IsWithin tree depth req.remote_path
      → is_some (download_path list download depth req s) ≡ true
  unfolding download_path
  download_path-IsWithin listed zero req s dir within = ground arith
  download_path-IsWithin listed (suc depth) req s dir within =
      let below : DownloadPathReq → S → Walked S D = download_path list download depth in
      rw (dir) (
        then_objects-ends (download_objects list download below req)
          (list (record { reload = true; dir = req.remote_path }) s)
          (λ objects t eq.
            download_objects-ends below req depth
              (λ o t' d w. download_path-IsWithin listed depth (sub_req req o) t' d w) objects t
              (subst (All (IsWithin tree depth)) (sym (listed req.remote_path s t objects eq))
                within)))
