-- ===== src/Drive/Tree/Errors.antt =====
-- Which errors `BaseDownloadPath` gives back.
use pan_client.Base.{
  ℕ, zero, suc, ◌≡◌, refl, Bool, true, false, none, some, List, [], ◌∷◌, ok, err, arith,
}
use pan_client.Drive.{PanObj, ListReq, is_dir, Call}
use pan_client.Drive.Tree.{
  DownloadPathReq, DownloadFileReq, Walked, then_next, download_object, download_objects,
  download_path,
}

abbrev pub no_error : {S D : Type 0} → Walked S D → Bool
no_error none = true
no_error (some (ok u, s)) = true
no_error (some (err e, s)) = false

no_error-then_next :
    {S D : Type 0}
    → (skip : Bool) → (w : Walked S D) → (rest : S → Walked S D) → skip ≡ true
    → ((s : S) → no_error (rest s) ≡ true)
    → no_error (then_next skip w rest) ≡ true
no_error-then_next true none rest skip h = refl
no_error-then_next true (some (ok u, s)) rest skip h = h s
no_error-then_next true (some (err e, s)) rest skip h = h s
no_error-then_next false w rest skip h = ground arith

module _ {S D : Type 0} (list : ListReq → Call S D (List PanObj))
    (download : DownloadFileReq → Call S D (Unit {0})) where
  download_objects-skip :
      (below : DownloadPathReq → S → Walked S D)
      → (req : DownloadPathReq) → (objects : List PanObj) → (s : S) → req.skip_file_err ≡ true
      → no_error (download_objects list download below req objects s) ≡ true
  unfolding download_objects
  download_objects-skip below req [] s skip = refl
  download_objects-skip below req (o ∷ os) s skip =
      no_error-then_next req.skip_file_err (download_object list download below req o s)
        (download_objects list download below req os) skip
        (λ t. download_objects-skip below req os t skip)

  -- With `SkipFileErr`, `BaseDownloadPath` of a directory whose listing succeeds gives back no error,
  -- whatever fails below it.
  download_path-skip :
      (fuel : ℕ)
      → (req : DownloadPathReq) → (s s' : S) → (objects : List PanObj) → req.skip_file_err ≡ true
      → is_dir req.remote_path ≡ true
      → list (record { reload = true; dir = req.remote_path }) s ≡ (ok objects, s')
      → no_error (download_path list download fuel req s) ≡ true
  unfolding download_path
  download_path-skip zero req s s' objects skip dir lists = refl
  download_path-skip (suc fuel) req s s' objects skip dir lists =
      rw (dir, lists) (download_objects-skip (download_path list download fuel) req objects s' skip)
