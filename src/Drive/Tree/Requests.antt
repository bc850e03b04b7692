-- ===== src/Drive/Tree/Requests.antt =====
-- What `BaseDownloadPath` asks of the driver's `DownloadFile`.
use pan_client.Base.{
  ℕ, zero, suc, ◌≡◌, refl, inl, inr, Bool, true, false, not, ◌&&◌, Option, none, some, List, [],
  ◌∷◌, Text, Result, ok, err, Bool-cases,
}
use pan_client.Errors.{GoError}
use pan_client.Drive.{PanObj, ListReq, is_dir, Call}
use pan_client.Drive.Filter.{Filter, skips_file, skips_dir}
use pan_client.Drive.Tree.{
  DownloadPathReq, DownloadFileReq, Walked, transfer, sub_req, file_req, then_next, then_objects,
  download_object, download_objects, download_path,
}

-- The state of an outcome is in `P`.
abbrev pub Holds : {S D : Type 0} → (S → Type 0) → Walked S D → Type 0
Holds P none = Unit {0}
Holds P (some (r, s)) = P s

Holds-then_next :
    {S D : Type 0}
    → (P : S → Type 0) → (skip : Bool) → (w : Walked S D) → (rest : S → Walked S D) → Holds P w
    → ((s : S) → P s → Holds P (rest s))
    → Holds P (then_next skip w rest)
Holds-then_next P skip none rest h k = tt
Holds-then_next P skip (some (ok u, s)) rest h k = k s h
Holds-then_next P true (some (err e, s)) rest h k = k s h
Holds-then_next P false (some (err e, s)) rest h k = h

module _ {S D : Type 0} (list : ListReq → Call S D (List PanObj))
    (download : DownloadFileReq → Call S D (Unit {0})) (filter : Filter)
    (renamed : Option (Text → Text)) (P : S → Type 0)
    (lists : (req : ListReq) → (s : S) → P s → P (list req s).1)
    (downloads : (req : DownloadFileReq)
      → (s : S) → is_dir req.remote_file ≡ false
      → skips_file filter (transfer renamed req.remote_file.name) ≡ false
      → P s
      → P (download req s).1) where
  -- A request with the filter and the renaming of the whole download.
  IsPart : DownloadPathReq → Type 0
  IsPart req = (req.filter ≡ filter) × (req.name_transfer ≡ renamed)

  download_object-Holds :
      (below : DownloadPathReq → S → Walked S D)
      → ((req : DownloadPathReq) → (s : S) → IsPart req → P s → Holds P (below req s))
      → (req : DownloadPathReq) → (o : PanObj) → (s : S) → IsPart req
      → P s
      → Holds P (download_object list download below req o s)
  unfolding download_object IsPart
  download_object-Holds below keeps req o s part p = elim (Bool-cases (is_dir o)) [
    | inl dir ↦
        elim (Bool-cases (
          not (skips_dir req.filter (transfer req.name_transfer o.name)) && not req.not_traverse)) [
            | inl goes ↦ rw (dir, goes) (keeps (sub_req req o) s part p)
            | inr stays ↦ rw (dir, stays) p
          ]
    | inr file ↦ elim (Bool-cases (skips_file req.filter (transfer req.name_transfer o.name))) [
      | inl skipped ↦ rw (file, skipped) p
      | inr wanted ↦
          rw (file, wanted) (downloads (file_req req o) s file (rw (← part.0, ← part.1) wanted) p)
    ]
  ]

  download_objects-Holds :
      (below : DownloadPathReq → S → Walked S D)
      → ((req : DownloadPathReq) → (s : S) → IsPart req → P s → Holds P (below req s))
      → (req : DownloadPathReq) → (objects : List PanObj) → (s : S) → IsPart req
      → P s
      → Holds P (download_objects list download below req objects s)
  unfolding download_objects
  download_objects-Holds below keeps req [] s part p = p
  download_objects-Holds below keeps req (o ∷ os) s part p =
      Holds-then_next P req.skip_file_err (download_object list download below req o s)
        (download_objects list download below req os)
        (download_object-Holds below keeps req o s part p)
        (λ t q. download_objects-Holds below keeps req os t part q)

  Holds-then_objects :
      (rest : List PanObj → S → Walked S D)
      → (r : Result (GoError D) (List PanObj) × S) → P r.1
      → ((objects : List PanObj) → (s : S) → P s → Holds P (rest objects s))
      → Holds P (then_objects rest r)
  Holds-then_objects rest (ok objects, s) p h = h objects s p
  Holds-then_objects rest (err e, s) p h = p

  download_path-IsPart :
      (fuel : ℕ)
      → (req : DownloadPathReq) → (s : S) → IsPart req
      → P s
      → Holds P (download_path list download fuel req s)
  unfolding download_path
  download_path-IsPart zero req s part p = tt
  download_path-IsPart (suc fuel) req s part p = elim (Bool-cases (is_dir req.remote_path)) [
    | inl dir ↦
        let listing : ListReq = record { reload = true; dir = req.remote_path } in
        let below : DownloadPathReq → S → Walked S D = download_path list download fuel in
        rw (dir) (
          Holds-then_objects (download_objects list download below req) (list listing s)
            (lists listing s p)
            (λ objects t q.
              download_objects-Holds below
                (λ req' u part' p'. download_path-IsPart fuel req' u part' p') req objects t part
                q))
    | inr file ↦ rw (file) p
  ]

-- `BaseDownloadPath` asks `DownloadFile` only for objects that are no directories and whose names, as
-- renamed, its filter does not leave out, at any depth: what the listings and such downloads keep true
-- of the state is true where it ends, by an error too.
pub download_path-Holds :
    {S D : Type 0}
    → (list : ListReq → Call S D (List PanObj)) → (download : DownloadFileReq → Call S D (Unit {0}))
    → (P : S → Type 0) → (fuel : ℕ) → (req : DownloadPathReq) → (s : S)
    → ((l : ListReq) → (t : S) → P t → P (list l t).1)
    → ((d : DownloadFileReq)
        → (t : S) → is_dir d.remote_file ≡ false
        → skips_file req.filter (transfer req.name_transfer d.remote_file.name) ≡ false
        → P t
        → P (download d t).1)
    → P s
    → Holds P (download_path list download fuel req s)
unfolding IsPart
download_path-Holds list download P fuel req s lists downloads p =
    download_path-IsPart list download req.filter req.name_transfer P lists downloads fuel req s
      (refl, refl) p
