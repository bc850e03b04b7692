-- ===== src/Drive/Tree.antt =====
-- pan/driver.go: `BaseDownloadPath`, which downloads a directory with what lies below it. The driver's
-- `List` and `DownloadFile` are the parameters `list` and `download`. The recursion runs on fuel, a
-- level of directories for each unit; `none` means that the fuel ran out.
pub mod Errors
pub mod Depth
pub mod Requests
use pan_client.Base.{
  ℕ, zero, suc, Bool, true, false, not, ◌&&◌, if◌then◌else◌, Option, none, some, List, [], ◌∷◌,
  ◌++◌, Text, codes, trim, slash, Result, ok, err,
}
use pan_client.Errors.{GoError, only_msg}
use pan_client.Drive.{PanObj, ListReq, is_dir, Call}
use pan_client.Drive.Filter.{Filter, skips_file, skips_dir}

-- The callbacks, which are handed on as they are, are left out.
pub record DownloadPathReq : Type 0 where
  pub remote_path : PanObj
  pub local_path : Text
  pub concurrency : ℕ
  pub chunk_size : ℕ
  pub over_cover : Bool
  pub not_traverse : Bool
  pub skip_file_err : Bool
  pub filter : Filter
  pub name_transfer : Option (Text → Text)

pub record DownloadFileReq : Type 0 where
  pub remote_file : PanObj
  pub local_path : Text
  pub concurrency : ℕ
  pub chunk_size : ℕ
  pub over_cover : Bool

abbrev pub transfer : Option (Text → Text) → Text → Text
transfer none name = name
transfer (some f) name = f name

-- The request for a directory below; `NotTraverse` is not handed on.
abbrev pub sub_req : DownloadPathReq → PanObj → DownloadPathReq
sub_req req object = record req {
  remote_path = object;
  local_path = trim slash req.local_path ++ codes "/" ++ transfer req.name_transfer object.name;
  not_traverse = false;
}

abbrev pub file_req : DownloadPathReq → PanObj → DownloadFileReq
file_req req object = record {
  remote_file = object;
  local_path = req.local_path;
  concurrency = req.concurrency;
  chunk_size = req.chunk_size;
  over_cover = req.over_cover;
}

abbrev pub Walked : Type 0 → Type 0 → Type 0
Walked S D = Option (Result (GoError D) (Unit {0}) × S)

abbrev pub done : {S D : Type 0} → S → Walked S D
done s = some (ok tt, s)

-- What follows an object: an error is skipped where `SkipFileErr` says so.
abbrev pub then_next : {S D : Type 0} → Bool → Walked S D → (S → Walked S D) → Walked S D
then_next skip none rest = none
then_next skip (some (ok u, s)) rest = rest s
then_next true (some (err e, s)) rest = rest s
then_next false (some (err e, s)) rest = some (err e, s)

-- What follows the listing.
abbrev pub then_objects :
    {S D : Type 0}
    → (List PanObj → S → Walked S D)
    → Result (GoError D) (List PanObj) × S
    → Walked S D
then_objects rest (ok objs, s) = rest objs s
then_objects rest (err e, s) = some (err e, s)

module _ {S D : Type 0} (list : ListReq → Call S D (List PanObj))
    (download : DownloadFileReq → Call S D (Unit {0})) where
  unfoldable pub download_object :
      (DownloadPathReq → S → Walked S D) → DownloadPathReq → PanObj → S → Walked S D
  download_object below req object s =
      let name = transfer req.name_transfer object.name in
      if is_dir object
      then (if not (skips_dir req.filter name) && not req.not_traverse
          then below (sub_req req object) s
          else done s)
      else (if skips_file req.filter name then done s else some (download (file_req req object) s))

  unfoldable pub download_objects :
      (DownloadPathReq → S → Walked S D) → DownloadPathReq → List PanObj → S → Walked S D
  unfolding download_object
  download_objects below req [] s = done s
  download_objects below req (object ∷ objects) s =
      then_next req.skip_file_err (download_object below req object s)
        (download_objects below req objects)

  unfoldable pub download_path : ℕ → DownloadPathReq → S → Walked S D
  unfolding download_objects
  download_path zero req s = none
  download_path (suc fuel) req s =
      let below : DownloadPathReq → S → Walked S D = download_path fuel in
      if not (is_dir req.remote_path)
      then some (err (only_msg (codes "only support download dir")), s)
      else then_objects (download_objects below req)
          (list (record { reload = true; dir = req.remote_path }) s)
