-- ===== src/Download/Ranges.antt =====
-- internal/chunk_download.go: how a download is cut into ranges, with the chunks that an earlier
-- run left in the temporary directory (`addRange`, `CalRange`).
pub mod Chunks
pub mod Resume
pub mod Fresh
pub mod Leftovers
pub mod Restart
use pan_client.Base.{
  ℕ, zero, suc, ◌+◌, Bool, true, false, not, if◌then◌else◌, ◌==◌, Option, none, some, List, [], ◌∷◌,
  ◌++◌, Text, slash, add64, sub64, lt64,
}
use pan_client.Download.{ChunkDownload}
use pan_client.Download.Names.{get_range_temp_file, get_range_start_end, join}

pub record Range : Type 0 where
  pub start : ℕ
  pub end : ℕ
  pub completed : Bool
  pub file_name : Text

-- `min(start + (chunkSize - 1), maxEnd)`, as the loop computes it.
unfoldable pub chunk_end : ℕ → ℕ → ℕ → ℕ
chunk_end chunk_size start max_end =
    let end = add64 start (sub64 chunk_size 1) in if lt64 max_end end then max_end else end

-- The body of the loop: a range of one byte is not appended, and then `start` stays.
unfoldable pub append_chunk : Text → ℕ → ℕ → List Range → ℕ × List Range
append_chunk dir start end ranges =
    if not (end == start)
    then (
      add64 end 1,
      ranges
          ++ record {
            start = start;
            end = end;
            completed = false;
            file_name = get_range_temp_file start end dir;
          }
            ∷ [],
    )
    else (start, ranges)

-- The loop of `addRange` on fuel; `none` means that the fuel ran out.
unfoldable pub add_range : ℕ → ChunkDownload → ℕ → ℕ → List Range → Option (ℕ × List Range)
add_range zero pd start max_end ranges = none
add_range (suc fuel) pd start max_end ranges =
    let end = chunk_end pd.chunk_size start max_end in
    let next = append_chunk pd.temp_dir start end ranges in
    let rest = add_range fuel pd next.0 max_end next.1 in
    if not (lt64 end max_end) then some next else rest

-- A file of the temporary directory; `none` where `entry.Info` fails.
pub record DirEntry : Type 0 where
  pub name : Text
  pub size : Option ℕ

-- `rangeMap` and `keys` while the directory is read, and the files that were removed.
pub record Scan : Type 0 where
  pub range_map : List (ℕ × Range)
  pub keys : List ℕ
  pub removed : List Text

pub data ScanResult : Type 0 where
  ok err : Scan → ScanResult

remove_file : ChunkDownload → Text → Scan → Scan
remove_file pd name s = record s { removed = s.removed ++ (pd.temp_dir ++ slash ∷ name) ∷ [] }

scan_sized : ChunkDownload → Text → ℕ → ℕ → Scan → Option ℕ → ScanResult
unfolding remove_file
scan_sized pd name s e scan none = err scan
scan_sized pd name s e scan (some size) =
    if not (size == add64 (sub64 e s) 1)
    then ok (remove_file pd name scan)
    else ok (record scan {
      range_map =
          (s, record { start = s; end = e; completed = true; file_name = join pd.temp_dir name })
          ∷ scan.range_map;
      keys = scan.keys ++ s ∷ [];
    })

-- One directory entry: a file whose name or size is not that of a chunk is removed.
unfoldable pub scan_entry : ChunkDownload → Scan → DirEntry → ScanResult
unfolding scan_sized remove_file
scan_entry pd scan entry =
    let (s, e) = get_range_start_end entry.name in
    if lt64 0 (sub64 e s)
    then scan_sized pd entry.name s e scan entry.size
    else ok (remove_file pd entry.name scan)

unfoldable pub scan_dir : ChunkDownload → Scan → List DirEntry → ScanResult
scan_dir pd scan [] = ok scan
scan_dir pd scan (entry ∷ dir) = elim (scan_entry pd scan entry) [
  | ok scan' ↦ scan_dir pd scan' dir
  | err scan' ↦ err scan'
]

-- `sort.Slice` by `<`.
unfoldable pub insert_key : ℕ → List ℕ → List ℕ
insert_key k [] = k ∷ []
insert_key k (j ∷ js) = if lt64 j k then j ∷ insert_key k js else k ∷ j ∷ js

unfoldable pub sort_keys : List ℕ → List ℕ
unfolding insert_key
sort_keys [] = []
sort_keys (k ∷ ks) = insert_key k (sort_keys ks)

-- `rangeMap[key]`: the newest entry, and the zero value where there is none.
unfoldable pub range_at : List (ℕ × Range) → ℕ → Range
range_at [] key = record { start = 0; end = 0; completed = false; file_name = [] }
range_at ((k, r) ∷ m) key = if k == key then r else range_at m key

-- The gap in front of a chunk that is there, if there is a gap.
unfoldable pub fill_gap : ℕ → ChunkDownload → ℕ → Range → List Range → Option (ℕ × List Range)
fill_gap fuel pd start r ranges =
    if lt64 start r.start
    then add_range fuel pd start (sub64 r.start 1) ranges
    else some (start, ranges)

-- The loop over the chunks that are there, in order.
unfoldable pub merge_ranges :
    ℕ → ChunkDownload → List Range → ℕ → List Range → Option (ℕ × List Range)
merge_ranges fuel pd [] start ranges = some (start, ranges)
merge_ranges fuel pd (r ∷ rs) start ranges = elim (fill_gap fuel pd start r ranges) [
  | none ↦ none
  | some (start', ranges') ↦ merge_ranges fuel pd rs (add64 r.end 1) (ranges' ++ r ∷ [])
]

-- The last stretch, up to the size of the file.
unfoldable pub fill_tail : ℕ → ChunkDownload → ℕ × List Range → Option (List Range)
fill_tail fuel pd (start, ranges) =
    if lt64 start pd.total_bytes
    then elim (add_range fuel pd start (sub64 pd.total_bytes 1) ranges) [
      | none ↦ none
      | some (start', ranges') ↦ some ranges'
    ]
    else some ranges

-- The ranges for the chunks `scan` found, from `start` on.
unfoldable pub ranges_from : ℕ → ChunkDownload → List Range → ℕ → Option (List Range)
ranges_from fuel pd found start = elim (merge_ranges fuel pd found start []) [
  | none ↦ none
  | some state ↦ fill_tail fuel pd state
]

pub data RangesResult : Type 0 where
  ranges : List Range → ℕ → List Text → RangesResult
  read_error : List Text → RangesResult
  diverged : RangesResult

-- `start`: the size of an output file that is there already, which holds the merged chunks.
unfoldable pub first_byte : ChunkDownload → Option ℕ → ℕ
first_byte pd existing = if pd.has_output then 0 else elim existing [ none ↦ 0 | some size ↦ size ]

pub sorted_ranges : Scan → List ℕ → List Range
sorted_ranges scan [] = []
sorted_ranges scan (k ∷ ks) = range_at scan.range_map k ∷ sorted_ranges scan ks

pub after_scan : ℕ → ChunkDownload → Option ℕ → ScanResult → RangesResult
after_scan fuel pd existing (err scan) = read_error scan.removed
after_scan fuel pd existing (ok scan) =
    elim (ranges_from fuel pd (sorted_ranges scan (sort_keys scan.keys)) (first_byte pd existing)) [
      | none ↦ diverged
      | some rs ↦ ranges rs (first_byte pd existing) scan.removed
    ]

-- `CalRange`: the directory as `os.ReadDir` lists it (`none` if that fails) and the size of the
-- output file. The answer has the ranges, the bytes reported as downloaded and the files removed.
unfoldable pub cal_range : ℕ → ChunkDownload → Option (List DirEntry) → Option ℕ → RangesResult
cal_range fuel pd none existing = read_error []
cal_range fuel pd (some dir) existing =
    after_scan fuel pd existing
      (scan_dir pd (record { range_map = []; keys = []; removed = [] }) dir)
