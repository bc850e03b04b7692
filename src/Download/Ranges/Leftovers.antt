-- ===== src/Download/Ranges/Leftovers.antt =====
-- `CalRange`: the chunk files of an earlier run, in whatever order the directory lists them.
use pan_client.Base.{
  ℕ, ◌+◌, ◌-◌, ◌<◌, ◌≡◌, refl, ap, ◌∙◌, ◌≢◌, true, List, [], ◌∷◌, ◌++◌, map, append_assoc,
  append-nil, some, All, add64_small, sub64_small, lt64_small, half64, lt→ltb, le→ltb, ==_iff,
  arith,
}
use pan_client.Download.{ChunkDownload}
use pan_client.Download.Names.{temp_name, join, get_range_temp_file, get_range_start_end}
use pan_client.Download.Names.RoundTrip.{get_range_start_end-temp_file}
use pan_client.Download.Ranges.{
  Range, DirEntry, Scan, ScanResult, scan_sized, scan_entry, scan_dir, insert_key, sort_keys,
  range_at, sorted_ranges,
}

-- A chunk of an earlier run: its file has the name and the size of its range.
abbrev pub IsLeftover : ChunkDownload → Range → Type 0
IsLeftover pd r =
    (r.start < r.end)
    × (r.end < half64 - 1)
    × (r.completed ≡ true)
    × (r.file_name ≡ get_range_temp_file r.start r.end pd.temp_dir)

abbrev pub entry_of : Range → DirEntry
entry_of r = record { name = temp_name r.start r.end; size = some (r.end - r.start + 1) }

read_name : (s e : ℕ) → s < half64 → e < half64 → get_range_start_end (temp_name s e) ≡ (s, e)
read_name s e hs he =
    let plain : get_range_temp_file s e [] ≡ temp_name s e =
      unfold get_range_temp_file join in refl in
    rw (← plain) (get_range_start_end-temp_file s e [] hs he)

noted : Scan → Range → Scan
noted scan r = record scan {
  range_map = (r.start, r) ∷ scan.range_map;
  keys = scan.keys ++ r.start ∷ [];
}

same_range :
    (pd : ChunkDownload) (r : Range)
    → IsLeftover pd r
    → record {
      start = r.start;
      end = r.end;
      completed = true;
      file_name = join pd.temp_dir (temp_name r.start r.end);
    }
      ≡ r
unfolding get_range_temp_file
same_range pd r h = ground arith

scan_entry-leftover :
    (pd : ChunkDownload) (scan : Scan) (r : Range)
    → IsLeftover pd r
    → scan_entry pd scan (entry_of r) ≡ ScanResult.ok (noted scan r)
unfolding scan_entry scan_sized noted
scan_entry-leftover pd scan r h =
    rw
      (
        read_name r.start r.end (omega arith) (omega arith),
        sub64_small r.end r.start (omega arith) (omega arith),
        lt64_small 0 (r.end - r.start) (omega arith) (omega arith),
        lt→ltb 0 (r.end - r.start) (omega arith),
        add64_small (r.end - r.start) 1 (omega arith),
        (==_iff (r.end - r.start + 1) (r.end - r.start + 1)).1 refl,
        same_range pd r h,
      )
      refl

-- The scan of a directory that holds nothing but leftovers.
pub noted_all : Scan → List Range → Scan
noted_all scan [] = scan
noted_all scan (r ∷ rs) = noted_all (noted scan r) rs

pub scan_dir-leftovers :
    (pd : ChunkDownload) (scan : Scan) (rs : List Range)
    → All (IsLeftover pd) rs
    → scan_dir pd scan (map entry_of rs) ≡ ScanResult.ok (noted_all scan rs)
unfolding scan_dir noted_all
scan_dir-leftovers pd scan [] h = refl
scan_dir-leftovers pd scan (r ∷ rs) h =
    rw (scan_entry-leftover pd scan r h.0, scan_dir) (scan_dir-leftovers pd (noted scan r) rs h.1)

noted_all-keys :
    (scan : Scan) (rs : List Range) → (noted_all scan rs).keys ≡ scan.keys ++ map (λ r. r.start) rs
unfolding noted_all noted
noted_all-keys scan [] = rw append-nil
noted_all-keys scan (r ∷ rs) =
    noted_all-keys (noted scan r) rs ∙ append_assoc scan.keys (r.start ∷ []) (map (λ r. r.start) rs)

pub noted_all-removed : (scan : Scan) (rs : List Range) → (noted_all scan rs).removed ≡ scan.removed
unfolding noted_all noted
noted_all-removed scan [] = refl
noted_all-removed scan (r ∷ rs) = noted_all-removed (noted scan r) rs

-- `zs` is `ys` with `x` put in somewhere.
pub data Put (x : Range) : List Range → List Range → Type 0 where
  here : (ys : List Range) → Put x ys (x ∷ ys)
  later : (y : Range) {ys zs : List Range} → Put x ys zs → Put x (y ∷ ys) (y ∷ zs)

-- The second list has the ranges of the first in another order.
pub data Reordered : List Range → List Range → Type 0 where
  none_left : Reordered [] []
  put : {x : Range} {xs ys zs : List Range} → Put x ys zs → Reordered xs ys → Reordered (x ∷ xs) zs

-- Starting bytes that grow, each below 2 ^ 63.
abbrev pub Rising : List Range → Type 0
Rising [] = Unit
Rising (r ∷ rs) = (r.start < half64) × All (λ q. r.start < q.start) rs × Rising rs

All-Put {ℓ} :
    {x : Range} {ys zs : List Range} (P : Range → Type ℓ) → Put x ys zs → All P zs → P x × All P ys
All-Put P (here ys) h = h
All-Put P (later y p) h = let (px, pys) = All-Put P p h.1 in (px, (h.0, pys))

Put-All {ℓ} :
    {x : Range} {ys zs : List Range} (P : Range → Type ℓ) → Put x ys zs → P x → All P ys → All P zs
Put-All P (here ys) px h = (px, h)
Put-All P (later y p) px h = (h.0, Put-All P p px h.1)

Put-Rising : {x : Range} {ys zs : List Range} → Put x ys zs → Rising zs → Rising ys
Put-Rising (here ys) h = h.2
Put-Rising (later y p) h = (h.0, (All-Put _ p h.1).1, Put-Rising p h.2)

Rising-small : (rs : List Range) → Rising rs → All (λ r. r.start < half64) rs
Rising-small [] h = tt
Rising-small (r ∷ rs) h = (h.0, Rising-small rs h.2)

-- Putting a range in and sorting its key in are the same on a rising list.
insert_key-Put :
    {x : Range} {ys zs : List Range}
    → Put x ys zs
    → Rising zs
    → insert_key x.start (map (λ r. r.start) ys) ≡ map (λ r. r.start) zs
unfolding insert_key
insert_key-Put {x} (here []) h = refl
insert_key-Put {x} (here (y ∷ ys)) h =
    rw (lt64_small y.start x.start h.2.0 h.0, le→ltb y.start x.start (omega arith)) refl
insert_key-Put {x} (later y p) h =
    let small : x.start < half64 = (All-Put _ p (Rising-small _ h.2)).0 in
    let below : y.start < x.start = (All-Put _ p h.1).0 in
    rw (lt64_small y.start x.start h.0 small, lt→ltb y.start x.start below)
      (ap (λ ks. y.start ∷ ks) (insert_key-Put p h.2))

sort_keys-Reordered :
    {xs zs : List Range}
    → Reordered xs zs
    → Rising zs
    → sort_keys (map (λ r. r.start) xs) ≡ map (λ r. r.start) zs
unfolding sort_keys
sort_keys-Reordered none_left h = refl
sort_keys-Reordered (put {x = x} p o) h =
    ap (insert_key x.start) (sort_keys-Reordered o (Put-Rising p h)) ∙ insert_key-Put p h

-- No range of the list starts at `k`.
abbrev Avoids : ℕ → List Range → Type 0
Avoids k = All (λ r. r.start ≢ k)

Put-Avoids : {x : Range} {ys zs : List Range} → Put x ys zs → Rising zs → Avoids x.start ys
Put-Avoids {x} (here ys) h = above x.start ys h.1
  where
    above : (k : ℕ) (rs : List Range) → All (λ q. k < q.start) rs → Avoids k rs
    above k [] a = tt
    above k (r ∷ rs) a = (omega arith, above k rs a.1)
Put-Avoids {x} (later y p) h =
    let below : y.start < x.start = (All-Put _ p h.1).0 in (omega arith, Put-Avoids p h.2)

Reordered-All {ℓ} :
    {xs zs : List Range} (P : Range → Type ℓ) → Reordered xs zs → All P zs → All P xs
Reordered-All P none_left h = tt
Reordered-All P (put p o) h = let (px, pys) = All-Put P p h in (px, Reordered-All P o pys)

All-Reordered {ℓ} :
    {xs zs : List Range} (P : Range → Type ℓ) → Reordered xs zs → All P xs → All P zs
All-Reordered P none_left h = tt
All-Reordered P (put p o) h = Put-All P p h.0 (All-Reordered P o h.1)

range_at-noted_all :
    (k : ℕ) (scan : Scan) (rs : List Range)
    → Avoids k rs
    → range_at (noted_all scan rs).range_map k ≡ range_at scan.range_map k
unfolding noted_all noted
range_at-noted_all k scan [] h = refl
range_at-noted_all k scan (r ∷ rs) h =
    range_at-noted_all k (noted scan r) rs h.1 ∙ (unfold range_at in ground arith)

-- Every range that was noted is found again under its first byte.
found_again :
    {xs zs : List Range} (scan : Scan)
    → Reordered xs zs
    → Rising zs
    → All (λ r. range_at (noted_all scan xs).range_map r.start ≡ r) xs
unfolding noted_all noted
found_again scan none_left h = tt
found_again scan (put {x = x} {xs = xs} p o) h = (
  range_at-noted_all x.start (noted scan x) xs (Reordered-All _ o (Put-Avoids p h))
      ∙ (unfold range_at in ground arith),
  found_again (noted scan x) o (Put-Rising p h),
)

sorted_ranges-map :
    (scan : Scan) (zs : List Range)
    → All (λ r. range_at scan.range_map r.start ≡ r) zs
    → sorted_ranges scan (map (λ r. r.start) zs) ≡ zs
unfolding sorted_ranges
sorted_ranges-map scan [] h = refl
sorted_ranges-map scan (z ∷ zs) h = cc (h.0, sorted_ranges-map scan zs h.1)

abbrev pub empty_scan : Scan
empty_scan = record { range_map = []; keys = []; removed = [] }

-- The ranges that the scan hands on are the leftovers in the order of their bytes.
pub sorted_ranges-leftovers :
    {xs zs : List Range}
    → Reordered xs zs
    → Rising zs
    → sorted_ranges (noted_all empty_scan xs) (sort_keys (noted_all empty_scan xs).keys) ≡ zs
sorted_ranges-leftovers {xs} {zs} o h =
    ap (sorted_ranges (noted_all empty_scan xs))
      (ap sort_keys (noted_all-keys empty_scan xs) ∙ sort_keys-Reordered o h)
    ∙ sorted_ranges-map (noted_all empty_scan xs) zs
        (All-Reordered _ o (found_again empty_scan o h))
