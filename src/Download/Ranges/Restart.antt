-- ===== src/Download/Ranges/Restart.antt =====
-- `CalRange` of a download that goes on after an interruption.
use pan_client.Base.{
  ℕ, suc, ◌+◌, ◌≤◌, ◌<◌, ◌≡◌, ap, ◌∙◌, Option, some, List, [], ◌∷◌, map, All, keep, half64, arith,
}
use pan_client.Download.{ChunkDownload}
use pan_client.Download.Ranges.{Range, ranges, first_byte, after_scan, cal_range}
use pan_client.Download.Ranges.Chunks.{Tiles}
use pan_client.Download.Ranges.Resume.{
  Fits, IsPiece, is_completed, after_scan_lem, ranges_from-Resumes,
}
use pan_client.Download.Ranges.Leftovers.{
  IsLeftover, entry_of, Reordered, Rising, empty_scan, noted_all, scan_dir-leftovers,
  noted_all-removed, sorted_ranges-leftovers,
}

Fits-above :
    (c total a b : ℕ) (rs : List Range) → b ≤ a → Fits c total a rs → All (λ r. b ≤ r.start) rs
Fits-above c total a b [] h fits = tt
Fits-above c total a b (r ∷ rs) h (whole, le, inside, done, fits) =
    (omega arith, Fits-above c total (suc r.end) b rs (omega arith) fits)

Fits-Rising : (c total a : ℕ) (rs : List Range) → total < half64 → Fits c total a rs → Rising rs
Fits-Rising c total a [] h fits = tt
Fits-Rising c total a (r ∷ rs) h (whole, le, inside, done, fits) = (
  omega arith,
  Fits-above c total (suc r.end) (suc r.start) rs (omega arith) fits,
  Fits-Rising c total (suc r.end) rs h fits,
)

-- A download is resumed from the chunk files `xs` that an earlier run left, listed in any order,
-- where `zs` is their order in the file. Whatever the output file has of the start, the ranges lie
-- end to end from there to the end of the file, each is completed or fresh, the completed ones are
-- exactly the leftovers in order, and no file is removed. It holds with chunks of two bytes or more,
-- sizes whose sum an int64 holds, a round of fuel for each byte, and leftovers that lie apart and
-- inside the file with stretches between them that are not one more than whole chunks.
pub cal_range-restart :
    (f : ℕ) (pd : ChunkDownload) (existing : Option ℕ) {xs zs : List Range}
    → 2 ≤ pd.chunk_size
    → pd.total_bytes + pd.chunk_size < half64
    → pd.total_bytes < f
    → All (IsLeftover pd) xs
    → Reordered xs zs
    → Fits pd.chunk_size pd.total_bytes (first_byte pd existing) zs
    → (rs : List Range) × (cal_range f pd (some (map entry_of xs)) existing
        ≡ ranges rs (first_byte pd existing) [])
      × Tiles (first_byte pd existing) rs pd.total_bytes
      × All (IsPiece pd.chunk_size) rs
      × (keep is_completed rs ≡ zs)
unfolding cal_range
cal_range-restart f pd existing {xs} {zs} hc hb hf left order fits =
    let (rs, e, tiles, pieces, reused) =
      ranges_from-Resumes f pd hc hb hf (first_byte pd existing) zs fits in
    let sorted = sorted_ranges-leftovers order (Fits-Rising _ _ _ zs (omega arith) fits) in
    (
      rs,
      ap (after_scan f pd existing) (scan_dir-leftovers pd empty_scan xs left)
          ∙ after_scan_lem f pd existing (noted_all empty_scan xs) rs (rw sorted e)
          ∙ ap (ranges rs (first_byte pd existing)) (noted_all-removed empty_scan xs),
      tiles,
      pieces,
      reused,
    )
