-- ===== src/Download/Ranges/Fresh.antt =====
-- `CalRange` of a download that starts with an empty temporary directory and no output file.
use pan_client.Base.{
  ℕ, ◌+◌, ◌-◌, ◌≤◌, ◌<◌, ◌≡◌, refl, ap, ◌∙◌, none, some, List, [], All, subst, sub64_small,
  lt64_small, half64, lt→ltb, arith,
}
use pan_client.Download.{ChunkDownload}
use pan_client.Download.Ranges.{
  Range, ranges, add_range, sort_keys, scan_dir, sorted_ranges, first_byte, merge_ranges, fill_tail,
  ranges_from, cal_range,
}
use pan_client.Download.Ranges.Resume.{after_scan_lem}
use pan_client.Download.Ranges.Chunks.{Tiles, IsFresh, lone, add_range-Cut}

ranges_from_new :
    (f : ℕ) (pd : ChunkDownload) (stop : ℕ) (new : List Range)
    → pd.total_bytes < half64
    → 0 < pd.total_bytes
    → add_range f pd 0 (pd.total_bytes - 1) [] ≡ some (stop, new)
    → ranges_from f pd [] 0 ≡ some new
unfolding ranges_from merge_ranges fill_tail
ranges_from_new f pd stop new hb ht e =
    rw
      (
        lt64_small 0 pd.total_bytes (omega arith) hb,
        lt→ltb 0 pd.total_bytes ht,
        sub64_small pd.total_bytes 1 hb ht,
        e,
      )
      refl

-- A new download is cut into fresh ranges that lie end to end from byte 0. They reach the end of
-- the file, or, exactly if the size is one more than whole chunks, stop one byte short of it: that
-- byte is never asked for. It holds with chunks of two bytes or more, a file that is not empty,
-- sizes whose sum an int64 holds, and a round of fuel for each byte.
cal_range_new :
    (f : ℕ) (pd : ChunkDownload)
    → 2 ≤ pd.chunk_size
    → 0 < pd.total_bytes
    → pd.total_bytes + pd.chunk_size < half64
    → pd.total_bytes < f
    → (rs : List Range) × (cal_range f pd (some []) none ≡ ranges rs 0 [])
      × Tiles 0 rs (pd.total_bytes - lone pd.chunk_size 0 (pd.total_bytes - 1))
      × All (IsFresh pd.chunk_size) rs
unfolding cal_range scan_dir
cal_range_new f pd hc ht hb hf =
    let (stop, new, e, cut) =
      add_range-Cut f pd 0 (pd.total_bytes - 1) [] hc (omega arith) (omega arith) (omega arith) in
    let end : stop ≡ pd.total_bytes - lone pd.chunk_size 0 (pd.total_bytes - 1) =
      omega (arith, cut.reach) in
    let first : first_byte pd none ≡ 0 = unfold first_byte in ground arith in
    let answer =
      after_scan_lem f pd none (record { range_map = []; keys = []; removed = [] }) new
        (unfold sort_keys sorted_ranges in
          ap (ranges_from f pd []) first ∙ ranges_from_new f pd stop new (omega arith) ht e) in
    (new, answer ∙ ap (λ n. ranges new n []) first, subst (Tiles 0 new) end cut.tiles, cut.fresh)
