-- ===== src/Drive/Reader/Place.antt =====
-- Where the reader stands in the file when a chunk is read to its end.
use pan_client.Base.{
  ℕ, zero, suc, ◌+◌, ◌-◌, ◌≤◌, ◌<◌, ◌≡◌, refl, ◌∙◌, false, ltb, if◌then◌else◌, List, [], ◌∷◌, All,
  add64_small, half64, arith,
}
use pan_client.Drive.Reader.{ProgressReader, next_chunk, count_read, read, reads}
use pan_client.Drive.Reader.Chunks.{
  total, Positive, IsSized, next_chunk-end, next_chunk-bounds, next_chunk-size, reads-last,
}
use pan_client.Drive.Reader.Retry.{reads-chunk_size}

read-position :
    (n : ℕ) (pr : ProgressReader)
    → pr.position + n < half64
    → (read false n pr).1.position ≡ pr.position + n
unfolding read count_read
read-position zero pr small = add64_small pr.position zero small
read-position (suc m) pr small = add64_small pr.position (suc m) small

reads-position :
    (ns : List ℕ) (pr : ProgressReader)
    → pr.position + total ns < half64
    → (reads ns pr).position ≡ pr.position + total ns
unfolding reads total
reads-position [] pr small = omega arith
reads-position (n ∷ ns) pr small =
    let first = read-position n pr (omega arith) in
    reads-position ns (read false n pr).1 (rw first (omega arith)) ∙ rw first (omega arith)

-- Where a chunk ends that begins at a place of a file of the given size, for chunks of the given size.
abbrev pub end_of : ℕ → ℕ → ℕ → ℕ
end_of size chunk p = if ltb (p + chunk) size then p + chunk else size

pub end_of-bounds :
    (size chunk p : ℕ)
    → 0 < chunk
    → p < size
    → (p < end_of size chunk p) × (end_of size chunk p ≤ size)
end_of-bounds size chunk p pos more = ground arith

-- A reader at a place of a file, between two chunks.
abbrev pub IsAt : ℕ → ℕ → ℕ → ProgressReader → Type 0
IsAt size chunk p pr =
    (pr.position ≡ p) × (pr.uploaded ≡ p) × (pr.total_size ≡ size) × (pr.chunk_size ≡ chunk)

module _ (size chunk p : ℕ) (pr : ProgressReader) (at : IsAt size chunk p pr) (inside : p ≤ size)
    (small : size + chunk < half64) where
  sized : IsSized pr
  sized = (omega (arith, at.1, at.2), omega (arith, at.2, at.3))

  pub next_chunk-IsAt :
      ((next_chunk pr).0.0 ≡ p)
      × ((next_chunk pr).0.1 ≡ end_of size chunk p)
      × ((next_chunk pr).1.current_size ≡ end_of size chunk p - p)
  unfolding next_chunk
  next_chunk-IsAt =
      let end : (next_chunk pr).0.1 ≡ end_of size chunk p =
        next_chunk-end pr sized ∙ rw (at.1, at.2, at.3) refl in
      (at.1, end, next_chunk-size pr sized ∙ rw (end, at.1) refl)

  -- The chunk read to its end: the reader stands where the next chunk begins.
  pub next_chunk-reads-IsAt :
      (n : ℕ) (ns : List ℕ)
      → All Positive (n ∷ ns)
      → total (n ∷ ns) ≡ (next_chunk pr).1.current_size
      → IsAt size chunk (end_of size chunk p) (reads (n ∷ ns) (next_chunk pr).1)
  unfolding next_chunk
  next_chunk-reads-IsAt n ns pos whole =
      let next = (next_chunk pr).1 in
      let started = next_chunk-IsAt in
      let bounds = next_chunk-bounds pr sized in
      let kept = reads-chunk_size (n ∷ ns) next in
      let reach : pr.uploaded + next.current_size ≡ end_of size chunk p =
        omega (arith, at.1, started.1, started.2, bounds.0) in
      let within : end_of size chunk p ≤ pr.total_size = omega (arith, started.1, bounds.1) in
      let last =
        reads-last n ns next pos (omega (arith, whole)) (omega (arith, reach, within))
          (omega (arith, at.2)) in
      let moved : pr.position + total (n ∷ ns) ≡ end_of size chunk p =
        omega (arith, whole, reach, at.0, at.1) in
      (
        reads-position (n ∷ ns) next (omega (arith, moved, within, at.2)) ∙ moved,
        last.0 ∙ reach,
        kept.1 ∙ at.2,
        kept.0 ∙ at.3,
      )
