-- ===== src/Drive/Reader/Retry.antt =====
-- A chunk that is read again.
use pan_client.Base.{ℕ, zero, suc, ◌≡◌, refl, ◌∙◌, true, false, List, [], ◌∷◌}
use pan_client.Drive.Reader.{ProgressReader, next_chunk, count_read, read, reads, reset_chunk}

read-chunk_size :
    (n : ℕ)
    → (pr : ProgressReader)
    → ((read false n pr).1.chunk_size ≡ pr.chunk_size)
      × ((read false n pr).1.total_size ≡ pr.total_size)
unfolding read count_read
read-chunk_size zero pr = (refl, refl)
read-chunk_size (suc m) pr = (refl, refl)

pub reads-chunk_size :
    (ns : List ℕ)
    → (pr : ProgressReader)
    → ((reads ns pr).chunk_size ≡ pr.chunk_size) × ((reads ns pr).total_size ≡ pr.total_size)
unfolding reads
reads-chunk_size [] pr = (refl, refl)
reads-chunk_size (n ∷ ns) pr =
    let first = read-chunk_size n pr in
    let rest = reads-chunk_size ns (read false n pr).1 in (rest.0 ∙ first.0, rest.1 ∙ first.1)

-- However much of a chunk was read, `ResetChunk` to its start, where the file can be moved, puts the file
-- there, and the next `NextChunk` has the same bounds and the same size to read.
next_chunk-reset_chunk :
    (ns : List ℕ)
    → (pr : ProgressReader)
    → ((reset_chunk true pr.uploaded (reads ns (next_chunk pr).1)).1.position ≡ pr.uploaded)
      × ((next_chunk (reset_chunk true pr.uploaded (reads ns (next_chunk pr).1)).1).0
          ≡ (next_chunk pr).0)
      × ((next_chunk (reset_chunk true pr.uploaded (reads ns (next_chunk pr).1)).1).1.current_size
          ≡ (next_chunk pr).1.current_size)
unfolding next_chunk reset_chunk
next_chunk-reset_chunk ns pr =
    let kept = reads-chunk_size ns (next_chunk pr).1 in
    (refl, rw (kept.0, kept.1) refl, rw (kept.0, kept.1) refl)
