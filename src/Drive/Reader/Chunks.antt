-- ===== src/Drive/Reader/Chunks.antt =====
-- Chunks that are read piece by piece to their end.
use pan_client.Base.{
  ℕ, zero, suc, ◌+◌, ◌-◌, ◌≤◌, ◌<◌, ◌≡◌, refl, ap, ◌∙◌, Bool, true, false, ltb, ◌==◌, if◌then◌else◌,
  List, [], ◌∷◌, All, add64_small, sub64_small, lt64_small, half64, arith,
}
use pan_client.Drive.Reader.{ProgressReader, next_chunk, count_read, read, reads, min64}

unfoldable pub total : List ℕ → ℕ
total [] = 0
total (n ∷ ns) = n + total ns

abbrev pub Positive : ℕ → Type 0
Positive n = 0 < n

-- The sizes that an int64 holds: the file with one chunk more.
abbrev pub IsSized : ProgressReader → Type 0
IsSized pr = (pr.uploaded ≤ pr.total_size) × (pr.total_size + pr.chunk_size < half64)

min64_small : (a b : ℕ) → a < half64 → b < half64 → min64 a b ≡ (if ltb b a then b else a)
min64_small a b h k = ap (λ t. if t then b else a) (lt64_small b a k h)

pub next_chunk-end :
    (pr : ProgressReader)
    → IsSized pr
    → (next_chunk pr).0.1 ≡ (
        if ltb (pr.uploaded + pr.chunk_size) pr.total_size
        then pr.uploaded + pr.chunk_size
        else pr.total_size)
unfolding next_chunk
next_chunk-end pr h =
    rw (add64_small pr.uploaded pr.chunk_size (omega arith))
      (min64_small pr.total_size (pr.uploaded + pr.chunk_size) (omega arith) (omega arith))

-- The next chunk starts at what is uploaded, and ends one chunk later or with the file.
pub next_chunk-bounds :
    (pr : ProgressReader)
    → IsSized pr
    → (pr.uploaded ≤ (next_chunk pr).0.1) × ((next_chunk pr).0.1 ≤ pr.total_size)
next_chunk-bounds pr h = rw (next_chunk-end pr h) (ground arith)

pub next_chunk-size :
    (pr : ProgressReader)
    → IsSized pr
    → (next_chunk pr).1.current_size ≡ (next_chunk pr).0.1 - pr.uploaded
unfolding next_chunk
next_chunk-size pr h =
    let b = next_chunk-bounds pr h in
    sub64_small (next_chunk pr).0.1 pr.uploaded (omega (arith, b.1, h.0, h.1)) b.0

-- A read inside a chunk, and the read that ends it.
read-part :
    (m : ℕ)
    → (pr : ProgressReader) → pr.current_uploaded + suc m < pr.current_size
    → pr.uploaded + pr.current_size ≤ pr.total_size
    → pr.total_size < half64
    → ((read false (suc m) pr).1.uploaded ≡ pr.uploaded)
      × ((read false (suc m) pr).1.current_uploaded ≡ pr.current_uploaded + suc m)
      × ((read false (suc m) pr).1.finish ≡ pr.finish)
unfolding read count_read
read-part m pr part fits small =
    rw (add64_small pr.current_uploaded (suc m) (omega arith)) (ground arith)

read-last :
    (m : ℕ)
    → (pr : ProgressReader) → pr.current_uploaded + suc m ≡ pr.current_size
    → pr.uploaded + pr.current_size ≤ pr.total_size
    → pr.total_size < half64
    → ((read false (suc m) pr).1.uploaded ≡ pr.uploaded + pr.current_size)
      × ((read false (suc m) pr).1.finish
          ≡ (if pr.uploaded + pr.current_size == pr.total_size then true else pr.finish))
unfolding read count_read
read-last m pr last fits small =
    rw (add64_small pr.current_uploaded (suc m) (omega arith))
      (ground (arith, add64_small pr.uploaded pr.current_size (omega arith)))

pub reads-last :
    (n : ℕ)
    → (ns : List ℕ) → (pr : ProgressReader) → All Positive (n ∷ ns)
    → pr.current_uploaded + total (n ∷ ns) ≡ pr.current_size
    → pr.uploaded + pr.current_size ≤ pr.total_size
    → pr.total_size < half64
    → ((reads (n ∷ ns) pr).uploaded ≡ pr.uploaded + pr.current_size)
      × ((reads (n ∷ ns) pr).finish
          ≡ (if pr.uploaded + pr.current_size == pr.total_size then true else pr.finish))
unfolding reads total read count_read
reads-last zero ns pr pos sum fits small = ground (arith, pos.0)
reads-last (suc m) [] pr pos sum fits small = read-last m pr (omega arith) fits small
reads-last (suc m) (k ∷ ns) pr pos sum fits small =
    let part = read-part m pr (omega (arith, pos.1.0)) fits small in
    let rest =
      reads-last k ns (read false (suc m) pr).1 pos.1 (rw (part.1) (omega arith)) (rw (part.0) fits)
        small in
    (
      rest.0 ∙ ap (λ u. u + pr.current_size) (part.0),
      rest.1
          ∙ ap
              (λ u.
                if u + pr.current_size == pr.total_size
                then true
                else (read false (suc m) pr).1.finish)
              (part.0)
          ∙ ap (λ f. if pr.uploaded + pr.current_size == pr.total_size then true else f) (part.2),
    )

if_same : (b : Bool) → (if b then true else false) ≡ b
if_same true = refl
if_same false = refl

reads-chunk :
    (n : ℕ)
    → (ns : List ℕ) → (pr : ProgressReader) → (end : ℕ) → All Positive (n ∷ ns)
    → pr.current_uploaded ≡ 0
    → pr.finish ≡ false
    → pr.uploaded ≤ end
    → end ≤ pr.total_size
    → pr.total_size < half64
    → pr.current_size ≡ end - pr.uploaded
    → total (n ∷ ns) ≡ end - pr.uploaded
    → ((reads (n ∷ ns) pr).uploaded ≡ end) × ((reads (n ∷ ns) pr).finish ≡ (end == pr.total_size))
reads-chunk n ns pr end pos fresh busy start fits small size sum =
    let whole : pr.uploaded + pr.current_size ≡ end = omega arith in
    let last = reads-last n ns pr pos (omega arith) (omega arith) small in
    (last.0 ∙ whole, last.1 ∙ rw (whole, busy) (if_same (end == pr.total_size)))

-- A chunk that is begun by `NextChunk` and read to its end, in pieces of any sizes, moves what is
-- uploaded to the end of the chunk, and the reader is finished exactly if that is the end of the file;
-- for a chunk that is not empty, a reader not finished before and sizes that an int64 holds.
pub next_chunk-reads :
    (n : ℕ)
    → (ns : List ℕ) → (pr : ProgressReader) → IsSized pr
    → pr.finish ≡ false
    → All Positive (n ∷ ns)
    → total (n ∷ ns) ≡ (next_chunk pr).0.1 - (next_chunk pr).0.0
    → ((reads (n ∷ ns) (next_chunk pr).1).uploaded ≡ (next_chunk pr).0.1)
      × ((reads (n ∷ ns) (next_chunk pr).1).finish ≡ ((next_chunk pr).0.1 == pr.total_size))
unfolding next_chunk
next_chunk-reads n ns pr sized busy pos sum =
    let bounds = next_chunk-bounds pr sized in
    reads-chunk n ns (next_chunk pr).1 (next_chunk pr).0.1 pos refl busy bounds.0 bounds.1
      (omega (arith, sized.1)) (next_chunk-size pr sized) sum
