-- ===== src/Baidu/Upload/Slices.antt =====
-- The slices of a file: what is hashed slice by slice, and what is sent for a part.
use Prim.Native.Nat.{min}
use pan_client.Base.{
  ℕ, zero, suc, ◌+◌, ◌*◌, ◌/◌, ◌%◌, ◌-◌, ◌^◌, ◌<◌, ◌≤◌, ◌==◌, ◌≡◌, refl, sym, ap, ◌∙◌, inl, inr,
  Bool, true, false, sub64, add64_small, sub64_small, lt64_small, le→ltb, mul64, div64,
  if◌then◌else◌, some, List, [], ◌∷◌, ◌++◌, append_assoc, append-nil, Text, length, take, drop,
  get_elem?, take-append-drop, take-all, length-take, length-drop, arith,
}
use native.Mathlib.Nat.{mul-le-mul_right, eq-or-lt_of_le}
use native.Mathlib.Numerals.{unary_clauses}
use pan_client.Baidu.Upload.{
  get_slice_size, slice_count, last_slice_size, read_slices, LimitWriter, limit_write, limit_writes,
  first_slice_size, joined, part_size, part_bytes,
}

drop-drop : {A : Type 0} (m n : ℕ) (xs : List A) → drop n (drop m xs) ≡ drop (m + n) xs
drop-drop zero n xs = ap (λ k. drop k xs) (omega arith)
drop-drop (suc m) zero [] = simp unary_clauses refl
drop-drop (suc m) (suc n) [] = simp unary_clauses refl
drop-drop (suc m) n (x ∷ xs) =
    let e : suc (m + n) ≡ suc m + n = omega arith in drop-drop m n xs ∙ ap (λ k. drop k (x ∷ xs)) e

take-append :
    {A : Type 0} (n : ℕ) (xs ys : List A) → take n (xs ++ ys) ≡ take n xs ++ take (n - length xs) ys
take-append zero xs ys = let e : 0 ≡ 0 - length xs = omega arith in ap (λ k. take k ys) e
take-append (suc n) [] ys = let e : suc n ≡ suc n - 0 = omega arith in ap (λ k. take k ys) e
take-append (suc n) (x ∷ xs) ys =
    let e : n - length xs ≡ suc n - length (x ∷ xs) = omega arith in
    ap (λ t. x ∷ t) (take-append n xs ys) ∙ ap (λ k. (x ∷ take n xs) ++ take k ys) e

-- A file of a size is `k` whole slices and a last one.
abbrev IsCut : ℕ → ℕ → Type 0
IsCut slice size =
    (k : ℕ) × (slice_count size slice ≡ suc k)
    × (size ≡ k * slice + last_slice_size size slice)
    × (0 < last_slice_size size slice)
    × (last_slice_size size slice ≤ slice)

IsCut-of :
    (slice size k : ℕ)
    → size < 2 ^ 62
    → slice < 2 ^ 62
    → 0 < slice
    → (size + slice - 1) / slice ≡ suc k
    → size ≡ k * slice + last_slice_size size slice
    → 0 < last_slice_size size slice
    → last_slice_size size slice ≤ slice
    → IsCut slice size
unfolding slice_count div64
IsCut-of slice size k h g pos e f l m =
    let added = add64_small size slice (omega arith) in
    let less = sub64_small (size + slice) 1 (omega arith) (omega arith) in
    let sign = lt64_small (size + slice - 1) 0 (omega arith) (omega arith) in
    (
      k,
      rw (added, less, sign, le→ltb (size + slice - 1) 0 (omega arith), e) (ground arith),
      f,
      l,
      m,
    )

IsCut-default : (size : ℕ) → 0 < size → size < 2 ^ 62 → IsCut 4194304 size
unfolding last_slice_size
IsCut-default size pos small =
    IsCut-of 4194304 size ((size - 1) / 4194304) small (omega arith) (omega arith) (omega arith)
      (ground arith) (ground arith) (ground arith)

IsCut-vip : (size : ℕ) → 0 < size → size < 2 ^ 62 → IsCut 16777216 size
unfolding last_slice_size
IsCut-vip size pos small =
    IsCut-of 16777216 size ((size - 1) / 16777216) small (omega arith) (omega arith) (omega arith)
      (ground arith) (ground arith) (ground arith)

IsCut-svip : (size : ℕ) → 0 < size → size < 2 ^ 62 → IsCut 33554432 size
unfolding last_slice_size
IsCut-svip size pos small =
    IsCut-of 33554432 size ((size - 1) / 33554432) small (omega arith) (omega arith) (omega arith)
      (ground arith) (ground arith) (ground arith)

IsCut-if : (b : Bool) (x y size : ℕ) → IsCut x size → IsCut y size → IsCut (if b then x else y) size
IsCut-if true x y size h k = h
IsCut-if false x y size h k = k

IsCut-file : (vip size : ℕ) → 0 < size → size < 2 ^ 62 → IsCut (get_slice_size vip) size
unfolding get_slice_size
IsCut-file vip size pos small =
    IsCut-if (vip == 1) 16777216 (if vip == 2 then 33554432 else 4194304) size
      (IsCut-vip size pos small)
      (IsCut-if (vip == 2) 33554432 4194304 size (IsCut-svip size pos small)
        (IsCut-default size pos small))

module _ (slice last : ℕ) where
  read_slices-joined :
      (k : ℕ) (bytes : Text)
      → length bytes ≤ k * slice + last
      → joined (read_slices slice last (suc k) bytes) ≡ bytes
  unfolding read_slices
  read_slices-joined zero bytes h = append-nil (take last bytes) ∙ take-all last bytes (omega arith)
  read_slices-joined (suc k) bytes h =
      ap (λ t. take slice bytes ++ t)
        (read_slices-joined k (drop slice bytes) (omega (arith, length-drop slice bytes)))
      ∙ take-append-drop slice bytes

  length-read_slices :
      (k : ℕ) (bytes : Text) → length (read_slices slice last (suc k) bytes) ≡ suc k
  unfolding read_slices
  length-read_slices zero bytes = refl
  length-read_slices (suc k) bytes = ap (λ n. suc n) (length-read_slices k (drop slice bytes))

  read_slices-get_elem? :
      (k i : ℕ) (bytes : Text)
      → i ≤ k
      → get_elem? (read_slices slice last (suc k) bytes) i
        ≡ some (take (if i == k then last else slice) (drop (i * slice) bytes))
  unfolding read_slices
  read_slices-get_elem? zero zero bytes h =
      let e : 0 ≡ 0 * slice = omega arith in ap (λ n. some (take last (drop n bytes))) e
  read_slices-get_elem? zero (suc i) bytes h = absurd (omega arith)
  read_slices-get_elem? (suc k) zero bytes h =
      let e : 0 ≡ 0 * slice = omega arith in
      let t : false ≡ (0 == suc k) = ground arith in
      (λ j. some (take (if t j then last else slice) (drop (e j) bytes)))
  read_slices-get_elem? (suc k) (suc i) bytes h =
      let e : slice + i * slice ≡ suc i * slice = omega arith in
      let t : (i == k) ≡ (suc i == suc k) = ground arith in
      read_slices-get_elem? k i (drop slice bytes) (omega arith)
      ∙ ap (λ t. some (take (if i == k then last else slice) t)) (drop-drop slice (i * slice) bytes)
      ∙ (λ j. some (take (if t j then last else slice) (drop (e j) bytes)))

limit_writes-joined :
    (lw : LimitWriter) (ps : List Text)
    → (limit_writes lw ps).written ≡ lw.written ++ take lw.remaining (joined ps)
unfolding limit_writes limit_write
limit_writes-joined lw [] =
    sym (ap (λ t. lw.written ++ t) (take-all lw.remaining [] (omega arith)) ∙ append-nil lw.written)
limit_writes-joined lw (p ∷ ps) =
    limit_writes-joined (limit_write lw p) ps
    ∙ append_assoc lw.written (take lw.remaining p) (take (lw.remaining - length p) (joined ps))
    ∙ ap (λ t. lw.written ++ t) (sym (take-append lw.remaining p (joined ps)))

module _ (slice last k : ℕ) (pos : 0 < slice) (low : 0 < last) where
  sub64-count : k * slice + last < 2 ^ 62 → sub64 (suc k) 1 ≡ k
  sub64-count small =
      let many : k ≤ k * slice = grind arith in
      sub64_small (suc k) 1 (omega (arith, many)) (omega arith) ∙ omega arith

  part_size-test :
      (i : ℕ)
      → k * slice + last < 2 ^ 62
      → part_size slice last (suc k) i ≡ (if i == k then last else slice)
  unfolding part_size
  part_size-test i small = ap (λ c. if i == c then last else slice) (sub64-count small)

  part_bytes-test :
      (i : ℕ) (bytes : Text)
      → i ≤ k
      → k * slice + last < 2 ^ 62
      → part_bytes slice last (suc k) bytes i
        ≡ take (if i == k then last else slice) (drop (i * slice) bytes)
  unfolding part_bytes mul64
  part_bytes-test i bytes h small =
      let below = mul-le-mul_right slice h in
      let plain : (i * slice) % 2 ^ 64 ≡ i * slice = omega (arith, below) in
      λ j. take (part_size-test i small j) (drop (plain j) bytes)

  part_bytes-length :
      (i : ℕ) (bytes : Text)
      → i ≤ k
      → k * slice + last ≡ length bytes
      → length bytes < 2 ^ 62
      → last ≤ slice
      → length (part_bytes slice last (suc k) bytes i) ≡ part_size slice last (suc k) i
  part_bytes-length i bytes h len small fits =
      let below = mul-le-mul_right slice h in
      rw (part_bytes-test i bytes h (omega arith), part_size-test i (omega arith))
        (length-take (if i == k then last else slice) (drop (i * slice) bytes)
          ∙ ap (min (if i == k then last else slice)) (length-drop (i * slice) bytes)
          ∙ room)
    where
      room :
          min (if i == k then last else slice) (length bytes - i * slice)
          ≡ (if i == k then last else slice)
      room = elim (eq-or-lt_of_le h) [
        | inl e ↦ ground (arith, len, e)
        | inr lt ↦ let step = mul-le-mul_right slice lt in ground (arith, len, step)
      ]

-- What is read of a file.
read_slices_lem :
    (vip : ℕ) (bytes : Text)
    → 0 < length bytes
    → length bytes < 2 ^ 62
    → let slice = get_slice_size vip in
      let slices =
        read_slices slice
          (last_slice_size (length bytes) slice)
          (slice_count (length bytes) slice)
          bytes in
      (length slices ≡ slice_count (length bytes) slice)
      × (joined slices ≡ bytes)
      × ((limit_writes (record { written = []; remaining = first_slice_size }) slices).written
          ≡ take first_slice_size bytes)
read_slices_lem vip bytes pos small =
    let slice = get_slice_size vip in
    let (k, count, size, low, fits) = IsCut-file vip (length bytes) pos small in
    let last = last_slice_size (length bytes) slice in
    let whole = read_slices-joined slice last k bytes (omega (arith, size)) in
    rw count (
      length-read_slices slice last k bytes,
      whole,
      limit_writes-joined (record { written = []; remaining = first_slice_size })
            (read_slices slice last (suc k) bytes)
          ∙ ap (take first_slice_size) whole,
    )

-- What is sent for a part.
part_bytes-read_slices :
    (vip i : ℕ) (bytes : Text)
    → 0 < length bytes
    → length bytes < 2 ^ 62
    → i < slice_count (length bytes) (get_slice_size vip)
    → let slice = get_slice_size vip in
      let last = last_slice_size (length bytes) slice in
      let count = slice_count (length bytes) slice in
      (get_elem? (read_slices slice last count bytes) i
        ≡ some (part_bytes slice last count bytes i))
      × (length (part_bytes slice last count bytes i) ≡ part_size slice last count i)
part_bytes-read_slices vip i bytes pos small below =
    let slice = get_slice_size vip in
    let (k, count, size, low, fits) = IsCut-file vip (length bytes) pos small in
    let last = last_slice_size (length bytes) slice in
    let room : 0 < slice = omega (arith, low, fits) in
    let place : i ≤ k = omega (arith, count, below) in
    rw count (
      read_slices-get_elem? slice last k i bytes place
          ∙ ap some
              (sym (part_bytes-test slice last k room low i bytes place (omega (arith, size)))),
      part_bytes-length slice last k room low i bytes place (sym size) small fits,
    )

-- A file that is not empty and shorter than 2 ^ 62 bytes, for any kind of member: as many slices are hashed as were
-- counted, together they are its bytes, and the limited writer lets through the first 256 KiB of them. What is sent for a
-- part below the count is the slice that was hashed at this place, and it is as long as announced.
pub read_slices-part_bytes :
    (vip i : ℕ) (bytes : Text)
    → 0 < length bytes
    → length bytes < 2 ^ 62
    → i < slice_count (length bytes) (get_slice_size vip)
    → let slice = get_slice_size vip in
      let last = last_slice_size (length bytes) slice in
      let count = slice_count (length bytes) slice in
      let slices = read_slices slice last count bytes in
      (length slices ≡ count)
      × (joined slices ≡ bytes)
      × ((limit_writes (record { written = []; remaining = first_slice_size }) slices).written
          ≡ take first_slice_size bytes)
      × (get_elem? slices i ≡ some (part_bytes slice last count bytes i))
      × (length (part_bytes slice last count bytes i) ≡ part_size slice last count i)
read_slices-part_bytes vip i bytes pos small below =
    let whole = read_slices_lem vip bytes pos small in
    let part = part_bytes-read_slices vip i bytes pos small below in
    (whole.0, whole.1, whole.2, part.0, part.1)
