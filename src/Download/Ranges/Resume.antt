-- ===== src/Download/Ranges/Resume.antt =====
-- `CalRange`: the ranges of a download that goes on with the chunks of an earlier run.
use pan_client.Base.{
  ℕ, suc, ◌+◌, ◌-◌, ◌%◌, ◌≤◌, ◌<◌, ◌≡◌, refl, ap, ◌∙◌, ◌≢◌, ◌⊎◌, inl, inr, Bool, true, Option, some,
  List, [], ◌∷◌, ◌++◌, append_assoc, append-nil, All, All-append, keep, Bool-cases, sub64,
  add64_small, sub64_small, lt64_small, half64, ltb→lt, ltb→le, ltb, arith,
}
use pan_client.Download.{ChunkDownload}
use pan_client.Download.Ranges.{
  Range, Scan, ScanResult, ranges, add_range, fill_gap, merge_ranges, fill_tail, ranges_from,
  first_byte, sorted_ranges, sort_keys, after_scan,
}
use pan_client.Download.Ranges.Chunks.{Tiles, Tiles-append, IsFresh, lone, add_range-Cut}

-- A stretch of bytes that `addRange` covers to its end: not one more than whole chunks.
abbrev pub IsWhole : ℕ → ℕ → ℕ → Type 0
IsWhole c a b = (a ≤ b) × ((b - a) % c ≢ 1)

-- The chunks that are there lie in order from `start` on, apart and inside the file, with whole
-- stretches between them and behind the last.
abbrev pub Fits : ℕ → ℕ → ℕ → List Range → Type 0
Fits c total start [] = IsWhole c start total
Fits c total start (r ∷ rs) =
    IsWhole c start r.start
    × (r.start ≤ r.end)
    × (r.end < total)
    × (r.completed ≡ true)
    × Fits c total (suc r.end) rs

abbrev pub is_completed : Range → Bool
is_completed r = r.completed

-- Loaded already, or to be loaded in one piece.
abbrev pub IsPiece : ℕ → Range → Type 0
IsPiece c r = (r.completed ≡ true) ⊎ IsFresh c r

-- What `CalRange` answers once the ranges are computed.
pub after_scan_lem :
    (f : ℕ) (pd : ChunkDownload) (existing : Option ℕ) (scan : Scan) (rs : List Range)
    → ranges_from f pd (sorted_ranges scan (sort_keys scan.keys)) (first_byte pd existing) ≡ some rs
    → after_scan f pd existing (ScanResult.ok scan)
      ≡ ranges rs (first_byte pd existing) scan.removed
unfolding after_scan
after_scan_lem f pd existing scan rs e = rw (e, after_scan) refl

keep-append {ℓ} :
    {A : Type ℓ} (p : A → Bool) (xs ys : List A) → keep p (xs ++ ys) ≡ keep p xs ++ keep p ys
unfolding keep
keep-append p [] ys = refl
keep-append p (x ∷ xs) ys = ground (arith, keep-append p xs ys)

keep-fresh : (c : ℕ) (rs : List Range) → All (IsFresh c) rs → keep is_completed rs ≡ []
unfolding keep
keep-fresh c [] h = refl
keep-fresh c (r ∷ rs) h = ground (arith, keep-fresh c rs h.1)

All-IsPiece : (c : ℕ) (rs : List Range) → All (IsFresh c) rs → All (IsPiece c) rs
All-IsPiece c [] h = tt
All-IsPiece c (r ∷ rs) h = (inr h.0, All-IsPiece c rs h.1)

-- A stretch of the answer: end to end, made of pieces, with the chunks `found` in it.
record Stretch (c a b : ℕ) (found new : List Range) : Type 0 where
  tiles : Tiles a new b
  pieces : All (IsPiece c) new
  reused : keep is_completed new ≡ found

Stretch-append :
    (c a b d : ℕ) (found more new rest : List Range)
    → Stretch c a b found new
    → Stretch c b d more rest
    → Stretch c a d (found ++ more) (new ++ rest)
Stretch-append c a b d found more new rest h k = record {
  tiles = Tiles-append a b d new rest h.tiles k.tiles;
  pieces = All-append (IsPiece c) new rest h.pieces k.pieces;
  reused = keep-append is_completed new rest ∙ cc (h.reused, k.reused);
}

module _ (f : ℕ) (pd : ChunkDownload) (chunks : 2 ≤ pd.chunk_size)
    (bounded : pd.total_bytes + pd.chunk_size < half64) (enough : pd.total_bytes < f) where
  gap_cut :
      (a b : ℕ) (acc : List Range)
      → a < b
      → b ≤ pd.total_bytes
      → (b - a) % pd.chunk_size ≢ 1
      → (new : List Range) × (add_range f pd a (sub64 b 1) acc ≡ some (b, acc ++ new))
        × Stretch pd.chunk_size a b [] new
  gap_cut a b acc lt le whole =
      let (stop, new, e, cut) =
        add_range-Cut f pd a (b - 1) acc chunks (omega arith) (omega arith) (omega arith) in
      let back : b - 1 + 1 ≡ b = omega arith in
      let none_left : lone pd.chunk_size a (b - 1) ≡ 0 = rw back (ground arith) in
      let there : stop ≡ b = omega (arith, cut.reach, none_left) in
      (
        new,
        rw (sub64_small b 1 (omega arith) (omega arith))
            (e ∙ ap (λ (t : ℕ). some (t, acc ++ new)) there),
        record {
          tiles = rw there at cut.tiles;
          pieces = All-IsPiece pd.chunk_size new cut.fresh;
          reused = keep-fresh pd.chunk_size new cut.fresh;
        },
      )

  fill_gap_lem :
      (a : ℕ) (r : Range) (acc : List Range)
      → IsWhole pd.chunk_size a r.start
      → r.start ≤ pd.total_bytes
      → (new : List Range) × (fill_gap f pd a r acc ≡ some (r.start, acc ++ new))
        × Stretch pd.chunk_size a r.start [] new
  unfolding fill_gap
  fill_gap_lem a r acc whole le = elim (Bool-cases (ltb a r.start)) [
    | inl lt ↦
        let (new, e, s) = gap_cut a r.start acc (ltb→lt _ _ lt) le whole.1 in
        (new, rw (lt64_small a r.start (omega arith) (omega arith) ∙ lt) e, s)
    | inr ge ↦
        let same : a ≡ r.start = omega (arith, ltb→le a r.start ge) in
        (
          [],
          rw (lt64_small a r.start (omega arith) (omega arith) ∙ ge)
              (rw append-nil (ap (λ (t : ℕ). some (t, acc)) same)),
          record { tiles = same; pieces = tt; reused = unfold keep in refl },
        )
  ]

  fill_tail_lem :
      (a : ℕ) (acc : List Range)
      → IsWhole pd.chunk_size a pd.total_bytes
      → (new : List Range) × (fill_tail f pd (a, acc) ≡ some (acc ++ new))
        × Stretch pd.chunk_size a pd.total_bytes [] new
  unfolding fill_tail
  fill_tail_lem a acc whole = elim (Bool-cases (ltb a pd.total_bytes)) [
    | inl lt ↦
        let (new, e, s) = gap_cut a pd.total_bytes acc (ltb→lt _ _ lt) (omega arith) whole.1 in
        (new, rw (lt64_small a pd.total_bytes (omega arith) (omega arith) ∙ lt, e) refl, s)
    | inr ge ↦
        let same : a ≡ pd.total_bytes = omega (arith, ltb→le a pd.total_bytes ge) in
        (
          [],
          rw (lt64_small a pd.total_bytes (omega arith) (omega arith) ∙ ge) (rw append-nil),
          record { tiles = same; pieces = tt; reused = unfold keep in refl },
        )
  ]

  one_chunk :
      (r : Range)
      → r.completed ≡ true
      → r.start ≤ r.end
      → Stretch pd.chunk_size r.start (suc r.end) (r ∷ []) (r ∷ [])
  one_chunk r there le = record {
    tiles = (refl, le, refl);
    pieces = (inl there, tt);
    reused = unfold keep in ground arith;
  }

  -- The state after the loop over `found`, which the last stretch then completes.
  abbrev Merges : List Range → ℕ → List Range → Type 0
  Merges found a acc =
      (stop : ℕ) × (new : List Range) × (merge_ranges f pd found a acc ≡ some (stop, acc ++ new))
      × Stretch pd.chunk_size a stop found new
      × IsWhole pd.chunk_size stop pd.total_bytes

  merge_ranges_lem :
      (found : List Range) (a : ℕ) (acc : List Range)
      → Fits pd.chunk_size pd.total_bytes a found
      → Merges found a acc
  unfolding merge_ranges
  merge_ranges_lem [] a acc fits = (
    a,
    [],
    rw append-nil,
    record { tiles = refl; pieces = tt; reused = unfold keep in refl },
    fits,
  )
  merge_ranges_lem (r ∷ rs) a acc (whole, le, inside, there, fits) =
      let (gap, eg, sg) = fill_gap_lem a r acc whole (omega arith) in
      let (stop, new, e, s, last) = merge_ranges_lem rs (suc r.end) ((acc ++ gap) ++ r ∷ []) fits in
      let next : r.end + 1 ≡ suc r.end = omega arith in
      (
        stop,
        gap ++ (r ∷ new),
        rw (eg, merge_ranges, add64_small r.end 1 (omega arith), next, e)
            (ap (λ (t : List Range). some (stop, t))
              (append_assoc (acc ++ gap) (r ∷ []) new ∙ append_assoc acc gap (r ∷ new))),
        Stretch-append pd.chunk_size a r.start stop [] (r ∷ rs) gap (r ∷ new) sg (
            Stretch-append pd.chunk_size r.start (suc r.end) stop (r ∷ []) rs (r ∷ []) new
              (one_chunk r there le) s),
        last,
      )

  -- The answer of `ranges_from`: it ends, and its ranges lie end to end over the whole file, each
  -- one completed or fresh, with exactly the chunks found among them, in order.
  abbrev pub Resumes : ℕ → List Range → Type 0
  Resumes start found =
      (rs : List Range) × (ranges_from f pd found start ≡ some rs)
      × Tiles start rs pd.total_bytes
      × All (IsPiece pd.chunk_size) rs
      × (keep is_completed rs ≡ found)

  -- With chunks of two bytes or more, sizes whose sum an int64 holds, fuel for each byte, and
  -- chunks from an earlier run that lie in order inside the file with whole stretches between
  -- them, the ranges computed lie end to end from `start` to the end of the file; each is completed
  -- or fresh, and the completed ones are exactly the chunks found, in order.
  pub ranges_from-Resumes :
      (start : ℕ) (found : List Range)
      → Fits pd.chunk_size pd.total_bytes start found
      → Resumes start found
  unfolding ranges_from
  ranges_from-Resumes start found fits =
      let (stop, new, e, s, last) = merge_ranges_lem found start [] fits in
      let (rest, e', s') = fill_tail_lem stop new last in
      let whole = Stretch-append pd.chunk_size start stop pd.total_bytes found [] new rest s s' in
      (
        new ++ rest,
        rw (e, ranges_from, e') refl,
        whole.tiles,
        whole.pieces,
        whole.reused ∙ append-nil found,
      )
