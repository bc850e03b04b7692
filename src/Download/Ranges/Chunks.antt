-- ===== src/Download/Ranges/Chunks.antt =====
-- `addRange`: what the loop appends, that it ends, and the byte that it may leave out.
use Prim.Native.Nat.{min}
use native.Mathlib.Nat.{mod-eq_of_lt, mod_self, add-mod_right}
use pan_client.Base.{
  ℕ, zero, suc, ◌+◌, ◌-◌, ◌%◌, ◌≤◌, ◌<◌, ◌≡◌, refl, ap, ◌∙◌, inl, inr, true, false, ◌==◌,
  if◌then◌else◌, none, some, List, [], ◌∷◌, ◌++◌, append_assoc, append-nil, All, Bool-cases, lt64,
  add64_small, sub64_small, lt64_small, half64, ltb→lt, ltb→le, ltb, Text, arith,
}
use pan_client.Download.{ChunkDownload}
use pan_client.Download.Names.{get_range_temp_file}
use pan_client.Download.Ranges.{Range, chunk_end, append_chunk, add_range}

-- The ranges lie end to end, from byte `a` up to byte `b`, which they leave out.
abbrev pub Tiles : ℕ → List Range → ℕ → Type 0
Tiles a [] b = a ≡ b
Tiles a (r ∷ rs) b = (r.start ≡ a) × (a ≤ r.end) × Tiles (suc r.end) rs b

-- A range still to be loaded, of two bytes or more and of one chunk at most.
abbrev pub IsFresh : ℕ → Range → Type 0
IsFresh c r = (r.completed ≡ false) × (suc r.start ≤ r.end) × (suc r.end ≤ r.start + c)

-- 1 where the bytes from `s` to `m` are one more than whole chunks, else 0.
abbrev pub lone : ℕ → ℕ → ℕ → ℕ
lone c s m = if (m + 1 - s) % c == 1 then 1 else 0

-- The stretch from `s` to `m` is cut into fresh ranges, up to `stop`.
pub record Cut (c s m : ℕ) (new : List Range) (stop : ℕ) : Type 0 where
  pub tiles : Tiles s new stop
  pub fresh : All (IsFresh c) new
  pub reach : stop + lone c s m ≡ m + 1

pub Tiles-append :
    (a b c : ℕ) (xs ys : List Range) → Tiles a xs b → Tiles b ys c → Tiles a (xs ++ ys) c
Tiles-append a b c [] ys h k = rw h k
Tiles-append a b c (x ∷ xs) ys h k = (h.0, h.1, Tiles-append (suc x.end) b c xs ys h.2 k)

pub chunk_end_lem :
    (c s m : ℕ) → 1 ≤ c → s ≤ m → m + c < half64 → chunk_end c s m ≡ min m (s + (c - 1))
unfolding chunk_end
chunk_end_lem c s m hc hs hb =
    rw
      (
        sub64_small c 1 (omega arith) hc,
        add64_small s (c - 1) (omega arith),
        lt64_small m (s + (c - 1)) (omega arith) (omega arith),
      )
      (ground arith)

add_range_stop :
    (f : ℕ) (pd : ChunkDownload) (s m : ℕ) (rs : List Range)
    → lt64 (chunk_end pd.chunk_size s m) m ≡ false
    → add_range (suc f) pd s m rs
      ≡ some (append_chunk pd.temp_dir s (chunk_end pd.chunk_size s m) rs)
unfolding add_range
add_range_stop f pd s m rs h = rw h

add_range_more :
    (f : ℕ) (pd : ChunkDownload) (s m : ℕ) (rs : List Range)
    → lt64 (chunk_end pd.chunk_size s m) m ≡ true
    → let next = append_chunk pd.temp_dir s (chunk_end pd.chunk_size s m) rs in
      add_range (suc f) pd s m rs ≡ add_range f pd next.0 m next.1
unfolding add_range
add_range_more f pd s m rs h = rw h

-- The range that one round appends.
abbrev pub chunk : Text → ℕ → ℕ → Range
chunk dir s e = record {
  start = s;
  end = e;
  completed = false;
  file_name = get_range_temp_file s e dir;
}

append_chunk_more :
    (dir : Text) (s e : ℕ) (rs : List Range)
    → s < e
    → e < half64 - 1
    → append_chunk dir s e rs ≡ (suc e, rs ++ chunk dir s e ∷ [])
unfolding append_chunk
append_chunk_more dir s e rs h k = ground (arith, add64_small e 1)

append_chunk_lone : (dir : Text) (s : ℕ) (rs : List Range) → append_chunk dir s s rs ≡ (s, rs)
unfolding append_chunk
append_chunk_lone dir s rs = ground arith

lone_last : (c s m : ℕ) → 2 ≤ c → s < m → m < s + c → lone c s m ≡ 0
lone_last c s m hc hs hm = elim (Bool-cases (m + 1 - s == c)) [
  | inl e ↦ let e' : m + 1 - s ≡ c = ground arith in rw (e', mod_self c) refl
  | inr n ↦ let small : m + 1 - s < c = ground arith in rw (mod-eq_of_lt small) (ground arith)
]

lone_self : (c s : ℕ) → 2 ≤ c → lone c s s ≡ 1
lone_self c s hc =
    let one : s + 1 - s ≡ 1 = omega arith in rw (one, mod-eq_of_lt {n = 1} {m = c} hc) refl

lone_step : (c s m : ℕ) → s + c ≤ m → lone c s m ≡ lone c (s + c) m
lone_step c s m h =
    let e : m + 1 - s ≡ (m + 1 - (s + c)) + c = omega arith in
    rw (e, add-mod_right (m + 1 - (s + c)) c) refl

-- The answer of the loop: what it appends, and where it stops.
abbrev pub Cuts : ℕ → ChunkDownload → ℕ → ℕ → List Range → Type 0
Cuts f pd s m rs =
    (stop : ℕ) × (new : List Range) × (add_range f pd s m rs ≡ some (stop, rs ++ new))
    × Cut pd.chunk_size s m new stop

cut_one :
    (f : ℕ) (pd : ChunkDownload) (s m : ℕ) (rs : List Range)
    → 2 ≤ pd.chunk_size
    → s ≤ m
    → m < s + pd.chunk_size
    → m + pd.chunk_size < half64
    → Cuts (suc f) pd s m rs
cut_one f pd s m rs hc hs hm hb = elim (Bool-cases (s == m)) [
  | inl e ↦
      let e' : s ≡ m = ground arith in
      let stops = add_range_stop f pd s s rs (rw (here s (ground arith)) (test s (ground arith))) in
      rw (← e') (
        s,
        [],
        rw append-nil (stops ∙ ap some (rw (here s (ground arith)) (append_chunk_lone _ s rs))),
        record { tiles = refl; fresh = tt; reach = rw (lone_self c s hc) refl },
      )
  | inr n ↦
      let lt : s < m = ground arith in
      let stops = add_range_stop f pd s m rs (rw (here m (omega arith)) (test m (omega arith))) in
      (
        suc m,
        chunk pd.temp_dir s m ∷ [],
        stops ∙ ap some (rw (here m (omega arith)) (append_chunk_more _ s m rs lt (omega arith))),
        record {
          tiles = (refl, omega arith, refl);
          fresh = ((refl, omega arith, omega arith), tt);
          reach = rw (lone_last c s m hc lt hm) (omega arith);
        },
      )
]
  where
    c : ℕ
    c = pd.chunk_size

    test : (k : ℕ) → k ≤ m → lt64 k k ≡ false
    test k h = lt64_small k k (omega arith) (omega arith) ∙ ground arith

    here : (k : ℕ) → (s ≤ k) × (k ≤ m) × (k < s + c) → chunk_end c s k ≡ k
    here k h = chunk_end_lem c s k (omega arith) h.0 (omega arith) ∙ omega arith

cut_more :
    (f : ℕ) (pd : ChunkDownload) (s m : ℕ) (rs : List Range)
    → 2 ≤ pd.chunk_size
    → s + pd.chunk_size ≤ m
    → m + pd.chunk_size < half64
    → Cuts f pd (s + pd.chunk_size) m (rs ++ chunk pd.temp_dir s (s + (pd.chunk_size - 1)) ∷ [])
    → Cuts (suc f) pd s m rs
cut_more f pd s m rs hc hs hb (stop, new, e, cut) = (
  stop,
  chunk pd.temp_dir s (s + (c - 1)) ∷ new,
  add_range_more f pd s m rs
        (rw here (lt64_small (s + (c - 1)) m (omega arith) (omega arith) ∙ ground arith))
      ∙ rw
          (here, append_chunk_more pd.temp_dir s (s + (c - 1)) rs (omega arith) (omega arith), next)
          (e ∙ ap (λ (t : List Range). some (stop, t)) (append_assoc rs _ new)),
  record {
    tiles = (refl, omega arith, rw next cut.tiles);
    fresh = ((refl, omega arith, omega arith), cut.fresh);
    reach = rw (lone_step c s m hs) cut.reach;
  },
)
  where
    c : ℕ
    c = pd.chunk_size

    here : chunk_end c s m ≡ s + (c - 1)
    here = chunk_end_lem c s m (omega arith) (omega arith) hb ∙ omega arith

    next : suc (s + (c - 1)) ≡ s + c
    next = omega arith

-- With chunks of two bytes or more, sizes whose sum an int64 holds and one round of fuel for each
-- byte, the loop of `addRange` ends. What it appends lies end to end from `s`, each range fresh, of
-- two bytes at least and of one chunk at most, and reaches the byte after `m`, or `m` itself
-- exactly if the stretch is one byte more than whole chunks.
pub add_range-Cut :
    (f : ℕ) (pd : ChunkDownload) (s m : ℕ) (rs : List Range)
    → 2 ≤ pd.chunk_size
    → s ≤ m
    → m + pd.chunk_size < half64
    → m - s < f
    → Cuts f pd s m rs
add_range-Cut zero pd s m rs hc hs hb hf = elim hf [ ]
add_range-Cut (suc f) pd s m rs hc hs hb hf = elim (Bool-cases (ltb m (s + pd.chunk_size))) [
  | inl last ↦ cut_one f pd s m rs hc hs (ltb→lt _ _ last) hb
  | inr more ↦
      let reach = ltb→le m (s + pd.chunk_size) more in
      cut_more f pd s m rs hc reach hb
        (add_range-Cut f pd (s + pd.chunk_size) m _ hc reach hb (omega arith))
]

-- With chunks of one byte the loop never ends: a range of one byte is not appended, `start` stays
-- where it is, and the next round sees the same state.
pub add_range_diverges :
    (f : ℕ) (pd : ChunkDownload) (s m : ℕ) (rs : List Range)
    → pd.chunk_size ≡ 1
    → s < m
    → m < half64 - 1
    → add_range f pd s m rs ≡ none
unfolding add_range
add_range_diverges zero pd s m rs hc hs hb = refl
add_range_diverges (suc f) pd s m rs hc hs hb =
    add_range_more f pd s m rs (rw here (lt64_small s m (omega arith) (omega arith) ∙ ground arith))
    ∙ rw (here, append_chunk_lone pd.temp_dir s rs) (add_range_diverges f pd s m rs hc hs hb)
  where
    here : chunk_end pd.chunk_size s m ≡ s
    here = rw hc (chunk_end_lem 1 s m (omega arith) (omega arith) (omega arith) ∙ omega arith)
