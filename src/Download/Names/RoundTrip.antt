-- ===== src/Download/Names/RoundTrip.antt =====
-- A chunk file's name gives back the range it was made from.
use pan_client.Base.{
  ℕ, zero, suc, ◌+◌, ◌-◌, ◌*◌, ◌/◌, ◌%◌, ◌≤◌, ◌<◌, ◌≡◌, refl, sym, ap, ◌∙◌, ◌≢◌, inl, inr, ◌==◌,
  some, List, [], ◌∷◌, ◌++◌, append_assoc, All, Text, codes, split, slash, half64, Lacks,
  split-Lacks, split-append, trim_right-last, Lacks-unsnoc, split-behind, split-cons, text_eq_refl,
  All-append, Bool-cases, arith,
}
use pan_client.Download.Names.{
  dash, emit, decimal, format_int, temp_name, join, get_range_temp_file, last_part, base,
  digits_value, parse_digits, parse_int, range_of_parts, get_range_start_end,
}

abbrev IsDigit : ℕ → Type 0
IsDigit c = (b'0' ≤ c) × (c ≤ b'9')

digits-Lacks : (c : ℕ) (s : Text) → c < b'0' → All IsDigit s → Lacks c s
digits-Lacks c [] h d = tt
digits-Lacks c (b ∷ s) h d = (omega arith, digits-Lacks c s h d.1)

emit-digits : (f n : ℕ) (out : Text) → All IsDigit out → All IsDigit (emit f n out)
unfolding emit
emit-digits zero n out h = h
emit-digits (suc f) n out h =
    ground (arith, emit-digits f (n / 10) ((b'0' + n % 10) ∷ out) ((omega arith, omega arith), h))

digits_value-emit :
    (f n : ℕ) (out : Text) → n ≤ f → digits_value (emit f n out) 0 ≡ digits_value out n
unfolding emit
digits_value-emit zero n out h = let e : n ≡ 0 = omega arith in rw e refl
digits_value-emit (suc f) n out h = elim (Bool-cases (n == 0)) [
  | inl z ↦ rw z (ap (digits_value out) (ground arith))
  | inr p ↦ rw p (digits_value-emit f (n / 10) ((b'0' + n % 10) ∷ out) (ground arith) ∙ front)
]
  where
    back : n / 10 * 10 + (b'0' + n % 10 - b'0') ≡ n
    back = omega arith

    front : digits_value ((b'0' + n % 10) ∷ out) (n / 10) ≡ digits_value out n
    front = unfold digits_value in ground (arith, back)

-- The emitted text is not empty where `out` is not, or where the number is not 0.
emit-cons : (f n b : ℕ) (out : Text) → (c : ℕ) × (s : Text) × (emit f n (b ∷ out) ≡ c ∷ s)
unfolding emit
emit-cons zero n b out = (b, out, refl)
emit-cons (suc f) n b out = elim (Bool-cases (n == 0)) [
  | inl z ↦ (b, out, rw z)
  | inr p ↦ let (c, s, e) = emit-cons f (n / 10) (b'0' + n % 10) (b ∷ out) in (c, s, rw p e)
]

decimal-suc : (n : ℕ) → decimal (suc n) ≡ emit (suc n) (suc n) []
unfolding decimal
decimal-suc n = ground arith

emit-suc : (n : ℕ) → emit (suc n) (suc n) [] ≡ emit n (suc n / 10) ((b'0' + suc n % 10) ∷ [])
unfolding emit
emit-suc n = ground arith

decimal-zero : decimal 0 ≡ b'0' ∷ []
unfolding decimal
decimal-zero = refl

decimal-cons : (n : ℕ) → (c : ℕ) × (s : Text) × (decimal n ≡ c ∷ s)
decimal-cons zero = (b'0', [], decimal-zero)
decimal-cons (suc n) =
    let (c, s, e) = emit-cons n (suc n / 10) (b'0' + suc n % 10) [] in
    (c, s, decimal-suc n ∙ (emit-suc n ∙ e))

decimal-digits : (n : ℕ) → All IsDigit (decimal n)
unfolding decimal
decimal-digits n = ground (arith, emit-digits n n [] tt)

digits_value-decimal : (n : ℕ) → digits_value (decimal n) 0 ≡ some n
digits_value-decimal zero = rw decimal-zero (unfold digits_value in refl)
digits_value-decimal (suc n) =
    rw decimal-suc (rw (digits_value-emit (suc n) (suc n) [] (omega arith)) (nothing (suc n)))
  where
    nothing : (k : ℕ) → digits_value [] k ≡ some k
    nothing k = unfold digits_value in refl

parse_int-digits :
    (c : ℕ) (s : Text) (n : ℕ)
    → IsDigit c
    → n < half64
    → digits_value (c ∷ s) 0 ≡ some n
    → parse_int (c ∷ s) ≡ some n
unfolding parse_int parse_digits
parse_int-digits c s n d h e = rw e (ground arith)

-- An int64 that is not negative is read back as it was printed.
pub parse_int-format_int : (n : ℕ) → n < half64 → parse_int (format_int n) ≡ some n
unfolding format_int
parse_int-format_int n h =
    let (c, s, e) = decimal-cons n in
    let d = decimal-digits n in
    let v = digits_value-decimal n in
    ground (arith, ap parse_int e, parse_int-digits c s n (rw e at d).0 h (rw e at v))

format_int-Lacks : (c n : ℕ) → c < b'0' → n < half64 → Lacks c (format_int n)
unfolding format_int
format_int-Lacks c n h b = ground (arith, digits-Lacks c (decimal n) h (decimal-digits n))

format_int-cons : (n : ℕ) → n < half64 → (c : ℕ) × (s : Text) × (format_int n ≡ c ∷ s)
unfolding format_int
format_int-cons n b = let (c, s, e) = decimal-cons n in (c, s, ground (arith, e))

-- The name without its last byte, which is a digit and so no slash.
temp_name-unsnoc :
    (s e : ℕ) → e < half64 → (t : Text) × (d : ℕ) × (temp_name s e ≡ t ++ d ∷ []) × (d ≢ slash)
unfolding temp_name
temp_name-unsnoc s e h =
    let (c, r, q) = format_int-cons e h in
    let lacks : Lacks slash (c ∷ r) = rw q at (format_int-Lacks slash e (omega arith) h) in
    let (t, d, u, n) = Lacks-unsnoc slash c r lacks in
    (
      codes "temp-" ++ (format_int s ++ dash ∷ t),
      d,
      rw (q, u)
          (ap (λ k. codes "temp-" ++ k) (sym (append_assoc (format_int s) (dash ∷ t) (d ∷ [])))),
      n,
    )

last_part-append :
    (ps : List Text) (p q : Text) (qs : List Text)
    → last_part (p ∷ (ps ++ q ∷ qs)) ≡ last_part (q ∷ qs)
unfolding last_part
last_part-append [] p q qs = refl
last_part-append (r ∷ ps) p q qs = last_part-append ps r q qs

last_part-behind :
    (s t : Text) → last_part (split slash (s ++ slash ∷ t)) ≡ last_part (split slash t)
last_part-behind s t =
    let (p, ps, e) = split-behind slash s t in
    let (q, qs, e') = split-cons slash t in rw (e, e') (last_part-append ps p q qs)

-- `Base` of a path whose last byte is no slash is the last part.
base-unsnoc :
    (t : Text) (d : ℕ) → d ≢ slash → base (t ++ d ∷ []) ≡ last_part (split slash (t ++ d ∷ []))
unfolding base
base-unsnoc [] d n = rw (trim_right-last slash d [] n) refl
base-unsnoc (b ∷ t) d n = rw (trim_right-last slash d (b ∷ t) n) refl

temp_name-Lacks : (s e : ℕ) → s < half64 → e < half64 → Lacks slash (temp_name s e)
unfolding temp_name
temp_name-Lacks s e hs he =
    All-append _ (codes "temp-") (format_int s ++ dash ∷ format_int e) (omega arith)
      (All-append _ (format_int s) (dash ∷ format_int e) (lacks s hs) (omega arith, lacks e he))
  where
    lacks : (n : ℕ) → n < half64 → Lacks slash (format_int n)
    lacks n h = format_int-Lacks slash n (omega arith) h

last_part-temp_name :
    (s e : ℕ) → s < half64 → e < half64 → last_part (split slash (temp_name s e)) ≡ temp_name s e
unfolding last_part
last_part-temp_name s e hs he = rw (split-Lacks slash _ (temp_name-Lacks s e hs he)) refl

base-behind :
    (dir t : Text) (d : ℕ)
    → d ≢ slash
    → base (dir ++ slash ∷ (t ++ d ∷ [])) ≡ last_part (split slash (t ++ d ∷ []))
base-behind dir t d n =
    ap base e
    ∙ (base-unsnoc (dir ++ slash ∷ t) d n
        ∙ (ap (λ x. last_part (split slash x)) (sym e) ∙ last_part-behind dir (t ++ d ∷ [])))
  where
    e : dir ++ slash ∷ (t ++ d ∷ []) ≡ (dir ++ slash ∷ t) ++ d ∷ []
    e = sym (append_assoc dir (slash ∷ t) (d ∷ []))

base-join :
    (s e : ℕ) (dir : Text)
    → s < half64
    → e < half64
    → base (get_range_temp_file s e dir) ≡ temp_name s e
unfolding get_range_temp_file join
base-join s e [] hs he =
    let (t, d, q, n) = temp_name-unsnoc s e he in
    rw q (base-unsnoc t d n ∙ rw (← q) (last_part-temp_name s e hs he))
base-join s e (b ∷ dir) hs he =
    let (t, d, q, n) = temp_name-unsnoc s e he in
    ap (λ x. base ((b ∷ dir) ++ slash ∷ x)) q
    ∙ (base-behind (b ∷ dir) t d n
        ∙ (ap (λ x. last_part (split slash x)) (sym q) ∙ last_part-temp_name s e hs he))

split-temp_name :
    (s e : ℕ)
    → s < half64
    → e < half64
    → split dash (temp_name s e) ≡ codes "temp" ∷ format_int s ∷ format_int e ∷ []
unfolding temp_name
split-temp_name s e hs he =
    split-append dash (codes "temp") (format_int s ++ dash ∷ format_int e) (omega arith)
    ∙ rw
        (
          split-append dash (format_int s) (format_int e)
              (format_int-Lacks dash s (omega arith) hs),
          split-Lacks dash (format_int e) (format_int-Lacks dash e (omega arith) he),
        )
        refl

-- Of a chunk file in any directory, `getRangeStartEnd` reads back the two bounds that
-- `getRangeTempFile` wrote, for bounds that an int64 holds.
pub get_range_start_end-temp_file :
    (s e : ℕ) (dir : Text)
    → s < half64
    → e < half64
    → get_range_start_end (get_range_temp_file s e dir) ≡ (s, e)
unfolding get_range_start_end range_of_parts
get_range_start_end-temp_file s e dir hs he =
    rw
      (
        base-join s e dir hs he,
        split-temp_name s e hs he,
        text_eq_refl (codes "temp"),
        parse_int-format_int s hs,
        parse_int-format_int e he,
      )
      refl
