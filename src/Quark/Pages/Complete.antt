-- ===== src/Quark/Pages/Complete.antt =====
-- A listing in pages is read whole.
use pan_client.Base.{
  ℕ, zero, suc, ◌+◌, ◌*◌, ◌-◌, ◌≤◌, ◌<◌, ◌%◌, ◌^◌, ◌≡◌, refl, sym, subst, ap, ◌∙◌, inl, inr, true,
  false, not, ltb, lt64, lt64_small, add64, add64_small, half64, if◌then◌else◌, List, [], ◌∷◌, ◌++◌,
  Result, ok, length, take, drop, take-all, Bool-cases, ltb→lt, ltb→le, arith,
}
use pan_client.Errors.{GoError}
use pan_client.Drive.{Call, bind-ok, return}
use pan_client.Quark.Pages.{pages, page_size}

take_nil : {A : Type 0} (n : ℕ) → take {A = A} n [] ≡ []
take_nil zero = refl
take_nil (suc n) = refl

take-add : {A : Type 0} (n m : ℕ) (xs : List A) → take n xs ++ take m (drop n xs) ≡ take (n + m) xs
take-add zero m xs = ap (λ n. take n xs) (omega arith)
take-add (suc n) m [] = take_nil m ∙ sym (take_nil (suc n + m))
take-add (suc n) m (x ∷ xs) =
    ap (λ t. x ∷ t) (take-add n m xs) ∙ ap (λ k. take k (x ∷ xs)) {x = suc (n + m)} (omega arith)

module _ {S D A : Type 0} (fetch : ℕ → Call S D (List A × ℕ)) (files : List A) (P : S → Type 0)
    (small : length files < half64 - 200)
    (honest : (k : ℕ) (s : S)
      → P s
      → ((fetch (suc k) s).0 ≡ ok (take page_size (drop (k * page_size) files), length files))
        × P (fetch (suc k) s).1) where
  page_test :
      (k : ℕ)
      → k * page_size ≤ length files
      → lt64 ((suc k * page_size) % 2 ^ 64) (length files) ≡ ltb (suc k * page_size) (length files)
  page_test k begun =
      let whole : (suc k * page_size) % 2 ^ 64 ≡ suc k * page_size = omega arith in
      ap (λ n. lt64 n (length files)) whole
      ∙ lt64_small (suc k * page_size) (length files) (omega arith) (omega arith)

  so_far :
      (k : ℕ)
      → take (k * page_size) files ++ take page_size (drop (k * page_size) files)
        ≡ take (suc k * page_size) files
  so_far k = take-add (k * page_size) page_size files ∙ ap (λ n. take n files) (omega arith)

  -- What the loop does with a page, as `pages` has it.
  abbrev next_page : ℕ → ℕ → List A → List A × ℕ → Call S D (List A)
  next_page fuel k items (more, total) =
      let rest = pages fetch fuel (add64 (suc k) 1) (items ++ more) in
      if not (lt64 ((suc k * page_size) % 2 ^ 64) total) then return (items ++ more) else rest

  page_got :
      (fuel k : ℕ) (s : S)
      → P s
      → k * page_size ≤ length files
      → pages fetch (suc fuel) (suc k) (take (k * page_size) files) s
        ≡ (if not (ltb (suc k * page_size) (length files))
              then return (take (suc k * page_size) files)
              else pages fetch fuel (add64 (suc k) 1) (take (suc k * page_size) files))
            (fetch (suc k) s).1
  unfolding pages
  page_got fuel k s p begun =
      bind-ok (next_page fuel k (take (k * page_size) files)) (fetch (suc k) s)
        (take page_size (drop (k * page_size) files), length files) ((honest k s p).0)
      ∙ ap
          (λ t.
            (if not t
                then return
                    (take (k * page_size) files ++ take page_size (drop (k * page_size) files))
                else pages fetch fuel (add64 (suc k) 1)
                    (take (k * page_size) files ++ take page_size (drop (k * page_size) files)))
              (fetch (suc k) s).1)
          (page_test k begun)
      ∙ ap
          (λ xs.
            (if not (ltb (suc k * page_size) (length files))
                then return xs
                else pages fetch fuel (add64 (suc k) 1) xs)
              (fetch (suc k) s).1)
          (so_far k)

  page_last :
      (fuel k : ℕ) (s : S)
      → P s
      → k * page_size ≤ length files
      → ltb (suc k * page_size) (length files) ≡ false
      → pages fetch (suc fuel) (suc k) (take (k * page_size) files) s
        ≡ (ok files, (fetch (suc k) s).1)
  page_last fuel k s p begun last =
      page_got fuel k s p begun
      ∙ ap
          (λ t.
            (if not t
                then return (take (suc k * page_size) files)
                else pages fetch fuel (add64 (suc k) 1) (take (suc k * page_size) files))
              (fetch (suc k) s).1)
          last
      ∙ ap (λ xs. (ok xs, (fetch (suc k) s).1))
          (take-all (suc k * page_size) files (ltb→le (suc k * page_size) (length files) last))

  page_more :
      (fuel k : ℕ) (s : S)
      → P s
      → k * page_size ≤ length files
      → ltb (suc k * page_size) (length files) ≡ true
      → pages fetch (suc fuel) (suc k) (take (k * page_size) files) s
        ≡ pages fetch fuel (suc (suc k)) (take (suc k * page_size) files) (fetch (suc k) s).1
  page_more fuel k s p begun more =
      page_got fuel k s p begun
      ∙ ap
          (λ t.
            (if not t
                then return (take (suc k * page_size) files)
                else pages fetch fuel (add64 (suc k) 1) (take (suc k * page_size) files))
              (fetch (suc k) s).1)
          more
      ∙ ap (λ n. pages fetch fuel n (take (suc k * page_size) files) (fetch (suc k) s).1)
          (add64_small (suc k) 1 (omega arith) ∙ omega arith)

  ends :
      (fuel k : ℕ) (s : S)
      → P s
      → k * page_size ≤ length files
      → ltb (suc k * page_size) (length files) ≡ false
      → let r = pages fetch (suc fuel) (suc k) (take (k * page_size) files) s in
        (r.0 ≡ ok files) × P r.1
  ends fuel k s p begun last =
      subst (λ (r : Result (GoError D) (List A) × S). (r.0 ≡ ok files) × P r.1)
        (sym (page_last fuel k s p begun last)) (refl, (honest k s p).1)

  pages_from :
      (fuel k : ℕ) (s : S)
      → P s
      → k * page_size ≤ length files
      → length files ≤ (k + suc fuel) * page_size
      → let r = pages fetch (suc fuel) (suc k) (take (k * page_size) files) s in
        (r.0 ≡ ok files) × P r.1
  pages_from zero k s p begun enough = elim (Bool-cases (ltb (suc k * page_size) (length files))) [
    | inr last ↦ ends zero k s p begun last
    | inl more ↦ absurd (omega (arith, ltb→lt (suc k * page_size) (length files) more))
  ]
  pages_from (suc fuel) k s p begun enough =
      elim (Bool-cases (ltb (suc k * page_size) (length files))) [
        | inr last ↦ ends (suc fuel) k s p begun last
        | inl more ↦
            let beyond = ltb→lt (suc k * page_size) (length files) more in
            subst (λ (r : Result (GoError D) (List A) × S). (r.0 ≡ ok files) × P r.1)
              (sym (page_more (suc fuel) k s p begun more))
              (pages_from fuel (suc k) (fetch (suc k) s).1 (honest k s p).1 (omega arith)
                (omega arith))
      ]

  -- The loop over the pages of a listing that has the given items, fewer than an int64 counts, and goes on
  -- having them while it is read, ends and gives all items, in order, each once: with a round for each
  -- page, and one page more at most.
  pub pages_lem :
      (fuel : ℕ) (s : S)
      → P s
      → length files ≤ fuel * page_size
      → let r = pages fetch (suc fuel) 1 [] s in (r.0 ≡ ok files) × P r.1
  pages_lem fuel s p enough = pages_from fuel 0 s p (omega arith) (omega arith)
