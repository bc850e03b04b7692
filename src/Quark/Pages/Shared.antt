-- ===== src/Quark/Pages/Shared.antt =====
-- What the listings of shares show when their pages share the objects they are decoded into.
use pan_client.Base.{
  ℕ, suc, ◌*◌, ◌≤◌, ◌<◌, ◌≡◌, refl, ap, ◌∙◌, true, false, not, lt→ltb, le→ltb, lt64, lt64_small,
  add64, if◌then◌else◌, ◌%◌, ◌^◌, List, [], ◌∷◌, ◌++◌, append-nil, length-append, ◌+◌, length, take,
  drop, take-all, Text, ok, arith, zero,
}
use pan_client.Drive.{Call, bind, return}
use pan_client.Http.{ask}
use pan_client.Quark.{File, Server, State}
use pan_client.Quark.Replies.{fun_return_by_success}
use pan_client.Quark.Pages.{page_size, overwrite, shown, shared_pages, share_detail}

take-append : {A : Type 0} (xs ys : List A) → take (length xs) (xs ++ ys) ≡ xs
take-append [] ys = refl
take-append (x ∷ xs) ys = ap (λ l. x ∷ l) (take-append xs ys)

take-overwrite :
    {A : Type 0} (a b : List A)
    → length b ≤ length a
    → take (length a) (b ++ drop (length b) a) ≡ b ++ drop (length b) a
take-overwrite a [] le = take-all (length a) a (omega arith)
take-overwrite [] (y ∷ ys) le = absurd (omega arith)
take-overwrite (x ∷ xs) (y ∷ ys) le = ap (λ l. y ∷ l) (take-overwrite xs ys (omega arith))

drop_nil : {A : Type 0} (n : ℕ) → drop {A = A} n [] ≡ []
drop_nil zero = refl
drop_nil (suc n) = refl

fresh_cells : {A : Type 0} (a : List A) → overwrite a [] ≡ a
fresh_cells a = ap (λ l. a ++ l) (drop_nil (length a)) ∙ append-nil a

two_shown :
    {A : Type 0} (a b : List A)
    → length b ≤ length a
    → shown (length a ∷ length b ∷ []) (overwrite b a) ≡ (b ++ drop (length b) a) ++ b
unfolding shown
two_shown a b le =
    ap (λ l. l ++ (take (length b) (overwrite b a) ++ [])) (take-overwrite a b le)
    ∙ ap (λ l. (b ++ drop (length b) a) ++ l)
        (append-nil (take (length b) (overwrite b a)) ∙ take-append b (drop (length b) a))

length-overwritten :
    {A : Type 0} (a b : List A)
    → length b ≤ length a
    → length ((b ++ drop (length b) a) ++ b) ≡ length a + length b
length-overwritten a b le =
    length-append (b ++ drop (length b) a) b ∙ ap (λ n. n + length b) (whole a b le)
  where
    whole :
        {A : Type 0} (xs ys : List A)
        → length ys ≤ length xs
        → length (ys ++ drop (length ys) xs) ≡ length xs
    whole xs [] le = refl
    whole [] (y ∷ ys) le = absurd (omega arith)
    whole (x ∷ xs) (y ∷ ys) le = ap suc (whole xs ys (omega arith))

module _ {S D A : Type 0} (fetch : ℕ → Call S D (List A × ℕ)) where
  -- What the loop does with a page, as `shared_pages` has it.
  abbrev with_page : ℕ → ℕ → List ℕ → List A → List A × ℕ → Call S D (List A)
  with_page fuel page ns cells (more, total) =
      let written = overwrite more cells in
      let seen = ns ++ length more ∷ [] in
      let rest = shared_pages fetch fuel (add64 page 1) seen written in
      if not (lt64 ((page * page_size) % 2 ^ 64) total) then return (shown seen written) else rest

  page_next :
      (fuel page : ℕ) (ns : List ℕ) (cells more : List A) (total : ℕ) (s t : S)
      → fetch page s ≡ (ok (more, total), t)
      → lt64 ((page * page_size) % 2 ^ 64) total ≡ true
      → shared_pages fetch (suc fuel) page ns cells s
        ≡ shared_pages fetch fuel (add64 page 1) (ns ++ length more ∷ []) (overwrite more cells) t
  unfolding shared_pages
  page_next fuel page ns cells more total s t got goes_on =
      ap (bind (with_page fuel page ns cells)) got
      ∙ ap
          (λ b.
            (if not b
                then return (shown (ns ++ length more ∷ []) (overwrite more cells))
                else shared_pages fetch fuel (add64 page 1) (ns ++ length more ∷ [])
                    (overwrite more cells))
              t)
          goes_on

  page_last :
      (fuel page : ℕ) (ns : List ℕ) (cells more : List A) (total : ℕ) (s t : S)
      → fetch page s ≡ (ok (more, total), t)
      → lt64 ((page * page_size) % 2 ^ 64) total ≡ false
      → shared_pages fetch (suc fuel) page ns cells s
        ≡ (ok (shown (ns ++ length more ∷ []) (overwrite more cells)), t)
  unfolding shared_pages
  page_last fuel page ns cells more total s t got ends =
      ap (bind (with_page fuel page ns cells)) got
      ∙ ap
          (λ b.
            (if not b
                then return (shown (ns ++ length more ∷ []) (overwrite more cells))
                else shared_pages fetch fuel (add64 page 1) (ns ++ length more ∷ [])
                    (overwrite more cells))
              t)
          ends

  shared_pages-two :
      (a b : List A) (total fuel : ℕ) (s t u : S)
      → fetch 1 s ≡ (ok (a, total), t)
      → fetch 2 t ≡ (ok (b, total), u)
      → length b ≤ length a
      → page_size < total
      → total ≤ 2 * page_size
      → shared_pages fetch (suc (suc fuel)) 1 [] [] s ≡ (ok ((b ++ drop (length b) a) ++ b), u)
  unfolding add64
  shared_pages-two a b total fuel s t u one two le more enough =
      let goes_on : lt64 ((1 * page_size) % 2 ^ 64) total ≡ true =
        lt64_small 100 total (omega arith) (omega arith) ∙ lt→ltb 100 total (omega arith) in
      let ends : lt64 ((2 * page_size) % 2 ^ 64) total ≡ false =
        lt64_small 200 total (omega arith) (omega arith) ∙ le→ltb 200 total (omega arith) in
      page_next (suc fuel) 1 [] [] a total s t one goes_on
      ∙ ap (λ cells. shared_pages fetch (suc fuel) 2 (length a ∷ []) cells t) (fresh_cells a)
      ∙ page_last fuel 2 (length a ∷ []) a b total t u two ends
      ∙ ap (λ shows. (ok shows, u)) (two_shown a b le)

module _ {W D : Type 0} (server : Server W D) where
  -- The details of a share in two pages of which the second is no longer than the first: the result has
  -- as many items as both pages, but the items of the second page stand in the places of the first items
  -- of the first page as well, so that these are lost.
  pub share_detail-two :
      (pwd_id stoken : Text) (a b : List File) (total fuel : ℕ) (s t u : State W)
      → ask fun_return_by_success (server.get_sharepage_detail pwd_id stoken 1 page_size) s
        ≡ (ok (a, total), t)
      → ask fun_return_by_success (server.get_sharepage_detail pwd_id stoken 2 page_size) t
        ≡ (ok (b, total), u)
      → length b ≤ length a
      → page_size < total
      → total ≤ 2 * page_size
      → (share_detail server (suc (suc fuel)) pwd_id stoken s
          ≡ (ok ((b ++ drop (length b) a) ++ b), u))
        × (length ((b ++ drop (length b) a) ++ b) ≡ length a + length b)
  unfolding share_detail
  share_detail-two pwd_id stoken a b total fuel s t u one two le more enough = (
    shared_pages-two
        (λ page.
          ask fun_return_by_success (server.get_sharepage_detail pwd_id stoken page page_size))
        a b total fuel s t u one two le more enough,
    length-overwritten a b le,
  )
