-- ===== src/Base/TextLaws.antt =====
-- The laws of splitting and trimming that proofs about names use.
use mathlib.Core.Path.{◌≡◌, refl, ap, ◌∙◌}
use mathlib.Core.Logic.{◌≢◌}
use mathlib.Core.List.{List, [], ◌∷◌, ◌++◌, reverse, reverse-append, reverse-reverse, reverse-cons}
use native.Mathlib.Omega.{arith}
use Prim.Native.Nat.{ℕ}
use mathlib.Core.Logic.{inl, inr}
use pan_client.Base.Tests.{◌==◌, Bool-cases}
use pan_client.Base.Lists.{All}
use pan_client.Base.Texts.{Text, split, trim_left, trim_right}

-- The byte `c` does not stand in the text.
abbrev pub Lacks : ℕ → Text → Type 0
Lacks c = All (λ b. b ≢ c)

pub split-Lacks : (c : ℕ) (s : Text) → Lacks c s → split c s ≡ s ∷ []
unfolding split
split-Lacks c [] h = refl
split-Lacks c (b ∷ s) h = ground (arith, split-Lacks c s h.1)

pub split-append : (c : ℕ) (s t : Text) → Lacks c s → split c (s ++ c ∷ t) ≡ s ∷ split c t
unfolding split
split-append c [] t h = ground arith
split-append c (b ∷ s) t h = ground (arith, split-append c s t h.1)

trim_left-Lacks : (c b : ℕ) (s : Text) → b ≢ c → trim_left c (b ∷ s) ≡ b ∷ s
unfolding trim_left
trim_left-Lacks c b s h = ground arith

-- A text whose last byte is not `c` stays as it is.
pub trim_right-last : (c b : ℕ) (s : Text) → b ≢ c → trim_right c (s ++ b ∷ []) ≡ s ++ b ∷ []
unfolding trim_right
trim_right-last c b s h =
    rw (reverse-append s (b ∷ []), trim_left-Lacks c b (reverse s) h)
      (reverse-cons b (reverse s) ∙ ap (λ t. t ++ b ∷ []) (reverse-reverse s))

-- A text without `c` that is not empty ends in another byte.
pub Lacks-unsnoc :
    (c b : ℕ) (s : Text) → Lacks c (b ∷ s) → (t : Text) × (d : ℕ) × (b ∷ s ≡ t ++ d ∷ []) × (d ≢ c)
Lacks-unsnoc c b [] h = ([], b, refl, h.0)
Lacks-unsnoc c b (a ∷ s) h =
    let (t, d, e, n) = Lacks-unsnoc c a s h.1 in (b ∷ t, d, ap (λ u. b ∷ u) e, n)

-- A part and its successors stand in front of the split of what follows a separator.
pub split-behind :
    (c : ℕ) (s t : Text)
    → (p : Text) × (ps : List Text) × (split c (s ++ c ∷ t) ≡ p ∷ (ps ++ split c t))
unfolding split
split-behind c [] t = ([], [], ground arith)
split-behind c (b ∷ s) t =
    let (p, ps, e) = split-behind c s t in
    elim (Bool-cases (b == c)) [
      | inl same ↦ ([], p ∷ ps, rw (same, e) refl)
      | inr other ↦ (b ∷ p, ps, rw (other, e) refl)
    ]

pub split-cons : (c : ℕ) (s : Text) → (p : Text) × (ps : List Text) × (split c s ≡ p ∷ ps)
unfolding split
split-cons c [] = ([], [], refl)
split-cons c (b ∷ s) =
    let (p, ps, e) = split-cons c s in
    elim (Bool-cases (b == c)) [
      | inl same ↦ ([], split c s, rw same refl)
      | inr other ↦ (b ∷ p, ps, rw (other, e) refl)
    ]
