-- ===== src/Download/Merge/Order.antt =====
-- The merge writes the chunks in order, and never misses a task that is done.
use pan_client.Base.{
  if◌then◌else◌, keep, Bool-cases, ◌∙◌, ℕ, zero, suc, ◌≤◌, ◌<◌, ◌≡◌, refl, ap, subst, ◌≢◌, ◌⊎◌, inl,
  inr, Bool, true, Option, none, some, is_some, List, [], ◌∷◌, ◌++◌, map, append_assoc, append-nil,
  All, Text, take, get_elem?, length, Option-cases, arith,
}
use pan_client.Download.Merge.{
  Copied, missing, broken, whole, Disk, is_active, Task, Phase, checking, waiting, merged, failed,
  aborted, Merge, remove_at, World,
}

-- The bytes of the chunk files one after the other; `none` where one cannot be read.
unfoldable pub contents : (Text → Option Text) → List Task → Option Text
contents read [] = some []
contents read (t ∷ ts) = elim (read t.temp_filename) [
  | none ↦ none
  | some b ↦ elim (contents read ts) [ none ↦ none | some bs ↦ some (b ++ bs) ]
]

-- One of the goroutines that wait brings the task `k`.
abbrev pub HasIndex : ℕ → List Task → Type 0
HasIndex k [] = ⊥
HasIndex k (t ∷ ts) = (t.index ≡ k) ⊎ HasIndex k ts

-- The bytes of a file that is copied whole, and the part of a file whose copy breaks off.
abbrev pub bytes_of : Copied → Option Text
bytes_of missing = none
bytes_of (broken part) = none
bytes_of (whole bytes) = some bytes

abbrev pub part_of : Copied → Text
part_of missing = []
part_of (broken part) = part
part_of (whole bytes) = []

abbrev pub reads : Disk → Text → Option Text
reads disk name = bytes_of (disk.copy name)

abbrev pub part_at : Disk → Option Task → Text
part_at disk none = []
part_at disk (some t) = part_of (disk.copy t.temp_filename)

-- What a merge that failed has left behind the last whole chunk: the part of the next one.
abbrev pub left_over : Disk → List Task → Phase → ℕ → Text
left_over disk tasks checking n = []
left_over disk tasks waiting n = []
left_over disk tasks merged n = []
left_over disk tasks aborted n = []
left_over disk tasks failed n = part_at disk (get_elem? tasks n)

pub left_over-is_active :
    (disk : Disk) (tasks : List Task) (p : Phase) (n : ℕ)
    → is_active p ≡ true
    → left_over disk tasks p n ≡ []
left_over-is_active disk tasks checking n h = refl
left_over-is_active disk tasks waiting n h = refl
left_over-is_active disk tasks merged n h = refl
left_over-is_active disk tasks aborted n h = refl
left_over-is_active disk tasks failed n h = cc

pub Copied-cases :
    (c : Copied)
    → (c ≡ missing) ⊎ (((part : Text) × (c ≡ broken part)) ⊎ ((bytes : Text) × (c ≡ whole bytes)))
Copied-cases missing = inl refl
Copied-cases (broken part) = inr (inl (part, refl))
Copied-cases (whole bytes) = inr (inr (bytes, refl))

pub keep-snoc :
    (p : Text → Bool) (xs : List Text) (x : Text)
    → keep p (xs ++ x ∷ []) ≡ (if p x then keep p xs ++ x ∷ [] else keep p xs)
unfolding keep
keep-snoc p [] x = elim (Bool-cases (p x)) [
  | inl removable ↦ rw (removable, keep) refl
  | inr other ↦ rw (other, keep) refl
]
keep-snoc p (y ∷ ys) x = elim (Bool-cases (p y)) [
  | inl there ↦ elim (Bool-cases (p x)) [
    | inl removable ↦
        let e : keep p (ys ++ x ∷ []) ≡ keep p ys ++ x ∷ [] =
          keep-snoc p ys x ∙ ap (λ b. if b then keep p ys ++ x ∷ [] else keep p ys) removable in
        rw (there, removable, keep) (ap (λ l. y ∷ l) e)
    | inr other ↦
        let e : keep p (ys ++ x ∷ []) ≡ keep p ys =
          keep-snoc p ys x ∙ ap (λ b. if b then keep p ys ++ x ∷ [] else keep p ys) other in
        rw (there, other, keep) (ap (λ l. y ∷ l) e)
  ]
  | inr gone ↦ rw (gone, keep) (keep-snoc p ys x)
]

module _ (disk : Disk) (tasks : List Task) where
  abbrev pub IsTask : Task → Type 0
  IsTask t = get_elem? tasks t.index ≡ some t

  -- What holds whether or not the merge has just looked for its next task.
  pub record Core (output : Text) (m : Merge) (done : ℕ → Bool) : Type 0 where
    pub mapped : (k : ℕ) (t : Task) → m.task_map k ≡ some t → get_elem? tasks k ≡ some t
    pub notified : All IsTask m.notifying
    pub written :
        (bytes : Text) × (contents (reads disk) (take m.next tasks) ≡ some bytes)
        × (m.output ≡ output ++ (bytes ++ left_over disk tasks m.phase m.next))
    pub files : m.removed ≡ keep disk.removes (map (λ t. t.temp_filename) (take m.next tasks))
    pub complete : m.phase ≡ merged → length tasks ≤ m.next
    pub began : m.phase ≡ merged → 0 < m.next
    pub bounded : m.next ≤ length tasks
    pub live :
        is_active m.phase ≡ true
        → (k : ℕ) → m.next ≤ k
        → done k ≡ true
        → is_some (m.task_map k) ≡ true

  pub record Inv (output : Text) (w : World) : Type 0 where
    pub core : Core output w.merge w.done
    pub awake :
        w.merge.phase ≡ waiting
        → w.done w.merge.next ≡ true
        → HasIndex w.merge.next w.merge.notifying

pub contents-snoc :
    (read : Text → Option Text) (ts : List Task) (t : Task) (bs b : Text)
    → contents read ts ≡ some bs
    → read t.temp_filename ≡ some b
    → contents read (ts ++ t ∷ []) ≡ some (bs ++ b)
unfolding contents
contents-snoc read [] t bs b e h = ground (arith, append-nil b)
contents-snoc read (u ∷ ts) t bs b e h = elim (Option-cases (read u.temp_filename)) [
  | inl n ↦ absurd (cc (rw (n, contents) at e))
  | inr (c, p) ↦ elim (Option-cases (contents read ts)) [
    | inl n ↦ absurd (cc (rw (p, n, contents) at e))
    | inr (cs, q) ↦
        let whole = contents-snoc read ts t cs b q h in
        let parts : some (c ++ cs) ≡ some bs = rw (p, q, contents) at e in
        rw (p, whole, contents) (ground (arith, append_assoc c cs b))
  ]
]

pub take-snoc {ℓ} :
    {A : Type ℓ} (n : ℕ) (xs : List A) (x : A)
    → get_elem? xs n ≡ some x
    → take (suc n) xs ≡ take n xs ++ x ∷ []
take-snoc zero [] x e = cc
take-snoc zero (y ∷ xs) x e = ground arith
take-snoc (suc n) [] x e = cc
take-snoc (suc n) (y ∷ xs) x e = ap (λ l. y ∷ l) (take-snoc n xs x e)

pub map-snoc :
    (ts : List Task) (t : Task)
    → map (λ u. u.temp_filename) (ts ++ t ∷ [])
      ≡ map (λ u. u.temp_filename) ts ++ t.temp_filename ∷ []
map-snoc [] t = refl
map-snoc (u ∷ ts) t = ap (λ l. u.temp_filename ∷ l) (map-snoc ts t)

pub HasIndex-append : (k : ℕ) (ts us : List Task) → HasIndex k ts → HasIndex k (ts ++ us)
HasIndex-append k [] us h = elim h [ ]
HasIndex-append k (t ∷ ts) us (inl e) = inl e
HasIndex-append k (t ∷ ts) us (inr h) = inr (HasIndex-append k ts us h)

pub HasIndex-last : (t : Task) (ts : List Task) → HasIndex t.index (ts ++ t ∷ [])
HasIndex-last t [] = inl refl
HasIndex-last t (u ∷ ts) = inr (HasIndex-last t ts)

-- Another task's message leaves the message for `k` where it is.
pub HasIndex-remove_at :
    (k n : ℕ) (t : Task) (ts : List Task)
    → get_elem? ts n ≡ some t
    → t.index ≢ k
    → HasIndex k ts
    → HasIndex k (remove_at n ts)
unfolding remove_at
HasIndex-remove_at k n t [] e d h = elim h [ ]
HasIndex-remove_at k zero t (u ∷ ts) e d (inl i) = absurd (d (ground arith))
HasIndex-remove_at k zero t (u ∷ ts) e d (inr h) = h
HasIndex-remove_at k (suc n) t (u ∷ ts) e d (inl i) = inl i
HasIndex-remove_at k (suc n) t (u ∷ ts) e d (inr h) = inr (HasIndex-remove_at k n t ts e d h)

pub All-remove_at {ℓ} :
    (P : Task → Type ℓ) (n : ℕ) (ts : List Task) → All P ts → All P (remove_at n ts)
unfolding remove_at
All-remove_at P n [] h = h
All-remove_at P zero (t ∷ ts) h = h.1
All-remove_at P (suc n) (t ∷ ts) h = (h.0, All-remove_at P n ts h.1)

pub All-get {ℓ} :
    (P : Task → Type ℓ) (n : ℕ) (t : Task) (ts : List Task)
    → All P ts
    → get_elem? ts n ≡ some t
    → P t
All-get P n t [] h e = cc
All-get P zero t (u ∷ ts) h e = subst P (ground arith) h.0
All-get P (suc n) t (u ∷ ts) h e = All-get P n t ts h.1 e

pub get_elem?-lt {ℓ} :
    {A : Type ℓ} (xs : List A) (n : ℕ) (x : A) → get_elem? xs n ≡ some x → n < length xs
get_elem?-lt [] n x e = cc
get_elem?-lt (y ∷ xs) zero x e = omega arith
get_elem?-lt (y ∷ xs) (suc n) x e = omega (arith, get_elem?-lt xs n x e)
