-- ===== src/Base/Paths.antt =====
-- Package filepath on slash-separated paths, and a search of package strings.
use Prim.Native.Nat.{ℕ}
use mathlib.Core.Bool.{Bool, false, ◌||◌}
use mathlib.Core.List.{List, [], ◌∷◌, ◌++◌, reverse}
use mathlib.Core.Option.{Option, none, some}
use pan_client.Base.Tests.{◌==◌, if◌then◌else◌}
use pan_client.Base.Texts.{Text, codes, text_eq, has_prefix, is_empty, split, slash}

-- `strings.Contains`.
unfoldable pub contains : Text → Text → Bool
contains [] p = has_prefix [] p
contains (b ∷ s) p = has_prefix (b ∷ s) p || contains s p

has_dot : Text → Bool
has_dot [] = false
has_dot (b ∷ s) = b == b'.' || has_dot s

last_has_dot : List Text → Bool
last_has_dot [] = false
last_has_dot (p ∷ []) = has_dot p
last_has_dot (p ∷ q ∷ ps) = last_has_dot (q ∷ ps)

-- Whether `filepath.Ext` is not empty: the last part of the path has a dot.
unfoldable pub has_ext : Text → Bool
unfolding has_dot last_has_dot
has_ext path = last_has_dot (split slash path)

abbrev behind_last : List Text → List Text
behind_last [] = []
behind_last (p ∷ ps) = ps

-- The parts of a path as `filepath.Clean` leaves them, the last first: no empty part, no `.`, and `..`
-- takes back the part before it, at the root nothing.
clean_parts : List Text → List Text → List Text
clean_parts [] done = done
clean_parts (p ∷ ps) done = clean_parts ps (
    if is_empty p
    then done
    else if text_eq p (codes ".")
    then done
    else if text_eq p (codes "..")
    then behind_last done
    else p ∷ done)

unfoldable pub clean_path : Text → List Text
unfolding clean_parts
clean_path path = reverse (clean_parts (split slash path) [])

abbrev pub join_parts : List Text → Text
join_parts [] = []
join_parts (p ∷ []) = p
join_parts (p ∷ q ∷ ps) = p ++ slash ∷ join_parts (q ∷ ps)

-- A way up for each part of the base that is left.
abbrev climb : List Text → List Text → List Text
climb [] target = target
climb (b ∷ base) target = codes ".." ∷ climb base target

abbrev rel_parts : List Text → List Text → List Text
rel_parts [] target = target
rel_parts (b ∷ base) [] = climb (b ∷ base) []
rel_parts (b ∷ base) (t ∷ target) =
    if text_eq b t then rel_parts base target else climb (b ∷ base) (t ∷ target)

abbrev dot_if_empty : List Text → List Text
dot_if_empty [] = codes "." ∷ []
dot_if_empty (p ∷ ps) = p ∷ ps

-- `filepath.Rel` from an absolute base: the base itself is `.`, and a relative target is an error.
unfoldable pub rel : Text → Text → Option Text
unfolding clean_path
rel base target =
    if has_prefix target (slash ∷ [])
    then some (join_parts (dot_if_empty (rel_parts (clean_path base) (clean_path target))))
    else none

-- `strings.Replace` of every byte `old` by `new`.
unfoldable pub replace_byte : ℕ → ℕ → Text → Text
replace_byte old new [] = []
replace_byte old new (b ∷ s) = (if b == old then new else b) ∷ replace_byte old new s
