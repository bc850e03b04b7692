-- ===== src/Drive/Listings.antt =====
-- What the drivers share of their listings in the cache: each is kept under the prefix of their files
-- constant.go with the id or the path of its directory.
use pan_client.Base.{
  Bool-cases, inl, inr, ◌≡◌, refl, ℕ, ◌==◌, Bool, false, if◌then◌else◌, Option, none, some, [], ◌∷◌,
  ◌++◌, Text, codes,
}
use pan_client.Cache.{Cache}
use pan_client.Cache.View.{view}

abbrev pub cache_directory_prefix : Text
cache_directory_prefix = codes "directory_"

abbrev pub cache_key : Text → Text
cache_key id = cache_directory_prefix ++ id

-- What is behind a prefix.
abbrev pub behind : Text → Text → Option Text
behind [] s = some s
behind (p ∷ ps) [] = none
behind (p ∷ ps) (b ∷ s) = if b == p then behind ps s else none

abbrev pub is_marked : (Text → Bool) → Option Text → Bool
is_marked ids none = false
is_marked ids (some id) = ids id

-- `Del` of the listings of a set of directories, in any order.
unfoldable pub del_dirs : {V W : Type 0} → (Text → Bool) → Cache V × W → Cache V × W
del_dirs ids (c, w) = (
  record c {
    entries =
        λ key. if is_marked ids (behind cache_directory_prefix key) then none else c.entries key;
  },
  w,
)

-- What is left of a listing when some are dropped.
pub del_dirs-view :
    {V W : Type 0} (now : ℕ) (ids : Text → Bool) (s : Cache V × W) (id : Text)
    → view now (del_dirs ids s).0 (cache_key id)
      ≡ (if ids id then none else view now s.0 (cache_key id))
unfolding del_dirs
del_dirs-view now ids (c, w) id = elim (Bool-cases (ids id)) [
  | inl marked ↦ rw marked refl
  | inr kept ↦ rw kept refl
]
