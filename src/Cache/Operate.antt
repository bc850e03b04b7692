-- ===== src/Cache/Operate.antt =====
-- pan/driver.go: `CacheOperate`, through which a driver uses its cache. A driver whose `DirCache` is nil
-- has `none`, and a call on it that the source does not guard panics: `none` again.
use pan_client.Base.{ℕ, ◌*◌, lt64, if◌then◌else◌, Option, none, some, List, [], ◌∷◌, Text}
use pan_client.Cache.{Cache, new_cache, get, set, set_with_ttl, del, stop}

-- Twelve hours, in nanoseconds.
abbrev default_cache_ttl : ℕ
default_cache_ttl = 12 * (3600 * 1000000000)

module _ {V : Type 0} where
  -- The lifetimes that the call is given, of which the first counts.
  unfoldable pub new_cache_operate : List ℕ → Option (Cache V)
  unfolding new_cache
  new_cache_operate [] = some (new_cache default_cache_ttl)
  new_cache_operate (ttl ∷ ttls) =
      if lt64 0 ttl then some (new_cache ttl) else some (new_cache default_cache_ttl)

  unfoldable pub stop_cache : Option (Cache V) → Option (Cache V)
  unfolding stop
  stop_cache none = none
  stop_cache (some c) = some (stop c)

  unfoldable pub operate_get : ℕ → Text → Option (Cache V) → Option (Cache V × Option V)
  unfolding get
  operate_get now key none = none
  operate_get now key (some c) = some (get now key c)

  unfoldable pub operate_set : ℕ → Text → V → Option (Cache V) → Option (Cache V)
  unfolding set
  operate_set now key v none = none
  operate_set now key v (some c) = some (set now key v c)

  unfoldable pub operate_set_with_ttl : ℕ → Text → V → ℕ → Option (Cache V) → Option (Cache V)
  unfolding set_with_ttl
  operate_set_with_ttl now key v ttl none = none
  operate_set_with_ttl now key v ttl (some c) = some (set_with_ttl now key v ttl c)

  unfoldable pub operate_del : Text → Option (Cache V) → Option (Cache V)
  unfolding del
  operate_del key none = none
  operate_del key (some c) = some (del key c)
