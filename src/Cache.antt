-- ===== src/Cache.antt =====
-- pan/cache.go: the directory cache, with entries that expire, and a loader that runs once. The
-- `sync.Map` is a function from keys; the clock is an argument of each call, in nanoseconds.
pub mod View
pub mod Loading
pub mod Operate
mod Examples
use pan_client.Base.{
  ℕ, ◌+◌, Bool, true, false, ltb, if◌then◌else◌, Option, none, some, Text, text_eq, Result, ok, err,
}

pub record Entry (V : Type 0) : Type 0 where
  pub value : V
  pub expires_at : ℕ

-- `entries` is the field `data`; `running` is false once `stopCh` is closed.
pub record Cache (V : Type 0) : Type 0 where
  pub entries : Text → Option (Entry V)
  pub default_ttl : ℕ
  pub running : Bool

module _ {V : Type 0} where
  abbrev pub store : Text → Option (Entry V) → Cache V → Cache V
  store key e c = record c { entries = λ j. if text_eq j key then e else c.entries j }

  -- `now.After(entry.expiresAt)`.
  abbrev pub is_expired : ℕ → Entry V → Bool
  is_expired now e = ltb e.expires_at now

  unfoldable pub del : Text → Cache V → Cache V
  del key c = store key none c

  found : ℕ → Text → Cache V → Option (Entry V) → Cache V × Option V
  unfolding del
  found now key c none = (c, none)
  found now key c (some e) = if is_expired now e then (del key c, none) else (c, some e.value)

  -- `Get`: the cache it leaves, and the value.
  unfoldable pub get : ℕ → Text → Cache V → Cache V × Option V
  unfolding found
  get now key c = found now key c (c.entries key)

  unfoldable pub set_with_ttl : ℕ → Text → V → ℕ → Cache V → Cache V
  set_with_ttl now key v ttl c = store key (some (record { value = v; expires_at = now + ttl })) c

  unfoldable pub set : ℕ → Text → V → Cache V → Cache V
  unfolding set_with_ttl
  set now key v c = store key (some (record { value = v; expires_at = now + c.default_ttl })) c

  unfoldable pub clear : Cache V → Cache V
  clear c = record c { entries = λ key. none }

  unfoldable pub stop : Cache V → Cache V
  stop c = record c { running = false }

  still_live : ℕ → Option (Entry V) → Option (Entry V)
  still_live now none = none
  still_live now (some e) = if is_expired now e then none else some e

  -- A tick of `cleanupLoop`; after `Stop` there is none.
  unfoldable pub cleanup : ℕ → Cache V → Cache V
  unfolding still_live
  cleanup now c =
      if c.running then record c { entries = λ key. still_live now (c.entries key) } else c

unfoldable pub new_cache : {V : Type 0} → ℕ → Cache V
new_cache ttl = record { entries = λ key. none; default_ttl = ttl; running = true }

-- What a loader works on: the cache, and the world outside with the clock in it.
abbrev pub Loading : Type 0 → Type 0 → Type 0 → Type 0
Loading V W E = Cache V × W → Result E V × (Cache V × W)

-- `singleflight.Group.Do`, which is not of this repository: it takes the key and the function.
abbrev pub GroupDo : Type 0 → Type 0 → Type 0 → Type 0
GroupDo V W E = Text → Loading V W E → Loading V W E

module _ {V W E : Type 0} (clock : W → ℕ) where
  keep_loaded : Text → Result E V × (Cache V × W) → Result E V × (Cache V × W)
  keep_loaded key (err e, (c, w)) = (err e, (c, w))
  keep_loaded key (ok v, (c, w)) = (ok v, (set (clock w) key v c, w))

  hit_or_load : Text → Loading V W E → W → Cache V × Option V → Result E V × (Cache V × W)
  unfolding keep_loaded
  hit_or_load key loader w (c, none) = keep_loaded key (loader (c, w))
  hit_or_load key loader w (c, some v) = (ok v, (c, w))

  -- The function that `GetOrLoad` hands to the group: a second look, then the loader.
  unfoldable pub check_and_load : Text → Loading V W E → Loading V W E
  unfolding get hit_or_load
  check_and_load key loader (c, w) = hit_or_load key loader w (get (clock w) key c)

  module _ (group_do : GroupDo V W E) where
    hit_or_group : Text → Loading V W E → W → Cache V × Option V → Result E V × (Cache V × W)
    hit_or_group key loader w (c, none) = group_do key (check_and_load key loader) (c, w)
    hit_or_group key loader w (c, some v) = (ok v, (c, w))

    -- `GetOrLoad`; the clock is read for the first look, the second look, and the store.
    unfoldable pub get_or_load : Text → Loading V W E → Loading V W E
    unfolding get hit_or_group
    get_or_load key loader (c, w) = hit_or_group key loader w (get (clock w) key c)
