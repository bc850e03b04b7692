-- ===== src/Cache/View.antt =====
-- The cache refines a map whose entries vanish with time.
use pan_client.Base.{
  ℕ, ◌+◌, ◌≤◌, ◌≡◌, refl, ap, ◌∙◌, inl, inr, true, ltb, if◌then◌else◌, Option, none, some, Text,
  text_eq, text_eq→eq, Bool-cases, Option-cases, arith,
}
use pan_client.Cache.{Entry, Cache, get, set, set_with_ttl, del, clear, stop, cleanup}

module _ {V : Type 0} where
  abbrev live : ℕ → Option (Entry V) → Option V
  live now none = none
  live now (some e) = if ltb e.expires_at now then none else some e.value

  -- The map that a reader sees at the time `now`.
  abbrev pub view : ℕ → Cache V → Text → Option V
  view now c key = live now (c.entries key)

  live-later :
      (now later : ℕ) (o : Option (Entry V)) → now ≤ later → live now o ≡ none → live later o ≡ none
  live-later now later none h e = refl
  live-later now later (some x) h e = ground arith

  -- `Get` answers what the map has, and changes the map for no reader from then on.
  pub get-view :
      (now later : ℕ) (key j : Text) (c : Cache V)
      → now ≤ later
      → ((get now key c).1 ≡ view now c key) × (view later (get now key c).0 j ≡ view later c j)
  unfolding get del
  get-view now later key j c h = elim (Option-cases (c.entries key)) [
    | inl e ↦ rw (e, get) (refl, refl)
    | inr (x, e) ↦ elim (Bool-cases (ltb x.expires_at now)) [
      | inl old ↦ rw (e, old, get) (refl, gone x e old)
      | inr new ↦ rw (e, new, get) (refl, refl)
    ]
  ]
    where
      gone :
          (x : Entry V)
          → c.entries key ≡ some x
          → ltb x.expires_at now ≡ true
          → live later (if text_eq j key then none else c.entries j) ≡ live later (c.entries j)
      gone x e old = elim (Bool-cases (text_eq j key)) [
        | inl same ↦ rw (same, text_eq→eq j key same, e) (ground arith)
        | inr other ↦ rw other refl
      ]

  -- A store under a key is seen under that key while it is not expired, and under no other.
  pub set_with_ttl-view :
      (now later ttl : ℕ) (key j : Text) (v : V) (c : Cache V)
      → view later (set_with_ttl now key v ttl c) j ≡ (
          if text_eq j key
          then (if ltb (now + ttl) later then none else some v)
          else view later c j)
  unfolding set_with_ttl
  set_with_ttl-view now later ttl key j v c = ground arith

  set-set_with_ttl :
      (now : ℕ) (key : Text) (v : V) (c : Cache V)
      → set now key v c ≡ set_with_ttl now key v c.default_ttl c
  unfolding set
  set-set_with_ttl now key v c = refl

  pub set-view :
      (now later : ℕ) (key j : Text) (v : V) (c : Cache V)
      → view later (set now key v c) j ≡ (
          if text_eq j key
          then (if ltb (now + c.default_ttl) later then none else some v)
          else view later c j)
  unfolding set
  set-view now later key j v c = ground arith

  pub del-view :
      (later : ℕ) (key j : Text) (c : Cache V)
      → view later (del key c) j ≡ (if text_eq j key then none else view later c j)
  unfolding del
  del-view later key j c = ground arith

  -- A tick of the cleanup is seen by no reader from then on, whether or not the cache runs.
  pub cleanup-view :
      (now later : ℕ) (j : Text) (c : Cache V)
      → now ≤ later
      → view later (cleanup now c) j ≡ view later c j
  unfolding cleanup
  cleanup-view now later j c h = elim (Option-cases (c.entries j)) [
    | inl e ↦ ground arith
    | inr (x, e) ↦ ground arith
  ]

  -- The operations against the map that a reader sees. From the time `now` of the call on, `Get`
  -- answers what the map has and changes nothing; a store with either lifetime changes the map at
  -- its key until the lifetime is over, and nowhere else; `Del` takes away one key, `Clear` all of
  -- them; a tick of the cleanup and `Stop` change nothing.
  pub Cache-refines :
      (now later ttl : ℕ) (key j : Text) (v : V) (c : Cache V)
      → now ≤ later
      → ((get now key c).1 ≡ view now c key)
        × (view later (get now key c).0 j ≡ view later c j)
        × (view later (set_with_ttl now key v ttl c) j ≡ (
            if text_eq j key
            then (if ltb (now + ttl) later then none else some v)
            else view later c j))
        × (view later (set now key v c) j ≡ (
            if text_eq j key
            then (if ltb (now + c.default_ttl) later then none else some v)
            else view later c j))
        × (view later (del key c) j ≡ (if text_eq j key then none else view later c j))
        × (view later (clear c) j ≡ none)
        × (view later (cleanup now c) j ≡ view later c j)
        × (view later (stop c) j ≡ view later c j)
  unfolding clear stop
  Cache-refines now later ttl key j v c h =
      let (answer, same) = get-view now later key j c h in
      (
        answer,
        same,
        set_with_ttl-view now later ttl key j v c,
        ap (λ (d : Cache V). view later d j) (set-set_with_ttl now key v c)
            ∙ set_with_ttl-view now later c.default_ttl key j v c,
        del-view later key j c,
        refl,
        cleanup-view now later j c h,
        refl,
      )
