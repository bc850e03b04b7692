-- ===== src/Cache/Loading.antt =====
-- `GetOrLoad`: when the loader runs, and what stays in the cache.
use pan_client.Base.{
  ℕ, ◌+◌, ◌≤◌, ◌≡◌, refl, ap, ◌∙◌, inl, inr, ltb, Option, none, some, Text, text_eq_refl, Result,
  ok, err, Bool-cases, Option-cases, arith,
}
use pan_client.Cache.{
  Cache, Loading, GroupDo, get, set, keep_loaded, hit_or_load, hit_or_group, check_and_load,
  get_or_load,
}
use pan_client.Cache.View.{view, get-view}

module _ {V : Type 0} where
  pub get-hit :
      (now : ℕ) (key : Text) (c : Cache V) (v : V)
      → view now c key ≡ some v
      → get now key c ≡ (c, some v)
  unfolding get
  get-hit now key c v h = elim (Option-cases (c.entries key)) [
    | inl e ↦ absurd (cc (rw e at h))
    | inr (x, e) ↦ elim (Bool-cases (ltb x.expires_at now)) [
      | inl old ↦ absurd (cc (rw (e, old) at h))
      | inr new ↦
          let same : some x.value ≡ some v = rw (e, new) at h in
          rw (e, new, get) (ap (λ (o : Option V). (c, o)) same)
    ]
  ]

  -- The cache that the loader finds: both looks may have dropped an expired entry.
  abbrev pub after_looks : ℕ → Text → Cache V → Cache V
  after_looks now key c = (get now key (get now key c).0).0

  -- A look that finds nothing.
  pub get-miss :
      (now : ℕ) (key : Text) (c : Cache V)
      → view now c key ≡ none
      → get now key c ≡ ((get now key c).0, none)
  get-miss now key c h =
      ap (λ (o : Option V). ((get now key c).0, o))
        ((get-view now now key key c (omega arith)).0 ∙ h)

module _ {V W E : Type 0} where
  -- With no other call for the key on the way, the group runs the function it is given, once.
  abbrev pub RunsAlone : GroupDo V W E → Type 0
  RunsAlone group_do = (key : Text) (f : Loading V W E) (s : Cache V × W) → group_do key f s ≡ f s

  -- What a loader's answer leaves behind: a value is stored for the default lifetime.
  abbrev pub kept : (W → ℕ) → Text → Result E V × (Cache V × W) → Result E V × (Cache V × W)
  kept clock key (ok v, (c, w)) = (ok v, (set (clock w) key v c, w))
  kept clock key (err e, (c, w)) = (err e, (c, w))

  -- A key that is there and not expired: the value is returned, the cache stays as it is, and
  -- neither the loader nor the group is called, whatever they are.
  pub get_or_load-hit :
      (clock : W → ℕ) (group_do : GroupDo V W E) (key : Text) (loader : Loading V W E) (c : Cache V)
      (w : W) (v : V)
      → view (clock w) c key ≡ some v
      → get_or_load clock group_do key loader (c, w) ≡ (ok v, (c, w))
  unfolding get_or_load
  get_or_load-hit clock group_do key loader c w v h =
      rw (get-hit (clock w) key c v h, get_or_load) refl

  keep_loaded-kept :
      (clock : W → ℕ) (key : Text) (r : Result E V × (Cache V × W))
      → keep_loaded clock key r ≡ kept clock key r
  unfolding keep_loaded
  keep_loaded-kept clock key (ok v, (c, w)) = refl
  keep_loaded-kept clock key (err e, (c, w)) = refl

  module _ (clock : W → ℕ) (group_do : GroupDo V W E) (alone : RunsAlone group_do) (key : Text)
      (loader : Loading V W E) (c : Cache V) (w : W) (missing : view (clock w) c key ≡ none) where
    -- A key that is not there, or expired, and no other call for it on the way: the loader runs, on
    -- a cache from which at most that expired entry was dropped.
    pub get_or_load-miss :
        get_or_load clock group_do key loader (c, w)
        ≡ kept clock key (loader (after_looks (clock w) key c, w))
    unfolding get_or_load check_and_load
    get_or_load-miss =
        let again : view (clock w) (get (clock w) key c).0 key ≡ none =
          (get-view (clock w) (clock w) key key c (omega arith)).1 ∙ missing in
        ap (hit_or_group clock group_do key loader w) (get-miss (clock w) key c missing)
        ∙ alone key (check_and_load clock key loader) ((get (clock w) key c).0, w)
        ∙ ap (hit_or_load clock key loader w) (get-miss (clock w) key (get (clock w) key c).0 again)
        ∙ keep_loaded-kept clock key (loader (after_looks (clock w) key c, w))

    -- If the loader succeeds, its value is returned and stored for the default lifetime, over which
    -- every reader of the key sees it.
    get_or_load-loads :
        (d : Cache V) (u : W) (v : V) (time : ℕ)
        → loader (after_looks (clock w) key c, w) ≡ (ok v, (d, u))
        → time ≤ clock u + d.default_ttl
        → (get_or_load clock group_do key loader (c, w) ≡ (ok v, (set (clock u) key v d, u)))
          × (view time (set (clock u) key v d) key ≡ some v)
    get_or_load-loads d u v time loads within = (
      get_or_load-miss ∙ ap (kept clock key) loads,
      unfold set in ground (arith, text_eq_refl key),
    )

  -- `GetOrLoad` with no other call for the key on the way. A key that is there and not expired: its
  -- value, with nothing run or changed. Any other key: the loader runs once, on a cache from which at
  -- most that expired entry was dropped; its answer is returned, an error with nothing stored, and a
  -- value with the value stored under the key.
  pub get_or_load_lem :
      (clock : W → ℕ) (group_do : GroupDo V W E) (key : Text) (loader : Loading V W E) (c : Cache V)
      (w : W)
      → RunsAlone group_do
      → get_or_load clock group_do key loader (c, w) ≡ elim (view (clock w) c key) [
        | some v ↦ (ok v, (c, w))
        | none ↦ kept clock key (loader (after_looks (clock w) key c, w))
      ]
  get_or_load_lem clock group_do key loader c w alone = elim (Option-cases (view (clock w) c key)) [
    | inl missing ↦ rw missing (get_or_load-miss clock group_do alone key loader c w missing)
    | inr (v, there) ↦ rw there (get_or_load-hit clock group_do key loader c w v there)
  ]

  kept-view :
      (clock : W → ℕ) (key : Text) (r : Result E V × (Cache V × W)) (v : V)
      → (kept clock key r).0 ≡ ok v
      → view (clock (kept clock key r).1.1) (kept clock key r).1.0 key ≡ some v
  unfolding set
  kept-view clock key (ok x, (d, u)) v h = ground (arith, text_eq_refl key)
  kept-view clock key (err e, (d, u)) v h = ground arith

  -- A value that is returned is what a reader of the key sees right after.
  pub get_or_load-view :
      (clock : W → ℕ) (group_do : GroupDo V W E) (key : Text) (loader : Loading V W E) (c : Cache V)
      (w : W) (v : V)
      → RunsAlone group_do
      → let r = get_or_load clock group_do key loader (c, w) in
        r.0 ≡ ok v → view (clock r.1.1) r.1.0 key ≡ some v
  get_or_load-view clock group_do key loader c w v alone h =
      elim (Option-cases (view (clock w) c key)) [
        | inl missing ↦
            let same = get_or_load-miss clock group_do alone key loader c w missing in
            rw same (kept-view clock key (loader (after_looks (clock w) key c, w)) v (rw same at h))
        | inr (x, there) ↦
            let same = get_or_load-hit clock group_do key loader c w x there in
            let value : x ≡ v = cc (rw same at h) in rw (same, there) (ap (λ (a : V). some a) value)
      ]
