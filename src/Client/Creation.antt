-- ===== src/Client/Creation.antt =====
-- What the creation of a client leaves behind.
use pan_client.Base.{
  ℕ, ◌<◌, ◌≢◌, ◌==◌, ==_iff, not, Bool, true, false, keep, sym, Option-cases, arith, suc, ◌≡◌, refl,
  ap, ◌∙◌, if◌then◌else◌, none, some, List, [], ◌∷◌, ◌++◌, inl, inr, Bool-cases, Text, text_eq,
  text_eq_refl, Result, ok, err,
}
use pan_client.Errors.{GoError}
use pan_client.Registry.{
  DriverType, quark, store_driver, load_driver, get_default_driver_id, remove_driver,
}
use pan_client.Registry.Removal.{remove_driver_lem}
use pan_client.Client.{
  Client, World, ClientOption, make_client, finish_client, new_client, remove_client,
}

abbrev pub runs : ℕ → List ℕ → Bool
runs n [] = false
runs n (m ∷ ms) = if m == n then true else runs n ms

pub remove_each : {C F X P : Type 0} → List Text → World C F X P → World C F X P
remove_each [] w = w
remove_each (id ∷ ids) w = remove_each ids (remove_client id w)

runs-keep : (n k : ℕ) (ms : List ℕ) → k ≢ n → runs n (keep (λ m. not (m == k)) ms) ≡ runs n ms
unfolding keep
runs-keep n k [] d = refl
runs-keep n k (m ∷ ms) d = elim (Bool-cases (m == k)) [
  | inl same ↦
      let other : (m == n) ≡ false = ground (arith, (==_iff m k).0 same) in
      rw (same, other, keep) (runs-keep n k ms d)
  | inr other ↦ rw (other, keep) (ap (λ b. if m == n then true else b) (runs-keep n k ms d))
]

-- No registered client has the context `n`.
abbrev Unregistered : {C F X P : Type 0} → ℕ → World C F X P → Type 0
Unregistered {C} {F} {X} {P} n w =
    (i : Text) → (c : Client F X P) → load_driver i w.registry ≡ some c → c.context.number ≢ n

module _ {C F X P : Type 0} where
  remove_client-Unregistered :
      (n : ℕ) (id : Text) (w : World C F X P)
      → Unregistered n w
      → Unregistered n (remove_client id w)
  unfolding remove_client
  remove_client-Unregistered n id w free i c found = elim (Bool-cases (text_eq i id)) [
    | inl same ↦ absurd (cc (rw (same) at (sym removal ∙ found)))
    | inr other ↦ free i c (rw (other) at (sym removal ∙ found))
  ]
    where
      removal :
          load_driver i (remove_driver id w.registry)
          ≡ (if text_eq i id then none else load_driver i w.registry)
      removal = (remove_driver_lem id i quark w.registry).0

  remove_client-runs :
      (n : ℕ) (id : Text) (w : World C F X P)
      → Unregistered n w
      → runs n (remove_client id w).caches ≡ runs n w.caches
  unfolding remove_client
  remove_client-runs n id w free = elim (Option-cases (load_driver id w.registry)) [
    | inl missing ↦ rw (missing) refl
    | inr (d, found) ↦ rw (found) (runs-keep n d.context.number w.caches (free id d found))
  ]

  remove_each-runs :
      (ids : List Text) (n : ℕ) (w : World C F X P)
      → Unregistered n w
      → runs n w.caches ≡ true
      → runs n (remove_each ids w).caches ≡ true
  unfolding remove_each
  remove_each-runs [] n w free there = there
  remove_each-runs (id ∷ ids) n w free there =
      remove_each-runs ids n (remove_client id w) (remove_client-Unregistered n id w free)
        (remove_client-runs n id w free ∙ there)

module _ {C F X P D : Type 0} (background : X) (set_default : P → P)
    (init : Client F X P → Result (GoError D) Text × Client F X P) where
  new_client-init :
      (t : DriverType)
      → (props : P) → (opts : List (ClientOption F X)) → (w : World C F X P)
      → (r : Result (GoError D) Text × Client F X P)
      → init (make_client background set_default init t props opts w) ≡ r
      → new_client background set_default init t props opts w
        ≡ finish_client background set_default init w.next_context r
            (record w { next_context = suc w.next_context; caches = w.next_context ∷ w.caches })
  unfolding new_client
  new_client-init t props opts w r e =
      ap
        (λ i.
          finish_client background set_default init w.next_context i
            (record w { next_context = suc w.next_context; caches = w.next_context ∷ w.caches }))
        e

  -- A client whose `Init` fails, where the registered clients have contexts that were derived before:
  -- the error is returned, the context that was derived for the client is cancelled and the registry has
  -- every driver and default that it had; and whatever drivers are removed later, the cleanup of the
  -- client's cache still runs.
  pub new_client-err :
      (t u : DriverType)
      → (props : P) → (opts : List (ClientOption F X)) → (w : World C F X P) → (j : Text)
      → (ids : List Text) → (e : GoError D) → (d : Client F X P)
      → init (make_client background set_default init t props opts w) ≡ (err e, d)
      → ((i : Text)
          → (c : Client F X P) → load_driver i w.registry ≡ some c
          → c.context.number < w.next_context)
      → let made = new_client background set_default init t props opts w in
        (made.0 ≡ err e)
        × (made.1.cancelled ≡ w.next_context ∷ w.cancelled)
        × (load_driver j made.1.registry ≡ load_driver j w.registry)
        × (get_default_driver_id u made.1.registry ≡ get_default_driver_id u w.registry)
        × (runs w.next_context (remove_each ids made.1).caches ≡ true)
  unfolding finish_client
  new_client-err t u props opts w j ids e d fails older =
      rw (new_client-init t props opts w (err e, d) fails) (
        refl,
        refl,
        refl,
        refl,
        remove_each-runs ids w.next_context _ (λ i c found same. omega (arith, older i c found))
            (ground arith),
      )

  -- A client whose `Init` succeeds with an id: the driver as `Init` left it is returned and found under
  -- that id, every other id and every default is as before, and no context is cancelled and no driver
  -- closed, not even one that had the id before. When the id is removed, no driver is found under it,
  -- every other id has the driver that it had, and this driver is closed.
  pub new_client-ok :
      (t u : DriverType)
      → (props : P) → (opts : List (ClientOption F X)) → (w : World C F X P) → (id j : Text)
      → (d : Client F X P)
      → init (make_client background set_default init t props opts w) ≡ (ok id, d)
      → let made = new_client background set_default init t props opts w in
        (made.0 ≡ ok d)
        × (load_driver j made.1.registry
            ≡ (if text_eq j id then some d else load_driver j w.registry))
        × (get_default_driver_id u made.1.registry ≡ get_default_driver_id u w.registry)
        × (made.1.cancelled ≡ w.cancelled)
        × (made.1.registry.closed ≡ w.registry.closed)
        × (load_driver j (remove_driver id made.1.registry)
            ≡ (if text_eq j id then none else load_driver j w.registry))
        × ((remove_driver id made.1.registry).closed ≡ w.registry.closed ++ d ∷ [])
  unfolding finish_client load_driver store_driver get_default_driver_id
  new_client-ok t u props opts w id j d works =
      let registry = store_driver id d w.registry in
      let removal = remove_driver_lem id j u registry in
      rw (new_client-init t props opts w (ok id, d) works) (
        refl,
        refl,
        refl,
        refl,
        refl,
        removal.0 ∙ stored_other,
        removal.2 ∙ rw (text_eq_refl id) refl,
      )
    where
      stored_other :
          (if text_eq j id then none else load_driver j (store_driver id d w.registry))
          ≡ (if text_eq j id then none else load_driver j w.registry)
      stored_other = elim (Bool-cases (text_eq j id)) [
        | inl same ↦ rw (same) refl
        | inr other ↦ rw (other) refl
      ]
