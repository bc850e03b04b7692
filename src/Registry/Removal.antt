-- ===== src/Registry/Removal.antt =====
-- What `RemoveDriver` takes away, and what it keeps.
use pan_client.Base.{
  ◌≡◌, refl, inl, inr, if◌then◌else◌, Option, none, some, List, [], ◌∷◌, ◌++◌, Text, text_eq,
  text_eq→eq, Bool-cases, Option-cases, append-nil, arith,
}
use pan_client.Registry.{
  DriverType, Registry, load_driver, get_default_driver_id, remove_driver, unless_removed,
  id_or_empty,
}

-- The driver as a list of one or none.
abbrev pub just {ℓ} : {A : Type ℓ} → Option A → List A
just none = []
just (some a) = a ∷ []

vanish :
    (id : Text) (o : Option Text)
    → id_or_empty (unless_removed id o) ≡ (if text_eq (id_or_empty o) id then [] else id_or_empty o)
vanish id none = ground arith
vanish id (some did) = ground arith

module _ {C D : Type 0} where
  -- After `RemoveDriver id` the id has no driver and every other id has the driver that it had; a
  -- type whose default it was has no default and every other type the one that it had; and the
  -- driver was closed, once, exactly if there was one.
  pub remove_driver_lem :
      (id j : Text) (t : DriverType) (r : Registry C D)
      → (load_driver j (remove_driver id r) ≡ (if text_eq j id then none else load_driver j r))
        × (get_default_driver_id t (remove_driver id r)
            ≡ (if text_eq (get_default_driver_id t r) id then [] else get_default_driver_id t r))
        × ((remove_driver id r).closed ≡ r.closed ++ just (load_driver id r))
  unfolding load_driver remove_driver get_default_driver_id
  remove_driver_lem id j t r = (ids, defaults, closes)
    where
      ids : load_driver j (remove_driver id r) ≡ (if text_eq j id then none else load_driver j r)
      ids = elim (Option-cases (r.id_map id)) [
        | inl n ↦ elim (Bool-cases (text_eq j id)) [
          | inl same ↦ rw (n, same, remove_driver, load_driver) (rw (text_eq→eq j id same) n)
          | inr other ↦ rw (n, other, remove_driver, load_driver) refl
        ]
        | inr (d, e) ↦ rw (e, remove_driver, load_driver) refl
      ]

      defaults :
          get_default_driver_id t (remove_driver id r)
          ≡ (if text_eq (get_default_driver_id t r) id then [] else get_default_driver_id t r)
      defaults = elim (Option-cases (r.id_map id)) [
        | inl n ↦ rw (n, remove_driver, get_default_driver_id) (vanish id (r.default_map t))
        | inr (d, e) ↦ rw (e, remove_driver, get_default_driver_id) (vanish id (r.default_map t))
      ]

      closes : (remove_driver id r).closed ≡ r.closed ++ just (load_driver id r)
      closes = elim (Option-cases (r.id_map id)) [
        | inl n ↦ rw (n, remove_driver, load_driver) (rw append-nil refl)
        | inr (d, e) ↦ rw (e, remove_driver, load_driver) refl
      ]
