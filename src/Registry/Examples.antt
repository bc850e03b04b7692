-- ===== src/Registry/Examples.antt =====
-- The registry at small inputs.
use pan_client.Base.{ℕ, ◌≡◌, refl, none, [], codes, text_eq}
use pan_client.Registry.{
  quark, cloudreve, Registry, load_driver, store_driver, set_default_driver, get_default_driver_id,
  remove_driver,
}

-- Drivers 1 and 2, each the default of its type.
abbrev both : Registry ℕ ℕ
both = set_default_driver quark (codes "q") (
    set_default_driver cloudreve (codes "c") (
      store_driver (codes "q") 1 (
        store_driver (codes "c") 2 (record {
          constructors = λ t. none;
          id_map = λ id. none;
          default_map = λ t. none;
          closed = [];
        }))))

removed_driver :
    (load_driver (codes "q") (remove_driver (codes "q") both) ≡ none)
    × (get_default_driver_id quark (remove_driver (codes "q") both) ≡ [])
    × (get_default_driver_id cloudreve (remove_driver (codes "q") both) ≡ codes "c")
unfolding load_driver remove_driver get_default_driver_id store_driver set_default_driver text_eq
removed_driver = (refl, refl, refl)
