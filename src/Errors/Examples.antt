-- ===== src/Errors/Examples.antt =====
-- Errors at small inputs.
use pan_client.Base.{ℕ, ◌≡◌, refl, none, some, [], ◌∷◌, codes}
use pan_client.Errors.{GoError, other, driver, unknown, msg_error, only_error, as_driver}
use pan_client.Errors.Causes.{rewrap, trail, rewrap_lem}

abbrev timeout : GoError ℕ
timeout = other (codes "timeout")

create_error :
    msg_error {D = ℕ} (codes "/a create error") (only_error timeout)
    ≡ driver unknown (codes " /a create error") timeout none
unfolding msg_error only_error as_driver
create_error = refl

rewrap_lem_example :
    rewrap timeout ((7, codes "b", some 1) ∷ (8, codes "a", none) ∷ [])
    ≡ driver 7 (codes "a b") timeout (some 1)
unfolding trail as_driver
rewrap_lem_example = rewrap_lem timeout 7 (codes "b") (some 1) ((8, codes "a", none) ∷ [])
