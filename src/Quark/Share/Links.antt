-- ===== src/Quark/Share/Links.antt =====
-- The id of a share, from its address.
use pan_client.Base.{
  ℕ, ◌≤◌, ◌≡◌, ap, ◌↔◌, false, ◌||◌, ◌==◌, List, [], ◌∷◌, ◌++◌, Text, codes, length, slash, arith,
}
use pan_client.Quark.Share.{trim_left_set, pwd_id_of}

length-trim_left_set : (cut : List ℕ) (s : Text) → length (trim_left_set cut s) ≤ length s
unfolding trim_left_set
length-trim_left_set cut [] = omega arith
length-trim_left_set cut (b ∷ s) = ground (arith, length-trim_left_set cut s)

-- An address whose path is the id of a share behind `/s/` gives that id exactly if it begins neither with
-- an `s` nor with a slash: the three bytes are taken for a set of bytes to be trimmed.
pub pwd_id_of_lem :
    (b : ℕ) (id : Text)
    → (pwd_id_of (codes "/s/" ++ b ∷ id) ≡ b ∷ id) ↔ (((b == slash) || (b == b's')) ≡ false)
unfolding pwd_id_of trim_left_set
pwd_id_of_lem b id = (
  λ h. ground (arith, ap (λ (t : Text). length t) h, length-trim_left_set (codes "/s/") id),
  λ h. ground arith,
)
