-- ===== src/Gcid/Examples.antt =====
-- The hash of a file at small inputs, with a stand-in for SHA-1.
use pan_client.Base.{ℕ, none, ok, ◌*◌, ◌≤◌, ◌<◌, ◌≡◌, ◌⊎◌, refl, [], ◌∷◌, some, Text, length, take}
use pan_client.Gcid.File.{hex, concat, get_file_gcid, get_file_gcid_lem}
use pan_client.Gcid.{Gcid, cal_block_size, write}
use pan_client.Gcid.BlockSize.{cal_block_size_lem}
use pan_client.Gcid.Digest.{block_digests}

-- The first byte and the length.
abbrev digest : Text → Text
digest p = length p ∷ take 1 p

abbrev half_full : Gcid
half_full = record { hash = []; hash_state = 1 ∷ 2 ∷ []; block_size = 4; offset = 2 }

written :
    write digest half_full (3 ∷ 4 ∷ 5 ∷ [])
    ≡ some (record { hash = 4 ∷ 1 ∷ []; hash_state = 5 ∷ []; block_size = 4; offset = 1 })
unfolding write
written = refl

cal_block_size_lem_example :
    ((cal_block_size 500_000_000 ≡ 0x40000)
      ⊎ (cal_block_size 500_000_000 ≡ 0x80000)
      ⊎ (cal_block_size 500_000_000 ≡ 0x100000)
      ⊎ (cal_block_size 500_000_000 ≡ 0x200000))
    × ((500_000_000 ≤ 512 * cal_block_size 500_000_000) ⊎ (cal_block_size 500_000_000 ≡ 0x200000))
    × ((cal_block_size 500_000_000 ≡ 0x40000) ⊎ (256 * cal_block_size 500_000_000 < 500_000_000))
cal_block_size_lem_example = cal_block_size_lem 500_000_000

get_file_gcid_lem_example :
    get_file_gcid digest {E = ℕ} (ok 3) ((7 ∷ []) ∷ ((8 ∷ 9 ∷ []) ∷ [])) none
    ≡ some (ok (hex (digest (block_digests digest 4 (cal_block_size 3) (7 ∷ 8 ∷ 9 ∷ [])))))
unfolding concat
get_file_gcid_lem_example = get_file_gcid_lem digest {E = ℕ} 3 ((7 ∷ []) ∷ ((8 ∷ 9 ∷ []) ∷ []))
