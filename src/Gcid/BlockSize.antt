-- ===== src/Gcid/BlockSize.antt =====
-- The block size for a file.
use pan_client.Base.{ℕ, ◌*◌, ◌≤◌, ◌<◌, ◌≡◌, ◌⊎◌, arith}
use pan_client.Gcid.{cal_block_size}

-- The block size is one of the four powers of two from 2 ^ 18 to 2 ^ 21; it is the least of them
-- that cuts the file into 512 blocks at most, and the largest where none does.
pub cal_block_size_lem :
    (size : ℕ)
    → let b = cal_block_size size in
      ((b ≡ 0x40000) ⊎ (b ≡ 0x80000) ⊎ (b ≡ 0x100000) ⊎ (b ≡ 0x200000))
      × ((size ≤ 512 * b) ⊎ (b ≡ 0x200000))
      × ((b ≡ 0x40000) ⊎ (256 * b < size))
unfolding cal_block_size
cal_block_size_lem size = ground arith
