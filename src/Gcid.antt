-- ===== src/Gcid.antt =====
-- internal/gcid.go: the block-wise hash of a file. A `hash.Hash` is the bytes written since its last
-- reset, and `sha1` the digest of such bytes.
pub mod BlockSize
pub mod Stream
pub mod Digest
pub mod File
mod Examples
use pan_client.Base.{
  ℕ, zero, suc, ◌+◌, ◌-◌, ◌*◌, Bool, true, false, ◌&&◌, ltb, leb, ◌==◌, if◌then◌else◌, Option, none,
  some, List, [], ◌∷◌, ◌++◌, Text, length, take, drop, is_empty,
}

-- `calcBlockSize`: the loop on fuel. The quotient of floats is compared with 0x200, which is exact,
-- since `psize` is a power of two and a size that a float rounds is far above the bound.
unfoldable pub grow_block : ℕ → ℕ → ℕ → ℕ
grow_block zero j psize = psize
grow_block (suc fuel) j psize =
    let rest = grow_block fuel j (psize * 2) in
    if ltb (0x200 * psize) j && ltb psize 0x200000 then rest else psize

-- Four rounds are more than the loop makes.
unfoldable pub cal_block_size : ℕ → ℕ
unfolding grow_block
cal_block_size j = grow_block 4 j 0x40000

pub record Gcid : Type 0 where
  pub hash : Text
  pub hash_state : Text
  pub block_size : ℕ
  pub offset : ℕ

unfoldable pub new_gcid : ℕ → Gcid
new_gcid size = record { hash = []; hash_state = []; block_size = cal_block_size size; offset = 0 }

module _ (sha1 : Text → Text) where
  -- `if h.offset >= h.blockSize`: the digest of a full block is written to the outer hash.
  unfoldable pub flush_block : Gcid → Gcid
  flush_block h =
      if leb h.block_size h.offset
      then record h { hash = h.hash ++ sha1 h.hash_state; hash_state = []; offset = 0 }
      else h

  -- How much of `p` one round writes to the inner hash.
  unfoldable pub last_size : Gcid → Text → ℕ
  last_size h p =
      if ltb (length p) (h.block_size - h.offset) then length p else h.block_size - h.offset

  unfoldable pub fill_block : Gcid → Text → Gcid × Text
  unfolding last_size
  fill_block h p =
      if ltb h.offset h.block_size
      then (
        record h {
          hash_state = h.hash_state ++ take (last_size h p) p;
          offset = h.offset + last_size h p;
        },
        drop (last_size h p) p,
      )
      else (h, p)

  -- The loop of `Write` on fuel; `none` means that the fuel ran out.
  pub write_loop : ℕ → Gcid → Text → Option Gcid
  write_loop zero h p = none
  write_loop (suc fuel) h p =
      let next = fill_block h p in
      let rest = write_loop fuel (flush_block next.0) next.1 in if is_empty p then some h else rest

  -- `Write`, with a round for each byte and one for the last test.
  unfoldable pub write : Gcid → Text → Option Gcid
  unfolding write_loop fill_block flush_block
  write h p = write_loop (suc (length p)) h p

  -- `Sum` of an empty prefix. The digest of the open block goes into the outer hash, whose state is
  -- then put back: the second part is the state that stays.
  unfoldable pub sum : Gcid → Text × Gcid
  sum h = if h.offset == 0 then (sha1 h.hash, h) else (sha1 (h.hash ++ sha1 h.hash_state), h)

-- `Reset`; it leaves `offset` as it is.
unfoldable pub reset : Gcid → Gcid
reset h = record h { hash = []; hash_state = [] }
