-- ===== src/Base/Int64.antt =====
-- Go's int64 as a bit pattern below 2 ^ 64, with the wrap-around written out. Comparison is signed:
-- adding 2 ^ 63 turns the signed order into the order of the patterns.
use Prim.Native.Nat.{ℕ, ◌+◌, ◌-◌, ◌%◌, ◌^◌, ◌*◌, ◌/◌, ◌≤◌, ◌<◌}
use mathlib.Core.Path.{◌≡◌}
use mathlib.Core.Bool.{Bool}
use native.Mathlib.Omega.{arith}
use pan_client.Base.Tests.{ltb, if◌then◌else◌}

-- The patterns below this one stand for themselves, the others for negative numbers.
abbrev pub half64 : ℕ
half64 = 2 ^ 63

unfoldable pub add64 : ℕ → ℕ → ℕ
add64 a b = (a + b) % 2 ^ 64

unfoldable pub sub64 : ℕ → ℕ → ℕ
sub64 a b = (a + 2 ^ 64 - b) % 2 ^ 64

unfoldable pub lt64 : ℕ → ℕ → Bool
lt64 a b = ltb ((a + 2 ^ 63) % 2 ^ 64) ((b + 2 ^ 63) % 2 ^ 64)

-- Division of an int64 pattern by a positive number, toward 0.
unfoldable pub div64 : ℕ → ℕ → ℕ
div64 a b = if lt64 a 0 then (2 ^ 64 - (2 ^ 64 - a) / b) % 2 ^ 64 else a / b

unfoldable pub mul64 : ℕ → ℕ → ℕ
mul64 a b = (a * b) % 2 ^ 64

pub add64_small : (a b : ℕ) → a + b < half64 → add64 a b ≡ a + b
unfolding add64
add64_small a b h = omega arith

pub sub64_small : (a b : ℕ) → a < half64 → b ≤ a → sub64 a b ≡ a - b
unfolding sub64
sub64_small a b h k = omega arith

shifted : (a : ℕ) → a < half64 → (a + 2 ^ 63) % 2 ^ 64 ≡ a + 2 ^ 63
shifted a h = omega arith

ltb_shift : (a b k : ℕ) → ltb (a + k) (b + k) ≡ ltb a b
ltb_shift a b k = ground arith

pub lt64_small : (a b : ℕ) → a < half64 → b < half64 → lt64 a b ≡ ltb a b
unfolding lt64
lt64_small a b h k = rw (shifted a h, shifted b k) (ltb_shift a b (2 ^ 63))
