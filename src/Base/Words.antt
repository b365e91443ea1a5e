-- ===== src/Base/Words.antt =====
-- `uint32_t` and `size_t` arithmetic, written out.
use Prim.Native.Nat.{ℕ, ◌/◌, ◌+◌, ◌-◌, ◌%◌, ◌^◌, ◌<◌}
use native.Mathlib.Omega.{arith}
use native.Mathlib.Nat.{div-add-mod}
use native.Mathlib.Decide.{dec_lt}
use mathlib.Core.Logic.{◌≢◌}

abbrev pub u32_mod : ℕ
u32_mod = 2 ^ 32

abbrev pub u64_mod : ℕ
u64_mod = 2 ^ 64

-- the cast to `uint32_t`
abbrev pub u32 : ℕ → ℕ
u32 n = n % u32_mod

-- `a - b` of two `uint32_t`
abbrev pub sub32 : ℕ → ℕ → ℕ
sub32 a b = (a + u32_mod - b) % u32_mod

-- `a - b` of two `size_t`
abbrev pub sub64 : ℕ → ℕ → ℕ
sub64 a b = (a + u64_mod - b) % u64_mod

-- Numbers less than `n` apart have different remainders by `n`.
pub mod-ne_of_near : (n a b : ℕ) → a < b → b < a + n → a % n ≢ b % n
mod-ne_of_near n a b lt near e = elim (dec_lt (a / n) (b / n)) [
  | yes up ↦ grind (arith, div-add-mod a n, div-add-mod b n)
  | no same ↦ grind (arith, div-add-mod a n, div-add-mod b n)
]
