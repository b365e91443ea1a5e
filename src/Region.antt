-- ===== src/Region.antt =====
-- Offsets into a shared region, from include/labstor/constants/macros.h (without
-- LABSTOR_MEM_DEBUG) and include/labstor/types/basics.h. An address is a number below 2^64; a
-- `labstor_off_t` (`int32_t`) is its 32-bit pattern.
use labstor.Base.{
  ℕ, ◌+◌, ◌-◌, ◌%◌, ◌^◌, ◌≤◌, ◌<◌, ◌≡◌, ◌↔◌, ◌⊎◌, ltb, if◌then◌else◌, u32, u32_mod, u64_mod, sub64,
  arith,
}

-- `(labstor_off_t)((size_t)ptr - (size_t)region)`
unfoldable pub region_sub : ℕ → ℕ → ℕ
region_sub ptr region = u32 (sub64 ptr region)

-- the `labstor_off_t` widened to 64 bits, with its sign
abbrev pub sign_extend : ℕ → ℕ
sign_extend off = if ltb off (2 ^ 31) then off else off + (u64_mod - u32_mod)

-- `(char*)region + off`
unfoldable pub region_add : ℕ → ℕ → ℕ
region_add off region = (region + sign_extend off) % u64_mod

-- `ptr` lies in the 2 GB from the base on, but not beyond the address space.
abbrev pub Reaches : ℕ → ℕ → Type 0
Reaches base ptr = (base ≤ ptr) × (ptr < base + 2 ^ 31) × (ptr < u64_mod)

-- A pointer comes back from its offset exactly when it lies less than 2 GB above the base, or at
-- most 2 GB below it, modulo 2^64.
region_add-region_sub :
    (ptr region : ℕ)
    → ptr < u64_mod
    → region < u64_mod
    → (region_add (region_sub ptr region) region ≡ ptr)
      ↔ ((sub64 ptr region < 2 ^ 31) ⊎ (u64_mod ≤ sub64 ptr region + 2 ^ 31))
unfolding region_add region_sub
region_add-region_sub ptr region hp hr = ground arith

pub region_add-sub_of_reach :
    (base ptr : ℕ) → Reaches base ptr → region_add (region_sub ptr base) base ≡ ptr
unfolding region_add region_sub
region_add-sub_of_reach base ptr h = ground arith

-- An offset to the memory above the base is no negative number.
pub region_sub-lt : (base ptr : ℕ) → Reaches base ptr → region_sub ptr base < 2 ^ 31
unfolding region_sub
region_sub-lt base ptr h = omega arith
