-- ===== src/Bits/Digits.antt =====
-- `&`, `|` and `~`, digit by digit.
use Prim.Native.Nat.{
  ℕ, zero, suc, ◌+◌, ◌*◌, ◌-◌, ◌/◌, ◌%◌, ◌^◌, ◌≤◌, ◌<◌, min, max, bit_and, bit_or, digits, bitwise,
  bit_and-bitwise, bit_or-bitwise,
}
use mathlib.Core.Path.{◌≡◌, refl, ap, ap₂, ◌∙◌}
use native.Mathlib.Omega.{arith}
use native.Mathlib.Nat.{two-pow-succ, one-le-pow}

module _ (zeros : ℕ → ℕ) (pair : ℕ → ℕ → ℕ) where
  -- one digit more than a number can have changes nothing
  spare_digit : (a n b : ℕ) → a ≤ n → digits zeros pair (suc n) a b ≡ digits zeros pair n a b
  spare_digit zero zero b short = refl
  spare_digit zero (suc n) b short = refl
  spare_digit (suc a) zero b short = absurd (omega arith)
  spare_digit (suc a) (suc n) b short =
      ap (λ high. high * 2 + pair (suc a % 2) (b % 2))
        (spare_digit (suc a / 2) n (b / 2) (omega arith))

  spare_digits : (k a b : ℕ) → digits zeros pair (k + a) a b ≡ bitwise zeros pair a b
  spare_digits zero a b =
      let none_left : 0 + a ≡ a = omega arith in ap (λ n. digits zeros pair n a b) none_left
  spare_digits (suc k) a b =
      let one_left : suc k + a ≡ suc (k + a) = omega arith in
      ap (λ n. digits zeros pair n a b) one_left
      ∙ spare_digit a (k + a) b (omega arith)
      ∙ spare_digits k a b

  -- the lowest digit, and the others
  lowest :
      (a b : ℕ)
      → bitwise zeros pair (suc a) b
        ≡ pair (suc a % 2) (b % 2) + 2 * bitwise zeros pair (suc a / 2) (b / 2)
  lowest a b =
      let half = suc a / 2 in
      let enough : a ≡ a - half + half = omega arith in
      omega (
        arith,
        ap (λ n. digits zeros pair n half (b / 2)) enough ∙ spare_digits (a - half) half (b / 2),
      )

and_def : (a b : ℕ) → bit_and a b ≡ bitwise (λ b. zero) min a b
and_def a b = bit_and-bitwise a b

or_def : (a b : ℕ) → bit_or a b ≡ bitwise (λ b. b) max a b
or_def a b = bit_or-bitwise a b

and_halves : (a b : ℕ) → bit_and a b ≡ min (a % 2) (b % 2) + 2 * bit_and (a / 2) (b / 2)
and_halves zero b = omega (arith, and_def 0 b, and_def 0 (b / 2))
and_halves (suc a) b =
    omega (arith, and_def (suc a) b, lowest (λ b. zero) min a b, and_def (suc a / 2) (b / 2))

or_halves : (a b : ℕ) → bit_or a b ≡ max (a % 2) (b % 2) + 2 * bit_or (a / 2) (b / 2)
or_halves zero b = omega (arith, or_def 0 b, or_def 0 (b / 2))
or_halves (suc a) b =
    omega (arith, or_def (suc a) b, lowest (λ b. b) max a b, or_def (suc a / 2) (b / 2))

-- the digits of `a` that a mask takes, and those that it adds
pub or-and : (n a b : ℕ) → a ≤ n → bit_or a b + bit_and a b ≡ a + b
or-and n zero b h = omega (arith, and_def 0 b, or_def 0 b)
or-and zero (suc a) b h = absurd (omega arith)
or-and (suc n) (suc a) b h =
    omega
      (arith, and_halves (suc a) b, or_halves (suc a) b, or-and n (suc a / 2) (b / 2) (omega arith))

-- `~b` of a word of `k` bits takes the others
pub and-not : (k a b : ℕ) → a < 2 ^ k → b < 2 ^ k → bit_and a (2 ^ k - 1 - b) + bit_and a b ≡ a
and-not zero zero b h g = omega (arith, and_def 0 b, and_def 0 (2 ^ 0 - 1 - b))
and-not zero (suc a) b h g = absurd (omega arith)
and-not (suc k) a b h g =
    let c = 2 ^ suc k - 1 - b in
    let twice : 2 ^ suc k ≡ 2 ^ k + 2 ^ k = two-pow-succ k in
    let pos : 0 < 2 ^ k = one-le-pow k 2 (omega arith) in
    let half : c / 2 ≡ 2 ^ k - 1 - b / 2 = omega (arith, twice, g, pos) in
    let odd : c % 2 + b % 2 ≡ 1 = omega (arith, twice, g, pos) in
    let rest = and-not k (a / 2) (b / 2) (omega (arith, twice)) (omega (arith, twice)) in
    omega (arith, and_halves a c, and_halves a b, rest, ap (bit_and (a / 2)) half, odd)

quarter : (w : ℕ) → w / 2 / 2 ≡ w / 4
quarter w = omega arith

pub and_quarters :
    (w b : ℕ)
    → bit_and w b
      ≡ bit_and (w / 4) (b / 4) * 4 + (min (w / 2 % 2) (b / 2 % 2) * 2 + min (w % 2) (b % 2))
and_quarters w b =
    omega (arith, and_halves w b, and_halves (w / 2) (b / 2), ap₂ bit_and (quarter w) (quarter b))

pub and_zero : (n a : ℕ) → a ≤ n → bit_and a 0 ≡ 0
and_zero n zero h = and_def 0 0
and_zero zero (suc a) h = absurd (omega arith)
and_zero (suc n) (suc a) h =
    omega (arith, and_halves (suc a) 0, and_zero n (suc a / 2) (omega arith))

pub or_lt : (k a b : ℕ) → a < 2 ^ k → b < 2 ^ k → bit_or a b < 2 ^ k
or_lt zero zero b h g = omega (arith, or_def 0 b)
or_lt zero (suc a) b h g = absurd (omega arith)
or_lt (suc k) a b h g =
    let twice = two-pow-succ k in
    omega (
      arith,
      or_halves a b,
      twice,
      or_lt k (a / 2) (b / 2) (omega (arith, twice)) (omega (arith, twice)),
    )

pub and_le : (n a b : ℕ) → a ≤ n → bit_and a b ≤ a
and_le n zero b h = omega (arith, and_def 0 b)
and_le zero (suc a) b h = absurd (omega arith)
and_le (suc n) (suc a) b h =
    omega (arith, and_halves (suc a) b, and_le n (suc a / 2) (b / 2) (omega arith))
