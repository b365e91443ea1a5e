-- ===== src/Bits/Fields.antt =====
-- A word of 32 bits as 16 fields of two bits.
use Prim.Native.Nat.{ℕ, zero, suc, ◌+◌, ◌*◌, ◌-◌, ◌/◌, ◌%◌, ◌^◌, ◌≤◌, ◌<◌, bit_and, bit_or}
use mathlib.Core.Logic.{◌≢◌}
use mathlib.Core.Path.{◌≡◌, refl, sym, ap, ◌∙◌}
use native.Mathlib.Omega.{arith}
use native.Mathlib.Nat.{two-pow-succ, pow-le-pow_right, mul_assoc}
use labstor.Bits.Digits.{or-and, and-not, or_lt, and_le, and_quarters, and_zero}

-- a two-bit field shifted by `e` entries
abbrev pub shifted : ℕ → ℕ → ℕ
shifted m zero = m
shifted m (suc e) = shifted m e * 4

pub shifted-pow : (m e : ℕ) → m * 2 ^ (e * 2) ≡ shifted m e
shifted-pow m zero = omega arith
shifted-pow m (suc e) =
    let next : suc e * 2 ≡ suc (suc (e * 2)) = omega arith in
    let pow : 2 ^ suc (suc (e * 2)) ≡ 2 ^ (e * 2) * 4 =
      omega (arith, two-pow-succ (suc (e * 2)), two-pow-succ (e * 2)) in
    ap (λ x. m * 2 ^ x) next
    ∙ ap (λ x. m * x) pow
    ∙ sym (mul_assoc m (2 ^ (e * 2)) 4)
    ∙ ap (λ x. x * 4) (shifted-pow m e)

-- the `e`-th two-bit entry of a word
abbrev pub field : ℕ → ℕ → ℕ
field w zero = w % 4
field w (suc e) = field (w / 4) e

-- A shifted mask takes what the mask takes of its entry.
pub and-shifted : (m w e : ℕ) → m < 4 → bit_and w (shifted m e) ≡ shifted (bit_and (field w e) m) e
and-shifted m w zero small =
    let none_above : m / 4 ≡ 0 = omega arith in
    let rest : (x : ℕ) → bit_and x (m / 4) ≡ 0 =
      λ x. ap (bit_and x) none_above ∙ and_zero x x (omega arith) in
    omega (arith, and_quarters w m, and_quarters (w % 4) m, rest (w / 4), rest (w % 4 / 4))
and-shifted m w (suc e) small =
    let down : shifted m e * 4 / 4 ≡ shifted m e = omega arith in
    omega (
      arith,
      and_quarters w (shifted m e * 4),
      ap (bit_and (w / 4)) down,
      and-shifted m (w / 4) e small,
    )

pub field_lt : (w e : ℕ) → field w e < 4
field_lt w zero = omega arith
field_lt w (suc e) = field_lt (w / 4) e

-- A word that differs by the value of one field has that value there, and the other fields.
pub field-replace_self :
    (w w' v e : ℕ) → v < 4 → w' + shifted (field w e) e ≡ w + shifted v e → field w' e ≡ v
field-replace_self w w' v zero small h = omega arith
field-replace_self w w' v (suc e) small h =
    field-replace_self (w / 4) (w' / 4) v e small (omega arith)

pub field-replace_ne :
    (w w' v e d : ℕ)
    → v < 4
    → w' + shifted (field w e) e ≡ w + shifted v e
    → e ≢ d
    → field w' d ≡ field w d
field-replace_ne w w' v zero zero small h ne = absurd (ne refl)
field-replace_ne w w' v zero (suc d) small h ne = ap (λ x. field x d) (omega arith)
field-replace_ne w w' v (suc e) zero small h ne = omega arith
field-replace_ne w w' v (suc e) (suc d) small h ne =
    field-replace_ne (w / 4) (w' / 4) v e d small (omega arith) (λ same. ne (ap suc same))

shifted_lt : (m e : ℕ) → m < 4 → shifted m e < 2 ^ (e * 2 + 2)
shifted_lt m zero small = small
shifted_lt m (suc e) small =
    let next : suc e * 2 + 2 ≡ suc (suc (e * 2 + 2)) = omega arith in
    omega (
      arith,
      ap (λ x. 2 ^ x) next,
      two-pow-succ (suc (e * 2 + 2)),
      two-pow-succ (e * 2 + 2),
      shifted_lt m e small,
    )

pub shifted_small : (m e : ℕ) → m < 4 → e < 16 → shifted m e < 2 ^ 32
shifted_small m e small inside =
    let le : 2 ^ (e * 2 + 2) ≤ 2 ^ 32 =
      pow-le-pow_right {n = 2} (omega arith) {i = e * 2 + 2} {j = 32} (omega arith) in
    omega (arith, shifted_lt m e small, le)

shifted-add : (m n e : ℕ) → shifted (m + n) e ≡ shifted m e + shifted n e
shifted-add m n zero = refl
shifted-add m n (suc e) = omega (arith, shifted-add m n e)

-- `w | mask` changes the field of the mask, to its value with the mask's bits.
or_change :
    (w m e : ℕ)
    → m < 4
    → bit_or w (shifted m e) + shifted (field w e) e ≡ w + shifted (bit_or (field w e) m) e
or_change w m e small = omega (
  arith,
  or-and w w (shifted m e) (omega arith),
  and-shifted m w e small,
  shifted-add (bit_or (field w e) m) (bit_and (field w e) m) e,
  shifted-add (field w e) m e,
  ap (λ x. shifted x e) (or-and (field w e) (field w e) m (omega arith)),
)

-- `w & ~mask` takes the mask's bits from that field.
not_change :
    (w m e : ℕ)
    → m < 4
    → e < 16
    → w < 2 ^ 32
    → bit_and w (2 ^ 32 - 1 - shifted m e) + shifted (field w e) e
      ≡ w + shifted (field w e - bit_and (field w e) m) e
not_change w m e small inside word =
    let less = and_le (field w e) (field w e) m (omega arith) in
    let whole : field w e - bit_and (field w e) m + bit_and (field w e) m ≡ field w e =
      omega (arith, less) in
    omega (
      arith,
      and-not 32 w (shifted m e) word (shifted_small m e small inside),
      and-shifted m w e small,
      shifted-add (field w e - bit_and (field w e) m) (bit_and (field w e) m) e,
      ap (λ x. shifted x e) whole,
    )

pub field-or_self : (w m e : ℕ) → m < 4 → field (bit_or w (shifted m e)) e ≡ bit_or (field w e) m
field-or_self w m e small =
    field-replace_self w (bit_or w (shifted m e)) (bit_or (field w e) m) e
      (or_lt 2 (field w e) m (field_lt w e) small) (or_change w m e small)

pub field-or_ne : (w m e d : ℕ) → m < 4 → e ≢ d → field (bit_or w (shifted m e)) d ≡ field w d
field-or_ne w m e d small ne =
    field-replace_ne w (bit_or w (shifted m e)) (bit_or (field w e) m) e d
      (or_lt 2 (field w e) m (field_lt w e) small) (or_change w m e small) ne

pub field-not_self :
    (w m e : ℕ)
    → m < 4
    → e < 16
    → w < 2 ^ 32
    → field (bit_and w (2 ^ 32 - 1 - shifted m e)) e ≡ field w e - bit_and (field w e) m
field-not_self w m e small inside word =
    field-replace_self w (bit_and w (2 ^ 32 - 1 - shifted m e)) (field w e - bit_and (field w e) m)
      e (omega (arith, field_lt w e)) (not_change w m e small inside word)

pub field-not_ne :
    (w m e d : ℕ)
    → m < 4
    → e < 16
    → w < 2 ^ 32
    → e ≢ d
    → field (bit_and w (2 ^ 32 - 1 - shifted m e)) d ≡ field w d
field-not_ne w m e d small inside word ne =
    field-replace_ne w (bit_and w (2 ^ 32 - 1 - shifted m e)) (field w e - bit_and (field w e) m) e
      d (omega (arith, field_lt w e)) (not_change w m e small inside word) ne
