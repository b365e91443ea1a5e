-- ===== src/Bit2map/Atomic.antt =====
-- The exchange loops take effect at once: whatever other threads do to the words meanwhile, a loop
-- ends, and does what its operation on the entry does at one of the states in between.
pub mod Loop
use Prim.Native.Nat.{bit_and, bit_or}
use labstor.Base.{
  ℕ, zero, suc, ◌-◌, ◌*◌, ◌%◌, ◌^◌, ◌≤◌, ◌<◌, ◌≡◌, refl, ap, ◌∙◌, ◌⊎◌, inl, inr, Bool, true, false,
  ◌||◌, not, Option, none, some, List, [], ◌∷◌, arith, ◌==◌, if◌then◌else◌, length, get_elem?,
}
use labstor.Bits.{shifted, field, field_lt, and-shifted}
use labstor.Spin.{Spun, returned}
use labstor.Bit2map.{mask_at, complement, begin_modify_next, commit_modify_next, begin_remove_next}
use labstor.Bit2map.Entries.{
  entry, Words, Step, Step-value, mask_at_lem, or_Step, not_Step, then_Step, Becomes,
}

-- The operations on an entry; `none` is a refusal.
abbrev pub begin_modify_entry : ℕ → Option ℕ
begin_modify_entry v = if v == 0 then some 2 else none

abbrev pub commit_modify_entry : ℕ → Option ℕ
commit_modify_entry v = some 1

abbrev pub begin_remove_entry : ℕ → Option ℕ
begin_remove_entry v = if v == 1 then some 3 else none

-- The word operation is the entry operation.
abbrev pub Implements : ℕ → (ℕ → Option ℕ) → (ℕ → Option ℕ) → Type 0
Implements idx next op =
    (w : ℕ)
    → w < 2 ^ 32
    → ((next w ≡ none) × (op (field w (idx % 16)) ≡ none))
      ⊎ ((w' : ℕ) × (x : ℕ) × (next w ≡ some w')
          × (op (field w (idx % 16)) ≡ some x)
          × Step (idx % 16) w w' x)

shifted-zero : (x e : ℕ) → (shifted x e == 0) ≡ (x == 0)
shifted-zero x zero = refl
shifted-zero x (suc e) = zero_times (shifted x e) ∙ shifted-zero x e
  where
    zero_times : (y : ℕ) → (y * 4 == 0) ≡ (y == 0)
    zero_times zero = refl
    zero_times (suc y) = ground arith

pub test_lem :
    (w m idx : ℕ) → m < 4 → (bit_and w (mask_at m idx) == 0) ≡ (bit_and (field w (idx % 16)) m == 0)
test_lem w m idx small =
    ap (λ k. bit_and w k == 0) (mask_at_lem m idx small)
    ∙ ap (λ k. k == 0) (and-shifted m w (idx % 16) small)
    ∙ shifted-zero (bit_and (field w (idx % 16)) m) (idx % 16)

begin_modify_at :
    (v : ℕ)
    → v < 4
    → ((v ≡ 0) × (bit_and v 3 == 0 ≡ true) × (bit_or v 2 ≡ 2))
      ⊎ ((bit_and v 3 == 0 ≡ false) × (begin_modify_entry v ≡ none))
begin_modify_at zero h = inl (refl, refl, refl)
begin_modify_at (suc zero) h = inr (refl, refl)
begin_modify_at (suc (suc zero)) h = inr (refl, refl)
begin_modify_at (suc (suc (suc zero))) h = inr (refl, refl)
begin_modify_at (suc (suc (suc (suc v)))) h = absurd (omega arith)

pub begin_modify-Implements : (idx : ℕ) → Implements idx (begin_modify_next idx) begin_modify_entry
unfolding begin_modify_next
begin_modify-Implements idx w word =
    let v = field w (idx % 16) in
    let test = test_lem w 3 idx (omega arith) in
    elim (begin_modify_at v (field_lt w (idx % 16))) [
      | inl (zero_v, free, value) ↦ inr (
        bit_or w (mask_at 2 idx),
        2,
        rw (test, free) refl,
        rw zero_v refl,
        Step-value (ap (λ x. bit_or x 2) zero_v) (or_Step w 2 idx (omega arith) word),
      )
      | inr (busy, refuses) ↦ inl (rw (test, busy) refl, refuses)
    ]

commit_modify_at : (v : ℕ) → v < 4 → bit_or v 1 - bit_and (bit_or v 1) 2 ≡ 1
commit_modify_at zero h = refl
commit_modify_at (suc zero) h = refl
commit_modify_at (suc (suc zero)) h = refl
commit_modify_at (suc (suc (suc zero))) h = refl
commit_modify_at (suc (suc (suc (suc v)))) h = absurd (omega arith)

pub commit_modify-Implements :
    (idx : ℕ) → Implements idx (commit_modify_next idx) commit_modify_entry
unfolding commit_modify_next
commit_modify-Implements idx w word =
    let v = field w (idx % 16) in
    let added = or_Step w 1 idx (omega arith) word in
    let taken = not_Step (bit_or w (mask_at 1 idx)) 2 idx (omega arith) added.word in
    let value : field (bit_or w (mask_at 1 idx)) (idx % 16)
          - bit_and (field (bit_or w (mask_at 1 idx)) (idx % 16)) 2
        ≡ 1 =
      ap (λ x. x - bit_and x 2) added.self ∙ commit_modify_at v (field_lt w (idx % 16)) in
    inr (
      bit_and (bit_or w (mask_at 1 idx)) (complement (mask_at 2 idx)),
      1,
      refl,
      refl,
      Step-value value (then_Step added taken),
    )

begin_remove_at :
    (v : ℕ)
    → v < 4
    → ((v ≡ 1) × ((bit_and v 1 == 0 || not (bit_and v 2 == 0)) ≡ false))
      ⊎ (((bit_and v 1 == 0 || not (bit_and v 2 == 0)) ≡ true) × (begin_remove_entry v ≡ none))
begin_remove_at zero h = inr (refl, refl)
begin_remove_at (suc zero) h = inl (refl, refl)
begin_remove_at (suc (suc zero)) h = inr (refl, refl)
begin_remove_at (suc (suc (suc zero))) h = inr (refl, refl)
begin_remove_at (suc (suc (suc (suc v)))) h = absurd (omega arith)

pub begin_remove-Implements : (idx : ℕ) → Implements idx (begin_remove_next idx) begin_remove_entry
unfolding begin_remove_next
begin_remove-Implements idx w word =
    let v = field w (idx % 16) in
    let test₁ = test_lem w 1 idx (omega arith) in
    let test₂ = test_lem w 2 idx (omega arith) in
    elim (begin_remove_at v (field_lt w (idx % 16))) [
      | inl (one_v, valid) ↦ inr (
        bit_or w (mask_at 3 idx),
        3,
        rw (test₁, test₂, valid) refl,
        rw one_v refl,
        Step-value (ap (λ x. bit_or x 3) one_v) (or_Step w 3 idx (omega arith) word),
      )
      | inr (not_valid, refuses) ↦ inl (rw (test₁, test₂, not_valid) refl, refuses)
    ]

-- What the other threads do leaves an array of so many words.
abbrev pub Stable : ℕ → List (List ℕ → List ℕ) → Type 0
Stable n [] = 0 ≤ 0
Stable n (other ∷ others) =
    ((bitmap : List ℕ)
      → Words bitmap
      → length bitmap ≡ n
      → Words (other bitmap) × (length (other bitmap) ≡ n))
    × Stable n others

-- the states that the others leave, one after the other
abbrev pub states : List ℕ → List (List ℕ → List ℕ) → List (List ℕ)
states bitmap [] = bitmap ∷ []
states bitmap (other ∷ others) = bitmap ∷ states (other bitmap) others

-- The run returns, and what it returns is what `op` does to entry `idx` at one of the states.
abbrev pub AtOnce :
    (ℕ → Option ℕ) → ℕ → List ℕ → List (List ℕ → List ℕ) → Spun (Bool × List ℕ) → Type 0
AtOnce op idx bitmap others run =
    (i : ℕ) × (b : List ℕ) × (get_elem? (states bitmap others) i ≡ some b)
    × (((run ≡ returned (false, b)) × (op (entry b idx) ≡ none))
        ⊎ ((x : ℕ) × (b' : List ℕ) × (run ≡ returned (true, b'))
            × (op (entry b idx) ≡ some x)
            × Becomes idx x b b'))
