-- ===== src/Bit2map/Entries.antt =====
-- The bit operations as operations on the entry, which leave the other entries as they are.
use Prim.Native.Nat.{bit_and, bit_or}
use native.Mathlib.Nat.{mod-eq_of_lt, div-add-mod}
use labstor.Base.{
  ℕ, ◌-◌, ◌%◌, ◌^◌, ◌<◌, ◌≡◌, sym, ap, ◌∙◌, ◌≢◌, inl, inr, List, arith, ◌==◌, ==→eq, Bool-cases,
  length, get_or, length-set, get_or-set_self, get_or-set_ne, u32_mod, u32,
}
use labstor.Bits.{
  shifted, shifted-pow, shifted_small, field, field_lt, field-or_self, field-or_ne, field-not_self,
  field-not_ne, or_lt, and_le,
}
use labstor.Bit2map.{entry_block, mask_at, complement, store}

-- the two bits of entry `idx`
abbrev pub entry : List ℕ → ℕ → ℕ
entry bitmap idx = field (get_or bitmap (entry_block idx) 0) (idx % 16)

pub entry_lt : (bitmap : List ℕ) (idx : ℕ) → entry bitmap idx < 4
entry_lt bitmap idx = field_lt (get_or bitmap (entry_block idx) 0) (idx % 16)

-- every word is a `uint32_t`
abbrev pub Words : List ℕ → Type 0
Words bitmap = (b : ℕ) → get_or bitmap b 0 < u32_mod

-- from `w` to `w'` the field `e` becomes `v`, and the others stay
pub record Step (e w w' v : ℕ) : Type 0 where
  pub word : w' < 2 ^ 32
  pub self : field w' e ≡ v
  pub others : (d : ℕ) → e ≢ d → field w' d ≡ field w d

pub mask_at_lem : (m idx : ℕ) → m < 4 → mask_at m idx ≡ shifted m (idx % 16)
mask_at_lem m idx small =
    ap u32 (shifted-pow m (idx % 16))
    ∙ mod-eq_of_lt (shifted_small m (idx % 16) small (omega arith))

pub or_Step :
    (w m idx : ℕ)
    → m < 4
    → w < 2 ^ 32
    → Step (idx % 16) w (bit_or w (mask_at m idx)) (bit_or (field w (idx % 16)) m)
or_Step w m idx small word =
    let e = idx % 16 in
    let at = mask_at_lem m idx small in
    let inside : e < 16 = omega arith in
    record {
      word = rw at (or_lt 32 w (shifted m e) word (shifted_small m e small inside));
      self = rw at (field-or_self w m e small);
      others = λ d ne. rw at (field-or_ne w m e d small ne);
    }

pub not_Step :
    (w m idx : ℕ)
    → m < 4
    → w < 2 ^ 32
    → Step
        (idx % 16)
        w
        (bit_and w (complement (mask_at m idx)))
        (field w (idx % 16) - bit_and (field w (idx % 16)) m)
not_Step w m idx small word =
    let e = idx % 16 in
    let at = mask_at_lem m idx small in
    let inside : e < 16 = omega arith in
    record {
      word =
          let le = and_le w w (complement (mask_at m idx)) (omega arith) in omega (arith, le, word);
      self = rw at (field-not_self w m e small inside word);
      others = λ d ne. rw at (field-not_ne w m e d small inside word ne);
    }

pub then_Step : {e w w' w'' v v' : ℕ} → Step e w w' v → Step e w' w'' v' → Step e w w'' v'
then_Step s t = record {
  word = t.word;
  self = t.self;
  others = λ d ne. t.others d ne ∙ s.others d ne;
}

pub Step-value : {e w w' v v' : ℕ} → v ≡ v' → Step e w w' v → Step e w w' v'
Step-value same s = record { word = s.word; self = s.self ∙ same; others = s.others }

-- from one bitmap to the other, entry `idx` becomes `v`, and the others stay
pub record Becomes (idx v : ℕ) (bitmap bitmap' : List ℕ) : Type 0 where
  pub words : Words bitmap'
  pub same_length : length bitmap' ≡ length bitmap
  pub self : entry bitmap' idx ≡ v
  pub others : (d : ℕ) → idx ≢ d → entry bitmap' d ≡ entry bitmap d

pub store-Becomes :
    (bitmap : List ℕ) (idx w' v : ℕ)
    → Words bitmap
    → entry_block idx < length bitmap
    → Step (idx % 16) (get_or bitmap (entry_block idx) 0) w' v
    → Becomes idx v bitmap (store bitmap idx w')
unfolding store
store-Becomes bitmap idx w' v words inside s =
    let b = entry_block idx in
    let here = get_or-set_self bitmap b w' 0 inside in
    record {
      words = λ c. elim (Bool-cases (b == c)) [
        | inl same ↦ rw (sym (==→eq b c same), here) s.word
        | inr other ↦
            let ne : b ≢ c = λ e. absurd (ground (arith, e, other)) in
            rw (get_or-set_ne bitmap b c w' 0 ne) (words c)
      ];
      same_length = length-set bitmap b w';
      self = ap (λ w. field w (idx % 16)) here ∙ s.self;
      others = λ d ne. elim (Bool-cases (b == entry_block d)) [
        | inl same ↦
            let at = ==→eq b (entry_block d) same in
            let apart : idx % 16 ≢ d % 16 =
              λ e. ne (omega (arith, at, e, div-add-mod idx 16, div-add-mod d 16)) in
            rw (sym at, here) (s.others (d % 16) apart)
        | inr other ↦
            let far : b ≢ entry_block d = λ e. absurd (ground (arith, e, other)) in
            ap (λ w. field w (d % 16)) (get_or-set_ne bitmap b (entry_block d) w' 0 far)
      ];
    }
