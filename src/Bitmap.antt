-- ===== src/Bitmap.antt =====
-- The bitmap of include/labstor/types/data_structures/bitmap.h, 32 entries in each word.
use Prim.Native.Nat.{bit_and, bit_or}
use labstor.Base
use labstor.Base.{
  ℕ, zero, suc, ◌+◌, ◌-◌, ◌*◌, ◌/◌, ◌%◌, ◌^◌, ◌≤◌, ◌<◌, ◌≡◌, refl, sym, ap, ap₂, ◌∙◌, ◌≢◌, ◌↔◌, ◌⊎◌,
  inl, inr, Bool, true, false, ◌&&◌, ◌||◌, not, Option, none, some, List, [], ◌∷◌, ◌++◌, arith, ltb,
  leb, ◌==◌, if◌then◌else◌, ==→eq, eq→==, Bool-cases, Option-cases, List-cases, length, get_elem?,
  get_or, replicate, length-append, length-set, length-replicate, get_elem?-eq-get_or,
  get_or-set_self, get_or-set_ne, get_or-replicate, get_elem?_of_lt, get_elem?-set_self,
  get_elem?-set_ne, get_elem?-set_cases, get_elem?-append_left, get_elem?-append_last, u32_mod,
  u64_mod, u32, sub32, sub64, mod-ne_of_near, Call, done, refused, fault, ◌>>=◌, map_call,
  in_bounds, along_some,
}
use labstor.Bit2map.{clear, complement}

abbrev pub entries_per_block : ℕ
entries_per_block = 32

-- `entry_block` and `bit_in_block` of LABSTOR_BITMAP_POS
abbrev pub entry_block : ℕ → ℕ
entry_block idx = idx / entries_per_block

abbrev pub bit_in_block : ℕ → ℕ
bit_in_block idx = idx % entries_per_block

abbrev pub mask_of : ℕ → ℕ
mask_of idx = u32 (2 ^ bit_in_block idx)

unfoldable pub get_size : ℕ → ℕ
get_size num_entries =
    if num_entries % entries_per_block == 0
    then u32 (num_entries / entries_per_block * 4)
    else u32 ((num_entries / entries_per_block + 1) * 4)

unfoldable pub get_next_section : ℕ → ℕ → ℕ
get_next_section bitmap num_entries = (bitmap + get_size num_entries) % u64_mod

unfoldable pub init : List ℕ → ℕ → Call (List ℕ)
init bitmap num_entries = clear (get_size num_entries / 4) bitmap

-- `bitmap[entry_block]`
unfoldable pub load : List ℕ → ℕ → Call ℕ
load bitmap idx = in_bounds (get_elem? bitmap (entry_block idx))

-- `Set`, and `Unset` below
unfoldable pub set : List ℕ → ℕ → Call (List ℕ)
set bitmap idx =
    load bitmap idx >>= λ w. done (Base.set bitmap (entry_block idx) (bit_or w (mask_of idx)))

unfoldable pub unset : List ℕ → ℕ → Call (List ℕ)
unset bitmap idx = load bitmap idx >>= λ w.
    done (Base.set bitmap (entry_block idx) (bit_and w (complement (mask_of idx))))

unfoldable pub is_set : List ℕ → ℕ → Call Bool
is_set bitmap idx = load bitmap idx >>= λ w. done (not (bit_and w (mask_of idx) == 0))

-- `other` is what other threads do between the load and the exchange.
unfoldable pub test_and_set : List ℕ → (List ℕ → List ℕ) → ℕ → Call (Bool × List ℕ)
test_and_set bitmap other idx = load bitmap idx >>= λ block. load (other bitmap) idx >>= λ w. done (
    if w == block
    then (true, Base.set (other bitmap) (entry_block idx) (bit_or block (mask_of idx)))
    else (false, other bitmap))

-- `TestAndSet` sets the bit and returns true, also where it was set, unless another thread changes
-- the word meanwhile.
pub test_and_set-set :
    (bitmap : List ℕ) (idx : ℕ)
    → test_and_set bitmap (λ b. b) idx ≡ (set bitmap idx >>= λ b. done (true, b))
unfolding test_and_set set load
test_and_set-set bitmap idx = elim (Option-cases (get_elem? bitmap (entry_block idx))) [
  | inl outside ↦ ground (arith, outside)
  | inr (w, inside) ↦ ground (arith, inside, eq→== w w refl)
]
