-- ===== src/Bit2map.antt =====
-- The map of two-bit entries of include/labstor/types/data_structures/bit2map.h: an entry is VALID
-- (bit 0) and BEING_SET (bit 1), sixteen of them in each `uint32_t`.
pub mod Entries
pub mod Atomic
pub mod Protocol
pub mod Quiet
use Prim.Native.Nat.{bit_and, bit_or}
use labstor.Base
use labstor.Base.{
  ℕ, zero, suc, ◌+◌, ◌-◌, ◌*◌, ◌/◌, ◌%◌, ◌^◌, ◌≤◌, ◌<◌, ◌≡◌, refl, sym, ap, ap₂, ◌∙◌, ◌≢◌, ◌↔◌, ◌⊎◌,
  inl, inr, Bool, true, false, ◌&&◌, ◌||◌, not, Option, none, some, List, [], ◌∷◌, ◌++◌, arith, ltb,
  leb, ◌==◌, if◌then◌else◌, ==→eq, eq→==, Bool-cases, Option-cases, List-cases, length, get_elem?,
  get_or, replicate, length-append, length-set, length-replicate, get_elem?-eq-get_or,
  get_or-set_self, get_or-set_ne, get_or-replicate, get_elem?_of_lt, get_elem?-set_self,
  get_elem?-set_ne, get_elem?-set_cases, u32_mod, u64_mod, u32, sub32, sub64, mod-ne_of_near, Call,
  done, refused, fault, ◌>>=◌, map_call, in_bounds, along_some,
}
use labstor.Spin.{Spun, returned, spinning, crashed}

abbrev pub valid_bit : ℕ
valid_bit = 1

abbrev pub being_set_bit : ℕ
being_set_bit = 2

abbrev pub entries_per_block : ℕ
entries_per_block = 16

-- `entry_block` and `entry_start` of LABSTOR_BIT2MAP_POS
abbrev pub entry_block : ℕ → ℕ
entry_block idx = idx / entries_per_block

abbrev pub entry_start : ℕ → ℕ
entry_start idx = idx % entries_per_block * 2

-- `mask << entry_start`
abbrev pub mask_at : ℕ → ℕ → ℕ
mask_at mask idx = u32 (mask * 2 ^ entry_start idx)

-- `~w`
abbrev pub complement : ℕ → ℕ
complement w = u32_mod - 1 - w

unfoldable pub get_size : ℕ → ℕ
get_size num_entries =
    if num_entries % entries_per_block == 0
    then u32 (num_entries / entries_per_block * 4)
    else u32 ((num_entries / entries_per_block + 1) * 4)

unfoldable pub get_next_section : ℕ → ℕ → ℕ
get_next_section bitmap num_entries = bitmap + get_size num_entries

-- `memset` of `n` words to 0
unfoldable pub clear : ℕ → List ℕ → Call (List ℕ)
clear zero bitmap = done bitmap
clear (suc n) [] = fault
clear (suc n) (w ∷ bitmap) = clear n bitmap >>= λ rest. done (0 ∷ rest)

unfoldable pub init : List ℕ → ℕ → Call (List ℕ)
init bitmap num_entries = clear (get_size num_entries / 4) bitmap

-- `bitmap[entry_block]`
unfoldable pub load : List ℕ → ℕ → Call ℕ
load bitmap idx = in_bounds (get_elem? bitmap (entry_block idx))

unfoldable pub store : List ℕ → ℕ → ℕ → List ℕ
store bitmap idx w = Base.set bitmap (entry_block idx) w

-- `Set`, and `Unset` below
unfoldable pub set : List ℕ → ℕ → ℕ → Call (List ℕ)
set bitmap idx mask = load bitmap idx >>= λ w. done (store bitmap idx (bit_or w (mask_at mask idx)))

unfoldable pub unset : List ℕ → ℕ → ℕ → Call (List ℕ)
unset bitmap idx mask =
    load bitmap idx >>= λ w. done (store bitmap idx (bit_and w (complement (mask_at mask idx))))

unfoldable pub is_set : List ℕ → ℕ → ℕ → Call Bool
is_set bitmap idx mask = load bitmap idx >>= λ w. done (not (bit_and w (mask_at mask idx) == 0))

unfoldable pub is_valid : List ℕ → ℕ → Call Bool
is_valid bitmap idx = is_set bitmap idx valid_bit

unfoldable pub is_being_set : List ℕ → ℕ → Call Bool
is_being_set bitmap idx = is_set bitmap idx being_set_bit

-- `__atomic_compare_exchange_n`
unfoldable pub compare_exchange : List ℕ → ℕ → ℕ → ℕ → Call (Bool × List ℕ)
compare_exchange bitmap idx expected desired = load bitmap idx >>= λ w.
    done (if w == expected then (true, store bitmap idx desired) else (false, bitmap))

-- The loops that load a word, compute the next one and exchange them if the word is still the
-- same; `next` gives `none` where the code returns `false`. The list holds what other threads do
-- between the load and the exchange of each round; when it ends the loop has made no return yet.
unfoldable pub exchange_loop :
    (ℕ → Option ℕ) → List ℕ → ℕ → List (List ℕ → List ℕ) → Spun (Bool × List ℕ)
exchange_loop next bitmap idx [] = spinning
exchange_loop next bitmap idx (other ∷ others) =
    let again = exchange_loop next (other bitmap) idx others in
    elim (load bitmap idx) [
      | done tmp ↦ elim (next tmp) [
        | none ↦ returned (false, bitmap)
        | some block ↦ elim (compare_exchange (other bitmap) idx tmp block) [
          | done p ↦ if p.0 then returned p else again
          | refused ↦ spinning
          | fault ↦ crashed
        ]
      ]
      | refused ↦ spinning
      | fault ↦ crashed
    ]

-- a first round in which the other threads do nothing
abbrev pub undisturbed : List (List ℕ → List ℕ)
undisturbed = (λ bitmap. bitmap) ∷ []

unfoldable pub begin_modify_next : ℕ → ℕ → Option ℕ
begin_modify_next idx tmp =
    if bit_and tmp (mask_at 3 idx) == 0 then some (bit_or tmp (mask_at being_set_bit idx)) else none

unfoldable pub begin_modify : List ℕ → ℕ → List (List ℕ → List ℕ) → Spun (Bool × List ℕ)
begin_modify bitmap idx others = exchange_loop (begin_modify_next idx) bitmap idx others

unfoldable pub commit_modify_next : ℕ → ℕ → Option ℕ
commit_modify_next idx tmp =
    some (bit_and (bit_or tmp (mask_at valid_bit idx)) (complement (mask_at being_set_bit idx)))

-- `CommitModify` and `IgnoreRemove`
unfoldable pub commit_modify : List ℕ → ℕ → List (List ℕ → List ℕ) → Spun (Bool × List ℕ)
commit_modify bitmap idx others = exchange_loop (commit_modify_next idx) bitmap idx others

unfoldable pub begin_remove_next : ℕ → ℕ → Option ℕ
begin_remove_next idx tmp =
    if bit_and tmp (mask_at valid_bit idx) == 0
      || not (bit_and tmp (mask_at being_set_bit idx) == 0)
    then none
    else some (bit_or tmp (mask_at 3 idx))

unfoldable pub begin_remove : List ℕ → ℕ → List (List ℕ → List ℕ) → Spun (Bool × List ℕ)
begin_remove bitmap idx others = exchange_loop (begin_remove_next idx) bitmap idx others

unfoldable pub commit_remove : List ℕ → ℕ → Call (List ℕ)
commit_remove bitmap idx = unset bitmap idx 3
