-- ===== src/Tests/Bitmaps.antt =====
-- The map of two-bit entries at concrete inputs.
use labstor.Base.{
  ℕ, zero, suc, ◌/◌, ◌%◌, ◌≤◌, ◌<◌, ◌≡◌, refl, sym, List, [], ◌∷◌, arith, get_or, u32_mod,
}
use labstor.Bit2map.{
  entry_block, load, store, compare_exchange, exchange_loop, begin_modify_next, begin_modify,
  commit_modify_next, commit_modify, begin_remove,
}
use labstor.Bits.{field}
use labstor.Bit2map.Entries.{entry, Words}
use labstor.Bit2map.Atomic.{
  begin_modify_entry, commit_modify_entry, begin_remove_entry, Stable, AtOnce,
}
use labstor.Bit2map.Atomic.Loop.{loops_atomic}
use labstor.Bit2map.Protocol.{Owners, Exclusive, here, next, Move, starts_set, ends_valid, times}
use labstor.Bit2map.Protocol.Safety.{one_owner}

-- Another thread makes entry 1 BEING_SET.
abbrev interference : List (List ℕ → List ℕ)
interference = (λ bitmap. 8 ∷ []) ∷ (λ bitmap. bitmap) ∷ []

one_word-Words : (w : ℕ) → w < u32_mod → Words (w ∷ [])
one_word-Words w small zero = small
one_word-Words w small (suc b) = omega arith

interference-Stable : Stable 1 interference
interference-Stable = (
  (λ bitmap words len. (one_word-Words 8 (omega arith), refl)),
  ((λ bitmap words len. (words, len)), omega arith),
)

loops_atomic_example :
    AtOnce begin_modify_entry 0 (0 ∷ []) interference (begin_modify (0 ∷ []) 0 interference)
    × AtOnce commit_modify_entry 0 (0 ∷ []) interference (commit_modify (0 ∷ []) 0 interference)
    × AtOnce begin_remove_entry 0 (0 ∷ []) interference (begin_remove (0 ∷ []) 0 interference)
loops_atomic_example =
    loops_atomic (0 ∷ []) 0 ((λ bitmap. 8 ∷ []) ∷ []) (λ bitmap. bitmap) []
      (one_word-Words 0 (omega arith)) interference-Stable (λ b. refl) (omega arith)

field-zero : (e : ℕ) → field 0 e ≡ 0
field-zero zero = refl
field-zero (suc e) = field-zero e

unowned : (idx : ℕ) → 0 ≡ entry (0 ∷ []) idx / 2
unowned idx = sym (rw (word (entry_block idx), field-zero (idx % 16)) refl)
  where
    word : (b : ℕ) → get_or {A = ℕ} (0 ∷ []) b 0 ≡ 0
    word zero = refl
    word (suc b) = refl

abbrev nobody : Owners
nobody = record { bitmap = 0 ∷ []; owned = [] }

abbrev setting_three : Owners
setting_three = record { bitmap = 128 ∷ []; owned = 3 ∷ [] }

abbrev three_valid : Owners
three_valid = record { bitmap = 64 ∷ []; owned = [] }

nobody-Exclusive : Exclusive nobody
nobody-Exclusive = record {
  words = one_word-Words 0 (omega arith);
  owners = λ idx. unowned idx;
  inside = λ i idx at. absurd (cc (at));
}

sets_three : Move nobody setting_three
unfolding begin_modify exchange_loop load begin_modify_next compare_exchange store
sets_three = starts_set 3 (128 ∷ []) (omega arith) refl refl

commits_three : Move setting_three three_valid
unfolding commit_modify exchange_loop load commit_modify_next compare_exchange store
commits_three = ends_valid 0 3 (64 ∷ []) refl refl refl

one_owner_example :
    (times 3 setting_three.owned ≡ entry setting_three.bitmap 3 / 2)
    × (times 3 setting_three.owned ≤ 1)
one_owner_example = one_owner nobody-Exclusive (next here sets_three) 3
