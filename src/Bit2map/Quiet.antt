-- ===== src/Bit2map/Quiet.antt =====
-- The operations when no other thread interferes.
use Prim.Native.Nat.{bit_and}
use mathlib.Core.Path.{subst}
use labstor.Base.{
  ℕ, zero, suc, ◌<◌, ◌≡◌, refl, sym, ap, ◌∙◌, ◌≢◌, ◌⊎◌, inl, inr, Bool, true, false, not, Option,
  none, some, List, [], arith, ◌==◌, length, get_or, done, ◌>>=◌,
}
use labstor.Spin.{Spun, returned}
use labstor.Bit2map.{
  undisturbed, entry_block, begin_modify, commit_modify, begin_remove, commit_remove, unset, store,
  is_set, mask_at, complement,
}
use labstor.Bit2map.Entries.{entry, Words, Becomes}
use labstor.Bit2map.Atomic.{
  AtOnce, begin_modify_entry, commit_modify_entry, begin_remove_entry, test_lem,
}
use labstor.Bit2map.Atomic.Loop.{loops_alone, load_lem}
use labstor.Bit2map.Protocol.Safety.{commit_remove_lem}

-- what such a run returns
alone :
    (op : ℕ → Option ℕ) (idx : ℕ) (bitmap : List ℕ) (run : Spun (Bool × List ℕ))
    → AtOnce op idx bitmap [] run
    → ((run ≡ returned (false, bitmap)) × (op (entry bitmap idx) ≡ none))
      ⊎ ((x : ℕ) × (b : List ℕ) × (run ≡ returned (true, b))
          × (op (entry bitmap idx) ≡ some x)
          × Becomes idx x bitmap b)
alone op idx bitmap run (zero, c, at, outcome) =
    let is_c : bitmap ≡ c = cc (at) in
    subst
      (λ c.
        ((run ≡ returned (false, c)) × (op (entry c idx) ≡ none))
        ⊎ ((x : ℕ) × (b : List ℕ) × (run ≡ returned (true, b))
            × (op (entry c idx) ≡ some x)
            × Becomes idx x c b))
      (sym is_c) outcome
alone op idx bitmap run (suc i, c, at, outcome) = absurd (cc (at))

module _ (bitmap : List ℕ) (idx : ℕ) (words : Words bitmap)
    (inside : entry_block idx < length bitmap) where
  takes_effect :
      (op : ℕ → Option ℕ) (x : ℕ) (run : Spun (Bool × List ℕ))
      → AtOnce op idx bitmap [] run
      → op (entry bitmap idx) ≡ some x
      → (b : List ℕ) × (run ≡ returned (true, b)) × Becomes idx x bitmap b
  takes_effect op x run once takes = elim (alone op idx bitmap run once) [
    | inl (ran, stop) ↦ absurd (cc (stop, takes))
    | inr (y, b, ran, taken, becomes) ↦
        let same : y ≡ x = cc (takes, taken) in
        (b, ran, subst (λ y. Becomes idx y bitmap b) same becomes)
  ]

  refuses :
      (op : ℕ → Option ℕ) (run : Spun (Bool × List ℕ))
      → AtOnce op idx bitmap [] run
      → op (entry bitmap idx) ≡ none
      → run ≡ returned (false, bitmap)
  refuses op run once stop = elim (alone op idx bitmap run once) [
    | inl (ran, stopped) ↦ ran
    | inr (y, b, ran, taken, becomes) ↦ absurd (cc (stop, taken))
  ]

  pub begin_modify_free :
      entry bitmap idx ≡ 0
      → (b : List ℕ) × (begin_modify bitmap idx undisturbed ≡ returned (true, b))
        × Becomes idx 2 bitmap b
  begin_modify_free free =
      takes_effect begin_modify_entry 2 (begin_modify bitmap idx undisturbed)
        (loops_alone bitmap idx words inside).0 (rw free refl)

  pub begin_modify_busy :
      entry bitmap idx ≢ 0 → begin_modify bitmap idx undisturbed ≡ returned (false, bitmap)
  begin_modify_busy busy =
      refuses begin_modify_entry (begin_modify bitmap idx undisturbed)
        (loops_alone bitmap idx words inside).0 (ground (arith, busy))

  pub commit_modify_alone :
      (b : List ℕ) × (commit_modify bitmap idx undisturbed ≡ returned (true, b))
      × Becomes idx 1 bitmap b
  commit_modify_alone =
      takes_effect commit_modify_entry 1 (commit_modify bitmap idx undisturbed)
        (loops_alone bitmap idx words inside).1 refl

  pub begin_remove_valid :
      entry bitmap idx ≡ 1
      → (b : List ℕ) × (begin_remove bitmap idx undisturbed ≡ returned (true, b))
        × Becomes idx 3 bitmap b
  begin_remove_valid valid =
      takes_effect begin_remove_entry 3 (begin_remove bitmap idx undisturbed)
        (loops_alone bitmap idx words inside).2 (rw valid refl)

  pub begin_remove_other :
      entry bitmap idx ≢ 1 → begin_remove bitmap idx undisturbed ≡ returned (false, bitmap)
  begin_remove_other other =
      refuses begin_remove_entry (begin_remove bitmap idx undisturbed)
        (loops_alone bitmap idx words inside).2 (ground (arith, other))

  pub commit_remove_alone :
      (b : List ℕ) × (commit_remove bitmap idx ≡ done b) × Becomes idx 0 bitmap b
  unfolding commit_remove unset
  commit_remove_alone =
      let w = get_or bitmap (entry_block idx) 0 in
      let run : commit_remove bitmap idx
          ≡ done (store bitmap idx (bit_and w (complement (mask_at 3 idx)))) =
        ap (λ call. call >>= λ v. done (store bitmap idx (bit_and v (complement (mask_at 3 idx)))))
          (load_lem bitmap idx inside) in
      (
        store bitmap idx (bit_and w (complement (mask_at 3 idx))),
        run,
        commit_remove_lem bitmap (store bitmap idx (bit_and w (complement (mask_at 3 idx)))) idx
            words inside run,
      )

  pub is_set_alone : is_set bitmap idx 1 ≡ done (not (bit_and (entry bitmap idx) 1 == 0))
  unfolding is_set
  is_set_alone =
      ap (λ call. call >>= λ v. done (not (bit_and v (mask_at 1 idx) == 0)))
        (load_lem bitmap idx inside)
      ∙ ap (λ t. done (not t)) (test_lem (get_or bitmap (entry_block idx) 0) 1 idx (omega arith))
