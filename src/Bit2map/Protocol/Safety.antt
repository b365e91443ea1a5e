-- ===== src/Bit2map/Protocol/Safety.antt =====
-- No entry has two owners.
use Prim.Native.Nat.{bit_and}
use mathlib.Core.Path.{subst}
use labstor.Base.{
  ℕ, zero, suc, ◌-◌, ◌/◌, ◌≤◌, ◌<◌, ◌≡◌, refl, sym, ap, ◌∙◌, ◌≢◌, inl, inr, some, List, ◌∷◌, arith,
  ◌==◌, ==→eq, eq→==, Bool-cases, length, get_elem?, get_or, set, done, ◌>>=◌,
}
use labstor.Bit2map.{
  undisturbed, entry_block, begin_modify, commit_modify, begin_remove, commit_remove, unset, store,
  mask_at, complement,
}
use labstor.Bit2map.Entries.{entry, entry_lt, Words, Becomes, not_Step, store-Becomes, Step-value}
use labstor.Bit2map.Atomic.{begin_modify_entry, commit_modify_entry, begin_remove_entry}
use labstor.Bit2map.Atomic.Loop.{loops_alone, load_lem}
use labstor.Bit2map.Protocol.{
  Owners, times, without, Move, starts_set, starts_remove, ends_valid, ends_removed, Reach, here,
  next, Exclusive, now, times-without, get-without,
}

starts-Exclusive :
    {s : Owners} {idx x : ℕ} {b : List ℕ}
    → Exclusive s
    → entry_block idx < length s.bitmap
    → Becomes idx x s.bitmap b
    → entry s.bitmap idx / 2 ≡ 0
    → x / 2 ≡ 1
    → Exclusive (record { bitmap = b; owned = idx ∷ s.owned })
starts-Exclusive {s} {idx} {x} {b} inv inside becomes free marked = record {
  words = becomes.words;
  owners = λ d. elim (Bool-cases (idx == d)) [
    | inl same ↦
        let e = ==→eq idx d same in subst (λ k. times k (idx ∷ s.owned) ≡ entry b k / 2) e owned_now
    | inr other ↦
        let ne : idx ≢ d = λ e. absurd (ground (arith, e, other)) in
        rw other (inv.owners d ∙ ap (λ v. v / 2) (sym (becomes.others d ne)))
  ];
  inside = λ i d at. owned_inside i d at;
}
  where
    owned_now : times idx (idx ∷ s.owned) ≡ entry b idx / 2
    owned_now =
        rw (eq→== idx idx refl)
          (omega (arith, inv.owners idx, free, marked, ap (λ v. v / 2) becomes.self))

    owned_inside : (i d : ℕ) → get_elem? (idx ∷ s.owned) i ≡ some d → entry_block d < length b
    owned_inside zero d at =
        let e : idx ≡ d = cc (at) in omega (arith, becomes.same_length, inside, ap entry_block e)
    owned_inside (suc i) d at = omega (arith, becomes.same_length, inv.inside i d at)

ends-Exclusive :
    {s : Owners} (i : ℕ) {idx x : ℕ} {b : List ℕ}
    → Exclusive s
    → get_elem? s.owned i ≡ some idx
    → Becomes idx x s.bitmap b
    → x / 2 ≡ 0
    → Exclusive (record { bitmap = b; owned = without s.owned i })
ends-Exclusive {s} i {idx} {x} {b} inv at becomes cleared = record {
  words = becomes.words;
  owners = λ d. elim (Bool-cases (idx == d)) [
    | inl same ↦
        let e = ==→eq idx d same in
        let before = times-without s.owned i idx d at in
        let before' : times d s.owned ≡ suc (times d (without s.owned i)) = before ∙ rw same in
        let now_unset : entry b d / 2 ≡ 0 = rw (sym e) (ap (λ v. v / 2) becomes.self ∙ cleared) in
        omega (arith, before', now_unset, inv.owners d, entry_lt s.bitmap d)
    | inr other ↦
        let ne : idx ≢ d = λ e. absurd (ground (arith, e, other)) in
        let before : times d s.owned ≡ times d (without s.owned i) =
          times-without s.owned i idx d at ∙ rw other in
        sym before ∙ inv.owners d ∙ ap (λ v. v / 2) (sym (becomes.others d ne))
  ];
  inside = λ j d found.
      let (k, was) = get-without s.owned i j d found in
      omega (arith, becomes.same_length, inv.inside k d was);
}

begin_modify_from : (v x : ℕ) → begin_modify_entry v ≡ some x → (v ≡ 0) × (x ≡ 2)
begin_modify_from v x e = ground arith

begin_remove_from : (v x : ℕ) → begin_remove_entry v ≡ some x → (v ≡ 1) × (x ≡ 3)
begin_remove_from v x e = ground arith

unset_three : (v : ℕ) → v < 4 → v - bit_and v 3 ≡ 0
unset_three zero h = refl
unset_three (suc zero) h = refl
unset_three (suc (suc zero)) h = refl
unset_three (suc (suc (suc zero))) h = refl
unset_three (suc (suc (suc (suc v)))) h = absurd (omega arith)

pub commit_remove_lem :
    (bitmap b : List ℕ) (idx : ℕ)
    → Words bitmap
    → entry_block idx < length bitmap
    → commit_remove bitmap idx ≡ done b
    → Becomes idx 0 bitmap b
unfolding commit_remove unset
commit_remove_lem bitmap b idx words inside run =
    let w = get_or bitmap (entry_block idx) 0 in
    let made : store bitmap idx (bit_and w (complement (mask_at 3 idx))) ≡ b = cc (
      run,
      ap (λ call. call >>= λ v. done (store bitmap idx (bit_and v (complement (mask_at 3 idx)))))
          (load_lem bitmap idx inside),
    ) in
    subst (Becomes idx 0 bitmap) made (
      store-Becomes bitmap idx (bit_and w (complement (mask_at 3 idx))) 0 words inside (
        Step-value (unset_three (entry bitmap idx) (entry_lt bitmap idx))
          (not_Step w 3 idx (omega arith) (words (entry_block idx)))))

pub Move-Exclusive : {s t : Owners} → Move s t → Exclusive s → Exclusive t
Move-Exclusive {s} (starts_set idx b inside run is_t) inv =
    let (x, takes, becomes) =
      now begin_modify_entry idx s.bitmap b (begin_modify s.bitmap idx undisturbed)
        (loops_alone s.bitmap idx inv.words inside).0 run in
    let (free, set) = begin_modify_from (entry s.bitmap idx) x takes in
    subst Exclusive (sym is_t)
      (starts-Exclusive inv inside becomes (ap (λ v. v / 2) free) (ap (λ v. v / 2) set))
Move-Exclusive {s} (starts_remove idx b inside run is_t) inv =
    let (x, takes, becomes) =
      now begin_remove_entry idx s.bitmap b (begin_remove s.bitmap idx undisturbed)
        (loops_alone s.bitmap idx inv.words inside).2 run in
    let (free, set) = begin_remove_from (entry s.bitmap idx) x takes in
    subst Exclusive (sym is_t)
      (starts-Exclusive inv inside becomes (ap (λ v. v / 2) free) (ap (λ v. v / 2) set))
Move-Exclusive {s} (ends_valid i idx b at run is_t) inv =
    let (x, takes, becomes) =
      now commit_modify_entry idx s.bitmap b (commit_modify s.bitmap idx undisturbed)
        (loops_alone s.bitmap idx inv.words (inv.inside i idx at)).1 run in
    let valid : 1 ≡ x = cc (takes) in
    subst Exclusive (sym is_t) (ends-Exclusive i inv at becomes (ap (λ v. v / 2) (sym valid)))
Move-Exclusive {s} (ends_removed i idx b at run is_t) inv = subst Exclusive (sym is_t) (
    ends-Exclusive i inv at (commit_remove_lem s.bitmap b idx inv.words (inv.inside i idx at) run)
      refl)

-- However threads begin and commit, from words in which no entry is BEING_SET on, an entry is
-- BEING_SET exactly while it has an owner, and no entry ever has two owners.
pub one_owner :
    {s t : Owners}
    → Exclusive s
    → Reach s t
    → (idx : ℕ) → (times idx t.owned ≡ entry t.bitmap idx / 2) × (times idx t.owned ≤ 1)
one_owner {s} {t} inv r idx =
    let e = (reach r).owners idx in (e, omega (arith, e, entry_lt t.bitmap idx))
  where
    reach : {u : Owners} → Reach s u → Exclusive u
    reach here = inv
    reach (next r m) = Move-Exclusive m (reach r)
