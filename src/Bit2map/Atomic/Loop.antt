-- ===== src/Bit2map/Atomic/Loop.antt =====
-- The exchange loop, for any operation on an entry that a word operation implements.
use mathlib.Core.Path.{subst}
use labstor.Base.{
  ℕ, zero, suc, ◌%◌, ◌<◌, ◌≡◌, refl, sym, ap, ◌∙◌, ◌≢◌, inl, inr, Bool, true, false, Option, none,
  some, List, [], ◌∷◌, ◌++◌, arith, ◌==◌, if◌then◌else◌, ==→eq, Bool-cases, length, get_elem?,
  get_or, get_elem?-eq-get_or, done, in_bounds,
}
use labstor.Spin.{Spun, returned}
use labstor.Bit2map.{
  entry_block, load, store, undisturbed, exchange_loop, compare_exchange, begin_modify_next,
  begin_modify, commit_modify_next, commit_modify, begin_remove_next, begin_remove,
}
use labstor.Bit2map.Entries.{Words, Step, store-Becomes}
use labstor.Bit2map.Atomic.{
  Implements, Stable, states, AtOnce, begin_modify_entry, commit_modify_entry, begin_remove_entry,
  begin_modify-Implements, commit_modify-Implements, begin_remove-Implements,
}

pub load_lem :
    (bitmap : List ℕ) (idx : ℕ)
    → entry_block idx < length bitmap
    → load bitmap idx ≡ done (get_or bitmap (entry_block idx) 0)
unfolding load
load_lem bitmap idx inside = ap in_bounds (get_elem?-eq-get_or bitmap (entry_block idx) 0 inside)

exchange_lem :
    (bitmap : List ℕ) (idx expected desired : ℕ)
    → entry_block idx < length bitmap
    → compare_exchange bitmap idx expected desired
      ≡ done (
          if get_or bitmap (entry_block idx) 0 == expected
          then (true, store bitmap idx desired)
          else (false, bitmap))
unfolding compare_exchange
exchange_lem bitmap idx expected desired inside = rw (load_lem bitmap idx inside)

states-first :
    (bitmap : List ℕ) (others : List (List ℕ → List ℕ))
    → get_elem? (states bitmap others) 0 ≡ some bitmap
states-first bitmap [] = refl
states-first bitmap (o ∷ others) = refl

module _ (next : ℕ → Option ℕ) (idx : ℕ) where
  loop_none :
      (bitmap : List ℕ) (o : List ℕ → List ℕ) (others : List (List ℕ → List ℕ)) (w : ℕ)
      → load bitmap idx ≡ done w
      → next w ≡ none
      → exchange_loop next bitmap idx (o ∷ others) ≡ returned (false, bitmap)
  unfolding exchange_loop
  loop_none bitmap o others w at stop = ground (arith, at, stop)

  loop_ok :
      (bitmap b' : List ℕ) (o : List ℕ → List ℕ) (others : List (List ℕ → List ℕ)) (w w' : ℕ)
      → load bitmap idx ≡ done w
      → next w ≡ some w'
      → compare_exchange (o bitmap) idx w w' ≡ done (true, b')
      → exchange_loop next bitmap idx (o ∷ others) ≡ returned (true, b')
  unfolding exchange_loop
  loop_ok bitmap b' o others w w' at go ok = ground (arith, at, go, ok)

  loop_again :
      (bitmap b' : List ℕ) (o : List ℕ → List ℕ) (others : List (List ℕ → List ℕ)) (w w' : ℕ)
      → load bitmap idx ≡ done w
      → next w ≡ some w'
      → compare_exchange (o bitmap) idx w w' ≡ done (false, b')
      → exchange_loop next bitmap idx (o ∷ others) ≡ exchange_loop next (o bitmap) idx others
  unfolding exchange_loop
  loop_again bitmap b' o others w w' at go changed = ground (arith, at, go, changed)

  later :
      (op : ℕ → Option ℕ) (bitmap : List ℕ) (o : List ℕ → List ℕ) (others : List (List ℕ → List ℕ))
      {run run' : Spun (Bool × List ℕ)}
      → run' ≡ run
      → AtOnce op idx (o bitmap) others run
      → AtOnce op idx bitmap (o ∷ others) run'
  later op bitmap o others e (i, b, at, outcome) =
      subst (AtOnce op idx bitmap (o ∷ others)) (sym e) (suc i, b, at, outcome)

  -- A round ends the loop, unless the word has changed.
  round_lem :
      (op : ℕ → Option ℕ) (n : ℕ) (bitmap : List ℕ) (o : List ℕ → List ℕ)
      (others : List (List ℕ → List ℕ))
      → Implements idx next op
      → Stable n (o ∷ others)
      → Words bitmap
      → length bitmap ≡ n
      → entry_block idx < n
      → (get_or (o bitmap) (entry_block idx) 0 ≢ get_or bitmap (entry_block idx) 0
          → AtOnce op idx (o bitmap) others (exchange_loop next (o bitmap) idx others))
      → AtOnce op idx bitmap (o ∷ others) (exchange_loop next bitmap idx (o ∷ others))
  round_lem op n bitmap o others imp stable words len inside go_on =
      let inside' : entry_block idx < length bitmap = omega (arith, len, inside) in
      let w = get_or bitmap (entry_block idx) 0 in
      let at = load_lem bitmap idx inside' in
      let (words', len') = stable.0 bitmap words len in
      let inside'' : entry_block idx < length (o bitmap) = omega (arith, len', inside) in
      elim (imp w (words (entry_block idx))) [
        | inl (stop, refuses) ↦
            (0, bitmap, refl, inl (loop_none bitmap o others w at stop, refuses))
        | inr (w', x, go, takes, s) ↦
            let exchanged = exchange_lem (o bitmap) idx w w' inside'' in
            elim (Bool-cases (get_or (o bitmap) (entry_block idx) 0 == w)) [
              | inl same ↦
                  let equal = ==→eq (get_or (o bitmap) (entry_block idx) 0) w same in
                  (
                    1,
                    o bitmap,
                    states-first (o bitmap) others,
                    inr (
                      x,
                      store (o bitmap) idx w',
                      loop_ok bitmap (store (o bitmap) idx w') o others w w' at go
                          (exchanged ∙ rw same),
                      rw equal takes,
                      store-Becomes (o bitmap) idx w' x words' inside''
                          (subst (λ u. Step (idx % 16) u w' x) (sym equal) s),
                    ),
                  )
              | inr changed ↦
                  later op bitmap o others
                    (loop_again bitmap (o bitmap) o others w w' at go (exchanged ∙ rw changed))
                    (go_on (λ e. absurd (ground (arith, e, changed))))
            ]
      ]

  -- The loop returns in a round that leaves the word, if not before.
  pub loop_lem :
      (op : ℕ → Option ℕ) (n : ℕ) (bitmap : List ℕ) (before : List (List ℕ → List ℕ))
      (quiet : List ℕ → List ℕ) (rest : List (List ℕ → List ℕ))
      → Implements idx next op
      → Stable n (before ++ quiet ∷ rest)
      → ((b : List ℕ) → get_or (quiet b) (entry_block idx) 0 ≡ get_or b (entry_block idx) 0)
      → Words bitmap
      → length bitmap ≡ n
      → entry_block idx < n
      → AtOnce op idx bitmap
          (before ++ quiet ∷ rest)
          (exchange_loop next bitmap idx (before ++ quiet ∷ rest))
  loop_lem op n bitmap [] quiet rest imp stable leaves words len inside =
      round_lem op n bitmap quiet rest imp stable words len inside
        (λ changed. absurd (changed (leaves bitmap)))
  loop_lem op n bitmap (o ∷ before) quiet rest imp stable leaves words len inside =
      let (words', len') = stable.0 bitmap words len in
      round_lem op n bitmap o (before ++ quiet ∷ rest) imp stable words len inside (λ changed.
        loop_lem op n (o bitmap) before quiet rest imp stable.1 leaves words' len' inside)

-- Whatever the other threads do to an array of words between the load and the exchange of each
-- round of a loop, as long as they leave the word of the entry in one of the rounds, each of
-- BeginModify, CommitModify and BeginRemove returns, in that round at the latest, and what it
-- returns is what its operation does to the entry at one of the states in between: it is refused
-- there, or the entry has its new value and the other entries theirs.
pub loops_atomic :
    (bitmap : List ℕ) (idx : ℕ) (before : List (List ℕ → List ℕ)) (quiet : List ℕ → List ℕ)
    (rest : List (List ℕ → List ℕ))
    → Words bitmap
    → Stable (length bitmap) (before ++ quiet ∷ rest)
    → ((b : List ℕ) → get_or (quiet b) (entry_block idx) 0 ≡ get_or b (entry_block idx) 0)
    → entry_block idx < length bitmap
    → let others = before ++ quiet ∷ rest in
      AtOnce begin_modify_entry idx bitmap others (begin_modify bitmap idx others)
      × AtOnce commit_modify_entry idx bitmap others (commit_modify bitmap idx others)
      × AtOnce begin_remove_entry idx bitmap others (begin_remove bitmap idx others)
unfolding begin_modify commit_modify begin_remove
loops_atomic bitmap idx before quiet rest words stable leaves inside = (
  loop_lem (begin_modify_next idx) idx begin_modify_entry (length bitmap) bitmap before quiet rest
      (begin_modify-Implements idx) stable leaves words refl inside,
  loop_lem (commit_modify_next idx) idx commit_modify_entry (length bitmap) bitmap before quiet rest
      (commit_modify-Implements idx) stable leaves words refl inside,
  loop_lem (begin_remove_next idx) idx begin_remove_entry (length bitmap) bitmap before quiet rest
      (begin_remove-Implements idx) stable leaves words refl inside,
)

at_start :
    (op : ℕ → Option ℕ) (idx : ℕ) (bitmap : List ℕ) (run : Spun (Bool × List ℕ))
    → AtOnce op idx bitmap undisturbed run
    → AtOnce op idx bitmap [] run
at_start op idx bitmap run (zero, b, at, outcome) = (0, b, at, outcome)
at_start op idx bitmap run (suc zero, b, at, outcome) = (0, b, at, outcome)
at_start op idx bitmap run (suc (suc i), b, at, outcome) = absurd (cc (at))

-- the same, when no other thread interferes
pub loops_alone :
    (bitmap : List ℕ) (idx : ℕ)
    → Words bitmap
    → entry_block idx < length bitmap
    → AtOnce begin_modify_entry idx bitmap [] (begin_modify bitmap idx undisturbed)
      × AtOnce commit_modify_entry idx bitmap [] (commit_modify bitmap idx undisturbed)
      × AtOnce begin_remove_entry idx bitmap [] (begin_remove bitmap idx undisturbed)
loops_alone bitmap idx words inside =
    let (modify, commit, remove) =
      loops_atomic bitmap idx [] (λ b. b) [] words ((λ b w len. (w, len)), omega arith) (λ b. refl)
        inside in
    (
      at_start begin_modify_entry idx bitmap (begin_modify bitmap idx undisturbed) modify,
      at_start commit_modify_entry idx bitmap (commit_modify bitmap idx undisturbed) commit,
      at_start begin_remove_entry idx bitmap (begin_remove bitmap idx undisturbed) remove,
    )
