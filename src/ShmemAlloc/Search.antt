-- ===== src/ShmemAlloc/Search.antt =====
-- The loop of `Alloc` over the cores.
use native.Mathlib.Nat.{mod-add-mod, mod-eq_of_lt, mod-lt, add-mod_right}
use labstor.Base.{
  ℕ, zero, suc, ◌+◌, ◌-◌, ◌%◌, ◌^◌, ◌<◌, ◌≡◌, refl, sym, ap, ap₂, ◌∙◌, ◌≢◌, false, some, List, [],
  ◌∷◌, arith, ◌==◌, u64_mod, mod-ne_of_near, done, refused,
}
use labstor.ShmemAlloc.{ShmemAlloc, entry_size, set_core, alloc_on, give, walk, alloc}
use labstor.ShmemAlloc.Cores.{
  WellFormed, free_on, alloc_on_empty, alloc_on_take, free_on-set_self, free_on-set_ne,
}

given :
    (s : ShmemAlloc) (c p : ℕ)
    → some (done (give s c p)) ≡ some (done ((p + entry_size) % u64_mod, (give s c p).1))
unfolding give
given s c p = refl

given_free : (s : ShmemAlloc) (c p d : ℕ) → free_on (give s c p).1 d ≡ free_on s d
unfolding give
given_free s c p d = refl

given_mark : (s : ShmemAlloc) (c p : ℕ) → (give s c p).1.pages p ≡ c % 2 ^ 16
unfolding give
given_mark s c p = ground arith

give-WellFormed : {s : ShmemAlloc} (c p : ℕ) → WellFormed s → WellFormed (give s c p).1
unfolding give
give-WellFormed {s} c p w = record {
  cores = w.cores;
  one_each = w.one_each;
  valid = w.valid;
  based = w.based;
}

-- the loop ends after a core without an object, if the next one is where it began
walk_last :
    (s : ShmemAlloc) (core save fuel : ℕ)
    → alloc_on s core ≡ refused
    → (core + 1) % s.concurrency ≡ save
    → walk (suc fuel) s core save ≡ some (done (0, s))
unfolding walk
walk_last s core save fuel none_free ends = ground (arith, none_free, ends)

walk_next :
    (s : ShmemAlloc) (core save fuel : ℕ)
    → alloc_on s core ≡ refused
    → (core + 1) % s.concurrency ≢ save
    → walk (suc fuel) s core save ≡ walk fuel s ((core + 1) % s.concurrency) save
unfolding walk
walk_next s core save fuel none_free goes_on = ground (arith, none_free, goes_on)

walk_take :
    (s s' : ShmemAlloc) (core save fuel page : ℕ)
    → alloc_on s core ≡ done (page, s')
    → page ≢ 0
    → walk (suc fuel) s core save ≡ some (done (give s' core page))
unfolding walk
walk_take s s' core save fuel page taken real = ground (arith, taken, real)

-- `k` cores without an object are passed by, one after the other.
walk_skip :
    (s : ShmemAlloc) (k i save fuel all : ℕ)
    → all ≡ k + fuel
    → save < s.concurrency
    → i + k < s.concurrency
    → ((j : ℕ) → j < i + k → alloc_on s ((save + j) % s.concurrency) ≡ refused)
    → walk all s ((save + i) % s.concurrency) save
      ≡ walk fuel s ((save + (i + k)) % s.concurrency) save
walk_skip s zero i save fuel all e lt bound none_free =
    ap₂ (λ f m. walk f s ((save + m) % s.concurrency) save) (omega arith) (omega arith)
walk_skip s (suc k) i save fuel zero e lt bound none_free = absurd (omega arith)
walk_skip s (suc k) i save fuel (suc all) e lt bound none_free =
    let n = s.concurrency in
    let next : ((save + i) % n + 1) % n ≡ (save + suc i) % n =
      mod-add-mod (save + i) n 1 ∙ ap (λ t. t % n) (omega arith) in
    let apart : ((save + i) % n + 1) % n ≢ save = λ same.
      mod-ne_of_near n save (save + suc i) (omega arith) (omega arith)
        (mod-eq_of_lt lt ∙ sym same ∙ next) in
    walk_next s ((save + i) % n) save all (none_free i (omega arith)) apart
    ∙ ap (λ c. walk all s c save) next
    ∙ walk_skip s k (suc i) save fuel all (omega arith) lt (omega arith)
        (λ j h. none_free j (omega (arith, h)))
    ∙ ap (λ m. walk fuel s ((save + m) % n) save) (omega arith)

-- the loop from its beginning, after `k` cores without an object
alloc_skip :
    (s : ShmemAlloc) (core k fuel : ℕ)
    → 0 < s.concurrency
    → s.concurrency ≡ k + suc fuel
    → ((j : ℕ) → j < k → alloc_on s ((core + j) % s.concurrency) ≡ refused)
    → alloc s core ≡ walk (suc fuel) s ((core + k) % s.concurrency) (core % s.concurrency)
unfolding alloc
alloc_skip s core k fuel pos e none_free =
    let n = s.concurrency in
    let some_core : n == 0 ≡ false = ground (arith, pos) in
    let start : (core % n + 0) % n ≡ core % n =
      mod-add-mod core n 0 ∙ ap (λ t. t % n) (omega arith) in
    let skipped =
      walk_skip s k 0 (core % n) (suc fuel) n e (mod-lt core pos) (omega (arith, e))
        (λ j h. ap (λ c. alloc_on s c) (mod-add-mod core n j) ∙ none_free j (omega (arith, h))) in
    rw some_core (
      ap (λ c. walk n s c (core % n)) (sym start)
      ∙ skipped
      ∙ ap (λ c. walk (suc fuel) s c (core % n))
          (ap (λ m. (core % n + m) % n) (omega arith) ∙ mod-add-mod core n k))

-- `Alloc` takes the object from the first core, from the wanted one on, that has one, marks it
-- with that core and leaves the other cores as they are; the loop ends.
pub alloc-first :
    (s : ShmemAlloc) (core k p : ℕ) (rest : List ℕ)
    → WellFormed s
    → k < s.concurrency
    → ((j : ℕ) → j < k → free_on s ((core + j) % s.concurrency) ≡ [])
    → free_on s ((core + k) % s.concurrency) ≡ p ∷ rest
    → p ≢ 0
    → (s' : ShmemAlloc) × (alloc s core ≡ some (done ((p + entry_size) % u64_mod, s')))
      × WellFormed s'
      × (free_on s' ((core + k) % s.concurrency) ≡ rest)
      × ((d : ℕ) → (core + k) % s.concurrency ≢ d → free_on s' d ≡ free_on s d)
      × (s'.pages p ≡ ((core + k) % s.concurrency) % 2 ^ 16)
alloc-first s core k p rest w lt none_before holds real =
    let n = s.concurrency in
    let c = (core + k) % n in
    let c_in = mod-lt (core + k) w.cores in
    let (a, run, after, left) = alloc_on_take c p rest w c_in holds in
    let skipped =
      alloc_skip s core k (n - suc k) w.cores (omega arith)
        (λ j h. alloc_on_empty ((core + j) % n) w (mod-lt (core + j) w.cores) (none_before j h)) in
    (
      (give (set_core s c a) c p).1,
      skipped
          ∙ walk_take s (set_core s c a) c (core % n) (n - suc k) p run real
          ∙ given (set_core s c a) c p,
      give-WellFormed c p after,
      given_free (set_core s c a) c p c ∙ free_on-set_self c a w c_in ∙ left,
      λ d ne. given_free (set_core s c a) c p d ∙ free_on-set_ne s c d a ne,
      given_mark (set_core s c a) c p,
    )

-- When no core has an object, `Alloc` returns `NULL` after one round over the cores, and nothing
-- changes.
alloc-exhausted :
    (s : ShmemAlloc) (core : ℕ)
    → WellFormed s
    → ((c : ℕ) → c < s.concurrency → free_on s c ≡ [])
    → alloc s core ≡ some (done (0, s))
alloc-exhausted s core w none_free =
    let n = s.concurrency in
    let k = n - 1 in
    let none_at = λ (j : ℕ).
      alloc_on_empty ((core + j) % n) w (mod-lt (core + j) w.cores)
        (none_free ((core + j) % n) (mod-lt (core + j) w.cores)) in
    let around : ((core + k) % n + 1) % n ≡ core % n =
      mod-add-mod (core + k) n 1
      ∙ ap (λ t. t % n) (omega (arith, w.cores))
      ∙ add-mod_right core n in
    alloc_skip s core k 0 w.cores (omega (arith, w.cores)) (λ j h. none_at j)
    ∙ walk_last s ((core + k) % n) (core % n) 0 (none_at k) around
