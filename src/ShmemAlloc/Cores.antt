-- ===== src/ShmemAlloc/Cores.antt =====
-- The free objects of each core, and what one core's `Alloc` does to them.
use labstor.Base.{
  ℕ, ◌<◌, ◌≡◌, sym, ap, ◌∙◌, ◌≢◌, inl, inr, Option, none, some, List, [], ◌∷◌, arith, length,
  get_elem?, length-set, get_elem?_of_lt, get_elem?-set_self, get_elem?-set_ne, get_elem?-set_cases,
  done, refused, ◌>>=◌, in_bounds,
}
use labstor.Ring.Inv.{IsValid}
use labstor.PrivateAlloc
use labstor.PrivateAlloc.{PrivateAlloc}
use labstor.PrivateAlloc.Objects.{free}
use labstor.PrivateAlloc.Calls.{free_objects_empty, free_objects_take}
use labstor.ShmemAlloc.{ShmemAlloc, set_core, alloc_on}

-- One allocator for each core, each with a valid ring and the same base.
pub record WellFormed (s : ShmemAlloc) : Type 0 where
  pub cores : 0 < s.concurrency
  pub one_each : length s.per_core_allocs ≡ s.concurrency
  pub valid : (c : ℕ) (a : PrivateAlloc) → get_elem? s.per_core_allocs c ≡ some a → IsValid a.objs
  pub based :
      (c : ℕ) (a : PrivateAlloc)
      → get_elem? s.per_core_allocs c ≡ some a
      → a.base_region ≡ s.base_region

-- the free objects of core `c`
abbrev free_of : Option PrivateAlloc → List ℕ
free_of (some a) = free a
free_of none = []

abbrev pub free_on : ShmemAlloc → ℕ → List ℕ
free_on s c = free_of (get_elem? s.per_core_allocs c)

pub free_on-some :
    (s : ShmemAlloc) (c : ℕ) (a : PrivateAlloc)
    → get_elem? s.per_core_allocs c ≡ some a
    → free_on s c ≡ free a
free_on-some s c a at = ap free_of at

pub core_of_lt :
    {s : ShmemAlloc} (c : ℕ)
    → WellFormed s
    → c < s.concurrency
    → (a : PrivateAlloc) × (get_elem? s.per_core_allocs c ≡ some a)
core_of_lt {s} c w lt = get_elem?_of_lt s.per_core_allocs c (omega (arith, w.one_each))

-- One core's allocator changes, and nothing else does.
pub set_core-WellFormed :
    {s : ShmemAlloc} (c : ℕ) (a : PrivateAlloc)
    → WellFormed s
    → IsValid a.objs
    → a.base_region ≡ s.base_region
    → WellFormed (set_core s c a)
set_core-WellFormed {s} c a w v base = record {
  cores = w.cores;
  one_each = length-set s.per_core_allocs c a ∙ w.one_each;
  valid = λ d b at. elim (get_elem?-set_cases s.per_core_allocs c d a b at) [
    | inl e ↦ rw (sym e) v
    | inr old ↦ w.valid d b old
  ];
  based = λ d b at. elim (get_elem?-set_cases s.per_core_allocs c d a b at) [
    | inl e ↦ rw (sym e) base
    | inr old ↦ w.based d b old
  ];
}

pub free_on-set_self :
    {s : ShmemAlloc} (c : ℕ) (a : PrivateAlloc)
    → WellFormed s
    → c < s.concurrency
    → free_on (set_core s c a) c ≡ free a
free_on-set_self {s} c a w lt =
    ap free_of (get_elem?-set_self s.per_core_allocs c a (omega (arith, w.one_each)))

pub free_on-set_ne :
    (s : ShmemAlloc) (c d : ℕ) (a : PrivateAlloc) → c ≢ d → free_on (set_core s c a) d ≡ free_on s d
free_on-set_ne s c d a ne = ap free_of (get_elem?-set_ne s.per_core_allocs c d a ne)

alloc_on_run :
    (s : ShmemAlloc) (c : ℕ) (a : PrivateAlloc)
    → get_elem? s.per_core_allocs c ≡ some a
    → alloc_on s c ≡ (PrivateAlloc.alloc a >>= λ p. done (p.0, set_core s c p.1))
unfolding alloc_on
alloc_on_run s c a at =
    ap (λ o. in_bounds o >>= λ b. PrivateAlloc.alloc b >>= λ p. done (p.0, set_core s c p.1)) at

pub alloc_on_empty :
    {s : ShmemAlloc} (c : ℕ)
    → WellFormed s
    → c < s.concurrency
    → free_on s c ≡ []
    → alloc_on s c ≡ refused
alloc_on_empty {s} c w lt none_free =
    let (a, at) = core_of_lt c w lt in
    alloc_on_run s c a at
    ∙ ap (λ call. call >>= λ p. done (p.0, set_core s c p.1))
        (free_objects_empty a (w.valid c a at) (sym (free_on-some s c a at) ∙ none_free))

pub alloc_on_take :
    {s : ShmemAlloc} (c p : ℕ) (rest : List ℕ)
    → WellFormed s
    → c < s.concurrency
    → free_on s c ≡ p ∷ rest
    → (a' : PrivateAlloc) × (alloc_on s c ≡ done (p, set_core s c a'))
      × WellFormed (set_core s c a')
      × (free a' ≡ rest)
alloc_on_take {s} c p rest w lt holds =
    let (a, at) = core_of_lt c w lt in
    let (a', run, valid, left, base, depth, more) =
      free_objects_take a p rest (w.valid c a at) (sym (free_on-some s c a at) ∙ holds) in
    (
      a',
      alloc_on_run s c a at ∙ ap (λ call. call >>= λ q. done (q.0, set_core s c q.1)) run,
      set_core-WellFormed c a' w valid (base ∙ w.based c a at),
      left,
    )
