-- ===== src/Tests/Cores.antt =====
-- The per-core allocator at concrete inputs.
use labstor.Base.{
  ℕ, zero, suc, ◌+◌, ◌*◌, ◌/◌, ◌%◌, ◌≤◌, ◌<◌, ◌≡◌, refl, ◌≢◌, inl, some, List, [], ◌∷◌, ◌++◌, arith,
  get_elem?, replicate, done, along_some,
}
use labstor.Region.{region_add}
use labstor.Ring.Inv.{IsValid}
use labstor.Spin.{returned}
use labstor.PrivateAlloc
use labstor.PrivateAlloc.{PrivateAlloc}
use labstor.PrivateAlloc.Calls.{alloc-release}
use labstor.PrivateAlloc.Objects.{free, Fits}
use labstor.ShmemAlloc.{ShmemAlloc, alloc, release, init}
use labstor.ShmemAlloc.Cores.{WellFormed, free_on}
use labstor.ShmemAlloc.Search.{alloc-first}
use labstor.ShmemAlloc.Release.{release-home}
use labstor.ShmemAlloc.Shares.{Carved}
use labstor.ShmemAlloc.Layout.{init-shares}
use labstor.Tests.Rings.{blank}

abbrev one_core : ℕ → PrivateAlloc
one_core pending = record {
  base_region = 4096;
  header = 4104;
  region_size = 64;
  request_unit = 16;
  objs = record { enqueued = pending; dequeued = 0; max_depth = 4; queue = 100 ∷ 0 ∷ 0 ∷ 0 ∷ [] };
}

-- two cores; the second has `pending` free objects
abbrev two_cores : ℕ → ShmemAlloc
two_cores pending = record {
  base_region = 4096;
  concurrency = 2;
  region_size = 136;
  region = 4096;
  header = record { region_size = 136; concurrency = 2 };
  per_core_allocs = one_core 0 ∷ one_core pending ∷ [];
  pages = λ p. 1;
}

one_core-IsValid : (pending : ℕ) → pending ≤ 1 → IsValid (one_core pending).objs
one_core-IsValid pending le = ground (arith, le)

two_cores-WellFormed : (pending : ℕ) → pending ≤ 1 → WellFormed (two_cores pending)
two_cores-WellFormed pending le = record {
  cores = omega arith;
  one_each = refl;
  valid = valid;
  based = based;
}
  where
    valid :
        (c : ℕ) (a : PrivateAlloc)
        → get_elem? (two_cores pending).per_core_allocs c ≡ some a
        → IsValid a.objs
    valid zero a at = along_some (λ b. IsValid b.objs) _ a at (one_core-IsValid 0 (omega arith))
    valid (suc zero) a at = along_some (λ b. IsValid b.objs) _ a at (one_core-IsValid pending le)
    valid (suc (suc c)) a at = absurd (cc (at))

    based :
        (c : ℕ) (a : PrivateAlloc)
        → get_elem? (two_cores pending).per_core_allocs c ≡ some a
        → a.base_region ≡ 4096
    based zero a at = along_some (λ b. b.base_region ≡ 4096) _ a at refl
    based (suc zero) a at = along_some (λ b. b.base_region ≡ 4096) _ a at refl
    based (suc (suc c)) a at = absurd (cc (at))

first_empty : (j : ℕ) → j < 1 → free_on (two_cores 1) ((4 + j) % 2) ≡ []
first_empty zero h = refl
first_empty (suc j) h = absurd (omega arith)

all_empty : (c : ℕ) → c < 2 → free_on (two_cores 0) c ≡ []
all_empty zero h = refl
all_empty (suc zero) h = refl
all_empty (suc (suc c)) h = absurd (omega arith)

second_holds : free_on (two_cores 1) 1 ≡ 4196 ∷ []
unfolding region_add
second_holds = refl

-- core 4 is the first of the two, which has no object
alloc-first_example :
    (s' : ShmemAlloc) × (alloc (two_cores 1) 4 ≡ some (done (4198, s')))
    × WellFormed s'
    × (free_on s' 1 ≡ [])
    × ((d : ℕ) → 1 ≢ d → free_on s' d ≡ free_on (two_cores 1) d)
    × (s'.pages 4196 ≡ 1)
alloc-first_example =
    alloc-first (two_cores 1) 4 1 4196 [] (two_cores-WellFormed 1 (omega arith)) (omega arith)
      first_empty second_holds (omega arith)

release-home_example :
    (s' : ShmemAlloc) × (release (two_cores 1) (4300 + 2) [] ≡ returned s')
    × WellFormed s'
    × (free_on s' 1 ≡ free_on (two_cores 1) 1 ++ 4300 ∷ [])
    × ((d : ℕ) → 1 ≢ d → free_on s' d ≡ free_on (two_cores 1) d)
release-home_example =
    release-home (two_cores 1) 1 4300 (one_core 1) [] (two_cores-WellFormed 1 (omega arith)) refl
      (omega arith) refl (omega arith) (inl refl) (omega arith) (omega arith)

abbrev raw_core : PrivateAlloc
raw_core = record {
  base_region = 0;
  header = 0;
  region_size = 0;
  request_unit = 0;
  objs = record blank { queue = replicate 11 0 };
}

abbrev raw_cores : ℕ → List PrivateAlloc
raw_cores n = replicate n raw_core

shares_fit :
    (i : ℕ) (a : PrivateAlloc)
    → get_elem? (raw_cores 2) i ≡ some a
    → Fits a 4096 (4096 + 8 + i * (128 / 2)) (128 / 2) (14 + 2)
shares_fit zero a at =
    along_some (λ b. Fits b 4096 (4096 + 8 + 0 * (128 / 2)) (128 / 2) (14 + 2)) _ a at (omega arith)
shares_fit (suc zero) a at =
    along_some (λ b. Fits b 4096 (4096 + 8 + 1 * (128 / 2)) (128 / 2) (14 + 2)) _ a at (omega arith)
shares_fit (suc (suc i)) a at = absurd (cc (at))

-- 128 bytes for two cores, and objects of 14 bytes behind their entries
init-shares_example :
    (s : ShmemAlloc) × (init 8 raw_cores (λ p. 0) 4096 4096 128 14 2 ≡ done s)
    × WellFormed s
    × ((i : ℕ) (a : PrivateAlloc)
        → get_elem? s.per_core_allocs i ≡ some a
        → Carved 4096 (4096 + 8) (128 / 2) (14 + 2) i a)
init-shares_example =
    init-shares 8 raw_cores (λ p. 0) 4096 4096 128 14 2 (omega arith) (omega arith) (omega arith)
      refl shares_fit

one_core_holds : free (one_core 1) ≡ 4196 ∷ []
unfolding region_add
one_core_holds = refl

alloc-release_example :
    (a' : PrivateAlloc) × (a'' : PrivateAlloc) × (PrivateAlloc.alloc (one_core 1) ≡ done (4196, a'))
    × (free a' ≡ [])
    × (PrivateAlloc.release a' 4196 ≡ done a'')
    × (free a'' ≡ 4196 ∷ [])
    × IsValid a''.objs
alloc-release_example =
    alloc-release (one_core 1) 4196 [] (one_core-IsValid 1 (omega arith)) (inl refl) one_core_holds
      (omega arith)
