-- ===== src/ShmemAlloc/Layout.antt =====
-- What `Init` makes of a region.
use native.Mathlib.Nat.{mod-eq_of_lt, div-add-mod}
use labstor.Base.{
  ℕ, zero, suc, ◌+◌, ◌-◌, ◌*◌, ◌/◌, ◌%◌, ◌<◌, ◌≡◌, ◌∙◌, false, some, List, arith, ◌==◌, length,
  get_elem?, get_elem?_of_lt, u32_mod, u64_mod, u32, done, ◌>>=◌,
}
use labstor.PrivateAlloc.{PrivateAlloc}
use labstor.PrivateAlloc.Objects.{Fits}
use labstor.ShmemAlloc.{ShmemAlloc, header_size, entry_size, init_cores, init, cores_of}
use labstor.ShmemAlloc.Shares.{Carved, init_cores_lem}
use labstor.ShmemAlloc.Cores.{WellFormed}

init_run :
    (nr_cpus : ℕ) (allocs : ℕ → List PrivateAlloc) (pages : ℕ → ℕ)
    (base region region_size unit n : ℕ)
    → 0 < n
    → region + header_size < u64_mod
    → unit + entry_size < u32_mod
    → init nr_cpus allocs pages base region region_size unit n ≡ (
        init_cores base (region + header_size) (region_size / n) (unit + entry_size) (allocs n)
        >>= λ per_core. done (record {
          base_region = base;
          concurrency = n;
          region_size = region_size;
          region = region;
          header = record { region_size = region_size; concurrency = n };
          per_core_allocs = per_core;
          pages = pages;
        }))
unfolding init cores_of
init_run nr_cpus allocs pages base region region_size unit n pos top small =
    let some_core : n == 0 ≡ false = ground (arith, pos) in
    let start : (region + header_size) % u64_mod ≡ region + header_size = mod-eq_of_lt top in
    let bytes : u32 (unit + entry_size) ≡ unit + entry_size = mod-eq_of_lt small in
    let n_cores : cores_of nr_cpus n ≡ n = ground (arith, pos) in
    rw (n_cores, some_core, start, bytes)

-- Over an array of one allocator for each core, `Init` gives core `i` the `i`-th share of the
-- region, from the end of the header on, if each share fits; nothing faults, and the state is
-- well formed. The share of each core holds all of that core's objects, which are free.
pub init-shares :
    (nr_cpus : ℕ) (allocs : ℕ → List PrivateAlloc) (pages : ℕ → ℕ)
    (base region region_size unit n : ℕ)
    → 0 < n
    → region + header_size < u64_mod
    → unit + entry_size < u32_mod
    → length (allocs n) ≡ n
    → ((i : ℕ) (a : PrivateAlloc)
        → get_elem? (allocs n) i ≡ some a
        → Fits a base
            (region + header_size + i * (region_size / n))
            (region_size / n)
            (unit + entry_size))
    → (s : ShmemAlloc) × (init nr_cpus allocs pages base region region_size unit n ≡ done s)
      × WellFormed s
      × ((i : ℕ) (a : PrivateAlloc)
          → get_elem? s.per_core_allocs i ≡ some a
          → Carved base (region + header_size) (region_size / n) (unit + entry_size) i a)
init-shares nr_cpus allocs pages base region region_size unit n pos top small one_each fits =
    let (made, run, same, shares) =
      init_cores_lem (allocs n) base (region + header_size) (region_size / n) (unit + entry_size)
        fits in
    (
      record {
        base_region = base;
        concurrency = n;
        region_size = region_size;
        region = region;
        header = record { region_size = region_size; concurrency = n };
        per_core_allocs = made;
        pages = pages;
      },
      init_run nr_cpus allocs pages base region region_size unit n pos top small ∙ rw run,
      record {
        cores = pos;
        one_each = same ∙ one_each;
        valid = λ i a at. (shares i a at).valid;
        based = λ i a at. (shares i a at).based;
      },
      shares,
    )

last_share : (start n q r : ℕ) → 0 < n → r < 8 → start + n * q + r < start + 8 + (n - 1) * q + q
last_share start zero q r pos small = absurd (omega arith)
last_share start (suc n) q r pos small = let e : suc n - 1 ≡ n = omega arith in rw e (omega arith)

-- The shares begin behind the header but are cut as if the header took nothing: if fewer bytes
-- than the header's are left over by the division, the last core's share ends past the region.
last-share_past_region :
    (nr_cpus : ℕ) (allocs : ℕ → List PrivateAlloc) (pages : ℕ → ℕ)
    (base region region_size unit n : ℕ)
    → 0 < n
    → region + header_size < u64_mod
    → unit + entry_size < u32_mod
    → length (allocs n) ≡ n
    → ((i : ℕ) (a : PrivateAlloc)
        → get_elem? (allocs n) i ≡ some a
        → Fits a base
            (region + header_size + i * (region_size / n))
            (region_size / n)
            (unit + entry_size))
    → region_size % n < header_size
    → (s : ShmemAlloc) × (init nr_cpus allocs pages base region region_size unit n ≡ done s)
      × (a : PrivateAlloc) × (get_elem? s.per_core_allocs (n - 1) ≡ some a)
      × (s.region + s.region_size < a.header + a.region_size)
last-share_past_region nr_cpus allocs pages base region region_size unit n pos top small one_each
      fits left_over =
    let (made, run, same, shares) =
      init_cores_lem (allocs n) base (region + header_size) (region_size / n) (unit + entry_size)
        fits in
    let (a, at) = get_elem?_of_lt made (n - 1) (omega (arith, same, one_each, pos)) in
    let share = shares (n - 1) a at in
    (
      record {
        base_region = base;
        concurrency = n;
        region_size = region_size;
        region = region;
        header = record { region_size = region_size; concurrency = n };
        per_core_allocs = made;
        pages = pages;
      },
      init_run nr_cpus allocs pages base region region_size unit n pos top small ∙ rw run,
      a,
      at,
      omega (
        arith,
        share.at,
        share.bytes,
        last_share region n (region_size / n) (region_size % n) pos left_over,
        div-add-mod region_size n,
      ),
    )
