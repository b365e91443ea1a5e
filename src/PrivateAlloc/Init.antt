-- ===== src/PrivateAlloc/Init.antt =====
-- What `Init` makes of a region.
use mathlib.Core.List.{map}
use native.Mathlib.Nat.{le-div_iff_mul-le, div-mul-le_self}
use labstor.Base.{
  ℕ, zero, suc, ◌+◌, ◌-◌, ◌*◌, ◌/◌, ◌%◌, ◌≤◌, ◌<◌, ◌≡◌, refl, ap, ◌∙◌, inr, false, some, List, ◌++◌,
  arith, ◌==◌, length, get_elem?, u64_mod, u32, sub64, done, ◌>>=◌,
}
use labstor.Region.{region_add}
use labstor.Ring.Inv.{IsValid}
use labstor.Ring.Window.{contents}
use labstor.PrivateAlloc.{PrivateAlloc, fill, init_ring, init}
use labstor.PrivateAlloc.Objects.{objects, free, fill_lem, Fits, overhead, ring_ready}

-- how many objects stand behind the ring
abbrev pub object_count : ℕ → ℕ → ℕ
object_count region_size unit = (region_size - overhead region_size unit) / unit

-- fewer than the slots of the ring
object_count-le :
    (region_size unit : ℕ) → 0 < unit → object_count region_size unit ≤ region_size / unit
object_count-le region_size unit pos =
    (le-div_iff_mul-le pos).1
      (omega (arith, div-mul-le_self (region_size - overhead region_size unit) unit))

pub objects-within :
    (unit limit : ℕ) (start n i p : ℕ)
    → start + n * unit ≤ limit
    → get_elem? (objects unit start n) i ≡ some p
    → (p ≡ start + i * unit) × (p + unit ≤ limit)
objects-within unit limit start zero i p h e = absurd (cc)
objects-within unit limit start (suc n) zero p h e = ground arith
objects-within unit limit start (suc n) (suc i) p h e =
    let (at, fits) = objects-within unit limit (start + unit) n i p (omega arith) e in
    (omega arith, fits)

length-objects : (unit start n : ℕ) → length (objects unit start n) ≡ n
length-objects unit start zero = refl
length-objects unit start (suc n) = ap suc (length-objects unit (start + unit) n)

objects_facts :
    (xs : List ℕ) (unit start n limit : ℕ)
    → xs ≡ objects unit start n
    → start + n * unit ≤ limit
    → (length xs ≡ n)
      × ((i p : ℕ) → get_elem? xs i ≡ some p → (p ≡ start + i * unit) × (p + unit ≤ limit))
objects_facts xs unit start n limit e h = (
  ap length e ∙ length-objects unit start n,
  λ i p at. objects-within unit limit start n i p h (rw e at at),
)

init_run :
    (a : PrivateAlloc) (base region region_size unit : ℕ)
    → Fits a base region region_size unit
    → init a base region region_size unit ≡ (
        fill base unit
          (init_ring a.objs region_size unit)
          (region + overhead region_size unit)
          (object_count region_size unit)
        >>= λ objs. done (record {
          base_region = base;
          header = region;
          region_size = region_size;
          request_unit = unit;
          objs = objs;
        }))
unfolding init
init_run a base region region_size unit f =
    let some_unit : unit == 0 ≡ false = ground (arith, f.pos) in
    let size : u32 (sub64 ((region + region_size) % u64_mod) (region + overhead region_size unit))
        ≡ region_size - overhead region_size unit =
      omega (arith, f.top, f.small, f.ring_fits) in
    rw (some_unit, (ring_ready a base region region_size unit f).4, size)

-- In a region that fits, `Init` faults nowhere; then all objects are free, there are as many as
-- fit behind the ring, each lies inside the region and behind the ring, and they are one unit
-- apart, so no two of them overlap.
pub init-objects :
    (a : PrivateAlloc) (base region region_size unit : ℕ)
    → Fits a base region region_size unit
    → (a' : PrivateAlloc) × (init a base region region_size unit ≡ done a')
      × IsValid a'.objs
      × (a'.base_region ≡ base)
      × (a'.header ≡ region)
      × (a'.region_size ≡ region_size)
      × (length (free a') ≡ object_count region_size unit)
      × ((i p : ℕ)
          → get_elem? (free a') i ≡ some p
          → (p ≡ region + overhead region_size unit + i * unit) × (p + unit ≤ region + region_size))
init-objects a base region region_size unit f =
    let (valid, empty, depth, zero_enqueued, start) = ring_ready a base region region_size unit f in
    let n = object_count region_size unit in
    let fewer = object_count-le region_size unit f.pos in
    let bytes : n * unit ≤ region_size - overhead region_size unit =
      div-mul-le_self (region_size - overhead region_size unit) unit in
    let (objs, run, v, d, all) =
      fill_lem n base unit (region + overhead region_size unit) (init_ring a.objs region_size unit)
        valid (inr (omega (arith, zero_enqueued, bytes, f.pos, f.small)))
        (omega (arith, ap length empty, fewer, depth)) (omega (arith, f.above))
        (omega (arith, bytes, f.below, f.ring_fits)) (omega (arith, bytes, f.top, f.ring_fits))
        f.pos in
    let facts =
      objects_facts (map (λ off. region_add off base) (contents objs)) unit
        (region + overhead region_size unit) n (region + region_size)
        (all
          ∙ ap
              (λ l.
                map (λ off. region_add off base) l
                ++ objects unit (region + overhead region_size unit) n)
              empty)
        (omega (arith, bytes, f.ring_fits)) in
    (
      record {
        base_region = base;
        header = region;
        region_size = region_size;
        request_unit = unit;
        objs = objs;
      },
      init_run a base region region_size unit f ∙ rw run,
      v,
      refl,
      refl,
      refl,
      facts.0,
      facts.1,
    )
