-- ===== src/PrivateAlloc/Objects.antt =====
-- The objects that `Init` lays out: inside the region, behind the ring, apart from one another,
-- and all free.
use mathlib.Core.List.{map, map-append, append-nil, append_assoc}
use native.Mathlib.Nat.{mod-eq_of_lt}
use labstor.Base.{
  ℕ, zero, suc, ◌+◌, ◌-◌, ◌*◌, ◌/◌, ◌^◌, ◌≤◌, ◌<◌, ◌≡◌, refl, sym, ◌∙◌, ◌≢◌, inl, inr, List, [],
  ◌∷◌, ◌++◌, arith, length, length-append, u32_mod, u64_mod, done,
}
use labstor.Region.{region_add, region_sub, region_add-sub_of_reach}
use labstor.Ring
use labstor.Ring.{Ring}
use labstor.Ring.Inv.{IsValid, Room}
use labstor.Ring.Window.{contents, length-contents}
use labstor.Ring.Effects.{enqueue_lem}
use labstor.PrivateAlloc.{PrivateAlloc, header_size, fill, init_ring, objects_start}

-- `n` objects of `unit` bytes from `start` on
abbrev pub objects : ℕ → ℕ → ℕ → List ℕ
objects unit start zero = []
objects unit start (suc n) = start ∷ objects unit (start + unit) n

-- the addresses of the free objects, in the order in which they are given out
abbrev pub free : PrivateAlloc → List ℕ
free a = map (λ off. region_add off a.base_region) (contents a.objs)

fill_step :
    (n base unit remainder : ℕ) (r : Ring) {r' : Ring}
    → Ring.enqueue_simple r (region_sub remainder base) ≡ done r'
    → remainder + unit < u64_mod
    → fill base unit r remainder (suc n) ≡ fill base unit r' (remainder + unit) n
unfolding fill
fill_step n base unit remainder r run top = rw (run, fill, mod-eq_of_lt top)

one_more : (r : Ring) (n : ℕ) → Room r (suc n) → Room r 1
one_more r n (inl d) = inl d
one_more r n (inr h) = inr (omega arith)

not_full :
    (r : Ring) (n : ℕ) → length (contents r) + suc n ≤ r.max_depth → Ring.get_depth r ≢ r.max_depth
unfolding Ring.get_depth
not_full r n space full = omega (arith, length-contents r)

-- The loop of `Init` appends the objects to what is free, if the ring has room for them and they
-- lie within 2 GB of the base.
pub fill_lem :
    (n base unit remainder : ℕ) (r : Ring)
    → IsValid r
    → Room r n
    → length (contents r) + n ≤ r.max_depth
    → base ≤ remainder
    → remainder + n * unit ≤ base + 2 ^ 31
    → remainder + n * unit < u64_mod
    → 0 < unit
    → (r' : Ring) × (fill base unit r remainder n ≡ done r')
      × IsValid r'
      × (r'.max_depth ≡ r.max_depth)
      × (map (λ off. region_add off base) (contents r')
          ≡ map (λ off. region_add off base) (contents r) ++ objects unit remainder n)
unfolding fill Ring.enqueue_simple
fill_lem zero base unit remainder r v room space lo hi top pos =
    (r, refl, v, refl, sym (append-nil _))
fill_lem (suc n) base unit remainder r v room space lo hi top pos =
    let off = region_sub remainder base in
    let (r₁, run₁, v₁, holds₁, same₁, more) =
      enqueue_lem r off v (one_more r n room) (not_full r n space) in
    let (r₂, run₂, v₂, same₂, holds₂) =
      fill_lem n base unit (remainder + unit) r₁ v₁ (more n room)
        (rw (holds₁, same₁) (omega (arith, length-append (contents r) (off ∷ [])))) (omega arith)
        (omega arith) (omega arith) pos in
    (
      r₂,
      fill_step n base unit remainder r (rw run₁) (omega arith) ∙ run₂,
      v₂,
      same₂ ∙ same₁,
      holds₂
          ∙ rw
              (
                holds₁,
                map-append,
                region_add-sub_of_reach base remainder (lo, omega arith, omega arith),
              )
              (append_assoc (map (λ o. region_add o base) (contents r)) (remainder ∷ [])
                (objects unit (remainder + unit) n)),
    )

-- what a region must be for `Init` to make objects of it
pub record Fits (a : PrivateAlloc) (base region region_size unit : ℕ) : Type 0 where
  pub pos : 0 < unit
  pub small : region_size < u32_mod
  pub some_object : 0 < region_size / unit
  pub ring_fits :
      header_size + Ring.header_size + Ring.off_size * (region_size / unit) ≤ region_size
  pub words : length a.objs.queue ≡ (region_size - header_size - Ring.header_size) / Ring.off_size
  pub above : base ≤ region
  pub below : region + region_size ≤ base + 2 ^ 31
  pub top : region + region_size < u64_mod

-- the bytes of the region that the two headers and the ring's slots take
abbrev pub overhead : ℕ → ℕ → ℕ
overhead region_size unit = header_size + Ring.header_size + Ring.off_size * (region_size / unit)

pub ring_ready :
    (a : PrivateAlloc) (base region region_size unit : ℕ)
    → Fits a base region region_size unit
    → let objs = init_ring a.objs region_size unit in
      IsValid objs
      × (contents objs ≡ [])
      × (objs.max_depth ≡ region_size / unit)
      × (objs.enqueued ≡ 0)
      × (objects_start region objs ≡ region + overhead region_size unit)
unfolding init_ring objects_start Ring.init Ring.get_size
ring_ready a base region region_size unit f = ground (arith, f.pos)
