-- ===== src/SegmentAlloc/Segments.antt =====
-- The segments that a run of calls gives out.
use native.Mathlib.Nat.{mod-eq_of_lt}
use labstor.Base.{
  ℕ, zero, suc, ◌+◌, ◌%◌, ◌≤◌, ◌<◌, ◌≡◌, refl, sym, ap, ap₂, ◌∙◌, some, List, [], ◌∷◌, arith,
  get_elem?, u32_mod, u64_mod, u32,
}
use labstor.SegmentAlloc.{SegmentAlloc, init, alloc}

-- the pointers that the calls return, one for each size
unfoldable pub alloc_all : SegmentAlloc → List ℕ → List ℕ
alloc_all a [] = []
alloc_all a (size ∷ sizes) = let p = alloc a size in p.0 ∷ alloc_all p.1 sizes

abbrev pub total : List ℕ → ℕ
total [] = 0
total (size ∷ sizes) = size + total sizes

-- The pointers lie one segment behind the other: the `i`-th stands behind the bytes of those
-- before it.
abbrev pub starts : ℕ → List ℕ → List ℕ
starts from [] = []
starts from (size ∷ sizes) = from ∷ starts (from + size) sizes

alloc_step :
    (a : SegmentAlloc) (size : ℕ)
    → a.offset + size < u32_mod
    → a.region + a.offset < u64_mod
    → alloc a size ≡ (a.region + a.offset, record a { offset = a.offset + size })
unfolding alloc
alloc_step a size small top =
    let here : (a.region + a.offset) % u64_mod ≡ a.region + a.offset = mod-eq_of_lt top in
    let next : u32 (a.offset + size) ≡ a.offset + size = mod-eq_of_lt small in rw (here, next)

alloc_all-starts_lem :
    (sizes : List ℕ) (a : SegmentAlloc)
    → a.offset + total sizes < u32_mod
    → a.region + a.offset + total sizes < u64_mod
    → alloc_all a sizes ≡ starts (a.region + a.offset) sizes
unfolding alloc_all
alloc_all-starts_lem [] a small top = refl
alloc_all-starts_lem (size ∷ sizes) a small top =
    let step = alloc_step a size (omega (arith, small)) (omega (arith, top)) in
    ap (λ p. p.0 ∷ alloc_all p.1 sizes) step
    ∙ ap (λ rest. (a.region + a.offset) ∷ rest)
        (alloc_all-starts_lem sizes (record a { offset = a.offset + size }) (omega (arith, small))
            (omega (arith, top))
          ∙ ap (λ from. starts from sizes) (omega arith))

starts-from : (sizes : List ℕ) (from i p : ℕ) → get_elem? (starts from sizes) i ≡ some p → from ≤ p
starts-from [] from i p at = absurd (cc (at))
starts-from (s ∷ sizes) from zero p at = ground arith
starts-from (s ∷ sizes) from (suc i) p at = omega (arith, starts-from sizes (from + s) i p at)

starts_first :
    {from s p q size : ℕ} → some from ≡ some p → from + s ≤ q → some s ≡ some size → p + size ≤ q
starts_first at lo is = ground arith

starts-apart :
    (sizes : List ℕ) (from i j p q size : ℕ)
    → i < j
    → get_elem? (starts from sizes) i ≡ some p
    → get_elem? sizes i ≡ some size
    → get_elem? (starts from sizes) j ≡ some q
    → p + size ≤ q
starts-apart [] from i j p q size lt at is at' = absurd (cc (at))
starts-apart (s ∷ sizes) from i zero p q size lt at is at' = absurd (omega arith)
starts-apart (s ∷ sizes) from zero (suc j) p q size lt at is at' =
    starts_first at (starts-from sizes (from + s) j q at') is
starts-apart (s ∷ sizes) from (suc i) (suc j) p q size lt at is at' =
    starts-apart sizes (from + s) i j p q size (omega arith) at is at'

-- From a fresh allocator, as long as all sizes together stay below 2^32 and the region does not
-- run past the addresses, each segment begins at the region or behind it, and ends before every
-- later segment begins.
segments_apart :
    (region max_size : ℕ) (sizes : List ℕ) (i j p q size : ℕ)
    → total sizes < u32_mod
    → region + total sizes < u64_mod
    → i < j
    → get_elem? (alloc_all (init region max_size) sizes) i ≡ some p
    → get_elem? sizes i ≡ some size
    → get_elem? (alloc_all (init region max_size) sizes) j ≡ some q
    → (region ≤ p) × (p + size ≤ q)
unfolding init
segments_apart region max_size sizes i j p q size small top lt at is at' =
    let all =
      alloc_all-starts_lem sizes (init region max_size) (omega (arith, small))
        (omega (arith, top)) in
    let from : region + 0 ≡ region = omega arith in
    let all' = all ∙ ap (λ f. starts f sizes) from in
    let here = sym (ap (λ l. get_elem? l i) all') ∙ at in
    let there = sym (ap (λ l. get_elem? l j) all') ∙ at' in
    (starts-from sizes region i p here, starts-apart sizes region i j p q size lt here is there)

-- There is no test of the size: whatever it is, where the addresses go on behind the first
-- segment, a segment of all of the 2^32 bytes left behind that one is given out, and the next one
-- begins at the region again.
segments_overlap :
    (region max_size first last next : ℕ)
    → first + last ≡ u32_mod
    → first < u32_mod
    → region + first < u64_mod
    → alloc_all (init region max_size) (first ∷ last ∷ next ∷ [])
      ≡ region ∷ (region + first) ∷ region ∷ []
unfolding alloc_all init alloc
segments_overlap region max_size first last next whole small top =
    let a : (region + 0) % u64_mod ≡ region = omega (arith, top) in
    let b : (region + u32 (0 + first)) % u64_mod ≡ region + first = omega (arith, top, small) in
    let c : (region + u32 (u32 (0 + first) + last)) % u64_mod ≡ region =
      omega (arith, top, small, whole) in
    ap₂ (λ x y. x ∷ y ∷ ((region + u32 (u32 (0 + first) + last)) % u64_mod) ∷ []) a b
    ∙ ap (λ z. region ∷ (region + first) ∷ z ∷ []) c
