-- ===== src/Tests/Segs.antt =====
-- The bump allocator at concrete inputs.
use labstor.Base.{ℕ, ◌≡◌, refl, some, List, [], ◌∷◌, get_elem?}
use labstor.SegmentAlloc.{init, alloc}
use labstor.SegmentAlloc.Segments.{alloc_all}

abbrev sizes : List ℕ
sizes = 16 ∷ 100 ∷ 8 ∷ []

first_at : get_elem? (alloc_all (init 4096 200) sizes) 0 ≡ some 4096
unfolding alloc_all init alloc
first_at = refl

last_at : get_elem? (alloc_all (init 4096 200) sizes) 2 ≡ some 4212
unfolding alloc_all init alloc
last_at = refl
