-- ===== src/PrivateAlloc/Calls.antt =====
-- What `Alloc` and `Free` do to the free objects.
use mathlib.Core.List.{map, map-append}
use labstor.Base.{
  ℕ, suc, ◌≤◌, ◌<◌, ◌≡◌, refl, ap, ◌∙◌, ◌≢◌, inl, inr, List, [], ◌∷◌, ◌++◌, arith, List-cases,
  length, done, refused,
}
use labstor.Region.{region_add, region_sub, Reaches, region_add-sub_of_reach}
use labstor.Ring
use labstor.Ring.{Ring}
use labstor.Ring.Inv.{IsValid, Room}
use labstor.Ring.Window.{contents, length-contents}
use labstor.Ring.Effects.{enqueue_lem, dequeue_lem, dequeue_empty}
use labstor.PrivateAlloc
use labstor.PrivateAlloc.{PrivateAlloc}
use labstor.PrivateAlloc.Objects.{free}

pub free_objects_empty :
    (a : PrivateAlloc) → IsValid a.objs → free a ≡ [] → PrivateAlloc.alloc a ≡ refused
unfolding PrivateAlloc.alloc
free_objects_empty a v none_free = elim (List-cases (contents a.objs)) [
  | inl e ↦ rw (dequeue_empty a.objs v e)
  | inr (off, rest, e) ↦ absurd (cc (none_free, ap (map (λ o. region_add o a.base_region)) e))
]

pub free_objects_take :
    (a : PrivateAlloc) (p : ℕ) (rest : List ℕ)
    → IsValid a.objs
    → free a ≡ p ∷ rest
    → (a' : PrivateAlloc) × (PrivateAlloc.alloc a ≡ done (p, a'))
      × IsValid a'.objs
      × (free a' ≡ rest)
      × (a'.base_region ≡ a.base_region)
      × (a'.objs.max_depth ≡ a.objs.max_depth)
      × (Room a.objs 1 → Room a'.objs 1)
unfolding PrivateAlloc.alloc
free_objects_take a p rest v holds = elim (List-cases (contents a.objs)) [
  | inl e ↦ absurd (cc (holds, ap (map (λ o. region_add o a.base_region)) e))
  | inr (off, others, e) ↦
      let mapped = ap (map (λ o. region_add o a.base_region)) e in
      let (r, run, valid, left, same, more) = dequeue_lem a.objs off others v e in
      (
        record a { objs = r },
        rw run (cc (holds, mapped)),
        valid,
        ap (map (λ o. region_add o a.base_region)) left ∙ cc (holds, mapped),
        refl,
        same,
        more 1,
      )
]

length-map : (f : ℕ → ℕ) (xs : List ℕ) → length (map f xs) ≡ length xs
length-map f [] = refl
length-map f (x ∷ xs) = ap suc (length-map f xs)

pub length-free : (a : PrivateAlloc) → length (free a) ≡ Ring.get_depth a.objs
unfolding Ring.get_depth
length-free a =
    length-map (λ o. region_add o a.base_region) (contents a.objs) ∙ length-contents a.objs

pub free_objects_put :
    (a : PrivateAlloc) (p : ℕ)
    → IsValid a.objs
    → Room a.objs 1
    → length (free a) < a.objs.max_depth
    → Reaches a.base_region p
    → (a' : PrivateAlloc) × (PrivateAlloc.release a p ≡ done a')
      × IsValid a'.objs
      × (free a' ≡ free a ++ p ∷ [])
      × (a'.base_region ≡ a.base_region)
unfolding PrivateAlloc.release Ring.enqueue_simple
free_objects_put a p v room space reach =
    let off = region_sub p a.base_region in
    let not_full : Ring.get_depth a.objs ≢ a.objs.max_depth =
      λ full. omega (arith, full, length-free a) in
    let (r, run, valid, holds, same, more) = enqueue_lem a.objs off v room not_full in
    (
      record a { objs = r },
      rw run,
      valid,
      ap (map (λ o. region_add o a.base_region)) holds
          ∙ rw (map-append, region_add-sub_of_reach a.base_region p reach),
      refl,
    )

-- On a valid ring of free objects, `Alloc` returns the oldest free object; when it is given back
-- it is free again, behind the others, and the ring is valid, if it is in reach of the base and
-- the ring's depth divides 2^32 or its counter does not wrap.
pub alloc-release :
    (a : PrivateAlloc) (p : ℕ) (rest : List ℕ)
    → IsValid a.objs
    → Room a.objs 1
    → free a ≡ p ∷ rest
    → Reaches a.base_region p
    → (a' : PrivateAlloc) × (a'' : PrivateAlloc) × (PrivateAlloc.alloc a ≡ done (p, a'))
      × (free a' ≡ rest)
      × (PrivateAlloc.release a' p ≡ done a'')
      × (free a'' ≡ rest ++ p ∷ [])
      × IsValid a''.objs
unfolding Ring.get_depth
alloc-release a p rest v room holds reach =
    let (a', taken, v', left, base, depth, more) = free_objects_take a p rest v holds in
    let before : suc (length rest) ≤ a.objs.max_depth =
      omega (arith, v.depth_in, length-free a, ap length holds) in
    let space : length (free a') < a'.objs.max_depth =
      omega (arith, ap length left, depth, before) in
    let (a'', put, v'', all, base') = free_objects_put a' p v' (more room) space (rw base reach) in
    (a', a'', taken, left, put, all ∙ ap (λ l. l ++ p ∷ []) left, v'')
