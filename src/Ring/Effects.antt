-- ===== src/Ring/Effects.antt =====
-- What `Enqueue` and `Dequeue` do to the contents of a valid ring.
use labstor.Base.{
  ℕ, suc, ◌+◌, ◌-◌, ◌%◌, ◌<◌, ◌≡◌, refl, ap, ◌∙◌, ◌≢◌, ◌⊎◌, inl, inr, List, [], ◌∷◌, ◌++◌, arith,
  set, length-set, u32_mod, u32, sub32, done, refused,
}
use labstor.Ring.{Ring, get_depth, enqueue, dequeue}
use labstor.Ring.Inv.{IsValid, Room}
use labstor.Ring.Window.{
  contents, length-contents, entries_of_pos, entries_congr, entries-set, slot-u32,
}

-- The slot that `enqueue` writes is the one behind the pending entries.
pub write_slot :
    {r : Ring}
    → IsValid r
    → r.enqueued % r.max_depth ≡ (r.dequeued + sub32 r.enqueued r.dequeued) % r.max_depth
write_slot {r} v =
    ap (λ k. k % r.max_depth) back ∙ slot-u32 r (r.dequeued + sub32 r.enqueued r.dequeued) apart
  where
    back : r.enqueued ≡ u32 (r.dequeued + sub32 r.enqueued r.dequeued)
    back = omega (arith, v.enqueued_small, v.dequeued_small)

    apart : (u32_mod % r.max_depth ≡ 0) ⊎ (r.dequeued + sub32 r.enqueued r.dequeued < u32_mod)
    apart = elim v.order [ inl d ↦ inl d | inr h ↦ inr (omega (arith, v.enqueued_small)) ]

-- The slot of the next entry to come out, after one has.
pub read_slot :
    {r : Ring}
    → IsValid r
    → r.enqueued ≢ r.dequeued
    → u32 (r.dequeued + 1) % r.max_depth ≡ (r.dequeued + 1) % r.max_depth
read_slot {r} v ne =
    slot-u32 r (r.dequeued + 1)
      (elim v.order [ inl d ↦ inl d | inr h ↦ inr (omega (arith, v.enqueued_small)) ])

-- A ring that is not full takes the offset as its last, under the number `enqueued_`.
pub enqueue_lem :
    (r : Ring) (off : ℕ)
    → IsValid r
    → Room r 1
    → get_depth r ≢ r.max_depth
    → (r' : Ring) × (enqueue r off ≡ done (r.enqueued, r'))
      × IsValid r'
      × (contents r' ≡ contents r ++ off ∷ [])
      × (r'.max_depth ≡ r.max_depth)
      × ((n : ℕ) → Room r (suc n) → Room r' n)
unfolding enqueue get_depth
enqueue_lem r off v room space = (
  record r { queue = set r.queue (r.enqueued % r.max_depth) off; enqueued = u32 (r.enqueued + 1) },
  ground arith,
  ground (arith, length-set r.queue (r.enqueued % r.max_depth) off),
  ground (
    arith,
    write_slot v,
    entries-set r.queue r.max_depth off (sub32 r.enqueued r.dequeued) r.dequeued
        (r.enqueued % r.max_depth),
  ),
  refl,
  λ n more. ground arith,
)

pub enqueue_full : (r : Ring) (off : ℕ) → get_depth r ≡ r.max_depth → enqueue r off ≡ refused
unfolding enqueue get_depth
enqueue_full r off full = ground arith

-- The oldest offset comes out, and the others stay.
pub dequeue_lem :
    (r : Ring) (off : ℕ) (rest : List ℕ)
    → IsValid r
    → contents r ≡ off ∷ rest
    → (r' : Ring) × (dequeue r ≡ done (off, r'))
      × IsValid r'
      × (contents r' ≡ rest)
      × (r'.max_depth ≡ r.max_depth)
      × ((n : ℕ) → Room r n → Room r' n)
unfolding dequeue
dequeue_lem r off rest v holds =
    let some_left : 0 < sub32 r.enqueued r.dequeued = ground (arith, length-contents r) in
    let split =
      entries_of_pos r.queue r.max_depth r.dequeued (sub32 r.enqueued r.dequeued) some_left in
    (
      record r { dequeued = u32 (r.dequeued + 1) },
      ground (arith, split),
      ground arith,
      ground (
        arith,
        split,
        read_slot v,
        entries_congr r.queue r.max_depth (u32 (r.dequeued + 1)) (r.dequeued + 1)
            (sub32 r.enqueued r.dequeued - 1),
      ),
      refl,
      λ n room. ground arith,
    )

pub dequeue_empty : (r : Ring) → IsValid r → contents r ≡ [] → dequeue r ≡ refused
unfolding dequeue
dequeue_empty r v none_left = ground (arith, length-contents r)
