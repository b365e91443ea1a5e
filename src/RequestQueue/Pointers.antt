-- ===== src/RequestQueue/Pointers.antt =====
-- The submission queue as a FIFO of pointers.
use mathlib.Core.List.{map, map-append}
use labstor.Base.{
  ℕ, suc, ◌≡◌, refl, ap, ◌∙◌, ◌≢◌, inl, inr, List, [], ◌∷◌, ◌++◌, arith, List-cases, length, done,
  refused,
}
use labstor.Region.{region_add, region_sub, Reaches, region_add-sub_of_reach}
use labstor.Request.{set_req_id}
use labstor.Ring
use labstor.Ring.Inv.{IsValid, Room}
use labstor.Ring.Window.{contents, length-contents}
use labstor.Ring.Effects
use labstor.Ring.Effects.{enqueue_lem}
use labstor.RequestQueue.{RequestQueue, Shared, try_enqueue, dequeue}

abbrev pub pending : RequestQueue → List ℕ
pending q = map (λ off. region_add off q.base_region) (contents q.ring)

length-map : (f : ℕ → ℕ) (xs : List ℕ) → length (map f xs) ≡ length xs
length-map f [] = refl
length-map f (x ∷ xs) = ap suc (length-map f xs)

pub length-pending : (q : RequestQueue) → length (pending q) ≡ Ring.get_depth q.ring
unfolding Ring.get_depth
length-pending q =
    length-map (λ off. region_add off q.base_region) (contents q.ring) ∙ length-contents q.ring

-- A round of `Enqueue` on a queue that is not full puts the request last, gives it the number
-- `enqueued_` and returns that number with the queue's id.
pub try_enqueue_lem :
    (s : Shared) (rq : ℕ)
    → IsValid s.queue.ring
    → Room s.queue.ring 1
    → Reaches s.queue.base_region rq
    → Ring.get_depth s.queue.ring ≢ s.queue.ring.max_depth
    → (q : RequestQueue) × (try_enqueue rq s
        ≡ done (
          record { qid = s.queue.qid; req_id = s.queue.ring.enqueued },
          record { store = set_req_id s.store rq s.queue.ring.enqueued; queue = q },
        ))
      × IsValid q.ring
      × (q.base_region ≡ s.queue.base_region)
      × (pending q ≡ pending s.queue ++ rq ∷ [])
unfolding try_enqueue
try_enqueue_lem s rq v room r space =
    let (ring, run, v', holds, same, rest) =
      enqueue_lem s.queue.ring (region_sub rq s.queue.base_region) v room space in
    (
      (let q = s.queue in record q { ring = ring }),
      rw run,
      v',
      refl,
      rw (holds, map-append, region_add-sub_of_reach s.queue.base_region rq r),
    )

-- `Dequeue` takes the oldest request out and leaves the others in their order; it is refused if
-- there is none.
pub dequeue_lem :
    (q : RequestQueue) (rq : ℕ) (rest : List ℕ)
    → IsValid q.ring
    → pending q ≡ rq ∷ rest
    → (q' : RequestQueue) × (dequeue q ≡ done (rq, q'))
      × IsValid q'.ring
      × (q'.base_region ≡ q.base_region)
      × (pending q' ≡ rest)
unfolding dequeue
dequeue_lem q rq rest v holds = elim (List-cases (contents q.ring)) [
  | inl none_left ↦ absurd (cc (rw none_left at holds))
  | inr (off, offs, e) ↦
      let (ring, run, v', left, same, room) = Effects.dequeue_lem q.ring off offs v e in
      let here : region_add off q.base_region ∷ map (λ o. region_add o q.base_region) offs
          ≡ rq ∷ rest =
        rw e at holds in
      (record q { ring = ring }, rw run (ground arith), v', refl, rw left (cc))
]

pub dequeue_empty : (q : RequestQueue) → IsValid q.ring → pending q ≡ [] → dequeue q ≡ refused
unfolding dequeue
dequeue_empty q v holds = elim (List-cases (contents q.ring)) [
  | inl none_left ↦ rw (Effects.dequeue_empty q.ring v none_left)
  | inr (off, offs, e) ↦ absurd (cc (rw e at holds))
]
