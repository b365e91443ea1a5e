-- ===== src/QueuePair/Roundtrip.antt =====
-- A request's way through a queue pair, and the pointers that another process attaches by.
use labstor.Base.{
  ℕ, ◌+◌, ◌-◌, ◌^◌, ◌≤◌, ◌≡◌, refl, ap, ◌∙◌, ◌≢◌, none, some, List, [], ◌∷◌, ◌++◌, arith, ◌==◌,
  if◌then◌else◌, length, u64_mod, done,
}
use labstor.Region.{region_add, region_sub, Reaches}
use labstor.Request.{Qtok, Store, set_req_id}
use labstor.Ring
use labstor.Ring.Inv.{IsValid, Room}
use labstor.RequestMap
use labstor.RequestMap.View
use labstor.RequestMap.View.{home}
use labstor.RequestQueue
use labstor.RequestQueue.Pointers
use labstor.RequestQueue.Pointers.{pending, length-pending}
use labstor.Spin.{returned, spin_at_once}
use labstor.QueuePair.{
  QueuePair, Shared, get_pointer, attach, try_enqueue, enqueue, dequeue, try_complete,
  complete_quick, is_complete, wait,
}

-- Attaching by the pair's pointer, in a process that maps the same memory at another base, finds
-- the two regions at the same distances from that base.
pub attach-get_pointer :
    (qp qp' : QueuePair) (base base' : ℕ)
    → Reaches base qp.sq.header
    → Reaches base qp.cq.header
    → base' + 2 ^ 31 ≤ u64_mod
    → let there = attach qp' (get_pointer qp base) base' in
      (there.sq.header ≡ base' + (qp.sq.header - base))
      × (there.cq.header ≡ base' + (qp.cq.header - base))
      × (there.sq.base_region ≡ base')
      × (there.cq.base_region ≡ base')
unfolding attach get_pointer RequestQueue.attach RequestMap.attach region_add region_sub
attach-get_pointer qp qp' base base' hs hc hb = ground arith

-- One stage of a request's way: what a call returns, and what it leaves.
record Enqueued (s : Shared) (rq : ℕ) (s' : Shared) : Type 0 where
  ring_valid : IsValid s'.qp.sq.ring
  base : s'.qp.sq.base_region ≡ s.qp.sq.base_region
  queued : pending s'.qp.sq ≡ pending s.qp.sq ++ rq ∷ []
  map : s'.qp.cq ≡ s.qp.cq
  numbered : (s'.store rq).req_id ≡ s.qp.sq.ring.enqueued

token : Shared → Qtok
token s = record { qid = s.qp.sq.qid; req_id = s.qp.sq.ring.enqueued }

enqueue_returns :
    (s : Shared) (rq : ℕ) (others : List (Shared → Shared))
    → IsValid s.qp.sq.ring
    → Room s.qp.sq.ring 1
    → Reaches s.qp.sq.base_region rq
    → Ring.get_depth s.qp.sq.ring ≢ s.qp.sq.ring.max_depth
    → (s' : Shared) × (enqueue s rq others ≡ returned (token s, s')) × Enqueued s rq s'
unfolding enqueue try_enqueue token
enqueue_returns s rq others v room reach space =
    let (q, run, v', base, queued) =
      Pointers.try_enqueue_lem (record { store = s.store; queue = s.qp.sq }) rq v room reach
        space in
    (
      record {
        store = set_req_id s.store rq s.qp.sq.ring.enqueued;
        qp = record { sq = q; cq = s.qp.cq };
      },
      spin_at_once (try_enqueue rq) others s _ (rw run),
      record { ring_valid = v'; base = base; queued = queued; map = refl; numbered = ground arith },
    )

record Dequeued (s : Shared) (rest : List ℕ) (s' : Shared) : Type 0 where
  ring_valid : IsValid s'.qp.sq.ring
  left : pending s'.qp.sq ≡ rest
  map : s'.qp.cq ≡ s.qp.cq
  store : s'.store ≡ s.store

dequeue_returns :
    (s : Shared) (rq : ℕ) (rest : List ℕ)
    → IsValid s.qp.sq.ring
    → pending s.qp.sq ≡ rq ∷ rest
    → (s' : Shared) × (dequeue s ≡ done (rq, s')) × Dequeued s rest s'
unfolding dequeue
dequeue_returns s rq rest v holds =
    let (q, run, v', base, left) = Pointers.dequeue_lem s.qp.sq rq rest v holds in
    (
      record s { qp = record { sq = q; cq = s.qp.cq } },
      rw run,
      record { ring_valid = v'; left = left; map = refl; store = refl },
    )

pub record Completed (s : Shared) (rq n : ℕ) (s' : Shared) : Type 0 where
  pub map_valid : View.IsValid s'.qp.cq
  pub buckets : s'.qp.cq.num_buckets ≡ s.qp.cq.num_buckets
  pub waits :
      (j : ℕ)
      → View.pending s'.qp.cq j ≡ (if home s.qp.cq n == j then some rq else View.pending s.qp.cq j)
  pub queue : s'.qp.sq ≡ s.qp.sq
  pub code : (s'.store rq).code ≡ (s.store rq).code

pub complete_returns :
    (s : Shared) (old_rq rq n : ℕ) (others : List (Shared → Shared))
    → View.IsValid s.qp.cq
    → Reaches s.qp.cq.base_region rq
    → (s.store old_rq).req_id ≡ n
    → View.pending s.qp.cq (home s.qp.cq n) ≡ none
    → (s' : Shared) × (complete_quick s old_rq rq others ≡ returned s') × Completed s rq n s'
unfolding complete_quick try_complete
complete_returns s old_rq rq n others v reach number free =
    let st : Store = set_req_id s.store rq (s.store old_rq).req_id in
    let id : (st rq).req_id ≡ n = ground arith in
    let (m, run, v', buckets, base, waits) =
      (View.insert_lem st s.qp.cq rq v reach).0 (rw id free) in
    (
      record { store = st; qp = record { sq = s.qp.sq; cq = m } },
      spin_at_once (try_complete rq) others (record s { store = st }) _ (rw run),
      record {
        map_valid = v';
        buckets = buckets;
        waits = λ j. ground (arith, waits j, id);
        queue = refl;
        code = ground arith;
      },
    )

pub record Waited (s : Shared) (n : ℕ) (s' : Shared) : Type 0 where
  waits :
      (j : ℕ)
      → View.pending s'.qp.cq j ≡ (if home s.qp.cq n == j then none else View.pending s.qp.cq j)
  queue : s'.qp.sq ≡ s.qp.sq
  pub same_store : s'.store ≡ s.store

pub wait_returns :
    (s : Shared) (rq n : ℕ) (others : List (Shared → Shared))
    → View.IsValid s.qp.cq
    → View.pending s.qp.cq (home s.qp.cq n) ≡ some rq
    → (s' : Shared) × (wait s n others ≡ returned (rq, s')) × Waited s n s'
unfolding wait is_complete
wait_returns s rq n others v here =
    let (m, run, v', buckets, base, waits) = (View.find_and_remove_lem s.qp.cq n v).0 rq here in
    (
      record s { qp = record { sq = s.qp.sq; cq = m } },
      spin_at_once (is_complete n) others s _ (rw run),
      record { waits = waits; queue = refl; same_store = refl },
    )

-- Storing a request in a vacant bucket and taking it out again changes nothing.
restored :
    (s s₂ s₃ s₄ : Shared) (rq n : ℕ)
    → s₂.qp.cq ≡ s.qp.cq
    → Completed s₂ rq n s₃
    → Waited s₃ n s₄
    → View.pending s.qp.cq (home s.qp.cq n) ≡ none
    → (j : ℕ) → View.pending s₄.qp.cq j ≡ View.pending s.qp.cq j
restored s s₂ s₃ s₄ rq n m c w free j =
    ground (arith, w.waits j, c.waits j, c.buckets, ap RequestMap.RequestMap.num_buckets m)

-- The last stage: the client waits for a request that was completed.
wait_stage :
    (s s₂ s₃ : Shared) (rq n : ℕ)
    → s₂.qp.cq ≡ s.qp.cq
    → pending s₂.qp.sq ≡ []
    → View.pending s.qp.cq (home s.qp.cq n) ≡ none
    → Completed s₂ rq n s₃
    → (s₄ : Shared) × (wait s₃ n [] ≡ returned (rq, s₄))
      × (pending s₄.qp.sq ≡ [])
      × ((j : ℕ) → View.pending s₄.qp.cq j ≡ View.pending s.qp.cq j)
wait_stage s s₂ s₃ rq n m left free c =
    let here : View.pending s₃.qp.cq (home s₃.qp.cq n) ≡ some rq =
      ground (arith, c.waits (home s₂.qp.cq n), c.buckets) in
    let (s₄, run, w) = wait_returns s₃ rq n [] c.map_valid here in
    (s₄, run, rw (w.queue, c.queue) left, restored s s₂ s₃ s₄ rq n m c w free)

-- The worker's stage, and what follows it.
complete_stage :
    (s s₂ : Shared) (rq n : ℕ)
    → View.IsValid s.qp.cq
    → Reaches s.qp.cq.base_region rq
    → View.pending s.qp.cq (home s.qp.cq n) ≡ none
    → s₂.qp.cq ≡ s.qp.cq
    → pending s₂.qp.sq ≡ []
    → (s₂.store rq).req_id ≡ n
    → (s₃ : Shared) × (s₄ : Shared) × (complete_quick s₂ rq rq [] ≡ returned s₃)
      × (wait s₃ n [] ≡ returned (rq, s₄))
      × (pending s₄.qp.sq ≡ [])
      × ((j : ℕ) → View.pending s₄.qp.cq j ≡ View.pending s.qp.cq j)
complete_stage s s₂ rq n mv reach free m left number =
    let (s₃, run₃, c) = complete_returns s₂ rq rq n [] (rw m mv) (rw m reach) number (rw m free) in
    let (s₄, run₄, empty, same) = wait_stage s s₂ s₃ rq n m left free c in
    (s₃, s₄, run₃, run₄, empty, same)

idle_not_full :
    (s : Shared)
    → IsValid s.qp.sq.ring
    → pending s.qp.sq ≡ []
    → Ring.get_depth s.qp.sq.ring ≢ s.qp.sq.ring.max_depth
idle_not_full s v idle full = omega (arith, length-pending s.qp.sq, ap length idle, v.positive)

dequeue_stage :
    (s s₁ : Shared) (rq : ℕ)
    → View.IsValid s.qp.cq
    → Reaches s.qp.cq.base_region rq
    → pending s.qp.sq ≡ []
    → View.pending s.qp.cq (home s.qp.cq s.qp.sq.ring.enqueued) ≡ none
    → Enqueued s rq s₁
    → (s₂ : Shared) × (s₃ : Shared) × (s₄ : Shared) × (dequeue s₁ ≡ done (rq, s₂))
      × (complete_quick s₂ rq rq [] ≡ returned s₃)
      × (wait s₃ s.qp.sq.ring.enqueued [] ≡ returned (rq, s₄))
      × (pending s₄.qp.sq ≡ [])
      × ((j : ℕ) → View.pending s₄.qp.cq j ≡ View.pending s.qp.cq j)
dequeue_stage s s₁ rq mv reach idle free e =
    let queued : pending s₁.qp.sq ≡ rq ∷ [] = e.queued ∙ ap (λ l. l ++ rq ∷ []) idle in
    let (s₂, run₂, d) = dequeue_returns s₁ rq [] e.ring_valid queued in
    let (s₃, s₄, run₃, run₄, empty, same) =
      complete_stage s s₂ rq s.qp.sq.ring.enqueued mv reach free (d.map ∙ e.map) d.left
        (ap (λ st. (st rq).req_id) d.store ∙ e.numbered) in
    (s₂, s₃, s₄, run₂, run₃, run₄, empty, same)

-- On a pair with a valid ring and map over the same base, no request queued and the bucket of the
-- next number vacant, as long as the depth of the ring divides 2^32 or enqueued_ does not wrap,
-- Enqueue of a request in reach of the base returns at once, the Dequeue of the worker gets the
-- same pointer, its CompleteQuick returns at once, and Wait for the number of the token gets the
-- same pointer; then no request is queued and every bucket holds what it held.
pub roundtrip :
    (s : Shared) (rq : ℕ)
    → IsValid s.qp.sq.ring
    → Room s.qp.sq.ring 1
    → pending s.qp.sq ≡ []
    → View.IsValid s.qp.cq
    → s.qp.cq.base_region ≡ s.qp.sq.base_region
    → Reaches s.qp.sq.base_region rq
    → View.pending s.qp.cq (home s.qp.cq s.qp.sq.ring.enqueued) ≡ none
    → (tok : Qtok) × (s₁ : Shared) × (s₂ : Shared) × (s₃ : Shared) × (s₄ : Shared) × (enqueue s rq
          []
        ≡ returned (tok, s₁))
      × (dequeue s₁ ≡ done (rq, s₂))
      × (complete_quick s₂ rq rq [] ≡ returned s₃)
      × (wait s₃ tok.req_id [] ≡ returned (rq, s₄))
      × (pending s₄.qp.sq ≡ [])
      × ((j : ℕ) → View.pending s₄.qp.cq j ≡ View.pending s.qp.cq j)
unfolding token
roundtrip s rq v room idle mv base reach free =
    let (s₁, run₁, e) = enqueue_returns s rq [] v room reach (idle_not_full s v idle) in
    let (s₂, s₃, s₄, run₂, run₃, run₄, empty, same) =
      dequeue_stage s s₁ rq mv (rw base reach) idle free e in
    (token s, s₁, s₂, s₃, s₄, run₁, run₂, run₃, run₄, empty, same)
