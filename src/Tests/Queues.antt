-- ===== src/Tests/Queues.antt =====
-- The submission queue, the queue pair and the work queue at concrete inputs.
use labstor.Base.{ℕ, ◌≡◌, refl, inl, [], ◌∷◌, arith, done}
use labstor.Region.{region_add}
use labstor.Request.{Qtok}
use labstor.Ring
use labstor.Ring.{Ring}
use labstor.RequestMap.View
use labstor.RequestQueue
use labstor.RequestQueue.{RequestQueue}
use labstor.RequestQueue.Pointers.{pending}
use labstor.RequestQueue.Waiting.{enqueue_waits}
use labstor.QueuePair.{Shared, enqueue, dequeue, complete_quick, wait, attach, get_pointer}
use labstor.QueuePair.Roundtrip.{roundtrip, attach-get_pointer}
use labstor.Spin.{returned, spinning}
use labstor.WorkQueue.{WorkQueue}
use labstor.Tests.Maps.{requests, two_buckets}

abbrev ring_of : ℕ → Ring
ring_of enqueued = record { enqueued = enqueued; dequeued = 3; max_depth = 2; queue = 0 ∷ 16 ∷ [] }

abbrev queue_of : ℕ → RequestQueue
queue_of enqueued = record {
  base_region = 1000;
  header = 1100;
  qid = record { flags = 1; kind = 0; cnt = 2; pid = 77 };
  update = (0, 0);
  ring = ring_of enqueued;
}

abbrev idle : Shared
idle = record { store = requests; qp = record { sq = queue_of 3; cq = two_buckets } }

roundtrip_example :
    (tok : Qtok) × (s₁ : Shared) × (s₂ : Shared) × (s₃ : Shared) × (s₄ : Shared) × (enqueue idle
        1048 []
      ≡ returned (tok, s₁))
    × (dequeue s₁ ≡ done (1048, s₂))
    × (complete_quick s₂ 1048 1048 [] ≡ returned s₃)
    × (wait s₃ tok.req_id [] ≡ returned (1048, s₄))
    × (pending s₄.qp.sq ≡ [])
    × ((j : ℕ) → View.pending s₄.qp.cq j ≡ View.pending two_buckets j)
roundtrip_example =
    roundtrip idle 1048 (ground arith) (inl refl) refl (omega arith) refl (omega arith) refl

attach-get_pointer_example :
    let there = attach idle.qp (get_pointer idle.qp 1000) 5000 in
    (there.sq.header ≡ 5100)
    × (there.cq.header ≡ 5000)
    × (there.sq.base_region ≡ 5000)
    × (there.cq.base_region ≡ 5000)
attach-get_pointer_example =
    attach-get_pointer idle.qp idle.qp 1000 5000 (omega arith) (omega arith) (omega arith)

-- both slots taken
abbrev crowded : RequestQueue.Shared
crowded = record { store = requests; queue = queue_of 5 }

-- the worker takes one request out
abbrev drain : RequestQueue.Shared → RequestQueue.Shared
drain s = record s {
  queue = let q = s.queue in record q { ring = let r = q.ring in record r { dequeued = 4 } };
}

enqueue_waits_example :
    (RequestQueue.enqueue crowded 1048 ((λ s. s) ∷ []) ≡ spinning)
    × ((tok : Qtok) × (s' : RequestQueue.Shared) × (RequestQueue.enqueue crowded 1048
            ((λ s. s) ∷ drain ∷ [])
          ≡ returned (tok, s'))
        × (tok.req_id ≡ 5)
        × (pending s'.queue ≡ 1000 ∷ 1048 ∷ []))
unfolding region_add Ring.get_depth
enqueue_waits_example =
    enqueue_waits crowded 1048 ((λ s. s) ∷ []) drain [] (refl, refl) (ground arith) (inl refl)
      (omega arith) (omega arith)

abbrev assigned : WorkQueue
assigned = record {
  enqueued = 1;
  max_depth = 2;
  plug = (0, 0);
  queue = 4096 ∷ 0 ∷ [];
  header = 9000;
}
