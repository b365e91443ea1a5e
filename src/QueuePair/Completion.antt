-- ===== src/QueuePair/Completion.antt =====
-- The completion of a request, with the loop that waits for its bucket.
use labstor.Base.{ℕ, zero, suc, ◌≡◌, refl, ◌≢◌, none, List, replicate, refused}
use labstor.Region.{Reaches}
use labstor.RequestMap.View
use labstor.Spin.{returned, spinning, spin_at_once, spin_blocked, Refused}
use labstor.QueuePair.{Shared, try_complete, complete_inf}
use labstor.QueuePair.Roundtrip.{Completed}

-- A request whose bucket is vacant is completed at once; the requests themselves stay.
pub complete_inf_returns :
    (s : Shared) (rq : ℕ) (others : List (Shared → Shared))
    → View.IsValid s.qp.cq
    → Reaches s.qp.cq.base_region rq
    → View.pending s.qp.cq (View.home s.qp.cq (s.store rq).req_id) ≡ none
    → (s' : Shared) × (complete_inf s rq others ≡ returned s')
      × Completed s rq (s.store rq).req_id s'
      × (s'.store ≡ s.store)
      × (s'.qp.cq.base_region ≡ s.qp.cq.base_region)
unfolding complete_inf try_complete
complete_inf_returns s rq others v reach free =
    let (m, run, v', buckets, base, waits) = (View.insert_lem s.store s.qp.cq rq v reach).0 free in
    (
      record s { qp = record { sq = s.qp.sq; cq = m } },
      spin_at_once (try_complete rq) others s _ (rw run),
      record { map_valid = v'; buckets = buckets; waits = waits; queue = refl; code = refl },
      refl,
      base,
    )

-- A request whose bucket is taken waits as long as no other thread changes anything.
pub complete_inf_waits :
    (s : Shared) (rq k : ℕ)
    → View.IsValid s.qp.cq
    → Reaches s.qp.cq.base_region rq
    → View.pending s.qp.cq (View.home s.qp.cq (s.store rq).req_id) ≢ none
    → complete_inf s rq (replicate k (λ s'. s')) ≡ spinning
unfolding complete_inf try_complete
complete_inf_waits s rq k v reach taken =
    spin_blocked (try_complete rq) (replicate k (λ s'. s')) s (refused_each k)
  where
    refused_once : try_complete rq s ≡ refused
    refused_once = rw (try_complete, (View.insert_lem s.store s.qp.cq rq v reach).1 taken) refl

    refused_each : (k : ℕ) → Refused (try_complete rq) s (replicate k (λ s'. s'))
    refused_each zero = refused_once
    refused_each (suc k) = (refused_once, refused_each k)
