-- ===== src/MqDriver/Replies.antt =====
-- The completion of the driver's requests in the kernel.
use labstor.Base.{ℕ, ◌≡◌, refl, ap, ◌∙◌, ◌≢◌, false, none, some, arith, ◌==◌, eq→==}
use labstor.QueuePair
use labstor.QueuePair.Completion.{complete_inf_returns}
use labstor.Region.{Reaches}
use labstor.Request.{set_code}
use labstor.RequestMap.View
use labstor.Spin.{returned}
use labstor.Kernel.WorkOrchestrator.{Others}
use labstor.MqDriver.Kernel.{Driver, put_shared, answer}

-- what `answer` with the code `code` leaves
pub record Answered (d : Driver) (rq sent : ℕ) (d' : Driver) : Type 0 where
  pub map_valid : View.IsValid d'.qp.cq
  pub base : d'.qp.cq.base_region ≡ d.qp.cq.base_region
  pub waits : View.pending d'.qp.cq (View.home d'.qp.cq (d.memory.store rq).req_id) ≡ some rq
  pub queue : d'.qp.sq ≡ d.qp.sq
  pub code : (d'.memory.store rq).code ≡ sent
  pub ios : d'.memory.ios ≡ d.memory.ios
  pub other_rqs : (x : ℕ) → rq ≢ x → d'.memory.store x ≡ d.memory.store x

pub answer_lem :
    (d : Driver) (rq code : ℕ) (others : Others)
    → View.IsValid d.qp.cq
    → Reaches d.qp.cq.base_region rq
    → View.pending d.qp.cq (View.home d.qp.cq (d.memory.store rq).req_id) ≡ none
    → (d' : Driver) × (answer d rq code others ≡ returned d') × Answered d rq code d'
unfolding answer
answer_lem d rq code others v reach free =
    let s₀ : QueuePair.Shared = record { store = set_code d.memory.store rq code; qp = d.qp } in
    let id = (d.memory.store rq).req_id in
    let same_id : (s₀.store rq).req_id ≡ id = rw (eq→== rq rq refl) refl in
    let (s₁, run, c, store, base) = complete_inf_returns s₀ rq others v reach (rw same_id free) in
    let place : View.home s₁.qp.cq id ≡ View.home d.qp.cq (s₀.store rq).req_id =
      rw (c.buckets, same_id) refl in
    (
      put_shared d s₁,
      rw (answer, run) refl,
      record {
        map_valid = c.map_valid;
        base = base;
        waits =
            ap (View.pending s₁.qp.cq) place
            ∙ c.waits (View.home d.qp.cq (s₀.store rq).req_id)
            ∙ rw
                (eq→== (View.home d.qp.cq (s₀.store rq).req_id)
                  (View.home d.qp.cq (s₀.store rq).req_id) refl)
                refl;
        queue = c.queue;
        code = ap (λ st. (st rq).code) store ∙ rw (eq→== rq rq refl) refl;
        ios = refl;
        other_rqs = λ x ne.
            let apart : (rq == x) ≡ false = ground (arith, ne) in
            ap (λ st. st x) store ∙ rw apart refl;
      },
    )
