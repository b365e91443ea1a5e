-- ===== src/Kernel/WorkOrchestrator/Invalid.antt =====
-- The completion of requests that no module serves.
use labstor.Base.{ℕ, ◌≡◌, refl, ap, ◌∙◌, Option, none, some, arith, eq→==}
use labstor.QueuePair
use labstor.QueuePair.Roundtrip.{complete_returns, wait_returns}
use labstor.Region.{Reaches}
use labstor.Request.{set_code}
use labstor.RequestMap.View
use labstor.Spin.{returned}
use labstor.Kernel.ModuleManager.{Module, get_labstor_module_by_runtime_id}
use labstor.Kernel.WorkOrchestrator.{
  Machine, Others, invalid, shared_at, put_back, request_failed, complete_invalid_request, serve,
}
use labstor.Kernel.WorkOrchestrator.Rounds.{worker_fn, handler_of}

module _ (process : ℕ → ℕ → ℕ → Machine → Machine) where
  serve_invalid :
      (pkg : Option Module) (m m' : Machine) (qp rq : ℕ) (others : Others)
      → worker_fn pkg ≡ none
      → complete_invalid_request m qp rq others ≡ returned m'
      → serve process pkg m qp rq others ≡ returned (invalid qp rq, m')
  unfolding serve
  serve_invalid none m m' qp rq others e run = rw run
  serve_invalid (some pkg) m m' qp rq others e run = rw (e, run)

  -- A request in reach of the base that names no module with a worker function is completed at
  -- once, if its bucket is vacant; then Wait for its number returns it at once, its code is
  -- LABSTOR_REQUEST_FAILED, and the submission queue is as it was.
  pub invalid-wait :
      (m : Machine) (qp rq : ℕ) (others waiting : Others)
      → View.IsValid (m.pairs qp).cq
      → Reaches (m.pairs qp).cq.base_region rq
      → View.pending (m.pairs qp).cq (View.home (m.pairs qp).cq (m.store rq).req_id) ≡ none
      → handler_of m rq ≡ none
      → (m' : Machine) × (s : QueuePair.Shared) × (serve process
            (get_labstor_module_by_runtime_id m.modules (m.store rq).ns_id)
            m
            qp
            rq
            others
          ≡ returned (invalid qp rq, m'))
        × (QueuePair.wait (shared_at m' qp) (m.store rq).req_id waiting ≡ returned (rq, s))
        × ((s.store rq).code ≡ request_failed)
        × ((m'.pairs qp).sq ≡ (m.pairs qp).sq)
  unfolding complete_invalid_request
  invalid-wait m qp rq others waiting v reach free nobody =
      let number = (m.store rq).req_id in
      let s₀ : QueuePair.Shared = record {
        store = set_code m.store rq request_failed;
        qp = m.pairs qp;
      } in
      let same_number : (s₀.store rq).req_id ≡ number = rw (eq→== rq rq refl) refl in
      let (s₁, run, c) = complete_returns s₀ rq rq number others v reach same_number free in
      let m' = put_back m qp s₁ in
      let back : shared_at m' qp ≡ s₁ = rw (eq→== qp qp refl) refl in
      let here : View.pending s₁.qp.cq (View.home s₁.qp.cq number) ≡ some rq =
        ground (arith, c.waits (View.home s₀.qp.cq number), c.buckets) in
      let (s₂, run₂, w) = wait_returns s₁ rq number waiting c.map_valid here in
      (
        m',
        s₂,
        serve_invalid (get_labstor_module_by_runtime_id m.modules (m.store rq).ns_id) m m' qp rq
            others nobody (rw run refl),
        ap (λ s. QueuePair.wait s number waiting) back ∙ run₂,
        ap (λ st. (st rq).code) w.same_store ∙ c.code ∙ rw (eq→== rq rq refl) refl,
        ap QueuePair.QueuePair.sq (ap QueuePair.Shared.qp back) ∙ c.queue,
      )
