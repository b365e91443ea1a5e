-- ===== src/Kernel/WorkOrchestrator/Passes.antt =====
-- A worker's pass over the queue pairs of its work queue.
use labstor.Base.{
  ℕ, zero, suc, ◌+◌, ◌^◌, ◌<◌, ◌≡◌, refl, sym, ap, ap₂, ◌∙◌, ◌≢◌, some, List, [], ◌∷◌, ◌++◌, arith,
  length, get_elem?, done,
}
use labstor.RequestQueue.Pointers.{pending}
use labstor.Spin.{returned}
use labstor.WorkQueue
use labstor.WorkQueue.{WorkQueue}
use labstor.WorkQueue.Order
use labstor.WorkQueue.Order.{contents, length-prefix, peek_iff}
use labstor.Kernel.WorkOrchestrator.{
  Machine, Others, Served, qp_rounds, qp_loop, work_loop, worker_pass, served_first, map_spun,
  int_rounds,
}
use labstor.Kernel.WorkOrchestrator.Rounds.{
  Keeps, Kept, Ready, Ready-Kept, calls, calls-Kept, qp_loop-calls,
}

-- the calls for the requests that are queued in the pairs, pair by pair
abbrev pub pass_calls : Machine → List ℕ → List Served
pass_calls m [] = []
pass_calls m (qp ∷ qps) = calls m qp (pending (m.pairs qp).sq) ++ pass_calls m qps

-- A pair is not in the list.
abbrev pub Absent : ℕ → List ℕ → Type 0
Absent qp qps = (j a : ℕ) → get_elem? qps j ≡ some a → qp ≢ a

pass_calls-Kept :
    {m m' : Machine} {qp : ℕ}
    → Kept m qp m'
    → (qps : List ℕ) → Absent qp qps
    → pass_calls m' qps ≡ pass_calls m qps
pass_calls-Kept kept [] absent = refl
pass_calls-Kept {m = m} {m' = m'} kept (a ∷ qps) absent =
    ap₂ (λ first rest. first ++ rest)
      (calls-Kept kept a (pending (m'.pairs a).sq)
        ∙ ap (λ q. calls m a (pending q)) (kept.queues a (absent 0 a refl)))
      (pass_calls-Kept kept qps (λ j. absent (suc j)))

module _ (process : ℕ → ℕ → ℕ → Machine → Machine) (w : WorkQueue) (others : ℕ → ℕ → Others) where
  -- one round of the loop
  step_lem :
      (n i qp : ℕ) (m m₁ : Machine) (first : List Served)
      → WorkQueue.peek w i ≡ done qp
      → qp_loop process (qp_rounds m qp) m qp (others i) ≡ returned (some (first, m₁))
      → work_loop process (suc n) i w m others
        ≡ map_spun (served_first first) (work_loop process n (suc i) w m₁ others)
  unfolding work_loop
  step_lem n i qp m m₁ first at run = ground (arith, at, run)

  loop_calls :
      (qps : List ℕ) (i : ℕ) (m : Machine)
      → Keeps process
      → ((j qp : ℕ) → get_elem? qps j ≡ some qp → WorkQueue.peek w (i + j) ≡ done qp)
      → ((j qp : ℕ) → get_elem? qps j ≡ some qp → Ready m qp)
      → ((j k qp : ℕ) → get_elem? qps j ≡ some qp → get_elem? qps k ≡ some qp → j ≡ k)
      → (m' : Machine) × (work_loop process (length qps) i w m others
          ≡ returned (some (pass_calls m qps, m')))
        × ((j qp : ℕ) → get_elem? qps j ≡ some qp → pending (m'.pairs qp).sq ≡ [])
        × ((a : ℕ) → Absent a qps → (m'.pairs a).sq ≡ (m.pairs a).sq)
  unfolding work_loop
  loop_calls [] i m keeps peeks ready once =
      (m, refl, λ j qp at. absurd (cc (at)), λ a absent. refl)
  loop_calls (qp ∷ qps) i m keeps peeks ready once =
      let first : WorkQueue.peek w i ≡ done qp =
        (let same : i ≡ i + 0 = omega arith in ap (WorkQueue.peek w) same ∙ peeks 0 qp refl) in
      let absent : Absent qp qps = λ j a at e.
        absurd (let z : 0 ≡ suc j = once 0 (suc j) a (ap some e) at in omega (arith, z)) in
      let (m₁, run₁, empty₁, kept) =
        qp_loop-calls process m qp (others i) keeps (ready 0 qp refl) in
      let (m', run, empty, same) =
        loop_calls qps (suc i) m₁ keeps
          (λ j a at.
            let next : suc i + j ≡ i + suc j = omega arith in
            ap (WorkQueue.peek w) next ∙ peeks (suc j) a at)
          (λ j a at. Ready-Kept kept (absent j a at) (ready (suc j) a at))
          (λ j k a at at'. let e = once (suc j) (suc k) a at at' in omega (arith, e)) in
      (
        m',
        step_lem (length qps) i qp m m₁ (calls m qp (pending (m.pairs qp).sq)) first run₁
            ∙ rw (run, pass_calls-Kept kept qps absent) refl,
        λ j a at. emptied m' m₁ j a at empty (same qp absent) empty₁,
        λ a outside. same a (λ j. outside (suc j)) ∙ kept.queues a (λ e. outside 0 qp refl (sym e)),
      )
    where
      emptied :
          (m' m₁ : Machine) (j a : ℕ)
          → get_elem? (qp ∷ qps) j ≡ some a
          → ((j a : ℕ) → get_elem? qps j ≡ some a → pending (m'.pairs a).sq ≡ [])
          → (m'.pairs qp).sq ≡ (m₁.pairs qp).sq
          → pending (m₁.pairs qp).sq ≡ []
          → pending (m'.pairs a).sq ≡ []
      emptied m' m₁ zero a at empty same empty₁ =
          let e : qp ≡ a = cc (at) in
          ap (λ b. pending (m'.pairs b).sq) (sym e) ∙ ap pending same ∙ empty₁
      emptied m' m₁ (suc j) a at empty same empty₁ = empty j a at

  -- In a pass during which no other thread changes the submission queues, over a valid work queue
  -- of fewer than 2^31 pairs, which are all different, have valid rings and bases, and hold fewer
  -- than 2^31 requests each, all of which name modules with worker functions, and if these leave
  -- the submission queues, the modules and what requests are for: the pass ends, it has called the
  -- functions of the modules with the requests, pair by pair, each once and in their order, and no
  -- request is queued.
  pub worker_pass-calls :
      (m : Machine)
      → Keeps process
      → Order.IsValid w
      → w.enqueued < 2 ^ 31
      → ((j qp : ℕ) → get_elem? (contents w) j ≡ some qp → Ready m qp)
      → ((j k qp : ℕ)
          → get_elem? (contents w) j ≡ some qp
          → get_elem? (contents w) k ≡ some qp
          → j ≡ k)
      → (m' : Machine) × (worker_pass process w m others
          ≡ returned (some (pass_calls m (contents w), m')))
        × ((j qp : ℕ) → get_elem? (contents w) j ≡ some qp → pending (m'.pairs qp).sq ≡ [])
  unfolding worker_pass WorkQueue.get_depth
  worker_pass-calls m keeps v few ready once =
      let len = length-prefix w.queue w.enqueued (omega (arith, v.within, v.storage)) in
      let rounds : int_rounds w.enqueued ≡ length (contents w) = ground (arith, len, few) in
      let (m', run, empty, same) =
        loop_calls (contents w) 0 m keeps
          (λ j qp at.
            let e : 0 + j ≡ j = omega arith in
            ap (WorkQueue.peek w) e ∙ ((peek_iff w j v).0 qp).1 at)
          ready once in
      (m', ap (λ n. work_loop process n 0 w m others) rounds ∙ run, empty)
