-- ===== src/Kernel/WorkOrchestrator/Rounds.antt =====
-- A worker's round over a queue pair.
use mathlib.Core.List.{map}
use mathlib.Core.Path.{subst}
use labstor.Base.{
  ℕ, suc, ◌^◌, ◌≤◌, ◌<◌, ◌≡◌, refl, sym, ap, ap₂, ◌∙◌, ◌≢◌, inl, inr, false, Option, none, some,
  List, [], ◌∷◌, arith, ◌==◌, eq→==, Option-cases, length, done,
}
use labstor.QueuePair
use labstor.RequestQueue
use labstor.RequestQueue.Pointers.{pending, length-pending, dequeue_lem}
use labstor.Ring
use labstor.Ring.Inv.{IsValid}
use labstor.Spin.{returned}
use labstor.Kernel.ModuleManager.{Module, get_labstor_module_by_runtime_id}
use labstor.Kernel.WorkOrchestrator.{
  Machine, Others, Served, process_request_fn, invalid, shared_at, put_back, serve, qp_rounds,
  qp_loop, served_first, map_spun,
}

-- the worker function of the module that a request names
abbrev pub worker_fn : Option Module → Option ℕ
worker_fn none = none
worker_fn (some pkg) = pkg.process_request_fn

abbrev pub handler_of : Machine → ℕ → Option ℕ
handler_of m rq = worker_fn (get_labstor_module_by_runtime_id m.modules (m.store rq).ns_id)

abbrev pub Handled : Machine → List ℕ → Type 0
Handled m [] = 0 ≤ 0
Handled m (rq ∷ rqs) = (handler_of m rq ≢ none) × Handled m rqs

-- the call that serves a request
abbrev pub call_of : ℕ → ℕ → Option ℕ → Served
call_of qp rq none = invalid qp rq
call_of qp rq (some handler) = process_request_fn handler qp rq

abbrev pub calls : Machine → ℕ → List ℕ → List Served
calls m qp rqs = map (λ rq. call_of qp rq (handler_of m rq)) rqs

-- Worker functions leave the submission queues, the modules and what requests are for.
pub record Keeps (process : ℕ → ℕ → ℕ → Machine → Machine) : Type 0 where
  pub queues :
      (h qp rq : ℕ) (m : Machine) (a : ℕ) → ((process h qp rq m).pairs a).sq ≡ (m.pairs a).sq
  pub same_modules : (h qp rq : ℕ) (m : Machine) → (process h qp rq m).modules ≡ m.modules
  pub ns_id :
      (h qp rq : ℕ) (m : Machine) (a : ℕ) → ((process h qp rq m).store a).ns_id ≡ (m.store a).ns_id

-- what a round over `qp` leaves
pub record Kept (m : Machine) (qp : ℕ) (m' : Machine) : Type 0 where
  pub queues : (a : ℕ) → qp ≢ a → (m'.pairs a).sq ≡ (m.pairs a).sq
  pub same_modules : m'.modules ≡ m.modules
  pub ns_id : (a : ℕ) → (m'.store a).ns_id ≡ (m.store a).ns_id

pub handler-Kept :
    {m m' : Machine} {qp : ℕ} → Kept m qp m' → (rq : ℕ) → handler_of m' rq ≡ handler_of m rq
handler-Kept kept rq = rw (kept.same_modules, kept.ns_id rq) refl

pub Handled-Kept :
    {m m' : Machine} {qp : ℕ} → Kept m qp m' → (rqs : List ℕ) → Handled m rqs → Handled m' rqs
Handled-Kept kept [] h = h
Handled-Kept kept (rq ∷ rqs) (here, more) =
    (λ e. here (sym (handler-Kept kept rq) ∙ e), Handled-Kept kept rqs more)

pub calls-Kept :
    {m m' : Machine} {qp : ℕ}
    → Kept m qp m'
    → (a : ℕ) (rqs : List ℕ) → calls m' a rqs ≡ calls m a rqs
calls-Kept kept a [] = refl
calls-Kept kept a (rq ∷ rqs) =
    ap₂ (λ c cs. call_of a rq c ∷ cs) (handler-Kept kept rq) (calls-Kept kept a rqs)

Kept-then : {m₁ m₂ m₃ : Machine} {qp : ℕ} → Kept m₁ qp m₂ → Kept m₂ qp m₃ → Kept m₁ qp m₃
Kept-then k l = record {
  queues = λ a ne. l.queues a ne ∙ k.queues a ne;
  same_modules = l.same_modules ∙ k.same_modules;
  ns_id = λ a. l.ns_id a ∙ k.ns_id a;
}

-- a pair whose requests the worker can serve
pub record Ready (m : Machine) (qp : ℕ) : Type 0 where
  pub ring_valid : IsValid (m.pairs qp).sq.ring
  pub based : (m.pairs qp).sq.base_region ≢ 0
  pub few : QueuePair.get_depth (m.pairs qp) < 2 ^ 31
  pub handled : Handled m (pending (m.pairs qp).sq)

pub Ready-Kept : {m m' : Machine} {qp a : ℕ} → Kept m qp m' → qp ≢ a → Ready m a → Ready m' a
unfolding QueuePair.get_depth
Ready-Kept {m' = m'} {a = a} kept ne r =
    let same = sym (kept.queues a ne) in
    record {
      ring_valid = subst (λ q. IsValid q.ring) same r.ring_valid;
      based = subst (λ q. q.base_region ≢ 0) same r.based;
      few = subst (λ q. Ring.get_depth q.ring < 2 ^ 31) same r.few;
      handled = subst (λ q. Handled m' (pending q)) same (Handled-Kept kept _ r.handled);
    }

module _ (process : ℕ → ℕ → ℕ → Machine → Machine) where
  serve_handled :
      (pkg : Option Module) (m : Machine) (qp rq : ℕ) (others : Others)
      → worker_fn pkg ≢ none
      → (m' : Machine) × (handler : ℕ) × (serve process pkg m qp rq others
          ≡ returned (call_of qp rq (worker_fn pkg), m'))
        × (m' ≡ process handler qp rq m)
  unfolding serve
  serve_handled none m qp rq others e = absurd (e refl)
  serve_handled (some pkg) m qp rq others e = elim (Option-cases pkg.process_request_fn) [
    | inl nothing ↦ absurd (e nothing)
    | inr (handler, at) ↦ (process handler qp rq m, handler, rw at refl, refl)
  ]

  -- one round of the loop
  round_lem :
      (n : ℕ) (m : Machine) (qp rq : ℕ) (rqs : List ℕ) (others : ℕ → Others)
      → Keeps process
      → IsValid (m.pairs qp).sq.ring
      → (m.pairs qp).sq.base_region ≢ 0
      → pending (m.pairs qp).sq ≡ rq ∷ rqs
      → handler_of m rq ≢ none
      → (m' : Machine) × (qp_loop process (suc n) m qp others
          ≡ map_spun
              (served_first (call_of qp rq (handler_of m rq) ∷ []))
              (qp_loop process n m' qp others))
        × IsValid (m'.pairs qp).sq.ring
        × ((m'.pairs qp).sq.base_region ≡ (m.pairs qp).sq.base_region)
        × (pending (m'.pairs qp).sq ≡ rqs)
        × Kept m qp m'
  unfolding qp_loop QueuePair.dequeue
  round_lem n m qp rq rqs others keeps v based queued here =
      let (q, run, v', base, left) = dequeue_lem (m.pairs qp).sq rq rqs v queued in
      let s : QueuePair.Shared =
        (let old = shared_at m qp in record old { qp = record { sq = q; cq = (m.pairs qp).cq } }) in
      let m₁ = put_back m qp s in
      let back : m₁.pairs qp ≡ s.qp = rw (eq→== qp qp refl) refl in
      let pkg = get_labstor_module_by_runtime_id m.modules (m.store rq).ns_id in
      let (m', handler, ran, is_m') = serve_handled pkg m₁ qp rq (others n) here in
      let sq_of = λ (a : ℕ). ap (λ k. (k.pairs a).sq) is_m' ∙ keeps.queues handler qp rq m₁ a in
      let is_q : (m'.pairs qp).sq ≡ q = sq_of qp ∙ ap QueuePair.QueuePair.sq back in
      let not_null : (m.pairs qp).sq.base_region == 0 ≡ false = ground (arith, based) in
      let taken : QueuePair.dequeue (shared_at m qp) ≡ done (rq, s) = rw run in
      (
        m',
        rw (not_null, taken, ran) refl,
        subst (λ x. IsValid x.ring) (sym is_q) v',
        ap RequestQueue.RequestQueue.base_region is_q ∙ base,
        ap pending is_q ∙ left,
        record {
          queues = λ a ne.
              let other : m₁.pairs a ≡ m.pairs a = ground (arith, ne) in
              sq_of a ∙ ap QueuePair.QueuePair.sq other;
          same_modules = ap Machine.modules is_m' ∙ keeps.same_modules handler qp rq m₁;
          ns_id = λ a. ap (λ k. (k.store a).ns_id) is_m' ∙ keeps.ns_id handler qp rq m₁ a;
        },
      )

  loop_calls :
      (m : Machine) (qp : ℕ) (rqs : List ℕ) (others : ℕ → Others)
      → Keeps process
      → IsValid (m.pairs qp).sq.ring
      → (m.pairs qp).sq.base_region ≢ 0
      → pending (m.pairs qp).sq ≡ rqs
      → Handled m rqs
      → (m' : Machine) × (qp_loop process (length rqs) m qp others
          ≡ returned (some (calls m qp rqs, m')))
        × (pending (m'.pairs qp).sq ≡ [])
        × Kept m qp m'
  unfolding qp_loop
  loop_calls m qp [] others keeps v based queued handled =
      (m, refl, queued, record { queues = λ a ne. refl; same_modules = refl; ns_id = λ a. refl })
  loop_calls m qp (rq ∷ rqs) others keeps v based queued (here, handled) =
      let (m₁, run, v₁, base, left, kept) =
        round_lem (length rqs) m qp rq rqs others keeps v based queued here in
      let (m', run', empty, kept') =
        loop_calls m₁ qp rqs others keeps v₁ (λ z. based (sym base ∙ z)) left
          (Handled-Kept kept rqs handled) in
      (m', rw (run, run', calls-Kept kept qp rqs) refl, empty, Kept-then kept kept')

  -- The loop over a pair that is ready makes the calls for its requests, and none is left.
  pub qp_loop-calls :
      (m : Machine) (qp : ℕ) (others : ℕ → Others)
      → Keeps process
      → Ready m qp
      → (m' : Machine) × (qp_loop process (qp_rounds m qp) m qp others
          ≡ returned (some (calls m qp (pending (m.pairs qp).sq), m')))
        × (pending (m'.pairs qp).sq ≡ [])
        × Kept m qp m'
  unfolding QueuePair.get_depth
  qp_loop-calls m qp others keeps r =
      let rqs = pending (m.pairs qp).sq in
      let few = r.few in
      let all : qp_rounds m qp ≡ length rqs = ground (arith, few, length-pending (m.pairs qp).sq) in
      let (m', run, empty, kept) =
        loop_calls m qp rqs others keeps r.ring_valid r.based refl r.handled in
      (m', ap (λ n. qp_loop process n m qp others) all ∙ run, empty, kept)
