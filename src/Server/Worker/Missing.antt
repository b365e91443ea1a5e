-- ===== src/Server/Worker/Missing.antt =====
-- A request that names no module of the namespace.
use mathlib.Core.Path.{subst}
use labstor.Base.{
  ℕ, suc, ◌≡◌, refl, sym, ap, ◌∙◌, ◌≢◌, Bool, none, some, List, ◌∷◌, eq→==, replicate, done,
}
use labstor.QueuePair
use labstor.QueuePair.Completion.{complete_inf_returns, complete_inf_waits}
use labstor.QueuePair.Roundtrip.{Completed}
use labstor.Region.{Reaches}
use labstor.Request.{set_code}
use labstor.RequestMap.View
use labstor.RequestQueue
use labstor.RequestQueue.Peeks.{peek_first}
use labstor.RequestQueue.Pointers.{pending}
use labstor.Ring.Inv.{IsValid}
use labstor.Spin.{returned, spinning}
use labstor.Kernel.WorkOrchestrator.{Others}
use labstor.Server.Namespace.{get_module}
use labstor.Server.Worker.{Machine, put_back, no_module, answer_missing, qp_loop}
use labstor.Server.Worker.Rounds.{module_of}

module _ (process : ℕ → ℕ → ℕ → ℕ → Machine → Bool × Machine) where
  round_missing :
      (n : ℕ) (m m' : Machine) (qp rq creds : ℕ) (others : ℕ → Others)
      → RequestQueue.peek (m.pairs qp).sq 0 ≡ done rq
      → module_of m rq ≡ none
      → answer_missing m qp rq (others n) ≡ returned m'
      → qp_loop process (suc n) m qp creds others ≡ qp_loop process n m' qp creds others
  unfolding qp_loop QueuePair.peek
  round_missing n m m' qp rq creds others e nobody answered =
      rw (qp_loop, QueuePair.peek, e, nobody, answered) refl

  round_stuck :
      (n : ℕ) (m : Machine) (qp rq creds : ℕ) (others : ℕ → Others)
      → RequestQueue.peek (m.pairs qp).sq 0 ≡ done rq
      → module_of m rq ≡ none
      → answer_missing m qp rq (others n) ≡ spinning
      → qp_loop process (suc n) m qp creds others ≡ spinning
  unfolding qp_loop QueuePair.peek
  round_stuck n m qp rq creds others e nobody waits =
      rw (qp_loop, QueuePair.peek, e, nobody, waits) refl

-- The answer to such a request leaves it the first of its queue.
record Answered (m : Machine) (qp rq : ℕ) (m' : Machine) : Type 0 where
  queue : (m'.pairs qp).sq ≡ (m.pairs qp).sq
  namespace : module_of m' rq ≡ module_of m rq
  req_id : (m'.store rq).req_id ≡ (m.store rq).req_id
  code : (m'.store rq).code ≡ no_module
  map_valid : View.IsValid (m'.pairs qp).cq
  base : (m'.pairs qp).cq.base_region ≡ (m.pairs qp).cq.base_region
  taken : View.pending (m'.pairs qp).cq (View.home (m'.pairs qp).cq (m'.store rq).req_id) ≡ some rq

Completed-pending :
    (s s' : QueuePair.Shared) (rq : ℕ)
    → Completed s rq (s.store rq).req_id s'
    → (s'.store rq).req_id ≡ (s.store rq).req_id
    → View.pending s'.qp.cq (View.home s'.qp.cq (s'.store rq).req_id) ≡ some rq
Completed-pending s s' rq c same =
    let home_same : View.home s'.qp.cq (s'.store rq).req_id
        ≡ View.home s.qp.cq (s.store rq).req_id =
      rw (same, c.buckets) refl in
    let place = View.home s.qp.cq (s.store rq).req_id in
    ap (View.pending s'.qp.cq) home_same ∙ c.waits place ∙ rw (eq→== place place refl) refl

answer_missing_lem :
    (m : Machine) (qp rq : ℕ) (others : Others)
    → View.IsValid (m.pairs qp).cq
    → Reaches (m.pairs qp).cq.base_region rq
    → View.pending (m.pairs qp).cq (View.home (m.pairs qp).cq (m.store rq).req_id) ≡ none
    → (m' : Machine) × (answer_missing m qp rq others ≡ returned m') × Answered m qp rq m'
unfolding answer_missing
answer_missing_lem m qp rq others v reach free =
    let s₀ : QueuePair.Shared = record { store = set_code m.store rq no_module; qp = m.pairs qp } in
    let same_id : (s₀.store rq).req_id ≡ (m.store rq).req_id = rw (eq→== rq rq refl) refl in
    let (s₁, run, c, store, base) = complete_inf_returns s₀ rq others v reach (rw same_id free) in
    let m' = put_back m qp s₁ in
    let back : m'.pairs qp ≡ s₁.qp = rw (eq→== qp qp refl) refl in
    let same : (s₁.store rq).req_id ≡ (s₀.store rq).req_id = ap (λ st. (st rq).req_id) store in
    (
      m',
      rw (answer_missing, run) refl,
      record {
        queue = ap QueuePair.QueuePair.sq back ∙ c.queue;
        namespace =
            ap (λ st. get_module m.namespace (st rq).ns_id) store ∙ rw (eq→== rq rq refl) refl;
        req_id = same ∙ same_id;
        code = ap (λ st. (st rq).code) store ∙ rw (eq→== rq rq refl) refl;
        map_valid = subst (λ p. View.IsValid p.cq) (sym back) c.map_valid;
        base = ap (λ p. p.cq.base_region) back ∙ base;
        taken =
            subst (λ p. View.pending p.cq (View.home p.cq (s₁.store rq).req_id) ≡ some rq)
              (sym back) (Completed-pending s₀ s₁ rq c same);
      },
    )

answer_waits :
    (m : Machine) (qp rq k : ℕ) (others : Others)
    → others ≡ replicate k (λ s. s)
    → View.IsValid (m.pairs qp).cq
    → Reaches (m.pairs qp).cq.base_region rq
    → View.pending (m.pairs qp).cq (View.home (m.pairs qp).cq (m.store rq).req_id) ≢ none
    → answer_missing m qp rq others ≡ spinning
unfolding answer_missing
answer_waits m qp rq k others quiet v reach taken =
    let s₀ : QueuePair.Shared = record { store = set_code m.store rq no_module; qp = m.pairs qp } in
    let same_id : (s₀.store rq).req_id ≡ (m.store rq).req_id = rw (eq→== rq rq refl) refl in
    rw (answer_missing, quiet, complete_inf_waits s₀ rq k v reach (rw same_id taken)) refl

module _ (process : ℕ → ℕ → ℕ → ℕ → Machine → Bool × Machine) where
  -- When the first request of a pair with a valid ring and map, which is peeked at twice or more,
  -- is in reach and names no module, and its bucket is vacant, the server worker never comes to
  -- the end of its rounds over the pair, as long as no other thread changes the pair behind the
  -- first completion.
  pub missing_stuck :
      (n : ℕ) (m : Machine) (qp rq : ℕ) (rest : List ℕ) (creds k : ℕ) (others : ℕ → Others)
      → IsValid (m.pairs qp).sq.ring
      → pending (m.pairs qp).sq ≡ rq ∷ rest
      → module_of m rq ≡ none
      → View.IsValid (m.pairs qp).cq
      → Reaches (m.pairs qp).cq.base_region rq
      → View.pending (m.pairs qp).cq (View.home (m.pairs qp).cq (m.store rq).req_id) ≡ none
      → others n ≡ replicate k (λ s. s)
      → qp_loop process (suc (suc n)) m qp creds others ≡ spinning
  missing_stuck n m qp rq rest creds k others v queued nobody mv reach free quiet =
      let (m', run, a) = answer_missing_lem m qp rq (others (suc n)) mv reach free in
      let first = peek_first (m.pairs qp).sq rq rest v queued in
      let again : RequestQueue.peek (m'.pairs qp).sq 0 ≡ done rq = rw a.queue first in
      round_missing process (suc n) m m' qp rq creds others first nobody run
      ∙ round_stuck process n m' qp rq creds others again (a.namespace ∙ nobody) (
          answer_waits m' qp rq k (others n) quiet a.map_valid (rw a.base reach)
            (λ e. absurd (cc (sym a.taken ∙ e))))
