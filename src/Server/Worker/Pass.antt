-- ===== src/Server/Worker/Pass.antt =====
-- A worker's rounds over a queue pair.
use mathlib.Core.Path.{subst}
use labstor.Base.{
  ℕ, zero, suc, ◌≡◌, refl, sym, ap, ◌∙◌, inl, inr, Bool, true, false, some, List, [], ◌∷◌, eq→==,
  Bool-cases, Option-cases, List-cases, done, refused,
}
use labstor.QueuePair
use labstor.QueuePair.{QueuePair}
use labstor.RequestQueue
use labstor.RequestQueue.{RequestQueue}
use labstor.RequestQueue.Peeks.{peek_first, peek_empty}
use labstor.RequestQueue.Pointers.{pending, dequeue_lem}
use labstor.Ring.Inv.{IsValid}
use labstor.Spin.{returned}
use labstor.Kernel.WorkOrchestrator.{Others}
use labstor.Server.Worker.{Machine, Processed, shared_at, put_back, also, drop_head, qp_loop}
use labstor.Server.Worker.Rounds.{
  module_of, Named, Keeps, Kept, Named-Kept, Kept-then, Rounds, out_of_rounds, queue_empty,
  not_complete, complete, Rounds-Kept,
}

drop_head_lem :
    (m : Machine) (qp rq : ℕ) (rqs : List ℕ)
    → IsValid (m.pairs qp).sq.ring
    → pending (m.pairs qp).sq ≡ rq ∷ rqs
    → (m' : Machine) × (drop_head m qp ≡ done m')
      × IsValid (m'.pairs qp).sq.ring
      × (pending (m'.pairs qp).sq ≡ rqs)
      × Kept m m'
unfolding drop_head QueuePair.dequeue
drop_head_lem m qp rq rqs v queued =
    let (q, run, v', base, left) = dequeue_lem (m.pairs qp).sq rq rqs v queued in
    let s : QueuePair.Shared =
      (let old = shared_at m qp in record old { qp = record { sq = q; cq = (m.pairs qp).cq } }) in
    let m' = put_back m qp s in
    let back : m'.pairs qp ≡ s.qp = rw (eq→== qp qp refl) refl in
    let is_q : (m'.pairs qp).sq ≡ q = ap QueuePair.QueuePair.sq back in
    (
      m',
      rw (drop_head, run) refl,
      subst (λ x. IsValid x.ring) (sym is_q) v',
      ap pending is_q ∙ left,
      record { same_modules = refl; ns_id = λ a. refl },
    )

module _ (process : ℕ → ℕ → ℕ → ℕ → Machine → Bool × Machine) where
  round_empty :
      (n : ℕ) (m : Machine) (qp creds : ℕ) (others : ℕ → Others)
      → RequestQueue.peek (m.pairs qp).sq 0 ≡ refused
      → qp_loop process (suc n) m qp creds others ≡ returned ([], m)
  unfolding qp_loop QueuePair.peek
  round_empty n m qp creds others e = rw (qp_loop, QueuePair.peek, e) refl

  round_stops :
      (n : ℕ) (m : Machine) (qp rq mdl creds : ℕ) (others : ℕ → Others)
      → RequestQueue.peek (m.pairs qp).sq 0 ≡ done rq
      → module_of m rq ≡ some mdl
      → (process mdl qp rq creds m).0 ≡ false
      → qp_loop process (suc n) m qp creds others
        ≡ returned (
          record { mdl = mdl; qp = qp; rq = rq; is_complete = false } ∷ [],
          (process mdl qp rq creds m).1,
        )
  unfolding qp_loop QueuePair.peek
  round_stops n m qp rq mdl creds others e at ran =
      rw (qp_loop, QueuePair.peek, e, at, ran)
        (ap
          (λ b. returned (
            record { mdl = mdl; qp = qp; rq = rq; is_complete = b } ∷ [],
            (process mdl qp rq creds m).1,
          ))
          ran)

  round_goes_on :
      (n : ℕ) (m m₂ : Machine) (qp rq mdl creds : ℕ) (others : ℕ → Others)
      → RequestQueue.peek (m.pairs qp).sq 0 ≡ done rq
      → module_of m rq ≡ some mdl
      → (process mdl qp rq creds m).0 ≡ true
      → drop_head (process mdl qp rq creds m).1 qp ≡ done m₂
      → qp_loop process (suc n) m qp creds others
        ≡ also
            (record { mdl = mdl; qp = qp; rq = rq; is_complete = true } ∷ [])
            (qp_loop process n m₂ qp creds others)
  unfolding qp_loop QueuePair.peek
  round_goes_on n m m₂ qp rq mdl creds others e at ran dropped =
      rw (qp_loop, QueuePair.peek, e, at, ran, dropped)
        (ap
          (λ b.
            also (record { mdl = mdl; qp = qp; rq = rq; is_complete = b } ∷ [])
              (qp_loop process n m₂ qp creds others))
          ran)

  -- On a valid ring, all of whose requests name modules of the namespace, and with modules that
  -- leave the submission queues, the namespace and what requests are for, the rounds over a pair
  -- end: the modules that the requests name were called with the requests in their order, up to
  -- and with the first that is not complete, or to the end of the queue or of the rounds; the
  -- complete ones are out of the queue, and the others are in it, in their order.
  pub qp_loop-Rounds :
      (n : ℕ) (m : Machine) (qp creds : ℕ) (others : ℕ → Others)
      → Keeps process
      → IsValid (m.pairs qp).sq.ring
      → Named m (pending (m.pairs qp).sq)
      → (calls : List Processed) × (m' : Machine) × (qp_loop process n m qp creds others
          ≡ returned (calls, m'))
        × IsValid (m'.pairs qp).sq.ring
        × Rounds m qp n (pending (m.pairs qp).sq) calls (pending (m'.pairs qp).sq)
  unfolding qp_loop
  qp_loop-Rounds zero m qp creds others keeps v named = ([], m, refl, v, out_of_rounds)
  qp_loop-Rounds (suc n) m qp creds others keeps v named =
      elim (List-cases (pending (m.pairs qp).sq)) [
        | inl none_left ↦ (
          [],
          m,
          round_empty n m qp creds others (peek_empty (m.pairs qp).sq 0 v none_left),
          v,
          subst (λ l. Rounds m qp (suc n) l [] l) (sym none_left) queue_empty,
        )
        | inr (rq, rqs, e) ↦ elim (Option-cases (module_of m rq)) [
          | inl nobody ↦ absurd ((rw e at named).0 nobody)
          | inr (mdl, at) ↦ elim (Bool-cases (process mdl qp rq creds m).0) [
            | inl done_now ↦
                let m₁ = (process mdl qp rq creds m).1 in
                let same : (m₁.pairs qp).sq ≡ (m.pairs qp).sq = keeps.queues mdl qp rq creds m qp in
                let kept₁ : Kept m m₁ = record {
                  same_modules = keeps.same_modules mdl qp rq creds m;
                  ns_id = keeps.ns_id mdl qp rq creds m;
                } in
                let (m₂, dropped, v₂, left, kept₂) =
                  drop_head_lem m₁ qp rq rqs (subst (λ q. IsValid q.ring) (sym same) v)
                    (ap pending same ∙ e) in
                let kept = Kept-then kept₁ kept₂ in
                let call : List Processed =
                  record { mdl = mdl; qp = qp; rq = rq; is_complete = true } ∷ [] in
                let named₂ : Named m₂ (pending (m₂.pairs qp).sq) =
                  rw left (Named-Kept kept rqs (rw e at named).1) in
                let (calls, m', run, v', rounds) =
                  qp_loop-Rounds n m₂ qp creds others keeps v₂ named₂ in
                (
                  record { mdl = mdl; qp = qp; rq = rq; is_complete = true } ∷ calls,
                  m',
                  round_goes_on n m m₂ qp rq mdl creds others
                        (peek_first (m.pairs qp).sq rq rqs v e) at done_now dropped
                      ∙ ap (also call) run,
                  v',
                  subst
                      (λ l.
                        Rounds m qp (suc n) l
                          (record { mdl = mdl; qp = qp; rq = rq; is_complete = true } ∷ calls)
                          (pending (m'.pairs qp).sq))
                      (sym e)
                      (complete at (
                        Rounds-Kept kept (
                          subst (λ l. Rounds m₂ qp n l calls (pending (m'.pairs qp).sq)) left
                            rounds))),
                )
            | inr not_yet ↦
                let m' = (process mdl qp rq creds m).1 in
                let call : List Processed =
                  record { mdl = mdl; qp = qp; rq = rq; is_complete = false } ∷ [] in
                let same : (m'.pairs qp).sq ≡ (m.pairs qp).sq = keeps.queues mdl qp rq creds m qp in
                (
                  record { mdl = mdl; qp = qp; rq = rq; is_complete = false } ∷ [],
                  m',
                  round_stops n m qp rq mdl creds others (peek_first (m.pairs qp).sq rq rqs v e) at
                      not_yet,
                  subst (λ q. IsValid q.ring) (sym same) v,
                  subst (λ l. Rounds m qp (suc n) l call (pending (m'.pairs qp).sq)) (sym e)
                      (subst (λ l. Rounds m qp (suc n) (rq ∷ rqs) call l)
                        (sym (ap pending same ∙ e)) (not_complete at)),
                )
          ]
        ]
      ]
