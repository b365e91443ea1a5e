-- ===== src/Server/Worker/Rounds.antt =====
-- What the rounds of a worker over a pair come to, and what the modules leave.
use labstor.Base.{
  ℕ, suc, ◌≤◌, ◌≡◌, sym, ap, ◌∙◌, ◌≢◌, Bool, true, false, Option, none, some, List, [], ◌∷◌,
}
use labstor.Server.Namespace.{get_module}
use labstor.Server.Worker.{Machine, Processed}

-- the module that a request names
abbrev pub module_of : Machine → ℕ → Option ℕ
module_of m rq = get_module m.namespace (m.store rq).ns_id

abbrev pub Named : Machine → List ℕ → Type 0
Named m [] = 0 ≤ 0
Named m (rq ∷ rqs) = (module_of m rq ≢ none) × Named m rqs

-- The modules leave the submission queues, the namespace and what requests are for.
pub record Keeps (process : ℕ → ℕ → ℕ → ℕ → Machine → Bool × Machine) : Type 0 where
  pub queues :
      (mdl qp rq creds : ℕ) (m : Machine) (a : ℕ)
      → ((process mdl qp rq creds m).1.pairs a).sq ≡ (m.pairs a).sq
  pub same_modules :
      (mdl qp rq creds : ℕ) (m : Machine) → (process mdl qp rq creds m).1.namespace ≡ m.namespace
  pub ns_id :
      (mdl qp rq creds : ℕ) (m : Machine) (a : ℕ)
      → ((process mdl qp rq creds m).1.store a).ns_id ≡ (m.store a).ns_id

-- what the calls know of the namespace and the requests stays
pub record Kept (m m' : Machine) : Type 0 where
  pub same_modules : m'.namespace ≡ m.namespace
  pub ns_id : (a : ℕ) → (m'.store a).ns_id ≡ (m.store a).ns_id

pub module_of-Kept : {m m' : Machine} → Kept m m' → (rq : ℕ) → module_of m' rq ≡ module_of m rq
module_of-Kept {m} {m'} kept rq =
    ap (λ ns. get_module ns (m'.store rq).ns_id) kept.same_modules
    ∙ ap (get_module m.namespace) (kept.ns_id rq)

pub Named-Kept : {m m' : Machine} → Kept m m' → (rqs : List ℕ) → Named m rqs → Named m' rqs
Named-Kept kept [] h = h
Named-Kept kept (rq ∷ rqs) (here, more) =
    (λ e. here (sym (module_of-Kept kept rq) ∙ e), Named-Kept kept rqs more)

pub Kept-then : {m₁ m₂ m₃ : Machine} → Kept m₁ m₂ → Kept m₂ m₃ → Kept m₁ m₃
Kept-then k l = record {
  same_modules = l.same_modules ∙ k.same_modules;
  ns_id = λ a. l.ns_id a ∙ k.ns_id a;
}

-- What `n` rounds over a queue of the requests `rqs` have come to: the calls, in the order of the
-- requests, each of the module that the request names, up to the first that is not complete.
pub data Rounds (m : Machine) (qp : ℕ) : ℕ → List ℕ → List Processed → List ℕ → Type 0 where
  out_of_rounds : {rqs : List ℕ} → Rounds m qp 0 rqs [] rqs
  queue_empty : {n : ℕ} → Rounds m qp (suc n) [] [] []
  not_complete :
      {n rq mdl : ℕ} {rqs : List ℕ}
      → module_of m rq ≡ some mdl
      → Rounds m qp
          (suc n)
          (rq ∷ rqs)
          (record { mdl = mdl; qp = qp; rq = rq; is_complete = false } ∷ [])
          (rq ∷ rqs)
  complete :
      {n rq mdl : ℕ} {rqs rest : List ℕ} {calls : List Processed}
      → module_of m rq ≡ some mdl
      → Rounds m qp n rqs calls rest
      → Rounds m qp
          (suc n)
          (rq ∷ rqs)
          (record { mdl = mdl; qp = qp; rq = rq; is_complete = true } ∷ calls)
          rest

pub Rounds-Kept :
    {m m' : Machine} {qp n : ℕ} {rqs rest : List ℕ} {calls : List Processed}
    → Kept m m'
    → Rounds m' qp n rqs calls rest
    → Rounds m qp n rqs calls rest
Rounds-Kept kept out_of_rounds = out_of_rounds
Rounds-Kept kept queue_empty = queue_empty
Rounds-Kept kept (not_complete {rq = rq} at) = not_complete (sym (module_of-Kept kept rq) ∙ at)
Rounds-Kept kept (complete {rq = rq} at more) =
    complete (sym (module_of-Kept kept rq) ∙ at) (Rounds-Kept kept more)
