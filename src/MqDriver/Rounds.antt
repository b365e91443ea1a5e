-- ===== src/MqDriver/Rounds.antt =====
-- The calls that the driver's module gets with one request, while it waits for an interrupt.
use labstor.Base.{ℕ, zero, suc, ◌≡◌, refl, ◌∙◌, Bool, true, false, Option, some, done}
use labstor.QueuePair
use labstor.RequestMap.View
use labstor.Spin.{Spun, returned, spinning, crashed}
use labstor.Kernel.WorkOrchestrator.{Others}
use labstor.MqDriver.{io_is_complete}
use labstor.MqDriver.Server.{Server, put_kern, kernel_answer, io_interrupt, io}

-- the module's calls with one request: at most `n`, and none behind the first that answers it
unfoldable pub io_rounds : ℕ → Server → ℕ → Option ℕ → Others → Spun (Bool × Server)
io_rounds zero s client_rq alloc others = returned (false, s)
io_rounds (suc n) s client_rq alloc others = elim (io s client_rq alloc others) [
  | returned p ↦ elim p.0 [ true ↦ returned p | false ↦ io_rounds n p.1 client_rq alloc others ]
  | spinning ↦ spinning
  | crashed ↦ crashed
]

pub kernel_answer_lem :
    (s : Server) (client_rq kern_rq : ℕ)
    → View.IsValid s.kern.cq
    → View.pending s.kern.cq (View.home s.kern.cq (s.memory.ios client_rq).kern_qtok.req_id)
      ≡ some kern_rq
    → (s' : Server) × (kernel_answer s client_rq ≡ done (kern_rq, s'))
      × (s'.memory ≡ s.memory)
      × (s'.client ≡ s.client)
      × (s'.freed ≡ s.freed)
unfolding kernel_answer QueuePair.is_complete
kernel_answer_lem s client_rq kern_rq v here =
    let (m, run, v', buckets, base, waits) =
      (View.find_and_remove_lem s.kern.cq (s.memory.ios client_rq).kern_qtok.req_id v).0 kern_rq
        here in
    (
      put_kern s (record { store = s.memory.store; qp = record { sq = s.kern.sq; cq = m } }),
      rw (kernel_answer, QueuePair.is_complete, run) refl,
      refl,
      refl,
      refl,
    )

-- the state of an I/O whose interrupt the module waits for
pub record Waiting (s : Server) (client_rq kern_rq : ℕ) : Type 0 where
  pub third : (s.memory.store client_rq).code ≡ 3
  pub stored : (s.memory.ios client_rq).kern_rq ≡ kern_rq

pub round_waits :
    (s : Server) (client_rq kern_rq : ℕ) (alloc : Option ℕ) (others : Others)
    → Waiting s client_rq kern_rq
    → io_is_complete s.memory kern_rq ≡ false
    → io s client_rq alloc others ≡ returned (false, s)
unfolding io io_interrupt
round_waits s client_rq kern_rq alloc others w not_yet =
    rw (io, w.third, io_interrupt, w.stored, not_yet) refl

pub round_goes_on :
    (n : ℕ) (s s' : Server) (client_rq : ℕ) (alloc : Option ℕ) (others : Others)
    → io s client_rq alloc others ≡ returned (false, s')
    → io_rounds (suc n) s client_rq alloc others ≡ io_rounds n s' client_rq alloc others
unfolding io_rounds
round_goes_on n s s' client_rq alloc others e = rw (io_rounds, e) refl

pub rounds_wait :
    (n : ℕ) (s : Server) (client_rq kern_rq : ℕ) (alloc : Option ℕ) (others : Others)
    → Waiting s client_rq kern_rq
    → io_is_complete s.memory kern_rq ≡ false
    → io_rounds n s client_rq alloc others ≡ returned (false, s)
unfolding io_rounds
rounds_wait zero s client_rq kern_rq alloc others w not_yet = refl
rounds_wait (suc n) s client_rq kern_rq alloc others w not_yet =
    round_goes_on n s s client_rq alloc others
      (round_waits s client_rq kern_rq alloc others w not_yet)
    ∙ rounds_wait n s client_rq kern_rq alloc others w not_yet
