-- ===== src/MqDriver/Interrupt.antt =====
-- A client's I/O that waits for the device's interrupt.
use labstor.Base.{ℕ, suc, ◌≡◌, refl, ap, ◌∙◌, ◌≢◌, true, false, Option, some, arith, ◌==◌, eq→==}
use labstor.RequestMap.View
use labstor.Spin.{returned}
use labstor.Kernel.WorkOrchestrator.{Others}
use labstor.MqDriver.{write_io, polling_enabled, io_is_complete}
use labstor.MqDriver.Kernel
use labstor.MqDriver.Rounds.{io_rounds, kernel_answer_lem, Waiting, round_goes_on, rounds_wait}
use labstor.MqDriver.Server.{Server, with_code, io_submitted, io}

-- The kernel has answered the submission, and the I/O is not polled for.
pub record Submitted (s : Server) (client_rq kern_rq : ℕ) : Type 0 where
  pub first : (s.memory.store client_rq).code ≡ 1
  pub kern_valid : View.IsValid s.kern.cq
  pub answered :
      View.pending s.kern.cq (View.home s.kern.cq (s.memory.ios client_rq).kern_qtok.req_id)
      ≡ some kern_rq
  pub not_polled : polling_enabled s.memory kern_rq ≡ false
  pub apart : client_rq ≢ kern_rq

-- the state behind that call
record Stored (s : Server) (client_rq kern_rq : ℕ) (s' : Server) : Type 0 where
  waiting : Waiting s' client_rq kern_rq
  flag : io_is_complete s'.memory kern_rq ≡ io_is_complete s.memory kern_rq
  client : s'.client ≡ s.client
  freed : s'.freed ≡ s.freed
  req_id : (s'.memory.store client_rq).req_id ≡ (s.memory.store client_rq).req_id

submitted_lem :
    (s : Server) (client_rq kern_rq : ℕ) (alloc : Option ℕ) (others : Others)
    → Submitted s client_rq kern_rq
    → (s' : Server) × (io s client_rq alloc others ≡ returned (false, s'))
      × Stored s client_rq kern_rq s'
unfolding io io_submitted io_is_complete polling_enabled
submitted_lem s client_rq kern_rq alloc others b =
    let (s₁, run, memory, client, freed) =
      kernel_answer_lem s client_rq kern_rq b.kern_valid b.answered in
    let self : (client_rq == client_rq) ≡ true = eq→== client_rq client_rq refl in
    let other : (client_rq == kern_rq) ≡ false = ground (arith, b.apart) in
    let still : polling_enabled s₁.memory kern_rq ≡ false =
      ap (λ m. polling_enabled m kern_rq) memory ∙ b.not_polled in
    (
      with_code
          (record s₁ {
            memory =
                let m = s₁.memory in
                record m {
                  ios =
                      write_io m.ios client_rq
                        (let old = m.ios client_rq in record old { kern_rq = kern_rq });
                };
          })
          client_rq 3,
      rw (io, b.first, run, io_submitted, still) refl,
      record {
        waiting = record { third = rw self refl; stored = rw self refl };
        flag = rw (io_is_complete, other) (ap (λ m. io_is_complete m kern_rq) memory);
        client = client;
        freed = freed;
        req_id = rw self (ap (λ m. (m.store client_rq).req_id) memory);
      },
    )

-- When the kernel has answered a submission whose I/O is neither polled for nor complete, the
-- module takes the request, and then however many more calls it gets, it never answers the
-- client's request, as long as nobody marks the I/O complete: the client's pair and what was given
-- back are as they were.
pub silent-waits :
    (n : ℕ) (s : Server) (client_rq kern_rq : ℕ) (alloc : Option ℕ) (others : Others)
    → Submitted s client_rq kern_rq
    → io_is_complete s.memory kern_rq ≡ false
    → (s' : Server) × (io_rounds (suc n) s client_rq alloc others ≡ returned (false, s'))
      × (s'.client ≡ s.client)
      × (s'.freed ≡ s.freed)
silent-waits n s client_rq kern_rq alloc others b not_yet =
    let (s', run, st) = submitted_lem s client_rq kern_rq alloc others b in
    (
      s',
      round_goes_on n s s' client_rq alloc others run
          ∙ rounds_wait n s' client_rq kern_rq alloc others st.waiting (st.flag ∙ not_yet),
      st.client,
      st.freed,
    )

-- the interrupt's handler, for the bio of the kernel's request
abbrev pub interrupt : Server → (kern_rq status : ℕ) → Server
interrupt s kern_rq status = record s {
  memory = Kernel.io_complete s.memory (some (some kern_rq, status));
}

-- the interrupt leaves what the module has stored, and the word that the module takes for the flags
interrupt_lem :
    (s : Server) (client_rq kern_rq status : ℕ)
    → Waiting s client_rq kern_rq
    → client_rq ≢ kern_rq
    → let s' = interrupt s kern_rq status in
      Waiting s' client_rq kern_rq
      × ((s'.memory.ios kern_rq).flags.io_is_complete ≡ true)
      × (io_is_complete s'.memory kern_rq ≡ io_is_complete s.memory kern_rq)
unfolding io_is_complete Kernel.io_complete
interrupt_lem s client_rq kern_rq status w apart =
    let other : (kern_rq == client_rq) ≡ false = ground (arith, apart) in
    let self : (kern_rq == kern_rq) ≡ true = eq→== kern_rq kern_rq refl in
    (
      record { third = rw other w.third; stored = rw other w.stored },
      rw self refl,
      rw (io_is_complete, self) refl,
    )

-- When the kernel has answered a submission, and the flags of its request, another than that of
-- the client, as the module reads them, have neither the bit of polled nor that of complete I/O,
-- the module takes the request and leaves that of the client alone for however many calls, until
-- the handler of the interrupt marks the I/O complete, with any status; that bit stands in the
-- word that is flags_ in the kernel and lock_ in the module, so the module does not answer in
-- however many calls from then on either: the pair of the client and what was given back are as
-- they were.
pub interrupt-silent :
    (n k status : ℕ) (s : Server) (client_rq kern_rq : ℕ) (alloc : Option ℕ) (others : Others)
    → Submitted s client_rq kern_rq
    → io_is_complete s.memory kern_rq ≡ false
    → (s₁ : Server) × (s₂ : Server) × (io_rounds (suc n) s client_rq alloc others
        ≡ returned (false, s₁))
      × (((interrupt s₁ kern_rq status).memory.ios kern_rq).flags.io_is_complete ≡ true)
      × (io_rounds k (interrupt s₁ kern_rq status) client_rq alloc others ≡ returned (false, s₂))
      × (s₂.client ≡ s.client)
      × (s₂.freed ≡ s.freed)
interrupt-silent n k status s client_rq kern_rq alloc others b not_yet =
    let (s₁, run, st) = submitted_lem s client_rq kern_rq alloc others b in
    let (w, flag, word) = interrupt_lem s₁ client_rq kern_rq status st.waiting b.apart in
    (
      s₁,
      interrupt s₁ kern_rq status,
      round_goes_on n s s₁ client_rq alloc others run
          ∙ rounds_wait n s₁ client_rq kern_rq alloc others st.waiting (st.flag ∙ not_yet),
      flag,
      rounds_wait k (interrupt s₁ kern_rq status) client_rq kern_rq alloc others w
          (word ∙ st.flag ∙ not_yet),
      st.client,
      st.freed,
    )
