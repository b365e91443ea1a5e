-- ===== src/MqDriver/Failed.antt =====
-- An I/O that the kernel could not submit.
use Prim.Native.Nat.{bit_and}
use labstor.Base.{
  ℕ, suc, ◌≡◌, refl, sym, ap, ◌∙◌, ◌≢◌, inl, inr, Bool, true, false, not, Option, none, some, List,
  [], ◌∷◌, arith, ◌==◌, eq→==, Bool-cases, Option-cases, get_elem?, done,
}
use labstor.Region.{Reaches}
use labstor.RequestMap.View
use labstor.Spin.{returned}
use labstor.Kernel.BlkdevTable.{Bdevs, labstor_get_bdev}
use labstor.Kernel.WorkOrchestrator.{Others}
use labstor.MqDriver.{
  IoRequest, write_io, polled_bit, complete_bit, polling_enabled, io_is_complete, op_write,
  invalid_device_id, cant_allocate_pages,
}
use labstor.MqDriver.Accounts.{Sound, pinned_lem}
use labstor.MqDriver.Interrupt.{silent-waits}
use labstor.MqDriver.Kernel.{Driver, submit_mq_driver_io}
use labstor.MqDriver.Replies.{answer_lem}
use labstor.MqDriver.Rounds.{io_rounds}
use labstor.MqDriver.Server.{Server}
use labstor.MqDriver.Submission.{
  Returns, DeviceQueue, Event, num_pages_of, convert_user_buf, submission,
}
use labstor.MqDriver.Submission

-- No device stands under the id: the request's own fields stay.
no_device :
    (r : Returns) (queue_of : ℕ → DeviceQueue) (bdevs : Bdevs) (io : IoRequest) (rq : ℕ)
    (is_write : Bool)
    → Sound r bdevs io
    → get_elem? bdevs io.dev_id ≡ some none
    → (s : Submission.Submitted) × (submission r queue_of bdevs io rq is_write ≡ done s)
      × (s.code ≢ 0)
      × (s.io ≡ io)
unfolding submission convert_user_buf labstor_get_bdev
no_device r queue_of bdevs io rq is_write sound nothing = elim (Option-cases r.page_array) [
  | inl no_array ↦ (
    record { code = cant_allocate_pages; io = io; events = [] },
    rw (submission, convert_user_buf, no_array) refl,
    λ e. absurd (omega (arith, e)),
    refl,
  )
  | inr (p, at) ↦ elim (Bool-cases (num_pages_of io.buf_size == r.pinned)) [
    | inl all_pinned ↦ (
      record {
        code = invalid_device_id;
        io = io;
        events = Submission.allocated_pages p ∷ Submission.freed_pages p ∷ [];
      },
      rw
          (
            submission,
            convert_user_buf,
            at,
            sound.alive,
            pinned_lem r io bdevs sound,
            all_pinned,
            labstor_get_bdev,
            nothing,
          )
          refl,
      λ e. absurd (omega (arith, e)),
      refl,
    )
    | inr some_not ↦ (
      record {
        code = cant_allocate_pages;
        io = io;
        events = Submission.allocated_pages p ∷ Submission.freed_pages p ∷ [];
      },
      rw (submission, convert_user_buf, at, sound.alive, pinned_lem r io bdevs sound, some_not)
          refl,
      λ e. absurd (omega (arith, e)),
      refl,
    )
  ]
]

-- the kernel's side of the module's state, and the module's state behind the kernel's
abbrev pub driver_of : Server → Bdevs → Driver
driver_of s bdevs = record { memory = s.memory; qp = s.kern; bdevs = bdevs }

abbrev pub behind : Server → Driver → Server
behind s d = record s { memory = d.memory; kern = d.qp }

-- The module has sent the kernel's request `kern_rq` for the client's request, and it stands in no
-- bucket.
pub record Sent (s : Server) (client_rq kern_rq : ℕ) : Type 0 where
  pub first : (s.memory.store client_rq).code ≡ 1
  pub token : (s.memory.ios client_rq).kern_qtok.req_id ≡ (s.memory.store kern_rq).req_id
  pub apart : client_rq ≢ kern_rq
  pub kern_valid : View.IsValid s.kern.cq
  pub reach : Reaches s.kern.cq.base_region kern_rq
  pub vacant : View.pending s.kern.cq (View.home s.kern.cq (s.memory.store kern_rq).req_id) ≡ none
  pub not_polled : polling_enabled s.memory kern_rq ≡ false
  pub not_complete : io_is_complete s.memory kern_rq ≡ false

-- When the module has sent the kernel a request, another than that of the client, in reach, with
-- its bucket vacant and with neither the bit of polled nor that of complete I/O in its flags, and
-- when the client is alive, the kernel pins at most the 128 pages of an array, or returns an
-- error for them, and the id of the device is one of the table under which no device stands, the
-- kernel answers the request by an error code; but the module, which does not read that code,
-- does not answer the request of the client, however many calls it gets, as long as nobody else
-- changes the memory.
pub failed-silent :
    (n : ℕ) (queue_of : ℕ → DeviceQueue) (r : Returns) (bdevs : Bdevs) (s : Server)
    (client_rq kern_rq : ℕ) (alloc : Option ℕ) (others : Others)
    → Sent s client_rq kern_rq
    → Sound r bdevs (s.memory.ios kern_rq)
    → get_elem? bdevs (s.memory.ios kern_rq).dev_id ≡ some none
    → (es : List Event) × (d : Driver) × (s' : Server) × (submit_mq_driver_io queue_of r
          (driver_of s bdevs)
          kern_rq
          others
        ≡ returned (es, d))
      × ((d.memory.store kern_rq).code ≢ 0)
      × (io_rounds (suc n) (behind s d) client_rq alloc others ≡ returned (false, s'))
      × (s'.client ≡ s.client)
      × (s'.freed ≡ s.freed)
unfolding submit_mq_driver_io polling_enabled io_is_complete
failed-silent n queue_of r bdevs s client_rq kern_rq alloc others sent sound nothing =
    let is_write = (s.memory.store kern_rq).op == op_write in
    let (sub, run, bad, same) =
      no_device r queue_of bdevs (s.memory.ios kern_rq) kern_rq is_write sound nothing in
    let d₁ : Driver =
      (let d = driver_of s bdevs in
        record d {
          memory = let m = s.memory in record m { ios = write_io m.ios kern_rq sub.io };
        }) in
    let (d, replied, a) =
      answer_lem d₁ kern_rq sub.code others sent.kern_valid sent.reach sent.vacant in
    let self : (kern_rq == kern_rq) ≡ true = eq→== kern_rq kern_rq refl in
    let other : (kern_rq == client_rq) ≡ false = ground (arith, sent.apart) in
    let io_kern : d.memory.ios kern_rq ≡ s.memory.ios kern_rq =
      ap (λ ios. ios kern_rq) a.ios ∙ rw self same in
    let io_client : d.memory.ios client_rq ≡ s.memory.ios client_rq =
      ap (λ ios. ios client_rq) a.ios ∙ rw other refl in
    let (s', rounds, client, freed) =
      silent-waits n (behind s d) client_rq kern_rq alloc others
        (record {
          first = ap (λ q. q.code) (a.other_rqs client_rq (λ e. sent.apart (sym e))) ∙ sent.first;
          kern_valid = a.map_valid;
          answered =
              ap (λ io. View.pending d.qp.cq (View.home d.qp.cq io.kern_qtok.req_id)) io_client
              ∙ ap (λ i. View.pending d.qp.cq (View.home d.qp.cq i)) sent.token
              ∙ a.waits;
          not_polled = ap (λ io. not (bit_and io.cookie polled_bit == 0)) io_kern ∙ sent.not_polled;
          apart = sent.apart;
        })
        (ap (λ io. not (bit_and io.cookie complete_bit == 0)) io_kern ∙ sent.not_complete) in
    (
      sub.events,
      d,
      s',
      rw (submit_mq_driver_io, run, replied) refl,
      (λ e. bad (sym a.code ∙ e)),
      rounds,
      client,
      freed,
    )
