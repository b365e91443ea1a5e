-- ===== src/MqDriver/Server.antt =====
-- The server's module of the multi-queue driver: labmods/mq_driver/server/mq_driver_server.cpp. A
-- request of a client is given to the module over and over until it is answered; `code_` says how
-- far it is. Which request of the kernel's pair the allocator gives is an argument.
use labstor.Base.{
  ℕ, Bool, true, false, ◌||◌, Option, none, some, List, [], ◌∷◌, ◌++◌, ◌==◌, if◌then◌else◌, Call,
  done, refused, fault, ◌>>=◌,
}
use labstor.QueuePair
use labstor.QueuePair.{QueuePair}
use labstor.Request.{set_code}
use labstor.Spin.{Spun, returned, spinning, crashed}
use labstor.Kernel.WorkOrchestrator.{map_spun, Others}
use labstor.MqDriver.{
  Memory, write_io, io_kernel_start, poll_start, polling_enabled, io_is_complete, op_num_hw_queues,
  op_write, op_read,
}

-- The requests, the pair of the client and the server, the pair of the server and the kernel, the
-- device that the module was registered with, and the kernel's requests given back.
pub record Server : Type 0 where
  pub memory : Memory
  pub client : QueuePair
  pub kern : QueuePair
  pub dev_id : ℕ
  pub freed : List ℕ

abbrev pub kern_shared : Server → QueuePair.Shared
kern_shared s = record { store = s.memory.store; qp = s.kern }

abbrev pub put_kern : Server → QueuePair.Shared → Server
put_kern s k = record s { memory = let m = s.memory in record m { store = k.store }; kern = k.qp }

abbrev pub client_shared : Server → QueuePair.Shared
client_shared s = record { store = s.memory.store; qp = s.client }

abbrev pub put_client : Server → QueuePair.Shared → Server
put_client s c = record s {
  memory = let m = s.memory in record m { store = c.store };
  client = c.qp;
}

-- `client_rq->SetCode(code)`
abbrev pub with_code : Server → ℕ → ℕ → Server
with_code s rq code = record s {
  memory = let m = s.memory in record m { store = set_code m.store rq code };
}

-- `MQ_DRIVER_RUNTIME_ID`
abbrev pub runtime_id : ℕ
runtime_id = 4

-- `Initialize`, which does not complete the request
unfoldable pub initialize : Server → ℕ → Bool × Server
initialize s dev_id = (true, record s { dev_id = dev_id })

-- `Enqueue` on the kernel's pair, which writes the token, and `SetCode`
unfoldable pub send : Server → (client_rq kern_rq code : ℕ) → Others → Spun Server
send s client_rq kern_rq code others =
    map_spun
      (λ p.
        let sent = put_kern s p.1 in
        with_code
          (record sent {
            memory =
                let m = sent.memory in
                record m {
                  ios =
                      write_io m.ios client_rq
                        (let old = m.ios client_rq in record old { kern_qtok = p.0 });
                };
          })
          client_rq code)
      (QueuePair.enqueue (kern_shared s) kern_rq others)

-- case 0
unfoldable pub io_submit : Server → ℕ → Option ℕ → Others → Spun (Bool × Server)
unfolding io_kernel_start
io_submit s client_rq none others = crashed
io_submit s client_rq (some kern_rq) others =
    map_spun (λ s'. (false, s'))
      (send (record s { memory = io_kernel_start s.memory kern_rq runtime_id client_rq }) client_rq
        kern_rq 1 others)

-- `Complete` of the client's request, and `FreeRequest` of the kernel's
unfoldable pub finish : Server → (client_rq kern_rq : ℕ) → Others → Spun (Bool × Server)
finish s client_rq kern_rq others =
    map_spun
      (λ c. (true, let s' = put_client s c in record s' { freed = s'.freed ++ kern_rq ∷ [] }))
      (QueuePair.complete_inf (client_shared s) client_rq others)

-- `IsComplete` for the token: the kernel's request, if it is complete
unfoldable pub kernel_answer : Server → ℕ → Call (ℕ × Server)
kernel_answer s client_rq =
    QueuePair.is_complete (s.memory.ios client_rq).kern_qtok.req_id (kern_shared s) >>= λ p.
    done (p.0, put_kern s p.1)

-- case 1, behind `IsComplete`
unfoldable pub io_submitted : Server → (client_rq kern_rq : ℕ) → Others → Spun (Bool × Server)
unfolding polling_enabled poll_start
io_submitted s client_rq kern_rq others = elim (polling_enabled s.memory kern_rq) [
  | true ↦
      map_spun (λ s'. (false, s'))
        (send (record s { memory = poll_start s.memory kern_rq }) client_rq kern_rq 2 others)
  | false ↦ returned (
    false,
    with_code
        (record s {
          memory =
              let m = s.memory in
              record m {
                ios =
                    write_io m.ios client_rq
                      (let old = m.ios client_rq in record old { kern_rq = kern_rq });
              };
        })
        client_rq 3,
  )
]

-- case 2, behind `IsComplete`; a request that is polled for again leaves the code
unfoldable pub io_polled : Server → (client_rq kern_rq : ℕ) → Others → Spun (Bool × Server)
unfolding io_is_complete
io_polled s client_rq kern_rq others = elim (io_is_complete s.memory kern_rq) [
  | false ↦
      map_spun (λ s'. (false, s')) (send s client_rq kern_rq (s.memory.store client_rq).code others)
  | true ↦ finish s client_rq kern_rq others
]

-- case 3
unfoldable pub io_interrupt : Server → ℕ → Others → Spun (Bool × Server)
unfolding io_is_complete
io_interrupt s client_rq others =
    let kern_rq = (s.memory.ios client_rq).kern_rq in
    elim (io_is_complete s.memory kern_rq) [
      | false ↦ returned (false, s)
      | true ↦ finish s client_rq kern_rq others
    ]

-- The true of the return is whether the request is answered; `others` says what other threads do
-- during the one call of the case that may wait.
unfoldable pub io : Server → ℕ → Option ℕ → Others → Spun (Bool × Server)
io s client_rq alloc others =
    let code = (s.memory.store client_rq).code in
    if code == 0
    then io_submit s client_rq alloc others
    else if code == 1
    then elim (kernel_answer s client_rq) [
      | refused ↦ returned (false, s)
      | fault ↦ crashed
      | done p ↦ io_submitted p.1 client_rq p.0 others
    ]
    else if code == 2
    then elim (kernel_answer s client_rq) [
      | refused ↦ returned (false, s)
      | fault ↦ crashed
      | done p ↦ io_polled p.1 client_rq p.0 others
    ]
    else if code == 3
    then io_interrupt s client_rq others
    else returned (true, s)

-- `GetStatistics`; what the pairs' other users do while it enqueues, waits and completes are its
-- last arguments. `Start` writes nothing but the device's id.
unfoldable pub get_statistics :
    Server → ℕ → Option ℕ → (sending waiting completing : Others) → Spun (Bool × Server)
get_statistics s client_rq none sending waiting completing = crashed
get_statistics s client_rq (some kern_rq) sending waiting completing =
    let started : Server = record s {
      memory =
          let m = s.memory in
          record m {
            stats = λ a.
                if kern_rq == a
                then (let old = m.stats kern_rq in record old { dev_id = s.dev_id })
                else m.stats a;
          };
    } in
    elim (QueuePair.enqueue (kern_shared started) kern_rq sending) [
      | returned p ↦ elim (QueuePair.wait p.1 p.0.req_id waiting) [
        | returned w ↦
            let s₂ = put_kern started w.1 in
            finish
              (record s₂ {
                memory =
                    let m = s₂.memory in
                    record m {
                      stats = λ a.
                          if client_rq == a
                          then (let old = m.stats client_rq in
                              record old {
                                num_hw_queues = (m.stats kern_rq).num_hw_queues;
                                queue_depth = (m.stats kern_rq).queue_depth;
                              })
                          else m.stats a;
                    };
              })
              client_rq kern_rq completing
        | spinning ↦ spinning
        | crashed ↦ crashed
      ]
      | spinning ↦ spinning
      | crashed ↦ crashed
    ]

-- `kInit`
abbrev pub op_init : ℕ
op_init = 0

-- `ProcessRequest`; `dev_id` is the field of a request to register
unfoldable pub process_request :
    Server
    → ℕ
    → (dev_id : ℕ) → Option ℕ
    → (sending waiting completing : Others) → Spun (Bool × Server)
unfolding initialize get_statistics
process_request s rq dev_id alloc sending waiting completing =
    let op = (s.memory.store rq).op in
    if op == op_init
    then returned (initialize s dev_id)
    else if (op == op_write) || (op == op_read)
    then io s rq alloc sending
    else if op == op_num_hw_queues
    then get_statistics s rq alloc sending waiting completing
    else returned (true, s)
