-- ===== src/MqDriver/Kernel.antt =====
-- The kernel's module of the multi-queue driver: the handlers of
-- labmods/mq_driver/kernel/mq_driver_kernel.c. The code of the block layer that the file has
-- copied is not part of it.
use labstor.Base.{
  ℕ, true, ◌&&◌, ◌||◌, not, Option, none, some, List, [], ◌==◌, if◌then◌else◌, done, refused, fault,
}
use labstor.QueuePair
use labstor.QueuePair.{QueuePair}
use labstor.Request.{set_code}
use labstor.Spin.{Spun, returned, crashed}
use labstor.Kernel.BlkdevTable.{Bdevs, labstor_get_bdev}
use labstor.Kernel.WorkOrchestrator.{map_spun, Others}
use labstor.MqDriver.{Memory, write_io, op_num_hw_queues, op_poll_completion, op_write, op_read}
use labstor.MqDriver.Submission.{Returns, DeviceQueue, Event, submission}

-- the requests, the pair that the requests come from, and the table of devices
pub record Driver : Type 0 where
  pub memory : Memory
  pub qp : QueuePair
  pub bdevs : Bdevs

abbrev pub shared_of : Driver → QueuePair.Shared
shared_of d = record { store = d.memory.store; qp = d.qp }

abbrev pub put_shared : Driver → QueuePair.Shared → Driver
put_shared d s = record d { memory = let m = d.memory in record m { store = s.store }; qp = s.qp }

-- a bio at its end: `bi_private` and `bi_status`; `none` are a null or an error pointer, and a null
-- `bi_private`
unfoldable pub io_complete : Memory → Option (Option ℕ × ℕ) → Memory
io_complete m none = m
io_complete m (some (none, status)) = m
io_complete m (some (some rq, status)) = record m {
  store = set_code m.store rq status;
  ios = write_io m.ios rq (
      let old = m.ios rq in
      record old { flags = let f = old.flags in record f { io_is_complete = true } });
}

-- `rq->header_.code_ = code` and `labstor_queue_pair_CompleteInf`
unfoldable pub answer : Driver → ℕ → ℕ → Others → Spun Driver
answer d rq code others = map_spun (put_shared d) (
    QueuePair.complete_inf (record { store = set_code d.memory.store rq code; qp = d.qp }) rq
      others)

-- `poll` of the hardware queue that a cookie names
abbrev pub Polled : Type 0
Polled = ℕ → Memory → Memory

module _ (queue_of : ℕ → DeviceQueue) where
  unfoldable pub submit_mq_driver_io : Returns → Driver → ℕ → Others → Spun (List Event × Driver)
  submit_mq_driver_io r d rq others =
      elim (submission r queue_of d.bdevs (d.memory.ios rq) rq
        ((d.memory.store rq).op == op_write)) [
          | done s ↦
              let d₁ : Driver = record d {
                memory = let m = d.memory in record m { ios = write_io m.ios rq s.io };
              } in
              map_spun (λ d'. (s.events, d')) (answer d₁ rq s.code others)
          | refused ↦ crashed
          | fault ↦ crashed
        ]

  -- A device that is not there is not tested for.
  unfoldable pub poll_io_completion : (polled : Polled) → Driver → ℕ → Others → Spun Driver
  poll_io_completion polled d rq others = elim (labstor_get_bdev d.bdevs (d.memory.ios rq).dev_id) [
    | done bdev ↦ elim bdev [
      | none ↦ crashed
      | some b ↦
          let io = d.memory.ios rq in
          let d₁ : Driver =
            (if not io.flags.io_is_complete && io.flags.polled_io
              then record d { memory = polled io.cookie d.memory }
              else d) in
          answer d₁ rq 0 others
    ]
    | refused ↦ crashed
    | fault ↦ crashed
  ]

  unfoldable pub get_num_hw_queues : Driver → ℕ → Others → Spun Driver
  get_num_hw_queues d rq others = elim (labstor_get_bdev d.bdevs (d.memory.stats rq).dev_id) [
    | done bdev ↦ elim bdev [
      | none ↦ crashed
      | some b ↦
          let q = queue_of b in
          let m = d.memory in
          answer
            (record d {
              memory = record m {
                stats = λ a.
                    if rq == a
                    then (let old = m.stats rq in
                        record old { num_hw_queues = q.nr_hw_queues; queue_depth = q.nr_requests })
                    else m.stats a;
              };
            })
            rq 0 others
    ]
    | refused ↦ crashed
    | fault ↦ crashed
  ]

  -- A request of another operation is not completed.
  unfoldable pub mq_process_request_fn :
      Returns → (polled : Polled) → Driver → ℕ → Others → Spun (List Event × Driver)
  unfolding submit_mq_driver_io get_num_hw_queues poll_io_completion
  mq_process_request_fn r polled d rq others =
      let op = (d.memory.store rq).op in
      if (op == op_write) || (op == op_read)
      then submit_mq_driver_io r d rq others
      else if op == op_num_hw_queues
      then map_spun (λ d'. ([], d')) (get_num_hw_queues d rq others)
      else if op == op_poll_completion
      then map_spun (λ d'. ([], d')) (poll_io_completion polled d rq others)
      else returned ([], d)
