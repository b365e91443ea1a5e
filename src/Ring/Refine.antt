-- ===== src/Ring/Refine.antt =====
-- A valid ring behaves as the FIFO of the offsets that it holds.
use labstor.Base.{
  ℕ, suc, ◌+◌, ◌-◌, ◌%◌, ◌<◌, ◌≡◌, refl, inl, inr, List, [], ◌∷◌, arith, length, get_or, length-set,
  u32, sub32, done,
}
use labstor.Fifo
use labstor.Fifo.{Op, put, get, Reply}
use labstor.Ring.Client.{step, run}
use labstor.Ring.Effects.{write_slot, read_slot}
use labstor.Ring.Inv.{IsValid, Room}
use labstor.Ring.Window.{
  contents, length-contents, entries_of_pos, entries_congr, entries-set, get_or-entries, slot-u32,
}
use labstor.Ring.{Ring, get_depth, enqueue_simple, dequeue, peek}

-- A call keeps the invariant and the depth, and takes up the room of one call.
step-IsValid :
    {r : Ring} (op : Op) (n : ℕ)
    → IsValid r
    → Room r (suc n)
    → let r' = (step r op).1 in IsValid r' × Room r' n × (r'.max_depth ≡ r.max_depth)
unfolding step enqueue_simple dequeue
step-IsValid {r} (put x) n v room = ground (arith, length-set r.queue (r.enqueued % r.max_depth) x)
step-IsValid get n v room = ground arith

-- `enqueue` and `dequeue` act on the contents as the FIFO of `max_depth` entries does.
pub step_refines :
    {r : Ring} (op : Op)
    → IsValid r
    → Room r 1
    → let (s, r') = step r op in (s, contents r') ≡ Fifo.step r.max_depth (contents r) op
unfolding step enqueue_simple dequeue Fifo.step
step_refines {r} (put x) v room = ground (
  arith,
  length-contents r,
  write_slot v,
  entries-set r.queue r.max_depth x (sub32 r.enqueued r.dequeued) r.dequeued
      (r.enqueued % r.max_depth),
)
step_refines {r} get v room = ground (
  arith,
  entries_of_pos r.queue r.max_depth r.dequeued (sub32 r.enqueued r.dequeued),
  read_slot v,
  entries_congr r.queue r.max_depth (u32 (r.dequeued + 1)) (r.dequeued + 1)
      (sub32 r.enqueued r.dequeued - 1),
)

-- No sequence of calls tells a valid ring from the FIFO of its contents, as long as the depth
-- divides 2^32 or the calls do not take `enqueued_` past 2^32 - 1.
pub run_refines :
    (ops : List Op) {r : Ring}
    → IsValid r
    → Room r (length ops)
    → run r ops ≡ Fifo.run r.max_depth (contents r) ops
unfolding run Fifo.run
run_refines [] v room = refl
run_refines (op ∷ ops) {r} v room =
    let (v', room', same) = step-IsValid op (length ops) v room in
    rw (run_refines ops v' room', ← step_refines op v (one room), same)
  where
    one : Room r (suc (length ops)) → Room r 1
    one (inl d) = inl d
    one (inr h) = inr (omega arith)

-- `Peek` of an index below the depth reads that entry of the contents.
pub peek-contents :
    {r : Ring} (i : ℕ) → IsValid r → i < get_depth r → peek r i ≡ done (get_or (contents r) i 0)
unfolding peek get_depth
peek-contents {r} i v h = ground (
  arith,
  get_or-entries r.queue r.max_depth i (sub32 r.enqueued r.dequeued) r.dequeued,
  slot-u32 r (r.dequeued + i),
)
