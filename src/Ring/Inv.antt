-- ===== src/Ring/Inv.antt =====
-- The invariant of a request ring: its accesses are in bounds, its depth is within `max_depth`,
-- and the counters name different slots for the pending entries.
use labstor.Base.{ℕ, ◌+◌, ◌%◌, ◌≤◌, ◌<◌, ◌≡◌, ◌⊎◌, u32_mod, sub32, length, length-set, done, arith}
use labstor.Ring.{Ring, enqueue, dequeue}

-- The `uint32_t` counters go from 2^32 - 1 to 0. That keeps the order of the slots only if the
-- depth divides 2^32, or if it does not happen while an entry is pending.
abbrev pub KeepsOrder : Ring → Type 0
KeepsOrder r = (u32_mod % r.max_depth ≡ 0) ⊎ (r.dequeued ≤ r.enqueued)

pub record IsValid (r : Ring) : Type 0 where
  pub positive : 0 < r.max_depth
  pub small : r.max_depth < u32_mod
  pub storage : r.max_depth ≤ length r.queue
  pub enqueued_small : r.enqueued < u32_mod
  pub dequeued_small : r.dequeued < u32_mod
  pub depth_in : sub32 r.enqueued r.dequeued ≤ r.max_depth
  pub order : KeepsOrder r

-- room for one more, or for `n` more, calls of `enqueue` before the counter wraps
abbrev pub Room : Ring → ℕ → Type 0
Room r n = (u32_mod % r.max_depth ≡ 0) ⊎ (r.enqueued + n < u32_mod)

pub enqueue-IsValid :
    {r : Ring} (off req_id : ℕ) {r' : Ring}
    → IsValid r
    → Room r 1
    → enqueue r off ≡ done (req_id, r')
    → IsValid r'
unfolding enqueue
enqueue-IsValid {r} off req_id v room e =
    ground (arith, length-set r.queue (r.enqueued % r.max_depth) off)

pub dequeue-IsValid :
    {r : Ring} (off : ℕ) {r' : Ring} → IsValid r → dequeue r ≡ done (off, r') → IsValid r'
unfolding dequeue
dequeue-IsValid off v e = ground arith
