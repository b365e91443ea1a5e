-- ===== src/Ring/Wrap.antt =====
-- What happens to a ring when `enqueued_` goes from 2^32 - 1 to 0 and the depth does not divide
-- 2^32.
use native.Mathlib.Nat.{div-add-mod, mul-mod_right}
use labstor.Base.{
  ℕ, ◌-◌, ◌/◌, ◌%◌, ◌≡◌, ◌≢◌, ◌∙◌, ap, u32_mod, [], ◌∷◌, length-set, set, get_or-set_self, arith,
}
use labstor.Fifo.{put, get, stored, taken}
use labstor.Ring.{Ring, enqueue_simple, dequeue}
use labstor.Ring.Inv.{IsValid}
use labstor.Ring.Client.{step, run}

-- The last counters before the wrap: the multiple of the depth below 2^32, and 2^32 - 1.
last_multiple : (d : ℕ) → (u32_mod - u32_mod % d) % d ≡ 0
last_multiple d =
    ap (λ k. k % d) (omega (arith, div-add-mod u32_mod d)) ∙ mul-mod_right d (u32_mod / d)

-- A ring whose depth does not divide 2^32, whose counter is about to wrap and whose oldest entry
-- stands at the last multiple of the depth: the second of two further entries is stored over the
-- oldest entry, and comes out first.
pub run-wrap :
    {r : Ring} (x y : ℕ)
    → IsValid r
    → u32_mod % r.max_depth ≢ 0
    → r.enqueued ≡ u32_mod - 1
    → r.dequeued ≡ u32_mod - u32_mod % r.max_depth
    → run r (put x ∷ put y ∷ get ∷ []) ≡ stored ∷ stored ∷ taken y ∷ []
unfolding run step enqueue_simple dequeue
run-wrap {r} x y v odd e d = ground (
  arith,
  last_multiple r.max_depth,
  length-set r.queue (r.enqueued % r.max_depth) x,
  length-set (set r.queue (r.enqueued % r.max_depth) x) 0 y,
  get_or-set_self (set r.queue (r.enqueued % r.max_depth) x) 0 y 0,
)
