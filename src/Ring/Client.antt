-- ===== src/Ring/Client.antt =====
-- A client of a request ring: calls in order, with what each returns.
use labstor.Base.{List, [], ◌∷◌, done, refused, fault}
use labstor.Fifo.{Op, put, get, Reply, stored, full, taken, empty, broken}
use labstor.Ring.{Ring, enqueue_simple, dequeue}

-- One call of a client.
unfoldable pub step : Ring → Op → Reply × Ring
step r (put x) = elim (enqueue_simple r x) [
  | done r' ↦ (stored, r')
  | refused ↦ (full, r)
  | fault ↦ (broken, r)
]
step r get = elim (dequeue r) [
  | done p ↦ (taken p.0, p.1)
  | refused ↦ (empty, r)
  | fault ↦ (broken, r)
]

unfoldable pub run : Ring → List Op → List Reply
unfolding step
run r [] = []
run r (op ∷ ops) = let (reply, r') = step r op in reply ∷ run r' ops
