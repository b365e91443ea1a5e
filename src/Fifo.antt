-- ===== src/Fifo.antt =====
-- The contract of a request ring: a FIFO of at most `cap` offsets, oldest first.
use labstor.Base.{ℕ, ◌==◌, if◌then◌else◌, List, [], ◌∷◌, ◌++◌, length}

pub data Op : Type 0 where
  put : ℕ → Op
  get : Op

-- What a client sees of a call. `broken` is undefined behaviour, which a FIFO never shows.
pub data Reply : Type 0 where
  stored : Reply
  full : Reply
  taken : ℕ → Reply
  empty : Reply
  broken : Reply

unfoldable pub step : ℕ → List ℕ → Op → Reply × List ℕ
step cap q (put x) = if length q == cap then (full, q) else (stored, q ++ x ∷ [])
step cap [] get = (empty, [])
step cap (x ∷ q) get = (taken x, q)

unfoldable pub run : ℕ → List ℕ → List Op → List Reply
run cap q [] = []
run cap q (op ∷ ops) = let (reply, q') = step cap q op in reply ∷ run cap q' ops
