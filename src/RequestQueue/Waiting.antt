-- ===== src/RequestQueue/Waiting.antt =====
-- The loop of `Enqueue`: it waits while the ring is full and returns when there is room.
use labstor.Base.{ℕ, ◌≡◌, refl, ◌≢◌, List, [], ◌∷◌, ◌++◌, refused}
use labstor.Region.{region_sub, Reaches}
use labstor.Request.{Qtok}
use labstor.Ring
use labstor.Ring.Inv.{IsValid, Room}
use labstor.Ring.Effects
use labstor.Spin.{returned, spinning, spin_returns, spin_blocked, after, Refused}
use labstor.RequestQueue.{Shared, try_enqueue, enqueue}
use labstor.RequestQueue.Pointers.{pending, try_enqueue_lem}

abbrev pub IsFull : Shared → Type 0
IsFull s = Ring.get_depth s.queue.ring ≡ s.queue.ring.max_depth

-- the ring is full at every attempt, up to the one after all of the list
abbrev pub StaysFull : Shared → List (Shared → Shared) → Type 0
StaysFull s [] = IsFull s
StaysFull s (other ∷ others) = IsFull s × StaysFull (other s) others

try_enqueue_full : (s : Shared) (rq : ℕ) → IsFull s → try_enqueue rq s ≡ refused
unfolding try_enqueue
try_enqueue_full s rq full =
    rw (Effects.enqueue_full s.queue.ring (region_sub rq s.queue.base_region) full)

StaysFull-Refused :
    (rq : ℕ) (others : List (Shared → Shared)) (s : Shared)
    → StaysFull s others
    → Refused (try_enqueue rq) s others
StaysFull-Refused rq [] s full = try_enqueue_full s rq full
StaysFull-Refused rq (other ∷ others) s full =
    (try_enqueue_full s rq full.0, StaysFull-Refused rq others (other s) full.1)

-- While the other threads leave the ring full, Enqueue makes no return; when one of them has left
-- a valid ring that is not full, whose depth divides 2^32 or whose enqueued_ does not wrap, and a
-- base that the request is in reach of, it returns the number that enqueued_ then is, and the
-- request is the last of what is then queued.
pub enqueue_waits :
    (s : Shared) (rq : ℕ) (others : List (Shared → Shared)) (other : Shared → Shared)
    (rest : List (Shared → Shared))
    → StaysFull s others
    → let t = other (after (try_enqueue rq) s others) in
      IsValid t.queue.ring
      → Room t.queue.ring 1
      → Reaches t.queue.base_region rq
      → Ring.get_depth t.queue.ring ≢ t.queue.ring.max_depth
      → (enqueue s rq others ≡ spinning)
        × ((tok : Qtok) × (s' : Shared) × (enqueue s rq (others ++ other ∷ rest)
              ≡ returned (tok, s'))
            × (tok.req_id ≡ t.queue.ring.enqueued)
            × (pending s'.queue ≡ pending t.queue ++ rq ∷ []))
unfolding enqueue
enqueue_waits s rq others other rest full v room reach space =
    let blocked = StaysFull-Refused rq others s full in
    let (q, run, v', base, queued) =
      try_enqueue_lem (other (after (try_enqueue rq) s others)) rq v room reach space in
    (
      spin_blocked (try_enqueue rq) others s blocked,
      (_, _, spin_returns (try_enqueue rq) others s other _ rest blocked run, refl, queued),
    )
