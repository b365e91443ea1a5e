-- ===== src/Mpmc/Threads.antt =====
-- Several threads in `Enqueue` and `Dequeue`: each access to the shared memory is a step of its
-- own.
use labstor.Base.{
  ℕ, ◌+◌, ◌%◌, ◌≤◌, ◌<◌, ◌≡◌, ◌≢◌, none, some, List, [], ◌∷◌, ◌++◌, ◌==◌, if◌then◌else◌, get_elem?,
  set, u32, sub32,
}
use labstor.Mpmc.{Mpmc, try_lock}

-- Where a thread is in a call, with its local variables; it holds the call's lock everywhere but
-- at `idle`.
pub data Pc (A : Type 0) : Type 0 where
  idle : Pc A
  e_locked : A → Pc A
  e_loaded : A → (enqueued : ℕ) → Pc A
  e_compared : A → (enqueued dequeued : ℕ) → Pc A
  e_written : A → (enqueued : ℕ) → Pc A
  e_release : Pc A
  d_locked : Pc A
  d_loaded : (enqueued : ℕ) → Pc A
  d_compared : (enqueued dequeued : ℕ) → Pc A
  d_read : A → Pc A
  d_release : Pc A

-- The shared memory, and what was put in and taken out so far, oldest first: a value counts when
-- its counter is advanced.
pub record Shared (A : Type 0) : Type 0 where
  pub mem : Mpmc A
  pub put : List A
  pub got : List A

-- the slot that the code computes for a counter
abbrev pub slot : {A : Type 0} → Mpmc A → ℕ → ℕ
slot r counter = counter % r.max_depth

-- One access of a thread at `p`, after which it is at `p'`. An attempt at a lock that is held ends
-- the call.
pub data Move {A : Type 0} (s : Shared A) : Pc A → Shared A → Pc A → Type 0 where
  e_lock :
      (x : A)
      → try_lock s.mem.e_lock ≡ some 1
      → Move s idle (record s { mem = let r = s.mem in record r { e_lock = 1 } }) (e_locked x)
  e_refused : (x : A) → try_lock s.mem.e_lock ≡ none → Move s idle s idle
  e_load : {x : A} → Move s (e_locked x) s (e_loaded x s.mem.enqueued)
  e_compare :
      {x : A} {enqueued : ℕ} → Move s (e_loaded x enqueued) s (e_compared x enqueued s.mem.dequeued)
  e_full :
      {x : A} {enqueued dequeued : ℕ}
      → s.mem.max_depth ≤ sub32 enqueued dequeued
      → Move s (e_compared x enqueued dequeued) s e_release
  e_write :
      {x : A} {enqueued dequeued : ℕ}
      → sub32 enqueued dequeued < s.mem.max_depth
      → Move s
          (e_compared x enqueued dequeued)
          (record s { mem = let r = s.mem in record r { queue = set r.queue (slot r enqueued) x } })
          (e_written x enqueued)
  e_advance :
      {x : A} {enqueued : ℕ}
      → Move s
          (e_written x enqueued)
          (record s {
            mem = let r = s.mem in record r { enqueued = u32 (r.enqueued + 1) };
            put = s.put ++ x ∷ [];
          })
          e_release
  e_unlock : Move s e_release (record s { mem = let r = s.mem in record r { e_lock = 0 } }) idle
  d_lock :
      try_lock s.mem.d_lock ≡ some 1
      → Move s idle (record s { mem = let r = s.mem in record r { d_lock = 1 } }) d_locked
  d_refused : try_lock s.mem.d_lock ≡ none → Move s idle s idle
  d_load : Move s d_locked s (d_loaded s.mem.enqueued)
  d_compare : {enqueued : ℕ} → Move s (d_loaded enqueued) s (d_compared enqueued s.mem.dequeued)
  d_empty :
      {enqueued dequeued : ℕ}
      → sub32 enqueued dequeued ≡ 0
      → Move s (d_compared enqueued dequeued) s d_release
  d_take :
      {enqueued dequeued : ℕ} (x : A)
      → sub32 enqueued dequeued ≢ 0
      → get_elem? s.mem.queue (slot s.mem dequeued) ≡ some x
      → Move s (d_compared enqueued dequeued) s (d_read x)
  d_advance :
      {x : A}
      → Move s
          (d_read x)
          (record s {
            mem = let r = s.mem in record r { dequeued = u32 (r.dequeued + 1) };
            got = s.got ++ x ∷ [];
          })
          d_release
  d_unlock : Move s d_release (record s { mem = let r = s.mem in record r { d_lock = 0 } }) idle

abbrev pub update : {A : Type 0} → (ℕ → A) → ℕ → A → ℕ → A
update f i a j = if i == j then a else f j

-- Any thread may be the next to move.
pub data Reach {A : Type 0} (s : Shared A) (pc : ℕ → Pc A) : Shared A → (ℕ → Pc A) → Type 0 where
  start : Reach s pc s pc
  step :
      {t u : Shared A} {pc' : ℕ → Pc A} {p : Pc A} (i : ℕ)
      → Reach s pc t pc'
      → Move t (pc' i) u p
      → Reach s pc u (update pc' i p)
