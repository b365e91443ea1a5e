-- ===== src/Tests/Mpmcs.antt =====
-- The ring of several producers and consumers at a concrete schedule.
use labstor.Base.{ℕ, ◌+◌, ◌%◌, ◌≤◌, ◌<◌, ◌≡◌, refl, true, [], ◌∷◌, arith, get_elem?}
use labstor.Mpmc.{Mpmc, try_lock}
use labstor.Mpmc.Threads.{
  Pc, idle, e_locked, e_loaded, e_compared, e_written, e_release, d_locked, Shared, e_lock, e_load,
  e_compare, e_write, e_advance, d_lock, update, Reach, start, step,
}
use labstor.Mpmc.Inv.{Inv, holds_e, holds_d}
use labstor.Mpmc.Fifo.{reach_fifo}

abbrev empty : Mpmc ℕ
empty = record {
  enqueued = 0;
  dequeued = 0;
  e_lock = 0;
  d_lock = 0;
  max_depth = 2;
  queue = 0 ∷ 0 ∷ [];
  header = 4096;
}

abbrev start_state : Shared ℕ
start_state = record { mem = empty; put = []; got = [] }

abbrev outside : ℕ → Pc ℕ
outside i = idle

start_state-Inv : Inv start_state
start_state-Inv = record {
  positive = omega arith;
  storage = omega arith;
  order = omega arith;
  depth = omega arith;
  counts_put = refl;
  counts_got = refl;
  slots = λ c from below. absurd (omega arith);
  prefix = λ c below. absurd (omega arith);
}

-- Thread 0 puts 7; thread 1 takes its lock meanwhile.
abbrev after : Shared ℕ
after = record {
  mem = record {
    enqueued = 1;
    dequeued = 0;
    e_lock = 1;
    d_lock = 1;
    max_depth = 2;
    queue = 7 ∷ 0 ∷ [];
    header = 4096;
  };
  put = 7 ∷ [];
  got = [];
}

abbrev compared : ℕ → Pc ℕ
compared = update (update (update outside 0 (e_locked 7)) 0 (e_loaded 7 0)) 0 (e_compared 7 0 0)

abbrev last : ℕ → Pc ℕ
last = update (update (update compared 1 d_locked) 0 (e_written 7 0)) 0 e_release

schedule : Reach start_state outside after last
unfolding try_lock
schedule =
    step 0
      (step 0
        (step 1 (step 0 (step 0 (step 0 start (e_lock 7 refl)) e_load) e_compare) (d_lock refl))
        (e_write (omega arith)))
      e_advance

reach_fifo_example :
    ((i j : ℕ) → holds_e (last i) ≡ true → holds_e (last j) ≡ true → i ≡ j)
    × ((i j : ℕ) → holds_d (last i) ≡ true → holds_d (last j) ≡ true → i ≡ j)
    × (1 ≤ 0 + 2)
    × ((c : ℕ) → c < 0 → get_elem? after.got c ≡ get_elem? after.put c)
    × ((c : ℕ) → 0 ≤ c → c < 1 → get_elem? after.mem.queue (c % 2) ≡ get_elem? after.put c)
reach_fifo_example = reach_fifo start_state-Inv (λ i. refl) schedule (omega arith)
