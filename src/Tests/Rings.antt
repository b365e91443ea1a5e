-- ===== src/Tests/Rings.antt =====
-- The request ring at concrete inputs.
use labstor.Base.{◌≡◌, refl, inl, List, [], ◌∷◌, arith}
use labstor.Fifo
use labstor.Fifo.{Op, put, get, stored, full, taken, empty}
use labstor.Ring.{Ring, enqueue_simple, dequeue}
use labstor.Ring.Client.{run}
use labstor.Ring.Inv.{IsValid}
use labstor.Ring.Refine.{run_refines}
use labstor.Ring.Wrap.{run-wrap}

-- two entries pending, one call before `enqueued_` wraps
abbrev pub wrapping : Ring
wrapping = record {
  enqueued = 0xFFFF_FFFF;
  dequeued = 0xFFFF_FFFD;
  max_depth = 4;
  queue = 10 ∷ 11 ∷ 12 ∷ 13 ∷ [];
}

abbrev pub blank : Ring
blank = record { enqueued = 7; dequeued = 5; max_depth = 0; queue = 0 ∷ 0 ∷ 0 ∷ 0 ∷ 0 ∷ [] }

abbrev script : List Op
script = put 20 ∷ put 21 ∷ put 22 ∷ get ∷ get ∷ get ∷ get ∷ get ∷ []

run-wrapping :
    run wrapping script
    ≡ stored ∷ stored ∷ full ∷ taken 11 ∷ taken 12 ∷ taken 20 ∷ taken 21 ∷ empty ∷ []
unfolding run enqueue_simple dequeue
run-wrapping = refl

wrapping-IsValid : IsValid wrapping
wrapping-IsValid = ground arith

run_refines_example : run wrapping script ≡ Fifo.run 4 (11 ∷ 12 ∷ []) script
run_refines_example = run_refines script wrapping-IsValid (inl refl)

-- depth 3: 2^32 % 3 is 1
abbrev odd : Ring
odd = record {
  enqueued = 0xFFFF_FFFF;
  dequeued = 0xFFFF_FFFF;
  max_depth = 3;
  queue = 0 ∷ 0 ∷ 0 ∷ [];
}

run-wrap_example : run odd (put 8 ∷ put 9 ∷ get ∷ []) ≡ stored ∷ stored ∷ taken 9 ∷ []
run-wrap_example = run-wrap 8 9 (let v : IsValid odd = ground arith in v) (omega arith) refl refl
