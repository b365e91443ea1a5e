-- ===== src/WorkQueue/Sizes.antt =====
-- `Init` and `GetSize` of a work queue. The slots hold pointers, and `GetSize` counts them as
-- offsets, of half that size.
use labstor.Base.{ℕ, ◌+◌, ◌-◌, ◌*◌, ◌/◌, ◌≤◌, ◌<◌, ◌≡◌, true, [], arith, length, u32_mod}
use labstor.WorkQueue.{WorkQueue, header_size, off_size, pointer_size, get_next_section, init}
use labstor.WorkQueue.Order.{IsValid, contents}

-- the address behind the last slot
abbrev pub slots_end : WorkQueue → ℕ
slots_end w = w.header + header_size + pointer_size * w.max_depth

-- With no depth asked for, a region of at least one slot is accepted; the queue is empty, and its
-- slots lie in the region.
init-slots :
    (w : WorkQueue) (region region_size : ℕ)
    → region_size < u32_mod
    → length w.queue ≡ (region_size - header_size) / pointer_size
    → header_size + pointer_size ≤ region_size
    → let (ok, w') = init w region region_size 0 in
      (ok ≡ true)
      × IsValid w'
      × (contents w' ≡ [])
      × (slots_end w' ≤ region + region_size)
      × (0 < w'.max_depth)
unfolding init
init-slots w region region_size small holds room = ground arith

-- A depth that is asked for is accepted where only its offsets would fit, and then the slots run
-- past the region.
init_past_region :
    (w : WorkQueue) (region region_size max_depth : ℕ)
    → region_size < u32_mod
    → 0 < max_depth
    → header_size + off_size * max_depth ≤ region_size
    → region_size < header_size + pointer_size * max_depth
    → let (ok, w') = init w region region_size max_depth in
      (ok ≡ true) × (region + region_size < slots_end w')
unfolding init
init_past_region w region region_size max_depth small pos accepted past = ground arith

-- The section that `GetNextSection` gives lies inside the slots: it begins before the end of the
-- last slot, by four bytes for each slot.
get_next_section_overlaps :
    (w : WorkQueue)
    → header_size + off_size * w.max_depth < u32_mod
    → get_next_section w + off_size * w.max_depth ≡ slots_end w
unfolding get_next_section
get_next_section_overlaps w small = omega arith
