-- ===== src/Ring/Sizes.antt =====
-- `labstor_request_ring_buffer_Init` and the sizes that it tests.
use labstor.Base.{ℕ, ◌+◌, ◌-◌, ◌*◌, ◌/◌, ◌≤◌, ◌<◌, ◌≡◌, ◌↔◌, u32, u32_mod, true, length, [], arith}
use labstor.Ring.{Ring, header_size, off_size, get_size, init}
use labstor.Ring.Inv.{IsValid}
use labstor.Ring.Window.{contents}

-- The region of `region_size` bytes holds these words behind the header.
abbrev pub Holds : Ring → ℕ → Type 0
Holds r region_size = length r.queue ≡ (region_size - header_size) / off_size

-- Where the size of `max_depth` entries fits 32 bits, `init` accepts a region exactly when it has
-- room for the header, `max_depth` entries and at least one entry. Then the ring is valid and
-- empty, and its depth is `max_depth`, or as many entries as fit if that is 0.
init-IsValid :
    (r : Ring) (region_size max_depth : ℕ)
    → region_size < u32_mod
    → header_size + off_size * max_depth < u32_mod
    → Holds r region_size
    → let (ok, r') = init r region_size max_depth in
      ((ok ≡ true) ↔ (
        (header_size + off_size * max_depth ≤ region_size)
        × (header_size + off_size ≤ region_size)))
      × (ok ≡ true
          → IsValid r'
            × (contents r' ≡ [])
            × (get_size r' ≤ region_size)
            × (0 < max_depth → r'.max_depth ≡ max_depth))
unfolding init get_size
init-IsValid r region_size max_depth small fits holds = ground arith

-- The size is cut to 32 bits: a depth whose size does not fit them is accepted in any region that
-- has room for one entry and for the rest, and the ring is not valid.
init_overflow :
    (r : Ring) (region_size max_depth : ℕ)
    → region_size < u32_mod
    → max_depth < u32_mod
    → u32_mod ≤ header_size + off_size * max_depth
    → u32 (header_size + off_size * max_depth) ≤ region_size
    → Holds r region_size
    → let (ok, r') = init r region_size max_depth in (ok ≡ true) × ¬ IsValid r'
unfolding init
init_overflow r region_size max_depth small depth_small wraps room holds = ground arith
