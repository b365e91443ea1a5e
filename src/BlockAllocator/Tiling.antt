-- ===== src/BlockAllocator/Tiling.antt =====
-- The blocks of `Initialize` cover the disk.
use labstor.Base.{
  ℕ, ◌+◌, ◌-◌, ◌*◌, ◌≤◌, ◌<◌, ◌≡◌, refl, ap, ◌∙◌, some, arith, length, get_elem?, u32_mod, u64_mod,
  u32, sub64, done, ◌>>=◌,
}
use labstor.Mpmc
use labstor.Mpmc.{Mpmc}
use labstor.BlockAllocator.{
  Block, small_block_size, large_block_size, block_bytes, BlockAllocator, get_num_large_blocks,
  fill, init_ring, fill_section, initialize,
}
use labstor.BlockAllocator.Filled.{Filled, fill_lem}

-- `Init` of a ring, for a depth that is asked for and fits
abbrev initialized : Mpmc Block → ℕ → ℕ → Mpmc Block
initialized r region depth = record r {
  enqueued = 0;
  dequeued = 0;
  e_lock = 0;
  d_lock = 0;
  max_depth = depth;
  header = region;
}

init_lem :
    (r : Mpmc Block) (region region_size depth : ℕ)
    → 0 < depth
    → 24 + 16 * depth ≤ region_size
    → region_size < u32_mod
    → init_ring r region (u32 region_size) (u32 depth) ≡ done (initialized r region depth)
unfolding init_ring Mpmc.init Mpmc.default_depth Mpmc.get_size_of
init_lem r region region_size depth pos fits small =
    let same_size : u32 region_size ≡ region_size = omega (arith, small) in
    let same_depth : u32 depth ≡ depth = omega (arith, fits, small) in
    let size : u32 (24 + 16 * depth) ≡ 24 + 16 * depth = omega (arith, fits, small) in
    rw (same_size, same_depth) (ground (arith, size, pos, fits))

-- a ring made and filled
section_lem :
    (r : Mpmc Block) (region region_size depth size off : ℕ)
    → 0 < depth
    → 24 + 16 * depth ≤ region_size
    → region_size < u32_mod
    → depth ≤ length r.queue
    → off + depth * size < u64_mod
    → (r' : Mpmc Block) × (fill_section r region region_size depth size off
        ≡ done (r', off + depth * size))
      × Filled (initialized r region depth) size off depth r'
unfolding fill_section
section_lem r region region_size depth size off pos fits small storage no_wrap =
    let (r', run, k) =
      fill_lem depth size off (initialized r region depth)
        (record {
          unlocked = refl;
          untaken = refl;
          room = omega arith;
          small = omega (arith, fits, small);
          storage = storage;
        })
        no_wrap in
    (
      r',
      ap (λ call. call >>= λ s. fill s size off depth)
            (init_lem r region region_size depth pos fits small)
          ∙ run,
      k,
    )

large_lem :
    (disk_size n : ℕ)
    → n * small_block_size ≤ disk_size
    → disk_size < u64_mod
    → (n * small_block_size + get_num_large_blocks disk_size n * large_block_size ≤ disk_size)
      × (disk_size
          < n * small_block_size + (get_num_large_blocks disk_size n + 1) * large_block_size)
unfolding get_num_large_blocks
large_lem disk_size n fits small = (omega (arith, fits, small), omega (arith, fits, small))

-- Where the disk has room for the small blocks, of which there is one, and for a large one, its
-- offsets stay below 2^64, and the region, of less than 4 GB, has room for both rings, Initialize
-- divides the disk into free blocks: the small ones first, each behind the one before, and then
-- large ones, until less than a large block is left; the first ring holds the small ones and the
-- second the large ones, in that order.
pub initialize-tiles :
    (b : BlockAllocator) (disk_off disk_size n region region_size : ℕ)
    → 0 < n
    → 0 < get_num_large_blocks disk_size n
    → n * small_block_size ≤ disk_size
    → disk_off + disk_size < u64_mod
    → 24 + 16 * n + (24 + 16 * get_num_large_blocks disk_size n) ≤ region_size
    → region_size < u32_mod
    → n ≤ length b.small_blocks.queue
    → get_num_large_blocks disk_size n ≤ length b.large_blocks.queue
    → (b' : BlockAllocator) × (initialize b disk_off disk_size n region region_size ≡ done b')
      × (Mpmc.get_depth b'.small_blocks ≡ n)
      × (Mpmc.get_depth b'.large_blocks ≡ get_num_large_blocks disk_size n)
      × ((i : ℕ)
          → i < n
          → get_elem? b'.small_blocks.queue i
            ≡ some (record { off = disk_off + i * 4096; size = 4096 }))
      × ((i : ℕ)
          → i < get_num_large_blocks disk_size n
          → get_elem? b'.large_blocks.queue i
            ≡ some (record { off = disk_off + n * 4096 + i * 131072; size = 131072 }))
      × (n * 4096 + get_num_large_blocks disk_size n * 131072 ≤ disk_size)
      × (disk_size < n * 4096 + (get_num_large_blocks disk_size n + 1) * 131072)
unfolding initialize Mpmc.get_depth Mpmc.get_size Mpmc.get_size_of
initialize-tiles b disk_off disk_size n region region_size some_small some_large on_disk no_wrap
      room small small_room large_room =
    let large = get_num_large_blocks disk_size n in
    let (covers, rest) = large_lem disk_size n on_disk (omega (arith, no_wrap)) in
    let (s, run, k) =
      section_lem b.small_blocks region region_size n small_block_size disk_off some_small
        (omega (arith, room)) small small_room (omega (arith, no_wrap, on_disk)) in
    let left : sub64 region_size (u32 (24 + 16 * s.max_depth)) ≡ region_size - (24 + 16 * n) =
      omega (arith, k.same_depth, room, small) in
    let (l, run', k') =
      section_lem b.large_blocks (Mpmc.get_next_section block_bytes s) (region_size - (24 + 16 * n))
        large large_block_size (disk_off + n * 4096) some_large (omega (arith, room))
        (omega (arith, small)) large_room (omega (arith, no_wrap, covers)) in
    let both : Mpmc Block → Mpmc Block → BlockAllocator =
      λ s l. record { small_blocks = s; large_blocks = l } in
    let off = disk_off + n * 4096 in
    let section = Mpmc.get_next_section block_bytes s in
    (
      record { small_blocks = s; large_blocks = l },
      ap
            (λ call. call >>= λ p.
              fill_section b.large_blocks (Mpmc.get_next_section block_bytes p.0)
                (sub64 region_size (Mpmc.get_size block_bytes p.0)) large large_block_size p.1
              >>= λ q. done (both p.0 q.0))
            run
          ∙ ap
              (λ size. fill_section b.large_blocks section size large large_block_size off >>= λ q.
                done (both s q.0))
              left
          ∙ ap (λ call. call >>= λ q. done (both s q.0)) run',
      ground (arith, k.counted, k.untaken),
      ground (arith, k'.counted, k'.untaken),
      λ i below.
          let same : i ≡ 0 + i = omega arith in ap (get_elem? s.queue) same ∙ k.blocks i below,
      λ i below.
          let same : i ≡ 0 + i = omega arith in ap (get_elem? l.queue) same ∙ k'.blocks i below,
      covers,
      rest,
    )
