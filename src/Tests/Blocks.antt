-- ===== src/Tests/Blocks.antt =====
-- The blocks of a small disk.
use labstor.Base.{ℕ, ◌+◌, ◌*◌, ◌≤◌, ◌<◌, ◌≡◌, some, [], ◌∷◌, arith, get_elem?, done}
use labstor.Mpmc
use labstor.Mpmc.{Mpmc}
use labstor.BlockAllocator.{Block, BlockAllocator, get_num_large_blocks, initialize}
use labstor.BlockAllocator.Tiling.{initialize-tiles}

abbrev nothing : Block
nothing = record { off = 0; size = 0 }

abbrev raw : Mpmc Block
raw = record {
  enqueued = 9;
  dequeued = 7;
  e_lock = 1;
  d_lock = 1;
  max_depth = 3;
  queue = nothing ∷ nothing ∷ [];
  header = 0;
}

abbrev unmade : BlockAllocator
unmade = record { small_blocks = raw; large_blocks = raw }

-- two small blocks and a large one, with 100 bytes left
initialize-tiles_example :
    (b' : BlockAllocator) × (initialize unmade 512 139364 2 4096 104 ≡ done b')
    × (Mpmc.get_depth b'.small_blocks ≡ 2)
    × (Mpmc.get_depth b'.large_blocks ≡ 1)
    × ((i : ℕ)
        → i < 2
        → get_elem? b'.small_blocks.queue i ≡ some (record { off = 512 + i * 4096; size = 4096 }))
    × ((i : ℕ)
        → i < 1
        → get_elem? b'.large_blocks.queue i
          ≡ some (record { off = 512 + 2 * 4096 + i * 131072; size = 131072 }))
    × (2 * 4096 + 1 * 131072 ≤ 139364)
    × (139364 < 2 * 4096 + 2 * 131072)
unfolding get_num_large_blocks
initialize-tiles_example =
    initialize-tiles unmade 512 139364 2 4096 104 (omega arith) (omega arith) (omega arith)
      (omega arith) (omega arith) (omega arith) (omega arith) (omega arith)
