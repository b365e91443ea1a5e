-- ===== src/BlockAllocator.antt =====
-- The free blocks of a disk, labmods/labstor_fs/lib/block_allocator.h: a ring of small blocks and
-- a ring of large blocks, as a thread uses them while no other thread does.
pub mod Filled
pub mod Tiling
use labstor.Base.{
  ℕ, zero, suc, ◌+◌, ◌-◌, ◌*◌, ◌/◌, ◌%◌, ◌^◌, ◌≤◌, ◌<◌, ◌≡◌, refl, sym, ap, ap₂, ◌∙◌, ◌≢◌, ◌↔◌, ◌⊎◌,
  inl, inr, Bool, true, false, ◌&&◌, ◌||◌, not, Option, none, some, List, [], ◌∷◌, ◌++◌, arith, ltb,
  leb, ◌==◌, if◌then◌else◌, ==→eq, eq→==, Bool-cases, Option-cases, List-cases, length, get_elem?,
  get_or, set, replicate, length-append, length-set, length-replicate, get_elem?-eq-get_or,
  get_or-set_self, get_or-set_ne, get_or-replicate, get_elem?_of_lt, get_elem?-set_self,
  get_elem?-set_ne, get_elem?-set_cases, get_elem?-append_left, get_elem?-append_last, u32_mod,
  u64_mod, u32, sub32, sub64, mod-ne_of_near, Call, done, refused, fault, ◌>>=◌, map_call,
  in_bounds, along_some, bind-done, eq-cases, lt_of_get_elem?, get_or_of_get_elem?,
  get_elem?-append_ne,
}
use labstor.Mpmc
use labstor.Mpmc.{Mpmc}

pub record Block : Type 0 where
  pub off : ℕ
  pub size : ℕ

abbrev pub small_block_size : ℕ
small_block_size = 4096

abbrev pub large_block_size : ℕ
large_block_size = 131072

-- `sizeof(struct Block)`
abbrev pub block_bytes : ℕ
block_bytes = 16

pub record BlockAllocator : Type 0 where
  pub small_blocks : Mpmc Block
  pub large_blocks : Mpmc Block

unfoldable pub get_num_large_blocks : ℕ → ℕ → ℕ
get_num_large_blocks disk_size num_small_blocks =
    sub64 disk_size (num_small_blocks * small_block_size % u64_mod) / large_block_size

unfoldable pub get_size : ℕ → ℕ → ℕ
get_size disk_size num_small_blocks =
    Mpmc.get_size_of block_bytes (u32 num_small_blocks)
    + Mpmc.get_size_of block_bytes (u32 (get_num_large_blocks disk_size num_small_blocks))

-- The answer of `Enqueue` is dropped.
unfoldable pub enqueue : Mpmc Block → Block → Call (Mpmc Block)
enqueue r block = elim (Mpmc.enqueue r block) [
  | done p ↦ done p.1
  | refused ↦ done r
  | fault ↦ fault
]

-- the loops of `Initialize` over `n` blocks, with the offset behind the last
unfoldable pub fill : Mpmc Block → ℕ → ℕ → ℕ → Call (Mpmc Block × ℕ)
fill r size off zero = done (r, off)
fill r size off (suc n) =
    enqueue r (record { off = off; size = size }) >>= λ r'. fill r' size ((off + size) % u64_mod) n

-- `Init` of a ring; `refused` is its exception.
unfoldable pub init_ring : Mpmc Block → ℕ → ℕ → ℕ → Call (Mpmc Block)
init_ring r section section_size num_blocks =
    let p = Mpmc.init block_bytes r section section_size num_blocks in
    if p.0 then done p.1 else refused

-- A ring made, and the loop that fills it; `refused` is the exception of its `Init`.
unfoldable pub fill_section : Mpmc Block → ℕ → ℕ → ℕ → ℕ → ℕ → Call (Mpmc Block × ℕ)
fill_section r section section_size num_blocks size off =
    init_ring r section (u32 section_size) (u32 num_blocks) >>= λ s. fill s size off num_blocks

-- `b` is what the region held before.
unfoldable pub initialize : BlockAllocator → ℕ → ℕ → ℕ → ℕ → ℕ → Call BlockAllocator
initialize b disk_off disk_size num_small_blocks region region_size =
    fill_section b.small_blocks region region_size num_small_blocks small_block_size disk_off
    >>= λ p.
        fill_section b.large_blocks (Mpmc.get_next_section block_bytes p.0)
          (sub64 region_size (Mpmc.get_size block_bytes p.0))
          (get_num_large_blocks disk_size num_small_blocks) large_block_size p.1
        >>= λ q. done (record { small_blocks = p.0; large_blocks = q.0 })

-- the views of two rings that are initialised already
unfoldable pub attach : BlockAllocator → ℕ → BlockAllocator
attach b region =
    let small = (let r = b.small_blocks in record r { header = region }) in
    record {
      small_blocks = small;
      large_blocks =
          let r = b.large_blocks in record r { header = Mpmc.get_next_section block_bytes small };
    }

-- `Dequeue` of a ring; with its answer dropped, `none` is a `block` that is not written.
unfoldable pub take : Mpmc Block → Call (Option Block × Mpmc Block)
take r = elim (Mpmc.dequeue r) [
  | done p ↦ done (some p.0, p.1)
  | refused ↦ done (none, r)
  | fault ↦ fault
]

unfoldable pub get_block : BlockAllocator → ℕ → Call (Option Block × BlockAllocator)
get_block b size =
    if size == small_block_size
    then (take b.small_blocks >>= λ p. done (p.0, record b { small_blocks = p.1 }))
    else (take b.large_blocks >>= λ p. done (p.0, record b { large_blocks = p.1 }))

unfoldable pub free_block : BlockAllocator → Block → Call BlockAllocator
free_block b block =
    if block.size == small_block_size
    then (enqueue b.small_blocks block >>= λ r. done (record b { small_blocks = r }))
    else (enqueue b.large_blocks block >>= λ r. done (record b { large_blocks = r }))
