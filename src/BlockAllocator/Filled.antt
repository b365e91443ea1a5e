-- ===== src/BlockAllocator/Filled.antt =====
-- `Initialize` divides the disk into free blocks.
use native.Mathlib.Nat.{mod-eq_of_lt}
use labstor.Base.{
  ℕ, zero, suc, ◌+◌, ◌*◌, ◌%◌, ◌≤◌, ◌<◌, ◌≡◌, refl, ap, ◌∙◌, false, some, arith, leb, length,
  get_elem?, set, length-set, get_elem?-set_self, get_elem?-set_ne, u32_mod, u64_mod, u32, sub32,
  done, ◌>>=◌,
}
use labstor.Mpmc
use labstor.Mpmc.{Mpmc, try_lock, entry_of}
use labstor.BlockAllocator.{Block, enqueue, fill}

-- a ring that nobody has taken from, with room for `n` more blocks
pub record Fresh (r : Mpmc Block) (n : ℕ) : Type 0 where
  pub unlocked : r.e_lock ≡ 0
  pub untaken : r.dequeued ≡ 0
  pub room : r.enqueued + n ≤ r.max_depth
  pub small : r.max_depth < u32_mod
  pub storage : r.max_depth ≤ length r.queue

-- the ring with one block more
abbrev pub filled : Mpmc Block → Block → Mpmc Block
filled r block = record r {
  queue = set r.queue r.enqueued block;
  enqueued = r.enqueued + 1;
  e_lock = 0;
}

slot_lem : {r : Mpmc Block} {n : ℕ} → Fresh r (suc n) → entry_of r r.enqueued ≡ done r.enqueued
unfolding entry_of
slot_lem {r} f =
    let room = f.room in
    let storage = f.storage in
    let same : r.enqueued % r.max_depth ≡ r.enqueued = mod-eq_of_lt (omega (arith, room)) in
    ground (arith, same, room, storage)

enqueue_lem :
    {r : Mpmc Block} {n : ℕ} (block : Block)
    → Fresh r (suc n)
    → enqueue r block ≡ done (filled r block)
unfolding enqueue Mpmc.enqueue try_lock
enqueue_lem {r} block f =
    let unlocked = f.unlocked in
    let untaken = f.untaken in
    let room = f.room in
    let small = f.small in
    let next : u32 (r.enqueued + 1) ≡ r.enqueued + 1 = omega (arith, room, small) in
    let spare : leb r.max_depth (sub32 r.enqueued r.dequeued) ≡ false =
      ground (arith, untaken, room, small) in
    ground (arith, unlocked, spare, slot_lem f, next)

-- what `fill` comes to: the blocks from `off` on, one behind the other
pub record Filled (r : Mpmc Block) (size off n : ℕ) (r' : Mpmc Block) : Type 0 where
  pub counted : r'.enqueued ≡ r.enqueued + n
  pub untaken : r'.dequeued ≡ 0
  pub same_depth : r'.max_depth ≡ r.max_depth
  pub same_header : r'.header ≡ r.header
  pub blocks :
      (i : ℕ)
      → i < n
      → get_elem? r'.queue (r.enqueued + i) ≡ some (record { off = off + i * size; size = size })
  pub before : (j : ℕ) → j < r.enqueued → get_elem? r'.queue j ≡ get_elem? r.queue j

filled-Fresh : {r : Mpmc Block} {n : ℕ} (block : Block) → Fresh r (suc n) → Fresh (filled r block) n
filled-Fresh {r} block f =
    let room = f.room in
    record {
      unlocked = refl;
      untaken = f.untaken;
      room = omega (arith, room);
      small = f.small;
      storage = omega (arith, f.storage, length-set r.queue r.enqueued block);
    }

pub fill_lem :
    (n size off : ℕ) (r : Mpmc Block)
    → Fresh r n
    → off + n * size < u64_mod
    → (r' : Mpmc Block) × (fill r size off n ≡ done (r', off + n * size)) × Filled r size off n r'
unfolding fill
fill_lem zero size off r f fits = (
  r,
  (let none_left : off + 0 * size ≡ off = omega arith in rw none_left refl),
  record {
    counted = omega arith;
    untaken = f.untaken;
    same_depth = refl;
    same_header = refl;
    blocks = λ i below. absurd (omega (arith, below));
    before = λ j below. refl;
  },
)
fill_lem (suc n) size off r f fits =
    let block : Block = record { off = off; size = size } in
    let r₁ = filled r block in
    let sum : suc n * size ≡ size + n * size = grind arith in
    let no_wrap : (off + size) % u64_mod ≡ off + size = mod-eq_of_lt (omega (arith, fits, sum)) in
    let (r', run, k) =
      fill_lem n size (off + size) r₁ (filled-Fresh block f) (omega (arith, fits, sum)) in
    let room = f.room in
    let storage = f.storage in
    let end : off + size + n * size ≡ off + suc n * size = omega (arith, sum) in
    (
      r',
      ap (λ call. call >>= λ s. fill s size ((off + size) % u64_mod) n) (enqueue_lem block f)
          ∙ ap (λ o. fill r₁ size o n) no_wrap
          ∙ run
          ∙ ap (λ o. done (r', o)) end,
      record {
        counted = omega (arith, k.counted);
        untaken = k.untaken;
        same_depth = k.same_depth;
        same_header = k.same_header;
        blocks = λ i below. place r' k storage room i below;
        before = λ j below.
            k.before j (omega (arith, below))
            ∙ get_elem?-set_ne r.queue r.enqueued j block (λ e. absurd (omega (arith, e, below)));
      },
    )
  where
    block₀ : Block
    block₀ = record { off = off; size = size }

    place :
        (r' : Mpmc Block)
        → Filled (filled r block₀) size (off + size) n r'
        → r.max_depth ≤ length r.queue
        → r.enqueued + suc n ≤ r.max_depth
        → (i : ℕ) → i < suc n
        → get_elem? r'.queue (r.enqueued + i) ≡ some (record { off = off + i * size; size = size })
    place r' k storage room zero below =
        let here : r.enqueued + 0 ≡ r.enqueued = omega arith in
        let start : off + 0 * size ≡ off = omega arith in
        rw (here, start)
          (k.before r.enqueued (omega arith)
            ∙ get_elem?-set_self r.queue r.enqueued block₀ (omega (arith, storage, room)))
    place r' k storage room (suc i) below =
        let here : r.enqueued + suc i ≡ r.enqueued + 1 + i = omega arith in
        let sum : suc i * size ≡ size + i * size = grind arith in
        let there : off + suc i * size ≡ off + size + i * size = omega (arith, sum) in
        rw (here, there) (k.blocks i (omega (arith, below)))
