-- ===== src/Mpmc/Fifo.antt =====
-- The ring with several producers and consumers is a FIFO.
use mathlib.Core.Path.{subst}
use labstor.Base.{
  ℕ, ◌+◌, ◌≤◌, ◌<◌, ◌≡◌, refl, ap, ◌≢◌, inl, inr, true, [], ◌∷◌, arith, ◌==◌, eq→==, Bool-cases,
  length, get_elem?, length-append, u32_mod,
}
use labstor.Mpmc.Threads.{
  Pc, idle, Shared, slot, Move, e_lock, e_refused, e_load, e_compare, e_full, e_write, e_advance,
  e_unlock, d_lock, d_refused, d_load, d_compare, d_empty, d_take, d_advance, d_unlock, update,
  Reach, start, step,
}
use labstor.Mpmc.Inv.{Inv, Agrees, holds_e, holds_d, Move-Inv}
use labstor.Mpmc.Locks.{Lock, Move-LockMove, update_ne, Lock-step}
use labstor.Mpmc.Others.{Apart, others_Agree}

pub record Sound {A : Type 0} (s : Shared A) (pc : ℕ → Pc A) : Type 0 where
  pub inv : Inv s
  pub agree : (i : ℕ) → Agrees s (pc i)
  pub producers : Lock s.mem.e_lock (λ i. holds_e (pc i))
  pub consumers : Lock s.mem.d_lock (λ i. holds_d (pc i))

Move-grows :
    {A : Type 0} {s s' : Shared A} {p p' : Pc A} → Move s p s' p' → length s.put ≤ length s'.put
Move-grows (e_lock x free) = omega arith
Move-grows (e_refused x held) = omega arith
Move-grows e_load = omega arith
Move-grows e_compare = omega arith
Move-grows (e_full full) = omega arith
Move-grows (e_write room) = omega arith
Move-grows {s = s} (e_advance {x = x}) = omega (arith, length-append s.put (x ∷ []))
Move-grows e_unlock = omega arith
Move-grows (d_lock free) = omega arith
Move-grows (d_refused held) = omega arith
Move-grows d_load = omega arith
Move-grows d_compare = omega arith
Move-grows (d_empty empty) = omega arith
Move-grows (d_take x left at) = omega arith
Move-grows d_advance = omega arith
Move-grows d_unlock = omega arith

-- two threads do not hold one lock
apart :
    {A : Type 0} {s : Shared A} (pc : ℕ → Pc A) (i j : ℕ) → Sound s pc → i ≢ j → Apart (pc i) (pc j)
apart pc i j sound ne = (
  λ held. elim (Bool-cases (holds_e (pc j))) [
    | inl both ↦ absurd (ne (sound.producers.one i j held both))
    | inr free ↦ free
  ],
  λ held. elim (Bool-cases (holds_d (pc j))) [
    | inl both ↦ absurd (ne (sound.consumers.one i j held both))
    | inr free ↦ free
  ],
)

module _ {A : Type 0} {s s' : Shared A} (pc : ℕ → Pc A) (i : ℕ) {p p' : Pc A} where
  pub Move-Sound :
      Move s p s' p' → pc i ≡ p → length s'.put < u32_mod → Sound s pc → Sound s' (update pc i p')
  Move-Sound m at few sound =
      let mine : Agrees s p = subst (Agrees s) at (sound.agree i) in
      let (inv', mine') = Move-Inv m few sound.inv mine in
      let locks = Move-LockMove m in
      record {
        inv = inv';
        agree = λ j. elim (Bool-cases (i == j)) [
          | inl same ↦ rw same mine'
          | inr other ↦
              let ne : i ≢ j = λ e. absurd (ground (arith, e, other)) in
              rw other (
                others_Agree (pc j) m few sound.inv mine
                  (subst (λ q. Apart q (pc j)) at (apart pc i j sound ne)) (sound.agree j))
        ];
        producers =
            Lock-step s.mem.e_lock s'.mem.e_lock (λ j. holds_e (pc j))
              (λ j. holds_e (update pc i p' j)) i sound.producers
              (λ j ne. ap holds_e (update_ne pc i j p' ne)) (rw (at, eq→== i i refl) locks.0);
        consumers =
            Lock-step s.mem.d_lock s'.mem.d_lock (λ j. holds_d (pc j))
              (λ j. holds_d (update pc i p' j)) i sound.consumers
              (λ j ne. ap holds_d (update_ne pc i j p' ne)) (rw (at, eq→== i i refl) locks.1);
      }

Reach-Sound :
    {A : Type 0} {s : Shared A} {pc : ℕ → Pc A} {t : Shared A} {pc' : ℕ → Pc A}
    → Reach s pc t pc'
    → length t.put < u32_mod
    → Sound s pc
    → Sound t pc'
Reach-Sound start few sound = sound
Reach-Sound (step {pc' = pc'} i r m) few sound =
    let before = Move-grows m in
    Move-Sound pc' i m refl few (Reach-Sound r (omega (arith, before, few)) sound)

idle-Sound :
    {A : Type 0} (s : Shared A) (pc : ℕ → Pc A) → Inv s → ((i : ℕ) → pc i ≡ idle) → Sound s pc
idle-Sound s pc inv all = record {
  inv = inv;
  agree = λ i. rw (all i) (omega arith);
  producers = record {
    one = λ i j held. absurd (cc (held, ap holds_e (all i)));
    free = λ e i. ap holds_e (all i);
  };
  consumers = record {
    one = λ i j held. absurd (cc (held, ap holds_d (all i)));
    free = λ e i. ap holds_d (all i);
  };
}

-- Whatever threads enqueue and dequeue at once, one access at a time in any order, from a sound
-- ring outside every call on, and as long as fewer than 2^32 values were put: no two threads hold
-- one lock, at most `max_depth` values are pending, what was got is what was put first, in the
-- order of the puts, and each value put after that stands in its slot.
pub reach_fifo :
    {A : Type 0} {s t : Shared A} {pc pc' : ℕ → Pc A}
    → Inv s
    → ((i : ℕ) → pc i ≡ idle)
    → Reach s pc t pc'
    → length t.put < u32_mod
    → ((i j : ℕ) → holds_e (pc' i) ≡ true → holds_e (pc' j) ≡ true → i ≡ j)
      × ((i j : ℕ) → holds_d (pc' i) ≡ true → holds_d (pc' j) ≡ true → i ≡ j)
      × (length t.put ≤ length t.got + t.mem.max_depth)
      × ((c : ℕ) → c < length t.got → get_elem? t.got c ≡ get_elem? t.put c)
      × ((c : ℕ)
          → length t.got ≤ c
          → c < length t.put
          → get_elem? t.mem.queue (slot t.mem c) ≡ get_elem? t.put c)
reach_fifo {s = s} {t = t} {pc = pc} inv all r few =
    let sound = Reach-Sound r few (idle-Sound s pc inv all) in
    let v = sound.inv in
    (
      sound.producers.one,
      sound.consumers.one,
      omega (arith, v.depth, v.counts_put, v.counts_got),
      λ c below. v.prefix c (omega (arith, below, v.counts_got)),
      λ c from below.
          v.slots c (omega (arith, from, v.counts_got)) (omega (arith, below, v.counts_put)),
    )
