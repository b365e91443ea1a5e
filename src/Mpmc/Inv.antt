-- ===== src/Mpmc/Inv.antt =====
-- What holds of the shared memory, and of the local variables of a thread.
use mathlib.Core.Path.{subst}
use native.Mathlib.Nat.{mod-lt}
use labstor.Base.{
  ℕ, ◌+◌, ◌≤◌, ◌<◌, ◌≡◌, refl, sym, ap, ◌∙◌, inl, inr, Bool, true, false, some, [], ◌∷◌, ◌++◌,
  arith, ◌==◌, ==→eq, Bool-cases, length, get_elem?, set, length-append, length-set,
  get_elem?-set_self, get_elem?-set_ne, get_elem?-append_left, get_elem?-append_last, u32_mod, u32,
  mod-ne_of_near,
}
use labstor.Mpmc.Threads.{
  Pc, idle, e_locked, e_loaded, e_compared, e_written, e_release, d_locked, d_loaded, d_compared,
  d_read, d_release, Shared, slot, Move, e_lock, e_refused, e_load, e_compare, e_full, e_write,
  e_advance, e_unlock, d_lock, d_refused, d_load, d_compare, d_empty, d_take, d_advance, d_unlock,
}

-- The counters count what was put and got; the values between them stand in their slots; what was
-- got is what was put first.
pub record Inv {A : Type 0} (s : Shared A) : Type 0 where
  pub positive : 0 < s.mem.max_depth
  pub storage : s.mem.max_depth ≤ length s.mem.queue
  pub order : s.mem.dequeued ≤ s.mem.enqueued
  pub depth : s.mem.enqueued ≤ s.mem.dequeued + s.mem.max_depth
  pub counts_put : length s.put ≡ s.mem.enqueued
  pub counts_got : length s.got ≡ s.mem.dequeued
  pub slots :
      (c : ℕ)
      → s.mem.dequeued ≤ c
      → c < s.mem.enqueued
      → get_elem? s.mem.queue (slot s.mem c) ≡ get_elem? s.put c
  pub prefix : (c : ℕ) → c < s.mem.dequeued → get_elem? s.got c ≡ get_elem? s.put c

-- the local variables of a thread agree with the memory
abbrev pub Agrees : {A : Type 0} → Shared A → Pc A → Type 0
Agrees s idle = 0 ≤ 0
Agrees s (e_locked x) = 0 ≤ 0
Agrees s (e_loaded x e) = e ≡ s.mem.enqueued
Agrees s (e_compared x e d) = (e ≡ s.mem.enqueued) × (d ≤ s.mem.dequeued)
Agrees s (e_written x e) =
    (s.mem.enqueued < s.mem.dequeued + s.mem.max_depth)
    × (get_elem? s.mem.queue (slot s.mem s.mem.enqueued) ≡ some x)
Agrees s e_release = 0 ≤ 0
Agrees s d_locked = 0 ≤ 0
Agrees s (d_loaded e) = (s.mem.dequeued ≤ e) × (e ≤ s.mem.enqueued)
Agrees s (d_compared e d) = (d ≡ s.mem.dequeued) × (d ≤ e) × (e ≤ s.mem.enqueued)
Agrees s (d_read x) = (s.mem.dequeued < s.mem.enqueued) × (get_elem? s.put s.mem.dequeued ≡ some x)
Agrees s d_release = 0 ≤ 0

abbrev pub holds_e : {A : Type 0} → Pc A → Bool
holds_e (e_locked x) = true
holds_e (e_loaded x e) = true
holds_e (e_compared x e d) = true
holds_e (e_written x e) = true
holds_e e_release = true
holds_e p = false

abbrev pub holds_d : {A : Type 0} → Pc A → Bool
holds_d d_locked = true
holds_d (d_loaded e) = true
holds_d (d_compared e d) = true
holds_d (d_read x) = true
holds_d d_release = true
holds_d p = false

module _ {A : Type 0} (s : Shared A) (inv : Inv s) where
  relocked :
      (e d : ℕ) → Inv (record s { mem = let r = s.mem in record r { e_lock = e; d_lock = d } })
  relocked e d = record {
    positive = inv.positive;
    storage = inv.storage;
    order = inv.order;
    depth = inv.depth;
    counts_put = inv.counts_put;
    counts_got = inv.counts_got;
    slots = inv.slots;
    prefix = inv.prefix;
  }

  -- the slot of `enqueued` is none of those that hold a value
  written :
      (x : A)
      → s.mem.enqueued < s.mem.dequeued + s.mem.max_depth
      → Inv (record s {
        mem = let r = s.mem in record r { queue = set r.queue (slot r r.enqueued) x };
      })
  written x room = record {
    positive = inv.positive;
    storage = omega (arith, inv.storage, length-set s.mem.queue (slot s.mem s.mem.enqueued) x);
    order = inv.order;
    depth = inv.depth;
    counts_put = inv.counts_put;
    counts_got = inv.counts_got;
    slots = λ c from below.
        get_elem?-set_ne s.mem.queue (slot s.mem s.mem.enqueued) (slot s.mem c) x (λ e.
          mod-ne_of_near s.mem.max_depth c s.mem.enqueued below (omega (arith, room, from)) (sym e))
        ∙ inv.slots c from below;
    prefix = inv.prefix;
  }

  advanced :
      (x : A)
      → s.mem.enqueued < s.mem.dequeued + s.mem.max_depth
      → get_elem? s.mem.queue (slot s.mem s.mem.enqueued) ≡ some x
      → length (s.put ++ x ∷ []) < u32_mod
      → Inv (record s {
        mem = let r = s.mem in record r { enqueued = u32 (r.enqueued + 1) };
        put = s.put ++ x ∷ [];
      })
  advanced x room at few =
      let longer = length-append s.put (x ∷ []) in
      let next : u32 (s.mem.enqueued + 1) ≡ s.mem.enqueued + 1 =
        omega (arith, few, longer, inv.counts_put) in
      record {
        positive = inv.positive;
        storage = inv.storage;
        order = omega (arith, next, inv.order);
        depth = omega (arith, next, room);
        counts_put = omega (arith, next, longer, inv.counts_put);
        counts_got = inv.counts_got;
        slots = λ c from below. elim (Bool-cases (c == s.mem.enqueued)) [
          | inl last ↦
              let e = ==→eq c s.mem.enqueued last in
              ap (λ k. get_elem? s.mem.queue (slot s.mem k)) e
              ∙ at
              ∙ sym (get_elem?-append_last s.put x c (omega (arith, e, inv.counts_put)))
          | inr before ↦
              let lt : c < s.mem.enqueued = ground (arith, before, below, next) in
              inv.slots c from lt
              ∙ sym (get_elem?-append_left s.put (x ∷ []) c (omega (arith, lt, inv.counts_put)))
        ];
        prefix = λ c below.
            inv.prefix c below
            ∙ sym (
                get_elem?-append_left s.put (x ∷ []) c
                  (omega (arith, below, inv.order, inv.counts_put)));
      }

  taken :
      (x : A)
      → s.mem.dequeued < s.mem.enqueued
      → get_elem? s.put s.mem.dequeued ≡ some x
      → length s.put < u32_mod
      → Inv (record s {
        mem = let r = s.mem in record r { dequeued = u32 (r.dequeued + 1) };
        got = s.got ++ x ∷ [];
      })
  taken x some_left at few =
      let longer = length-append s.got (x ∷ []) in
      let next : u32 (s.mem.dequeued + 1) ≡ s.mem.dequeued + 1 =
        omega (arith, few, inv.counts_put, some_left) in
      record {
        positive = inv.positive;
        storage = inv.storage;
        order = omega (arith, next, some_left);
        depth = omega (arith, next, inv.depth);
        counts_put = inv.counts_put;
        counts_got = omega (arith, next, longer, inv.counts_got);
        slots = λ c from below. inv.slots c (omega (arith, from, next)) below;
        prefix = λ c below. elim (Bool-cases (c == s.mem.dequeued)) [
          | inl last ↦
              let e = ==→eq c s.mem.dequeued last in
              get_elem?-append_last s.got x c (omega (arith, e, inv.counts_got))
              ∙ sym at
              ∙ ap (get_elem? s.put) (sym e)
          | inr before ↦
              let lt : c < s.mem.dequeued = ground (arith, before, below, next) in
              get_elem?-append_left s.got (x ∷ []) c (omega (arith, lt, inv.counts_got))
              ∙ inv.prefix c lt
        ];
      }

-- A move keeps both, while fewer than 2^32 values are put.
pub Move-Inv :
    {A : Type 0} {s s' : Shared A} {p p' : Pc A}
    → Move s p s' p'
    → length s'.put < u32_mod
    → Inv s
    → Agrees s p
    → Inv s' × Agrees s' p'
Move-Inv {s = s} (e_lock x free) few inv a = (relocked s inv 1 s.mem.d_lock, omega arith)
Move-Inv (e_refused x held) few inv a = (inv, a)
Move-Inv e_load few inv a = (inv, refl)
Move-Inv e_compare few inv a = (inv, (a, omega arith))
Move-Inv (e_full full) few inv a = (inv, omega arith)
Move-Inv {s = s} (e_write {x = x} {enqueued = e} {dequeued = d} room) few inv a =
    let less : s.mem.enqueued < s.mem.dequeued + s.mem.max_depth =
      omega (arith, room, a, inv.counts_put, few) in
    subst
      (λ k.
        Inv (record s { mem = let r = s.mem in record r { queue = set r.queue (slot r k) x } })
        × ((s.mem.enqueued < s.mem.dequeued + s.mem.max_depth)
            × (get_elem? (set s.mem.queue (slot s.mem k) x) (slot s.mem s.mem.enqueued) ≡ some x)))
      (sym a.0)
      (
        written s inv x less,
        (
          less,
          get_elem?-set_self s.mem.queue (slot s.mem s.mem.enqueued) x
              (omega (arith, inv.storage, mod-lt s.mem.enqueued inv.positive)),
        ),
      )
Move-Inv {s = s} (e_advance {x = x}) few inv a = (advanced s inv x a.0 a.1 few, omega arith)
Move-Inv {s = s} e_unlock few inv a = (relocked s inv 0 s.mem.d_lock, omega arith)
Move-Inv {s = s} (d_lock free) few inv a = (relocked s inv s.mem.e_lock 1, omega arith)
Move-Inv (d_refused held) few inv a = (inv, a)
Move-Inv d_load few inv a = (inv, (inv.order, omega arith))
Move-Inv d_compare few inv a = (inv, (refl, a.0, a.1))
Move-Inv (d_empty empty) few inv a = (inv, omega arith)
Move-Inv {s = s} (d_take {enqueued = e} {dequeued = d} x some_left at) few inv a =
    let less : s.mem.dequeued < s.mem.enqueued = omega (arith, some_left, a, inv.counts_put, few) in
    let here : get_elem? s.put s.mem.dequeued ≡ some x =
      sym (inv.slots s.mem.dequeued (omega arith) less)
      ∙ ap (λ c. get_elem? s.mem.queue (slot s.mem c)) (sym a.0)
      ∙ at in
    (inv, (less, here))
Move-Inv {s = s} (d_advance {x = x}) few inv a = (taken s inv x a.0 a.1 few, omega arith)
Move-Inv {s = s} d_unlock few inv a = (relocked s inv s.mem.e_lock 0, omega arith)
