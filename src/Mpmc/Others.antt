-- ===== src/Mpmc/Others.antt =====
-- What a thread does leaves the local variables of the others right.
use labstor.Base.{
  ℕ, ◌+◌, ◌<◌, ◌≡◌, refl, ◌∙◌, true, false, List, [], ◌∷◌, ◌++◌, arith, length, set, length-append,
  get_elem?-append_left, u32_mod, u32,
}
use labstor.Mpmc.Threads.{
  Pc, idle, e_locked, e_loaded, e_compared, e_written, e_release, d_locked, d_loaded, d_compared,
  d_read, d_release, Shared, slot, Move, e_lock, e_refused, e_load, e_compare, e_full, e_write,
  e_advance, e_unlock, d_lock, d_refused, d_load, d_compare, d_empty, d_take, d_advance, d_unlock,
}
use labstor.Mpmc.Inv.{Inv, Agrees, holds_e, holds_d}

-- not two threads with the same lock
abbrev pub Apart : {A : Type 0} → Pc A → Pc A → Type 0
Apart p q = (holds_e p ≡ true → holds_e q ≡ false) × (holds_d p ≡ true → holds_d q ≡ false)

module _ {A : Type 0} (s : Shared A) where
  -- A thread without the lock agrees with the memory after the holder's change as before.
  relock_Agrees :
      (e d : ℕ) (q : Pc A)
      → Agrees s q
      → Agrees (record s { mem = let r = s.mem in record r { e_lock = e; d_lock = d } }) q
  relock_Agrees e d idle a = a
  relock_Agrees e d (e_locked x) a = a
  relock_Agrees e d (e_loaded x en) a = a
  relock_Agrees e d (e_compared x en de) a = a
  relock_Agrees e d (e_written x en) a = a
  relock_Agrees e d e_release a = a
  relock_Agrees e d d_locked a = a
  relock_Agrees e d (d_loaded en) a = a
  relock_Agrees e d (d_compared en de) a = a
  relock_Agrees e d (d_read x) a = a
  relock_Agrees e d d_release a = a

  write_Agrees :
      (queue : List A) (q : Pc A)
      → holds_e q ≡ false
      → Agrees s q
      → Agrees (record s { mem = let r = s.mem in record r { queue = queue } }) q
  write_Agrees queue idle free a = a
  write_Agrees queue (e_locked x) free a = a
  write_Agrees queue (e_loaded x en) free a = a
  write_Agrees queue (e_compared x en de) free a = a
  write_Agrees queue (e_written x en) free a = absurd (cc (free))
  write_Agrees queue e_release free a = a
  write_Agrees queue d_locked free a = a
  write_Agrees queue (d_loaded en) free a = a
  write_Agrees queue (d_compared en de) free a = a
  write_Agrees queue (d_read x) free a = a
  write_Agrees queue d_release free a = a

  put_Agrees :
      (x : A) (q : Pc A)
      → Inv s
      → holds_e q ≡ false
      → length (s.put ++ x ∷ []) < u32_mod
      → Agrees s q
      → Agrees
          (record s {
            mem = let r = s.mem in record r { enqueued = u32 (r.enqueued + 1) };
            put = s.put ++ x ∷ [];
          })
          q
  put_Agrees x idle inv free few a = omega arith
  put_Agrees x (e_locked y) inv free few a = omega arith
  put_Agrees x (e_loaded y en) inv free few a = absurd (cc (free))
  put_Agrees x (e_compared y en de) inv free few a = absurd (cc (free))
  put_Agrees x (e_written y en) inv free few a = absurd (cc (free))
  put_Agrees x e_release inv free few a = omega arith
  put_Agrees x d_locked inv free few a = omega arith
  put_Agrees x (d_loaded en) inv free few a =
      (a.0, omega (arith, a.1, few, length-append s.put (x ∷ []), inv.counts_put))
  put_Agrees x (d_compared en de) inv free few a =
      (a.0, a.1, omega (arith, a.2, few, length-append s.put (x ∷ []), inv.counts_put))
  put_Agrees x (d_read y) inv free few a = (
    omega (arith, a.0, few, length-append s.put (x ∷ []), inv.counts_put),
    get_elem?-append_left s.put (x ∷ []) s.mem.dequeued (omega (arith, a.0, inv.counts_put)) ∙ a.1,
  )
  put_Agrees x d_release inv free few a = omega arith

  got_Agrees :
      (x : A) (q : Pc A)
      → Inv s
      → holds_d q ≡ false
      → s.mem.dequeued < s.mem.enqueued
      → length s.put < u32_mod
      → Agrees s q
      → Agrees
          (record s {
            mem = let r = s.mem in record r { dequeued = u32 (r.dequeued + 1) };
            got = s.got ++ x ∷ [];
          })
          q
  got_Agrees x idle inv free left few a = omega arith
  got_Agrees x (e_locked y) inv free left few a = omega arith
  got_Agrees x (e_loaded y en) inv free left few a = a
  got_Agrees x (e_compared y en de) inv free left few a =
      (a.0, omega (arith, a.1, left, few, inv.counts_put))
  got_Agrees x (e_written y en) inv free left few a =
      (omega (arith, a.0, left, few, inv.counts_put), a.1)
  got_Agrees x e_release inv free left few a = omega arith
  got_Agrees x d_locked inv free left few a = omega arith
  got_Agrees x (d_loaded en) inv free left few a = absurd (cc (free))
  got_Agrees x (d_compared en de) inv free left few a = absurd (cc (free))
  got_Agrees x (d_read y) inv free left few a = absurd (cc (free))
  got_Agrees x d_release inv free left few a = omega arith

pub others_Agree :
    {A : Type 0} {s s' : Shared A} {p p' : Pc A} (q : Pc A)
    → Move s p s' p'
    → length s'.put < u32_mod
    → Inv s
    → Agrees s p
    → Apart p q
    → Agrees s q
    → Agrees s' q
others_Agree {s = s} q (e_lock x free) few inv mine apart a = relock_Agrees s 1 s.mem.d_lock q a
others_Agree q (e_refused x held) few inv mine apart a = a
others_Agree q e_load few inv mine apart a = a
others_Agree q e_compare few inv mine apart a = a
others_Agree q (e_full full) few inv mine apart a = a
others_Agree {s = s} q (e_write {x = x} {enqueued = en} room) few inv mine apart a =
    write_Agrees s (set s.mem.queue (slot s.mem en) x) q (apart.0 refl) a
others_Agree {s = s} q (e_advance {x = x}) few inv mine apart a =
    put_Agrees s x q inv (apart.0 refl) few a
others_Agree {s = s} q e_unlock few inv mine apart a = relock_Agrees s 0 s.mem.d_lock q a
others_Agree {s = s} q (d_lock free) few inv mine apart a = relock_Agrees s s.mem.e_lock 1 q a
others_Agree q (d_refused held) few inv mine apart a = a
others_Agree q d_load few inv mine apart a = a
others_Agree q d_compare few inv mine apart a = a
others_Agree q (d_empty empty) few inv mine apart a = a
others_Agree q (d_take x left at) few inv mine apart a = a
others_Agree {s = s} q (d_advance {x = x}) few inv mine apart a =
    got_Agrees s x q inv (apart.1 refl) mine.0 few a
others_Agree {s = s} q d_unlock few inv mine apart a = relock_Agrees s s.mem.e_lock 0 q a
