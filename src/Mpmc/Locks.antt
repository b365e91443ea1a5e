-- ===== src/Mpmc/Locks.antt =====
-- Each lock has at most one holder.
use mathlib.Core.Path.{subst}
use labstor.Base.{
  ℕ, ◌≡◌, refl, sym, ap, ◌∙◌, ◌≢◌, inl, inr, Bool, true, false, arith, ◌==◌, ==→eq, eq→==,
  Bool-cases,
}
use labstor.Mpmc.{try_lock}
use labstor.Mpmc.Threads.{
  Pc, Shared, Move, e_lock, e_refused, e_load, e_compare, e_full, e_write, e_advance, e_unlock,
  d_lock, d_refused, d_load, d_compare, d_empty, d_take, d_advance, d_unlock, update,
}
use labstor.Mpmc.Inv.{holds_e, holds_d}

-- `h` tells which threads hold the lock
pub record Lock (lock : ℕ) (h : ℕ → Bool) : Type 0 where
  pub one : (i j : ℕ) → h i ≡ true → h j ≡ true → i ≡ j
  pub free : lock ≡ 0 → (i : ℕ) → h i ≡ false

-- what one access does to a lock and to whether its thread holds it
pub data LockMove (lock : ℕ) (b : Bool) (lock' : ℕ) (b' : Bool) : Type 0 where
  keeps : lock' ≡ lock → b' ≡ b → LockMove lock b lock' b'
  takes : lock ≡ 0 → lock' ≡ 1 → LockMove lock b lock' b'
  drops : b ≡ true → b' ≡ false → LockMove lock b lock' b'

pub Move-LockMove :
    {A : Type 0} {s s' : Shared A} {p p' : Pc A}
    → Move s p s' p'
    → LockMove s.mem.e_lock (holds_e p) s'.mem.e_lock (holds_e p')
      × LockMove s.mem.d_lock (holds_d p) s'.mem.d_lock (holds_d p')
unfolding try_lock
Move-LockMove (e_lock x free) = (takes (ground arith) refl, keeps refl refl)
Move-LockMove (e_refused x held) = (keeps refl refl, keeps refl refl)
Move-LockMove e_load = (keeps refl refl, keeps refl refl)
Move-LockMove e_compare = (keeps refl refl, keeps refl refl)
Move-LockMove (e_full full) = (keeps refl refl, keeps refl refl)
Move-LockMove (e_write room) = (keeps refl refl, keeps refl refl)
Move-LockMove e_advance = (keeps refl refl, keeps refl refl)
Move-LockMove e_unlock = (drops refl refl, keeps refl refl)
Move-LockMove (d_lock free) = (keeps refl refl, takes (ground arith) refl)
Move-LockMove (d_refused held) = (keeps refl refl, keeps refl refl)
Move-LockMove d_load = (keeps refl refl, keeps refl refl)
Move-LockMove d_compare = (keeps refl refl, keeps refl refl)
Move-LockMove (d_empty empty) = (keeps refl refl, keeps refl refl)
Move-LockMove (d_take x some_left at) = (keeps refl refl, keeps refl refl)
Move-LockMove d_advance = (keeps refl refl, keeps refl refl)
Move-LockMove d_unlock = (keeps refl refl, drops refl refl)

pub update_self : {A : Type 0} (f : ℕ → A) (i : ℕ) (a : A) → update f i a i ≡ a
update_self f i a = rw (eq→== i i refl)

pub update_ne : {A : Type 0} (f : ℕ → A) (i j : ℕ) (a : A) → i ≢ j → update f i a j ≡ f j
update_ne f i j a ne = let differs : i == j ≡ false = ground (arith, ne) in rw differs

module _ (lock lock' : ℕ) (h h' : ℕ → Bool) (i : ℕ) (l : Lock lock h)
    (others : (j : ℕ) → i ≢ j → h' j ≡ h j) where
  -- with no other holder, the thread's own holding is all there is
  alone : ((j : ℕ) → i ≢ j → h j ≡ false) → (j : ℕ) → h' j ≡ true → i ≡ j
  alone none_else j held = elim (Bool-cases (i == j)) [
    | inl same ↦ ==→eq i j same
    | inr other ↦
        let ne : i ≢ j = λ e. absurd (ground (arith, e, other)) in
        absurd (cc (held, others j ne, none_else j ne))
  ]

  pub Lock-step : LockMove lock (h i) lock' (h' i) → Lock lock' h'
  Lock-step (keeps same_lock same) =
      let all : (j : ℕ) → h' j ≡ h j = λ j. elim (Bool-cases (i == j)) [
        | inl here ↦ subst (λ j. h' j ≡ h j) (==→eq i j here) same
        | inr other ↦ others j (λ e. absurd (ground (arith, e, other)))
      ] in
      record {
        one = λ j k hj hk. l.one j k (sym (all j) ∙ hj) (sym (all k) ∙ hk);
        free = λ e j. all j ∙ l.free (sym same_lock ∙ e) j;
      }
  Lock-step (takes was_free now) =
      let only = alone (λ j ne. l.free was_free j) in
      record { one = λ j k hj hk. sym (only j hj) ∙ only k hk; free = λ e. absurd (omega arith) }
  Lock-step (drops was_held dropped) =
      let none_else : (j : ℕ) → i ≢ j → h j ≡ false = λ j ne. elim (Bool-cases (h j)) [
        | inl held ↦ absurd (ne (l.one i j was_held held))
        | inr free ↦ free
      ] in
      let none_left : (j : ℕ) → h' j ≡ false = λ j. elim (Bool-cases (h' j)) [
        | inl held ↦ absurd (cc (dropped, held, ap h' (alone none_else j held)))
        | inr free ↦ free
      ] in
      record { one = λ j k hj. absurd (cc (hj, none_left j)); free = λ e. none_left }
