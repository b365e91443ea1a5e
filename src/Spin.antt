-- ===== src/Spin.antt =====
-- The busy-wait loops of include/labstor/constants/busy_wait.h (LABSTOR_INF_SPINWAIT_START and
-- _END without LABSTOR_YIELD_SPINWAIT, and the attempts of LABSTOR_TIMED_SPINWAIT). The list holds
-- what the other threads do to the shared state between an attempt and the next one; a loop
-- without a bound has made no return yet when the list ends.
use labstor.Base.{◌≡◌, List, [], ◌∷◌, ◌++◌, Call, done, refused, fault, arith}

pub data Spun {ℓ} (R : Type ℓ) : Type ℓ where
  returned : R → Spun R
  spinning : Spun R
  crashed : Spun R

module _ {S R : Type 0} (attempt : S → Call R) where
  unfoldable pub spin : S → List (S → S) → Spun R
  spin s [] = elim (attempt s) [ done r ↦ returned r | refused ↦ spinning | fault ↦ crashed ]
  spin s (other ∷ others) = elim (attempt s) [
    | done r ↦ returned r
    | refused ↦ spin (other s) others
    | fault ↦ crashed
  ]

  pub spin_at_once :
      (others : List (S → S)) (s : S) (r : R) → attempt s ≡ done r → spin s others ≡ returned r
  unfolding spin
  spin_at_once [] s r ok = ground arith
  spin_at_once (o ∷ others) s r ok = ground arith

  -- the state after what the other threads did
  abbrev pub after : S → List (S → S) → S
  after s [] = s
  after s (other ∷ others) = after (other s) others

  -- every attempt is refused, up to the one after all of the list
  abbrev pub Refused : S → List (S → S) → Type 0
  Refused s [] = attempt s ≡ refused
  Refused s (other ∷ others) = (attempt s ≡ refused) × Refused (other s) others

  -- The loop returns with the first attempt that is accepted.
  pub spin_returns :
      (others : List (S → S)) (s : S) (other : S → S) (r : R) (rest : List (S → S))
      → Refused s others
      → attempt (other (after s others)) ≡ done r
      → spin s (others ++ other ∷ rest) ≡ returned r
  unfolding spin
  spin_returns [] s other r [] no_room ok = ground arith
  spin_returns [] s other r (next ∷ rest) no_room ok = ground arith
  spin_returns (o ∷ others) s other r rest no_room ok =
      ground (arith, spin_returns others (o s) other r rest)

  -- A loop all of whose attempts are refused makes no return.
  pub spin_blocked : (others : List (S → S)) (s : S) → Refused s others → spin s others ≡ spinning
  unfolding spin
  spin_blocked [] s no_room = ground arith
  spin_blocked (o ∷ others) s no_room = ground (arith, spin_blocked others (o s))
