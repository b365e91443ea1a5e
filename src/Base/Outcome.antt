-- ===== src/Base/Outcome.antt =====
-- What a call of the C code comes to.
use mathlib.Core.Path.{◌≡◌, refl}
use mathlib.Core.Option.{Option, none, some}

-- `refused` is a return of `false` or `NULL`, before anything is written. `fault` is undefined
-- behaviour: a division by zero, or an access outside the memory that the object owns.
pub data Call {ℓ} (A : Type ℓ) : Type ℓ where
  done : A → Call A
  refused : Call A
  fault : Call A

infixl 5 ◌>>=◌
abbrev pub ◌>>=◌ {ℓ κ} : {A : Type ℓ} {B : Type κ} → Call A → (A → Call B) → Call B
done a >>= f = f a
refused >>= f = refused
fault >>= f = fault

abbrev pub map_call {ℓ κ} : {A : Type ℓ} {B : Type κ} → (A → B) → Call A → Call B
map_call f (done a) = done (f a)
map_call f refused = refused
map_call f fault = fault

-- an access to an array
abbrev pub in_bounds {ℓ} : {A : Type ℓ} → Option A → Call A
in_bounds (some a) = done a
in_bounds none = fault

-- A chain that is done had a first part that is done.
pub bind-done {ℓ κ} :
    {A : Type ℓ} {B : Type κ} (c : Call A) (f : A → Call B) (b : B)
    → (c >>= f) ≡ done b
    → (a : A) × (c ≡ done a) × (f a ≡ done b)
bind-done (done a) f b e = (a, refl, e)
bind-done refused f b e = absurd (cc)
bind-done fault f b e = absurd (cc)
