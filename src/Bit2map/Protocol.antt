-- ===== src/Bit2map/Protocol.antt =====
-- Threads that change entries by the protocol: a thread that began to modify or to remove an entry
-- owns it until it commits.
pub mod Safety
use mathlib.Core.Path.{subst}
use labstor.Base.{
  ℕ, zero, suc, ◌+◌, ◌-◌, ◌*◌, ◌/◌, ◌%◌, ◌^◌, ◌≤◌, ◌<◌, ◌≡◌, refl, sym, ap, ap₂, ◌∙◌, ◌≢◌, ◌↔◌, ◌⊎◌,
  inl, inr, Bool, true, false, ◌&&◌, ◌||◌, not, Option, none, some, List, [], ◌∷◌, ◌++◌, arith, ltb,
  leb, ◌==◌, if◌then◌else◌, ==→eq, eq→==, Bool-cases, Option-cases, List-cases, length, get_elem?,
  get_or, set, replicate, length-append, length-set, length-replicate, get_elem?-eq-get_or,
  get_or-set_self, get_or-set_ne, get_or-replicate, get_elem?_of_lt, get_elem?-set_self,
  get_elem?-set_ne, get_elem?-set_cases, get_elem?-append_left, get_elem?-append_last, u32_mod,
  u64_mod, u32, sub32, sub64, mod-ne_of_near, Call, done, refused, fault, ◌>>=◌, map_call,
  in_bounds, along_some, bind-done, eq-cases, lt_of_get_elem?, get_or_of_get_elem?,
  get_elem?-append_ne,
}
use labstor.Spin.{Spun, returned}
use labstor.Bit2map.{
  undisturbed, entry_block, begin_modify, commit_modify, begin_remove, commit_remove,
}
use labstor.Bit2map.Entries.{entry, Words, Becomes}
use labstor.Bit2map.Atomic.{AtOnce}

-- `owned` lists the entries that are owned, once for each owner.
pub record Owners : Type 0 where
  pub bitmap : List ℕ
  pub owned : List ℕ

abbrev pub times : ℕ → List ℕ → ℕ
times idx [] = 0
times idx (o ∷ owned) = if o == idx then suc (times idx owned) else times idx owned

-- the list without its `i`-th element
abbrev pub without : List ℕ → ℕ → List ℕ
without [] i = []
without (o ∷ owned) zero = owned
without (o ∷ owned) (suc i) = o ∷ without owned i

-- One exchange that succeeds, or one `&`, of one thread. An owner commits what it owns.
pub data Move (s t : Owners) : Type 0 where
  starts_set :
      (idx : ℕ) (b : List ℕ)
      → entry_block idx < length s.bitmap
      → begin_modify s.bitmap idx undisturbed ≡ returned (true, b)
      → t ≡ record { bitmap = b; owned = idx ∷ s.owned }
      → Move s t
  starts_remove :
      (idx : ℕ) (b : List ℕ)
      → entry_block idx < length s.bitmap
      → begin_remove s.bitmap idx undisturbed ≡ returned (true, b)
      → t ≡ record { bitmap = b; owned = idx ∷ s.owned }
      → Move s t
  ends_valid :
      (i idx : ℕ) (b : List ℕ)
      → get_elem? s.owned i ≡ some idx
      → commit_modify s.bitmap idx undisturbed ≡ returned (true, b)
      → t ≡ record { bitmap = b; owned = without s.owned i }
      → Move s t
  ends_removed :
      (i idx : ℕ) (b : List ℕ)
      → get_elem? s.owned i ≡ some idx
      → commit_remove s.bitmap idx ≡ done b
      → t ≡ record { bitmap = b; owned = without s.owned i }
      → Move s t

pub data Reach (s : Owners) : Owners → Type 0 where
  here : Reach s s
  next : {t u : Owners} → Reach s t → Move t u → Reach s u

-- An entry is BEING_SET exactly while it has an owner, and never has two.
pub record Exclusive (s : Owners) : Type 0 where
  pub words : Words s.bitmap
  pub owners : (idx : ℕ) → times idx s.owned ≡ entry s.bitmap idx / 2
  pub inside : (i idx : ℕ) → get_elem? s.owned i ≡ some idx → entry_block idx < length s.bitmap

-- a run without interference takes effect on the words that it finds
pub now :
    (op : ℕ → Option ℕ) (idx : ℕ) (bitmap b : List ℕ) (run : Spun (Bool × List ℕ))
    → AtOnce op idx bitmap [] run
    → run ≡ returned (true, b)
    → (x : ℕ) × (op (entry bitmap idx) ≡ some x) × Becomes idx x bitmap b
now op idx bitmap b run (zero, c, at, inl (e, stop)) ran = absurd (cc (e, ran))
now op idx bitmap b run (zero, c, at, inr (x, b', e, takes, becomes)) ran =
    let is_c : bitmap ≡ c = cc (at) in
    let is_b : b' ≡ b = cc (e, ran) in
    (
      x,
      subst (λ c. op (entry c idx) ≡ some x) (sym is_c) takes,
      subst (λ c. Becomes idx x c b) (sym is_c) (subst (λ d. Becomes idx x c d) is_b becomes),
    )
now op idx bitmap b run (suc i, c, at, outcome) ran = absurd (cc (at))

pub times-without :
    (owned : List ℕ) (i idx d : ℕ)
    → get_elem? owned i ≡ some idx
    → times d owned
      ≡ (if idx == d then suc (times d (without owned i)) else times d (without owned i))
times-without [] i idx d at = absurd (cc (at))
times-without (o ∷ owned) zero idx d at = let same : o ≡ idx = cc (at) in rw same
times-without (o ∷ owned) (suc i) idx d at = ground (arith, times-without owned i idx d at)

pub get-without :
    (owned : List ℕ) (i j d : ℕ)
    → get_elem? (without owned i) j ≡ some d
    → (k : ℕ) × (get_elem? owned k ≡ some d)
get-without [] i j d at = (j, at)
get-without (o ∷ owned) zero j d at = (suc j, at)
get-without (o ∷ owned) (suc i) zero d at = (0, at)
get-without (o ∷ owned) (suc i) (suc j) d at =
    let (k, found) = get-without owned i j d at in (suc k, found)
