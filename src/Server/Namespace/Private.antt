-- ===== src/Server/Namespace/Private.antt =====
-- The modules that a process registers under ids of its own choice.
use labstor.Base.{
  ℕ, zero, suc, ◌+◌, ◌≤◌, ◌<◌, ◌≡◌, refl, sym, ap, ◌∙◌, ◌≢◌, inl, inr, false, Option, none, some,
  List, [], ◌∷◌, arith, ltb, ◌==◌, if◌then◌else◌, Bool-cases, Option-cases, length, get_elem?,
  get_or, set, get_or-set_self, get_or-set_ne, u32_mod, u32, done, fault, get_or_of_get_elem?,
}
use labstor.Server.Namespace.{Namespace, resize, set_state, register_private_state, get_module}

-- what `GetModule` makes of a place, where no place is a null pointer
as_module : ℕ → Option ℕ
as_module mdl = if mdl == 0 then none else some mdl

get_module_lem :
    (ns : Namespace) (i : ℕ) → get_module ns i ≡ as_module (get_or ns.private_state i 0)
unfolding get_module as_module
get_module_lem ns i = elim (Option-cases (get_elem? ns.private_state i)) [
  | inl past ↦ rw (get_module, past, get_or_past ns.private_state i past) refl
  | inr (mdl, at) ↦ rw (get_module, at, get_or_of_get_elem? ns.private_state i mdl 0 at) refl
]
  where
    get_or_past : (xs : List ℕ) (i : ℕ) → get_elem? xs i ≡ none → get_or xs i 0 ≡ 0
    get_or_past [] i e = refl
    get_or_past (x ∷ xs) zero e = absurd (cc)
    get_or_past (x ∷ xs) (suc i) e = get_or_past xs i e

length-resize : (xs : List ℕ) (n : ℕ) → length (resize xs n) ≡ n
length-resize xs zero = refl
length-resize [] (suc n) = ap suc (length-resize [] n)
length-resize (x ∷ xs) (suc n) = ap suc (length-resize xs n)

get_or-resize : (xs : List ℕ) (n i : ℕ) → length xs ≤ n → get_or (resize xs n) i 0 ≡ get_or xs i 0
get_or-resize [] zero i h = refl
get_or-resize (x ∷ xs) zero i h = absurd (omega arith)
get_or-resize [] (suc n) zero h = refl
get_or-resize [] (suc n) (suc i) h = get_or-resize [] n i (omega arith)
get_or-resize (x ∷ xs) (suc n) zero h = refl
get_or-resize (x ∷ xs) (suc n) (suc i) h = get_or-resize xs n i (omega arith)

set_state_lem :
    (ns : Namespace) (ns_id mdl : ℕ)
    → ns_id < length ns.private_state
    → mdl ≢ 0
    → (ns' : Namespace) × (set_state ns ns_id mdl ≡ done ns')
      × (get_module ns' ns_id ≡ some mdl)
      × ((i : ℕ) → i ≢ ns_id → get_module ns' i ≡ get_module ns i)
unfolding set_state as_module
set_state_lem ns ns_id mdl within real =
    let ns' : Namespace = record ns { private_state = set ns.private_state ns_id mdl } in
    let is_real : (mdl == 0) ≡ false = ground arith in
    (
      ns',
      ground arith,
      get_module_lem ns' ns_id
          ∙ ap as_module (get_or-set_self ns.private_state ns_id mdl 0 within)
          ∙ rw (as_module, is_real) refl,
      λ i other.
          get_module_lem ns' i
          ∙ ap as_module (get_or-set_ne ns.private_state ns_id i mdl 0 (λ e. other (sym e)))
          ∙ sym (get_module_lem ns i),
    )

-- RegisterPrivateState of an id below 2^32 - 1 writes past the vector exactly when the id is the
-- number of modules there are places for; with any other id, GetModule of the id is the module
-- then, if that is no null pointer, and GetModule of each other id is as before.
pub register_private-get :
    (ns : Namespace) (ns_id mdl : ℕ)
    → ns_id + 1 < u32_mod
    → mdl ≢ 0
    → (ns_id ≡ length ns.private_state → register_private_state ns ns_id mdl ≡ fault)
      × (ns_id ≢ length ns.private_state
          → (ns' : Namespace) × (register_private_state ns ns_id mdl ≡ done ns')
            × (get_module ns' ns_id ≡ some mdl)
            × ((i : ℕ) → i ≢ ns_id → get_module ns' i ≡ get_module ns i))
unfolding register_private_state
register_private-get ns ns_id mdl small real = (
  λ e. unfold set_state in ground arith,
  λ ne. elim (Bool-cases (ltb (length ns.private_state) ns_id)) [
    | inl past ↦
        let n = u32 (ns_id + 1) in
        let exact : n ≡ ns_id + 1 = omega arith in
        let grown : Namespace = record ns { private_state = resize ns.private_state n } in
        let (ns', run, here, others) =
          set_state_lem grown ns_id mdl (omega (arith, length-resize ns.private_state n, exact))
            real in
        let same = λ (i : ℕ).
          get_module_lem grown i
          ∙ ap as_module (get_or-resize ns.private_state n i (ground arith))
          ∙ sym (get_module_lem ns i) in
        (ns', rw (register_private_state, past) run, here, λ i other. others i other ∙ same i)
    | inr within ↦
        let (ns', run, here, others) = set_state_lem ns ns_id mdl (ground arith) real in
        (ns', rw (register_private_state, within) run, here, others)
  ],
)
