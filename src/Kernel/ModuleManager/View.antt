-- ===== src/Kernel/ModuleManager/View.antt =====
-- The table as a map from runtime ids to modules.
use labstor.Base.{
  ℕ, suc, ◌≤◌, ◌<◌, ◌≡◌, refl, ap, ◌∙◌, inl, inr, false, ◌&&◌, Option, none, some, List, [], ◌∷◌,
  arith, ltb, leb, ◌==◌, if◌then◌else◌, ==→eq, Bool-cases, length, get_elem?, set, length-set,
  length-replicate, get_or-set_self, get_or-set_ne, get_or-replicate, Call, done, fault, ◌>>=◌,
}
use labstor.Kernel.ModuleManager.{
  Module, Modules, max_labstor_modules, init_labstor_module_manager, in_table,
  register_labstor_module, unregister_labstor_module, get_labstor_module_by_runtime_id,
}

-- the calls that kernel modules make when they are loaded and unloaded
pub data Change : Type 0 where
  load : Module → Change
  unload : Module → Change

-- what the calls do to the table, in order
unfoldable pub change_all : Modules → List Change → Call Modules
change_all modules [] = done modules
change_all modules (load pkg ∷ rest) = change_all (register_labstor_module modules pkg) rest
change_all modules (unload pkg ∷ rest) =
    unregister_labstor_module modules pkg >>= λ modules'. change_all modules' rest

-- The module that `id` has after the calls, if it has `before` at first: the last one that was
-- loaded under the id, if none was unloaded under it since.
unfoldable pub latest : ℕ → Option Module → List Change → Option Module
latest id before [] = before
latest id before (load pkg ∷ rest) =
    latest id (if pkg.runtime_id == id then some pkg else before) rest
latest id before (unload pkg ∷ rest) =
    latest id (if pkg.runtime_id == id then none else before) rest

-- every module that is unloaded has an id of the table
abbrev pub UnloadsInTable : List Change → Type 0
UnloadsInTable changes =
    (i : ℕ) (pkg : Module)
    → get_elem? changes i ≡ some (unload pkg)
    → pkg.runtime_id < max_labstor_modules

get-set :
    (modules : Modules) (i id : ℕ) (m : Option Module)
    → length modules ≡ max_labstor_modules
    → i < max_labstor_modules
    → get_labstor_module_by_runtime_id (set modules i m) id
      ≡ (if i == id then m else get_labstor_module_by_runtime_id modules id)
unfolding get_labstor_module_by_runtime_id
get-set modules i id m len lt = elim (Bool-cases (i == id)) [
  | inl same ↦
      let here = ==→eq i id same in
      let there = get_or-set_self modules i m none (omega (arith, len)) in
      ground (arith, here, there, same)
  | inr other ↦
      let there = get_or-set_ne modules i id m none (λ e. absurd (ground (arith, e, other))) in
      ground (arith, there, other)
]

-- `Register` under an id of the table puts the module there, over what stood there; under another
-- id it changes nothing.
pub get-register :
    (modules : Modules) (pkg : Module) (id : ℕ)
    → length modules ≡ max_labstor_modules
    → id < max_labstor_modules
    → get_labstor_module_by_runtime_id (register_labstor_module modules pkg) id
      ≡ (if pkg.runtime_id == id then some pkg else get_labstor_module_by_runtime_id modules id)
unfolding register_labstor_module
get-register modules pkg id len lt =
    elim (Bool-cases (leb 0 pkg.runtime_id && ltb pkg.runtime_id max_labstor_modules)) [
      | inl known ↦
          let small : pkg.runtime_id < max_labstor_modules = ground (arith, known) in
          rw known (get-set modules pkg.runtime_id id (some pkg) len small)
      | inr unknown ↦
          let other : pkg.runtime_id == id ≡ false = ground (arith, unknown, lt) in
          rw (unknown, other)
    ]

length-register :
    (modules : Modules) (pkg : Module)
    → length (register_labstor_module modules pkg) ≡ length modules
unfolding register_labstor_module
length-register modules pkg = ground (arith, length-set modules pkg.runtime_id (some pkg))

unregister_lem :
    (modules : Modules) (pkg : Module)
    → length modules ≡ max_labstor_modules
    → pkg.runtime_id < max_labstor_modules
    → unregister_labstor_module modules pkg ≡ done (set modules pkg.runtime_id none)
unfolding unregister_labstor_module
unregister_lem modules pkg len lt = ground (arith, len, lt)

-- Whatever kernel modules are loaded and unloaded, in any order, each id of the table is found to
-- have the module that was last loaded under it and not unloaded since, if all that are unloaded
-- have an id of the table.
pub change_all-latest :
    (changes : List Change) (modules : Modules)
    → length modules ≡ max_labstor_modules
    → UnloadsInTable changes
    → (modules' : Modules) × (change_all modules changes ≡ done modules')
      × (length modules' ≡ max_labstor_modules)
      × ((id : ℕ)
          → id < max_labstor_modules
          → get_labstor_module_by_runtime_id modules' id
            ≡ latest id (get_labstor_module_by_runtime_id modules id) changes)
unfolding change_all latest
change_all-latest [] modules len known = (modules, refl, len, λ id lt. refl)
change_all-latest (load pkg ∷ rest) modules len known =
    let (modules', run, len', all) =
      change_all-latest rest (register_labstor_module modules pkg)
        (length-register modules pkg ∙ len) (λ i p at. known (suc i) p at) in
    (
      modules',
      run,
      len',
      λ id lt. all id lt ∙ ap (λ m. latest id m rest) (get-register modules pkg id len lt),
    )
change_all-latest (unload pkg ∷ rest) modules len known =
    let small = known 0 pkg refl in
    let (modules', run, len', all) =
      change_all-latest rest (set modules pkg.runtime_id none)
        (length-set modules pkg.runtime_id none ∙ len) (λ i p at. known (suc i) p at) in
    (
      modules',
      ap (λ call. call >>= λ ms. change_all ms rest) (unregister_lem modules pkg len small) ∙ run,
      len',
      λ id lt.
          all id lt ∙ ap (λ m. latest id m rest) (get-set modules pkg.runtime_id id none len small),
    )

pub length-init : length init_labstor_module_manager ≡ max_labstor_modules
unfolding init_labstor_module_manager
length-init = length-replicate {A = Option Module} max_labstor_modules none

pub get-init : (id : ℕ) → get_labstor_module_by_runtime_id init_labstor_module_manager id ≡ none
unfolding get_labstor_module_by_runtime_id init_labstor_module_manager
get-init id = elim (Bool-cases (in_table id)) [
  | inl known ↦ rw known (
      get_or-replicate {A = Option Module} max_labstor_modules id none none (ground (arith, known)))
  | inr unknown ↦ rw unknown
]

-- A module whose id is past the table is not registered, without an error to it, and writes past
-- the array when it is unloaded.
unload_past_table :
    (modules : Modules) (pkg : Module)
    → length modules ≡ max_labstor_modules
    → max_labstor_modules ≤ pkg.runtime_id
    → (register_labstor_module modules pkg ≡ modules)
      × (change_all modules (load pkg ∷ unload pkg ∷ []) ≡ fault)
unfolding change_all register_labstor_module unregister_labstor_module
unload_past_table modules pkg len past = ground (arith, len, past)
