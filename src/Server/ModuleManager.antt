-- ===== src/Server/ModuleManager.antt =====
-- The modules' constructors of include/labstor/userspace/types/module.h, and the update of a module
-- in src/userspace/server/module_manager.cpp. A constructor, a library and a module are known by
-- their addresses.
pub mod Update
use labstor.Base.{
  ℕ, zero, suc, ◌+◌, ◌-◌, ◌*◌, ◌/◌, ◌%◌, ◌^◌, ◌≤◌, ◌<◌, ◌≡◌, refl, sym, ap, ap₂, ◌∙◌, ◌≢◌, ◌↔◌, ◌⊎◌,
  inl, inr, Bool, true, false, ◌&&◌, ◌||◌, not, Option, none, some, List, [], ◌∷◌, ◌++◌, arith, ltb,
  leb, ◌==◌, if◌then◌else◌, ==→eq, eq→==, Bool-cases, Option-cases, List-cases, length, get_elem?,
  get_or, set, replicate, length-append, length-set, length-replicate, get_elem?-eq-get_or,
  get_or-set_self, get_or-set_ne, get_or-replicate, get_elem?_of_lt, get_elem?-set_self,
  get_elem?-set_ne, get_elem?-set_cases, get_elem?-append_left, get_elem?-append_last, u32_mod,
  u64_mod, u32, sub32, sub64, mod-ne_of_near, Call, done, refused, fault, ◌>>=◌, map_call,
  in_bounds, along_some, bind-done, eq-cases, lt_of_get_elem?, get_or_of_get_elem?,
  get_elem?-append_ne,
}
use labstor.Text.{text_eq}
use labstor.Server.Namespace.{Namespace, all_module_instances}

pub record ModuleHandle : Type 0 where
  pub constructor_fn : ℕ
  pub handle : ℕ

-- `pkg_pool_`, and the libraries that were closed
pub record ModuleTable : Type 0 where
  pub pkg_pool : List (List ℕ × ModuleHandle)
  pub closed : List ℕ

unfoldable pub find_handle : List (List ℕ × ModuleHandle) → List ℕ → Option ModuleHandle
find_handle [] module_id = none
find_handle ((id, handle) ∷ rest) module_id =
    let found = find_handle rest module_id in if text_eq id module_id then some handle else found

-- what `dlopen` gives, with what `dlsym` finds in it
pub record Library : Type 0 where
  pub address : ℕ
  pub create_module : Option ℕ
  pub get_module_id : Option (List ℕ)

-- `refused` is DLSYM_MODULE_NOT_FOUND or DLSYM_MODULE_NO_CONSTRUCTOR.
unfoldable pub open_module : Option Library → Call (List ℕ × ModuleHandle)
open_module none = refused
open_module (some lib) = elim lib.create_module [
  | none ↦ refused
  | some create ↦ elim lib.get_module_id [
    | none ↦ refused
    | some module_id ↦ done (module_id, (record { constructor_fn = create; handle = lib.address }))
  ]
]

-- `emplace` changes nothing under an id that is there.
unfoldable pub set_module_constructor : ModuleTable → List ℕ → ModuleHandle → ModuleTable
set_module_constructor t module_id info = elim (find_handle t.pkg_pool module_id) [
  | none ↦ record t { pkg_pool = (module_id, info) ∷ t.pkg_pool }
  | some old ↦ record t { closed = old.handle ∷ t.closed }
]

-- `refused` is INVALID_MODULE_ID.
unfoldable pub get_module_constructor : ModuleTable → List ℕ → Call ℕ
get_module_constructor t module_id = elim (find_handle t.pkg_pool module_id) [
  | none ↦ refused
  | some info ↦ done info.constructor_fn
]

unfoldable pub has_module : ModuleTable → List ℕ → Bool
has_module t module_id = elim (find_handle t.pkg_pool module_id) [ none ↦ false | some info ↦ true ]

-- the constructors, the namespace and the modules that were deleted
pub record Manager : Type 0 where
  pub table : ModuleTable
  pub ns : Namespace
  pub deleted : List ℕ

-- the write through the reference that AllModuleInstances returns
unfoldable pub set_queue : List (List ℕ × List ℕ) → List ℕ → List ℕ → List (List ℕ × List ℕ)
set_queue [] module_id queue = []
set_queue ((id, q) ∷ rest) module_id queue =
    let rest' = set_queue rest module_id queue in
    if text_eq id module_id then (id, queue) ∷ rest else (id, q) ∷ rest'

-- What the loop over the instances leaves; `thrown` is an exception of a constructor or of a
-- StateUpdate.
pub record Updated : Type 0 where
  pub thrown : Bool
  pub queue : List ℕ
  pub deleted : List ℕ

-- The rounds of the loop from round `i` on. `renew i old` is the new instance of that round behind
-- its StateUpdate, or `none` for an exception.
unfoldable pub update_loop :
    (renew : ℕ → ℕ → Option ℕ) → (n i : ℕ) → (queue deleted : List ℕ) → Call Updated
update_loop renew zero i queue deleted =
    done (record { thrown = false; queue = queue; deleted = deleted })
update_loop renew (suc n) i [] deleted = fault
update_loop renew (suc n) i (old ∷ queue) deleted = elim (renew i old) [
  | none ↦ done (record { thrown = true; queue = queue; deleted = deleted })
  | some new ↦ update_loop renew n (suc i) (queue ++ new ∷ []) (deleted ++ old ∷ [])
]

-- The update of the module in a library; `true` is an exception, which is thrown again.
unfoldable pub centralized_update_module :
    Option Library → (renew : ℕ → ℕ → ℕ → Option ℕ) → Manager → Call (Bool × Manager)
unfolding open_module update_loop set_queue set_module_constructor
centralized_update_module lib renew m = elim (open_module lib) [
  | fault ↦ fault
  | refused ↦ done (true, m)
  | done (module_id, info) ↦
      let queue = (all_module_instances m.ns module_id).0 in
      let ns = (all_module_instances m.ns module_id).1 in
      update_loop (renew info.constructor_fn) (length queue) 0 queue m.deleted >>= λ u.
      let ns' : Namespace = record ns { instances = set_queue ns.instances module_id u.queue } in
      let table = if u.thrown then m.table else set_module_constructor m.table module_id info in
      done (u.thrown, (record { table = table; ns = ns'; deleted = u.deleted }))
]
