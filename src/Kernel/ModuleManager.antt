-- ===== src/Kernel/ModuleManager.antt =====
-- The table of kernel modules of src/kernel/server/module_manager.c. A module's runtime id
-- is a `labstor_runtime_id_t` (`uint32_t`), and the `int` that is looked up is given by its 32-bit
-- pattern; a function pointer is an address, or `none` when null.
pub mod View
use labstor.Base.{
  ℕ, zero, suc, ◌+◌, ◌-◌, ◌*◌, ◌/◌, ◌%◌, ◌^◌, ◌≤◌, ◌<◌, ◌≡◌, refl, sym, ap, ap₂, ◌∙◌, ◌≢◌, ◌↔◌, ◌⊎◌,
  inl, inr, Bool, true, false, ◌&&◌, ◌||◌, not, Option, none, some, List, [], ◌∷◌, ◌++◌, arith, ltb,
  leb, ◌==◌, if◌then◌else◌, ==→eq, eq→==, Bool-cases, Option-cases, List-cases, length, get_elem?,
  get_or, set, replicate, length-append, length-set, length-replicate, get_elem?-eq-get_or,
  get_or-set_self, get_or-set_ne, get_or-replicate, get_elem?_of_lt, get_elem?-set_self,
  get_elem?-set_ne, get_elem?-set_cases, u32_mod, u64_mod, u32, sub32, sub64, mod-ne_of_near, Call,
  done, refused, fault, ◌>>=◌, map_call, in_bounds, along_some,
}

-- the fields of `labstor_module` that the server and the workers read
pub record Module : Type 0 where
  pub module_id : ℕ
  pub runtime_id : ℕ
  pub process_request_fn : Option ℕ
  pub process_request_fn_netlink : Option ℕ

abbrev pub max_labstor_modules : ℕ
max_labstor_modules = 64

-- the array `modules`; `none` is a null pointer
abbrev pub Modules : Type 0
Modules = List (Option Module)

-- `memset` of the array
unfoldable pub init_labstor_module_manager : Modules
init_labstor_module_manager = replicate max_labstor_modules none

-- `0 <= id` holds of every `uint32_t`.
unfoldable pub register_labstor_module : Modules → Module → Modules
register_labstor_module modules pkg =
    if leb 0 pkg.runtime_id && ltb pkg.runtime_id max_labstor_modules
    then set modules pkg.runtime_id (some pkg)
    else modules

-- There is no test of the id: past the array the write is undefined.
unfoldable pub unregister_labstor_module : Modules → Module → Call Modules
unregister_labstor_module modules pkg =
    if ltb pkg.runtime_id (length modules) then done (set modules pkg.runtime_id none) else fault

-- `0 <= id && id < MAX_LABSTOR_MODULES`, of an `int`
abbrev pub in_table : ℕ → Bool
in_table id = ltb id (2 ^ 31) && ltb id max_labstor_modules

unfoldable pub get_labstor_module_by_runtime_id : Modules → ℕ → Option Module
get_labstor_module_by_runtime_id modules runtime_id =
    if in_table runtime_id then get_or modules runtime_id none else none
