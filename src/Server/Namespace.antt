-- ===== src/Server/Namespace.antt =====
-- The namespace of include/labstor/userspace/types/shared_namespace.h: the modules by their ids, in
-- the process' own memory, and in shared memory the ids by the modules' keys.
pub mod Keys
pub mod Private
use labstor.Base.{
  ℕ, zero, suc, ◌+◌, ◌-◌, ◌*◌, ◌/◌, ◌%◌, ◌^◌, ◌≤◌, ◌<◌, ◌≡◌, refl, sym, ap, ap₂, ◌∙◌, ◌≢◌, ◌↔◌, ◌⊎◌,
  inl, inr, Bool, true, false, ◌&&◌, ◌||◌, not, Option, none, some, List, [], ◌∷◌, ◌++◌, arith, ltb,
  leb, ◌==◌, if◌then◌else◌, ==→eq, eq→==, Bool-cases, Option-cases, List-cases, length, get_elem?,
  get_or, set, replicate, length-append, length-set, length-replicate, get_elem?-eq-get_or,
  get_or-set_self, get_or-set_ne, get_or-replicate, get_elem?_of_lt, get_elem?-set_self,
  get_elem?-set_ne, get_elem?-set_cases, get_elem?-append_left, get_elem?-append_last, u32_mod,
  u64_mod, u32, sub32, sub64, mod-ne_of_near, Call, done, refused, fault, ◌>>=◌, map_call,
  in_bounds, along_some, bind-done, eq-cases, lt_of_get_elem?, get_or_of_get_elem?,
}
use labstor.Mpmc
use labstor.Mpmc.{Mpmc}
use labstor.Text.{text_eq}
use labstor.UnorderedMap.{UnorderedMap}
use labstor.UnorderedMap.StringMap.{StringMapBucket, insert_string, find_string}

-- A module is known by its address, 0 for a null pointer; `instances` is
-- `module_id_to_instance_`, the queues of a module id's instances.
pub record Namespace : Type 0 where
  pub ns_ids : Mpmc ℕ
  pub key_to_ns_id : UnorderedMap StringMapBucket
  pub private_state : List ℕ
  pub instances : List (List ℕ × List ℕ)

-- `resize`: new places hold null pointers.
abbrev pub resize : List ℕ → ℕ → List ℕ
resize state zero = []
resize [] (suc n) = let rest = resize [] n in 0 ∷ rest
resize (x ∷ state) (suc n) = x ∷ resize state n

-- `private_state_[ns_id] = module`
unfoldable pub set_state : Namespace → ℕ → ℕ → Call Namespace
set_state ns ns_id mdl =
    if ltb ns_id (length ns.private_state)
    then done (record ns { private_state = set ns.private_state ns_id mdl })
    else fault

unfoldable pub register_private_state : Namespace → ℕ → ℕ → Call Namespace
register_private_state ns ns_id mdl =
    let grown : Namespace = record ns {
      private_state = resize ns.private_state (u32 (ns_id + 1));
    } in
    if ltb (length ns.private_state) ns_id
    then set_state grown ns_id mdl
    else set_state ns ns_id mdl

-- the id of a new module: one that was given back, or the next one
unfoldable pub new_id : Namespace → ℕ → Call (ℕ × Namespace)
new_id ns mdl = elim (Mpmc.dequeue ns.ns_ids) [
  | done p ↦ set_state (record ns { ns_ids = p.1 }) p.0 mdl >>= λ ns'. done (p.0, ns')
  | refused ↦
      done
        (u32 (length ns.private_state), record ns { private_state = ns.private_state ++ mdl ∷ [] })
  | fault ↦ fault
]

-- `emplace`, which keeps the queue of an id that is there, and `push`
unfoldable pub push_instance : List (List ℕ × List ℕ) → List ℕ → ℕ → List (List ℕ × List ℕ)
push_instance [] module_id mdl = (module_id, mdl ∷ []) ∷ []
push_instance ((id, queue) ∷ rest) module_id mdl =
    let rest' = push_instance rest module_id mdl in
    if text_eq id module_id then (id, queue ++ mdl ∷ []) ∷ rest else (id, queue) ∷ rest'

-- `AddKey` of a string in the region, by the address of its header. `module_id` is `GetModuleID`;
-- that `Set` has failed is only printed.
unfoldable pub add_key :
    (texts : ℕ → List ℕ) (module_id : ℕ → List ℕ) → Namespace → ℕ → ℕ → Call (ℕ × Namespace)
add_key texts module_id ns key mdl = new_id ns mdl >>= λ p.
    insert_string texts p.1.key_to_ns_id key p.0 >>= λ q. done (
      p.0,
      let ns' = p.1 in
          record ns' {
            key_to_ns_id = q.1;
            instances = push_instance ns'.instances (module_id mdl) mdl;
          },
    )

-- `none` is the return of false, or of LABSTOR_INVALID_NAMESPACE_KEY.
unfoldable pub get_namespace_id : (texts : ℕ → List ℕ) → Namespace → List ℕ → Call (Option ℕ)
get_namespace_id texts ns key = find_string texts ns.key_to_ns_id key

-- `none` is the null pointer
unfoldable pub get_module : Namespace → ℕ → Option ℕ
get_module ns ns_id = elim (get_elem? ns.private_state ns_id) [
  | none ↦ none
  | some mdl ↦ if mdl == 0 then none else some mdl
]

unfoldable pub instances_of : List (List ℕ × List ℕ) → List ℕ → Option (List ℕ)
instances_of [] module_id = none
instances_of ((id, queue) ∷ rest) module_id =
    let found = instances_of rest module_id in if text_eq id module_id then some queue else found

-- `operator[]` puts an empty queue under an id that is not there.
unfoldable pub all_module_instances : Namespace → List ℕ → List ℕ × Namespace
all_module_instances ns module_id = elim (instances_of ns.instances module_id) [
  | some queue ↦ (queue, ns)
  | none ↦ ([], record ns { instances = (module_id, []) ∷ ns.instances })
]

-- `RemoveKey` returns a null pointer, so the two operations over it do nothing.
unfoldable pub remove_key : Namespace → ℕ → Option ℕ
remove_key ns key = none

unfoldable pub delete_key : Namespace → ℕ → Namespace
unfolding remove_key
delete_key ns key = elim (remove_key ns key) [ none ↦ ns | some mdl ↦ ns ]

unfoldable pub rename_key :
    (texts : ℕ → List ℕ) (module_id : ℕ → List ℕ) → Namespace → ℕ → ℕ → Call Namespace
unfolding remove_key add_key
rename_key texts module_id ns old_key new_key = elim (remove_key ns old_key) [
  | none ↦ done ns
  | some mdl ↦ add_key texts module_id ns new_key mdl >>= λ p. done p.1
]
