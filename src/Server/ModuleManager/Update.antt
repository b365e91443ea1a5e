-- ===== src/Server/ModuleManager/Update.antt =====
-- What an update of a module leaves.
use mathlib.Core.List.{append-nil, append_assoc}
use labstor.Base.{
  ℕ, suc, ◌≡◌, refl, ◌∙◌, inl, inr, true, false, Option, some, List, [], ◌∷◌, ◌++◌, arith,
  Bool-cases, Option-cases, length, done,
}
use labstor.Text.{text_eq, text_eq_iff}
use labstor.Server.Namespace.{Namespace, instances_of, all_module_instances, get_module}
use labstor.Server.ModuleManager.{
  ModuleHandle, ModuleTable, Library, Manager, find_handle, open_module, set_module_constructor,
  get_module_constructor, set_queue, update_loop, centralized_update_module,
}

-- a new instance for each old one
abbrev pub renewed : (ℕ → ℕ → ℕ) → ℕ → List ℕ → List ℕ
renewed fresh i [] = []
renewed fresh i (old ∷ queue) = let rest = renewed fresh (suc i) queue in fresh i old ∷ rest

update_loop_lem :
    (renew : ℕ → ℕ → Option ℕ) (fresh : ℕ → ℕ → ℕ) (i : ℕ) (queue news deleted : List ℕ)
    → ((j old : ℕ) → renew j old ≡ some (fresh j old))
    → update_loop renew (length queue) i (queue ++ news) deleted
      ≡ done (record {
        thrown = false;
        queue = news ++ renewed fresh i queue;
        deleted = deleted ++ queue;
      })
unfolding update_loop
update_loop_lem renew fresh i [] news deleted works = rw (append-nil news, append-nil deleted) refl
update_loop_lem renew fresh i (old ∷ queue) news deleted works =
    let new = fresh i old in
    rw (works i old, append_assoc queue news (new ∷ []))
      (update_loop_lem renew fresh (suc i) queue (news ++ new ∷ []) (deleted ++ old ∷ []) works
        ∙ rw
            (
              append_assoc news (new ∷ []) (renewed fresh (suc i) queue),
              append_assoc deleted (old ∷ []) queue,
            )
            refl)

text_eq_self : (a : List ℕ) → text_eq a a ≡ true
text_eq_self a = ground (arith, text_eq_iff a a)

set_queue-instances_of :
    (l : List (List ℕ × List ℕ)) (module_id q q' : List ℕ)
    → instances_of l module_id ≡ some q
    → instances_of (set_queue l module_id q') module_id ≡ some q'
unfolding instances_of set_queue
set_queue-instances_of [] module_id q q' there = absurd (cc (there))
set_queue-instances_of ((id, q₀) ∷ rest) module_id q q' there =
    elim (Bool-cases (text_eq id module_id)) [
      | inl same ↦ rw (same, same) refl
      | inr differ ↦
          rw (differ, differ) (set_queue-instances_of rest module_id q q' (rw differ at there))
    ]

module _ (ns : Namespace) (module_id : List ℕ) where
  queue_at :
      instances_of (all_module_instances ns module_id).1.instances module_id
      ≡ some (all_module_instances ns module_id).0
  unfolding all_module_instances instances_of
  queue_at = elim (Option-cases (instances_of ns.instances module_id)) [
    | inl none_there ↦ rw (all_module_instances, none_there, text_eq_self module_id) refl
    | inr (q, there) ↦ rw (all_module_instances, there, there) refl
  ]

  same_state : (all_module_instances ns module_id).1.private_state ≡ ns.private_state
  unfolding all_module_instances
  same_state = elim (Option-cases (instances_of ns.instances module_id)) [
    | inl none_there ↦ rw (all_module_instances, none_there) refl
    | inr (q, there) ↦ rw (all_module_instances, there) refl
  ]

queue_of_instances :
    (ns : Namespace) (module_id q : List ℕ)
    → instances_of ns.instances module_id ≡ some q
    → (all_module_instances ns module_id).0 ≡ q
unfolding all_module_instances
queue_of_instances ns module_id q there = rw (all_module_instances, there) refl

get_module-same :
    (ns ns' : Namespace) (i : ℕ)
    → ns'.private_state ≡ ns.private_state
    → get_module ns' i ≡ get_module ns i
unfolding get_module
get_module-same ns ns' i same = rw (get_module, same) refl

set_constructor_lem :
    (t : ModuleTable) (module_id : List ℕ) (info old : ModuleHandle)
    → find_handle t.pkg_pool module_id ≡ some old
    → let t' = set_module_constructor t module_id info in
      (get_module_constructor t' module_id ≡ done old.constructor_fn)
      × (t'.closed ≡ old.handle ∷ t.closed)
unfolding set_module_constructor get_module_constructor
set_constructor_lem t module_id info old there = (
  rw (set_module_constructor, there, get_module_constructor, there) refl,
  rw (set_module_constructor, there) refl,
)

-- When a library has the constructor and the id of a module that the table has, and no constructor
-- and no StateUpdate throws, the update returns; then the instances of the module are a new one for
-- each old one, in their order, and exactly the old ones were deleted besides those before, but
-- GetModule of every id is what it was, an instance that was deleted too, and the constructor that
-- the table has is still that of the library before, which is closed.
pub update-stale :
    (lib : Library) (create : ℕ) (module_id : List ℕ) (renew : ℕ → ℕ → ℕ → Option ℕ)
    (fresh : ℕ → ℕ → ℕ) (m : Manager) (old : ModuleHandle)
    → lib.create_module ≡ some create
    → lib.get_module_id ≡ some module_id
    → ((i inst : ℕ) → renew create i inst ≡ some (fresh i inst))
    → find_handle m.table.pkg_pool module_id ≡ some old
    → let queue = (all_module_instances m.ns module_id).0 in
      (m' : Manager) × (centralized_update_module (some lib) renew m ≡ done (false, m'))
      × ((all_module_instances m'.ns module_id).0 ≡ renewed fresh 0 queue)
      × (m'.deleted ≡ m.deleted ++ queue)
      × ((i : ℕ) → get_module m'.ns i ≡ get_module m.ns i)
      × (get_module_constructor m'.table module_id ≡ done old.constructor_fn)
      × (m'.table.closed ≡ old.handle ∷ m.table.closed)
unfolding centralized_update_module open_module
update-stale lib create module_id renew fresh m old has_create has_id works there =
    let queue = (all_module_instances m.ns module_id).0 in
    let ns = (all_module_instances m.ns module_id).1 in
    let info : ModuleHandle = record { constructor_fn = create; handle = lib.address } in
    let loop : update_loop (renew create) (length queue) 0 queue m.deleted
        ≡ done (record {
          thrown = false;
          queue = renewed fresh 0 queue;
          deleted = m.deleted ++ queue;
        }) =
      rw (append-nil queue) at
        (update_loop_lem (renew create) fresh 0 queue [] m.deleted (λ j inst. works j inst)) in
    let ns' : Namespace = record ns {
      instances = set_queue ns.instances module_id (renewed fresh 0 queue);
    } in
    let (same, closed) = set_constructor_lem m.table module_id info old there in
    (
      record {
        table = set_module_constructor m.table module_id info;
        ns = ns';
        deleted = m.deleted ++ queue;
      },
      rw (has_create, has_id, loop) refl,
      queue_of_instances ns' module_id (renewed fresh 0 queue) (
          set_queue-instances_of ns.instances module_id queue (renewed fresh 0 queue)
            (queue_at m.ns module_id)),
      refl,
      λ i. get_module-same m.ns ns' i (same_state m.ns module_id),
      same,
      closed,
    )
