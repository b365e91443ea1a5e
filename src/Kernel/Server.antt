-- ===== src/Kernel/Server.antt =====
-- The netlink server of src/kernel/server/kernel_server.c. The netlink calls and the modules'
-- handlers are code outside of it; the model says which of them is called, and with what.
use labstor.Base.{ℕ, ◌-◌, ◌≤◌, ◌<◌, ◌≡◌, ap, ◌∙◌, Option, none, some, List, arith, u32_mod, done}
use labstor.Request.{Request}
use labstor.Kernel.ModuleManager.{
  Module, Modules, max_labstor_modules, init_labstor_module_manager,
  get_labstor_module_by_runtime_id,
}
use labstor.Kernel.ModuleManager.View.{
  Change, change_all, latest, UnloadsInTable, change_all-latest, length-init, get-init,
}

-- what `server_loop` does with a message: a code is sent to the process, or a handler is called
pub data Action : Type 0 where
  labstor_msg_trusted_server : (code pid : ℕ) → Action
  process_request_fn_netlink : (handler pid : ℕ) → Request → Action

-- the bit patterns of -1 and -2
abbrev pub no_module : ℕ
no_module = u32_mod - 1

abbrev pub no_netlink : ℕ
no_netlink = u32_mod - 2

-- the part of `server_loop` behind the lookup
unfoldable pub serve : ℕ → Request → Option Module → Action
serve pid rq none = labstor_msg_trusted_server no_module pid
serve pid rq (some pkg) = elim pkg.process_request_fn_netlink [
  | none ↦ labstor_msg_trusted_server no_netlink pid
  | some handler ↦ process_request_fn_netlink handler pid rq
]

unfoldable pub server_loop : Modules → ℕ → Request → Action
server_loop modules pid rq = serve pid rq (get_labstor_module_by_runtime_id modules rq.ns_id)

-- After any loads and unloads of kernel modules from the initial table on, in which only ids of
-- the table are unloaded, a message with an id of the table goes to the handler of the module
-- that was last loaded under the id, if since then no module with that id was unloaded, that one
-- or an earlier one; the process gets -1 if none was loaded or one was unloaded since, and -2 if
-- the module has no handler.
pub server_loop-latest :
    (changes : List Change) (pid : ℕ) (rq : Request)
    → UnloadsInTable changes
    → rq.ns_id < max_labstor_modules
    → (modules : Modules) × (change_all init_labstor_module_manager changes ≡ done modules)
      × (latest rq.ns_id none changes ≡ none
          → server_loop modules pid rq ≡ labstor_msg_trusted_server no_module pid)
      × ((pkg : Module)
          → latest rq.ns_id none changes ≡ some pkg
          → pkg.process_request_fn_netlink ≡ none
          → server_loop modules pid rq ≡ labstor_msg_trusted_server no_netlink pid)
      × ((pkg : Module) (handler : ℕ)
          → latest rq.ns_id none changes ≡ some pkg
          → pkg.process_request_fn_netlink ≡ some handler
          → server_loop modules pid rq ≡ process_request_fn_netlink handler pid rq)
unfolding server_loop serve
server_loop-latest changes pid rq known lt =
    let (modules, run, len, all) =
      change_all-latest changes init_labstor_module_manager length-init known in
    let found = all rq.ns_id lt ∙ ap (λ m. latest rq.ns_id m changes) (get-init rq.ns_id) in
    (
      modules,
      run,
      λ absent. ap (serve pid rq) (found ∙ absent),
      λ pkg is_pkg silent. ap (serve pid rq) (found ∙ is_pkg) ∙ rw silent,
      λ pkg handler is_pkg here. ap (serve pid rq) (found ∙ is_pkg) ∙ rw here,
    )

-- A message with an id past the table gets -1, whatever the table holds.
pub server_loop-past_table :
    (modules : Modules) (pid : ℕ) (rq : Request)
    → max_labstor_modules ≤ rq.ns_id
    → server_loop modules pid rq ≡ labstor_msg_trusted_server no_module pid
unfolding server_loop serve get_labstor_module_by_runtime_id
server_loop-past_table modules pid rq past = ground arith
