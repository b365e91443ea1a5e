-- ===== src/Tests/Kernels.antt =====
-- The kernel server at concrete inputs.
use labstor.Base.{ℕ, zero, suc, ◌<◌, ◌≡◌, none, some, List, [], ◌∷◌, arith, done, along_some}
use labstor.Request.{Request}
use labstor.Kernel.ModuleManager.{Module, Modules, max_labstor_modules, init_labstor_module_manager}
use labstor.Kernel.ModuleManager.View.{Change, load, unload, change_all, latest, UnloadsInTable}
use labstor.Kernel.Server.{
  labstor_msg_trusted_server, process_request_fn_netlink, no_module, no_netlink, server_loop,
  server_loop-latest,
}

abbrev fs : Module
fs = record {
  module_id = 1;
  runtime_id = 3;
  process_request_fn = none;
  process_request_fn_netlink = some 9000;
}

abbrev driver : Module
driver = record {
  module_id = 2;
  runtime_id = 5;
  process_request_fn = none;
  process_request_fn_netlink = none;
}

abbrev history : List Change
history = load driver ∷ load fs ∷ unload driver ∷ []

abbrev id_of : Change → ℕ
id_of (load pkg) = pkg.runtime_id
id_of (unload pkg) = pkg.runtime_id

history-UnloadsInTable : UnloadsInTable history
history-UnloadsInTable zero pkg at = absurd (cc (at))
history-UnloadsInTable (suc zero) pkg at = absurd (cc (at))
history-UnloadsInTable (suc (suc zero)) pkg at =
    along_some (λ c. id_of c < max_labstor_modules) (unload driver) (unload pkg) at (omega arith)
history-UnloadsInTable (suc (suc (suc i))) pkg at = absurd (cc (at))

abbrev message : Request
message = record { req_id = 0; ns_id = 3; code = 0; op = 0 }

server_loop-latest_example :
    (modules : Modules) × (change_all init_labstor_module_manager history ≡ done modules)
    × (latest 3 none history ≡ none
        → server_loop modules 77 message ≡ labstor_msg_trusted_server no_module 77)
    × ((pkg : Module)
        → latest 3 none history ≡ some pkg
        → pkg.process_request_fn_netlink ≡ none
        → server_loop modules 77 message ≡ labstor_msg_trusted_server no_netlink 77)
    × ((pkg : Module) (handler : ℕ)
        → latest 3 none history ≡ some pkg
        → pkg.process_request_fn_netlink ≡ some handler
        → server_loop modules 77 message ≡ process_request_fn_netlink handler 77 message)
server_loop-latest_example =
    server_loop-latest history 77 message history-UnloadsInTable (omega arith)

abbrev stray : Module
stray = record {
  module_id = 3;
  runtime_id = 64;
  process_request_fn = none;
  process_request_fn_netlink = none;
}
