-- ===== src/Tests/Modules.antt =====
-- An update of a module at concrete inputs.
use labstor.Base.{ℕ, ◌+◌, ◌≡◌, refl, true, false, none, some, [], ◌∷◌, ◌==◌, if◌then◌else◌, done}
use labstor.Tests.Servers.{namespace}
use labstor.Text.{text_eq, same_chars}
use labstor.Server.ModuleManager.{
  ModuleHandle, Library, Manager, find_handle, get_module_constructor, centralized_update_module,
}
use labstor.Server.ModuleManager.Update.{update-stale}
use labstor.Server.Namespace.{all_module_instances, get_module, instances_of}

abbrev library : Library
library = record { address = 900; create_module = some 910; get_module_id = some (7 ∷ []) }

abbrev before_update : ModuleHandle
before_update = record { constructor_fn = 810; handle = 800 }

-- the module has the instances 50 and 60, under the ids 1 and 2
abbrev manager : Manager
manager = record {
  table = record { pkg_pool = (7 ∷ [], before_update) ∷ []; closed = [] };
  ns =
      let ns = namespace in
      record ns { private_state = 0 ∷ 50 ∷ 60 ∷ []; instances = (7 ∷ [], 50 ∷ 60 ∷ []) ∷ [] };
  deleted = [];
}

abbrev fresh : ℕ → ℕ → ℕ
fresh i old = old + 1000

update-stale_example :
    (m' : Manager) × (centralized_update_module
        (some library)
        (λ create i old. some (fresh i old))
        manager
      ≡ done (false, m'))
    × ((all_module_instances m'.ns (7 ∷ [])).0 ≡ 1050 ∷ 1060 ∷ [])
    × (m'.deleted ≡ 50 ∷ 60 ∷ [])
    × ((i : ℕ) → get_module m'.ns i ≡ get_module manager.ns i)
    × (get_module_constructor m'.table (7 ∷ []) ≡ done 810)
    × (m'.table.closed ≡ 800 ∷ [])
unfolding all_module_instances instances_of find_handle text_eq same_chars
update-stale_example =
    update-stale library 910 (7 ∷ []) (λ create i old. some (fresh i old)) fresh manager
      before_update refl refl (λ i inst. refl) refl

-- When the second instance throws, it is neither an instance nor deleted any more.
second_throws :
    (m' : Manager) × (centralized_update_module
        (some library)
        (λ create i old. if i == 0 then some 1050 else none)
        manager
      ≡ done (true, m'))
    × ((all_module_instances m'.ns (7 ∷ [])).0 ≡ 1050 ∷ [])
    × (m'.deleted ≡ 50 ∷ [])
unfolding centralized_update_module all_module_instances instances_of text_eq same_chars
second_throws = (_, refl, refl, refl)
