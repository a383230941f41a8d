-- ===== src/Com/Servers.antt =====
-- The class factories and the entry points of the four modules: src/desktop_filter.cpp,
-- src/filter_vm.cpp, src/provider.cpp and src/pin_bridge_vm.cpp.
use sovereign_windows_auth.Base.{ℕ, Bool, List, [], ◌∷◌, Option}
use sovereign_windows_auth.Filter.Types.{
  Guid, HResult, clsid_sovereign_auth, clsid_sovereign_filter,
}
use sovereign_windows_auth.Filter.Lab.{update_remote_credential}
use sovereign_windows_auth.Com.{
  Server, ModuleState, Object, query, create_instance, get_class_object, lock_guarded,
  lock_unguarded, can_unload,
}

-- The identifiers of the interfaces, which the headers of Windows give.
pub record Interfaces : Type 0 where
  pub unknown : Guid
  pub class_factory : Guid
  pub filter : Guid
  pub provider : Guid
  pub set_user_array : Guid

module _ (ids : Interfaces) where
  abbrev pub filter_server : Server
  filter_server = record {
    iid_unknown = ids.unknown;
    factory_iids = ids.class_factory ∷ [];
    product_iids = ids.filter ∷ [];
    clsid = clsid_sovereign_filter;
  }

  abbrev pub provider_server : Server
  provider_server = record {
    iid_unknown = ids.unknown;
    factory_iids = ids.class_factory ∷ [];
    product_iids = ids.provider ∷ ids.set_user_array ∷ [];
    clsid = clsid_sovereign_auth;
  }

  unfoldable pub desktop_query :
      Bool → Guid → ℕ → Object → ModuleState → HResult × Option ℕ × ModuleState
  desktop_query = query filter_server

  unfoldable pub desktop_create_instance :
      Bool → Bool → Bool → Guid → ModuleState → HResult × Option ℕ × ModuleState
  desktop_create_instance = create_instance filter_server

  unfoldable pub desktop_get_class_object :
      Bool → Bool → Guid → Guid → ModuleState → HResult × Option ℕ × ModuleState
  desktop_get_class_object = get_class_object filter_server

  unfoldable pub vm_query :
      Bool → Guid → ℕ → Object → ModuleState → HResult × Option ℕ × ModuleState
  vm_query = query filter_server

  -- QueryInterface of the factory.
  unfoldable pub vm_factory_query :
      Bool → Guid → ℕ → Object → ModuleState → HResult × Option ℕ × ModuleState
  vm_factory_query = query filter_server

  unfoldable pub vm_create_instance :
      Bool → Bool → Bool → Guid → ModuleState → HResult × Option ℕ × ModuleState
  vm_create_instance = create_instance filter_server

  unfoldable pub vm_get_class_object :
      Bool → Bool → Guid → Guid → ModuleState → HResult × Option ℕ × ModuleState
  vm_get_class_object = get_class_object filter_server

  unfoldable pub provider_query :
      Bool → Guid → ℕ → Object → ModuleState → HResult × Option ℕ × ModuleState
  provider_query = query provider_server

  -- QueryInterface of the factory.
  unfoldable pub provider_factory_query :
      Bool → Guid → ℕ → Object → ModuleState → HResult × Option ℕ × ModuleState
  provider_factory_query = query provider_server

  unfoldable pub provider_create_instance :
      Bool → Bool → Bool → Guid → ModuleState → HResult × Option ℕ × ModuleState
  provider_create_instance = create_instance provider_server

  unfoldable pub provider_get_class_object :
      Bool → Bool → Guid → Guid → ModuleState → HResult × Option ℕ × ModuleState
  provider_get_class_object = get_class_object provider_server

  unfoldable pub lab_query :
      Bool → Guid → ℕ → Object → ModuleState → HResult × Option ℕ × ModuleState
  lab_query = query provider_server

  -- QueryInterface of the factory.
  unfoldable pub lab_factory_query :
      Bool → Guid → ℕ → Object → ModuleState → HResult × Option ℕ × ModuleState
  lab_factory_query = query provider_server

  unfoldable pub lab_create_instance :
      Bool → Bool → Bool → Guid → ModuleState → HResult × Option ℕ × ModuleState
  lab_create_instance = create_instance provider_server

  unfoldable pub lab_get_class_object :
      Bool → Bool → Guid → Guid → ModuleState → HResult × Option ℕ × ModuleState
  lab_get_class_object = get_class_object provider_server

unfoldable pub desktop_lock_server : List ℕ → Bool → ModuleState → HResult × ModuleState
desktop_lock_server = lock_guarded

unfoldable pub vm_lock_server : List ℕ → Bool → ModuleState → HResult × ModuleState
vm_lock_server = lock_guarded

unfoldable pub lab_lock_server : List ℕ → Bool → ModuleState → HResult × ModuleState
lab_lock_server = lock_guarded

unfoldable pub provider_lock_server : Bool → ModuleState → HResult × ModuleState
provider_lock_server = lock_unguarded

unfoldable pub desktop_can_unload : ModuleState → HResult
desktop_can_unload = can_unload

unfoldable pub vm_can_unload : ModuleState → HResult
vm_can_unload = can_unload

unfoldable pub provider_can_unload : ModuleState → HResult
provider_can_unload = can_unload

unfoldable pub lab_can_unload : ModuleState → HResult
lab_can_unload = can_unload

unfoldable pub desktop_update_remote_credential {ℓ} :
    {A : Type ℓ} → A → Option A → HResult × Option A
desktop_update_remote_credential = update_remote_credential

unfoldable pub vm_update_remote_credential {ℓ} : {A : Type ℓ} → A → Option A → HResult × Option A
vm_update_remote_credential = update_remote_credential
