-- ===== src/Filter/Types.antt =====
-- What the filters share: identifiers, scenarios, results and the arrays of the interface.
use sovereign_windows_auth.Base.{
  ◌≡◌, refl, ℕ, Bool, true, false, List, [], ◌∷◌, Option, none, some, String, ◌==◌, if◌then◌else◌,
}

-- A GUID as its number of 128 bits, its fields from the high bits down.
abbrev pub Guid : Type 0
Guid = ℕ

-- CREDENTIAL_PROVIDER_USAGE_SCENARIO; a cast can give a value without a name.
pub data Scenario : Type 0 where
  cpus_invalid cpus_logon cpus_unlock_workstation cpus_change_password cpus_credui cpus_plap :
      Scenario
  cpus_other : ℕ → Scenario

pub data HResult : Type 0 where
  s_ok s_false e_pointer e_nointerface e_notimpl e_unexpected e_outofmemory e_invalidarg e_fail :
      HResult
  class_e_noaggregation class_e_classnotavailable : HResult
  other_result : ℕ → HResult

-- `scenario == CPUS_LOGON || scenario == CPUS_UNLOCK_WORKSTATION`
abbrev pub is_desktop : Scenario → Bool
is_desktop cpus_logon = true
is_desktop cpus_unlock_workstation = true
is_desktop _ = false

-- A BOOL is a number, and any but 0 is true.
abbrev pub truth : ℕ → Bool
truth b = if b == 0 then false else true

abbrev pub is_some {ℓ} : {A : Type ℓ} → Option A → Bool
is_some none = false
is_some (some a) = true

abbrev pub clsid_sovereign_auth : Guid
clsid_sovereign_auth = 0x8c19c6d849be4d769da8fc6a09229b74

abbrev pub clsid_sovereign_filter : Guid
clsid_sovereign_filter = 0x51583b4d1d804692b4ef1c385fbcf22d

pub record KnownProvider : Type 0 where
  pub id : Guid
  pub name : String

abbrev pub convenience_providers : List KnownProvider
convenience_providers =
    record { id = 0xd68866039d2f4eb2b6671971041fa96b; name = "Windows Hello PIN" }
    ∷ record { id = 0x60b78e88ead8445c9cfd0b87f74ea6cd; name = "Password" }
    ∷ record { id = 0x8af662bf65a04d0aa540a338a999d36f; name = "Face" }
    ∷ record { id = 0xbec09223b018416da0ac523971b639f5; name = "Fingerprint" }
    ∷ record { id = 0x2135f72a90b54ed3a7f18bb705ac276a; name = "Picture password" }
    ∷ record { id = 0xcb82ea129f71446d89e18d0924e1256e; name = "Legacy PIN" }
    ∷ []

name_in : Guid → List KnownProvider → Option String
name_in id [] = none
name_in id (provider ∷ rest) = if id == provider.id then some provider.name else name_in id rest

unfoldable pub convenience_name : Guid → Option String
unfolding name_in
convenience_name id = name_in id convenience_providers

abbrev pub is_convenience : Guid → Bool
is_convenience id = is_some (convenience_name id)

-- The key provider is no convenience provider.
pub sovereign_not_convenience : is_convenience clsid_sovereign_auth ≡ false
unfolding convenience_name
sovereign_not_convenience = refl
