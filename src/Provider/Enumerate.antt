-- ===== src/Provider/Enumerate.antt =====
-- src/provider.cpp: the class Provider, its list of credentials and the calls that change it.
pub mod Sound
use sovereign_windows_auth.Base.{
  ℕ, zero, suc, ◌+◌, Bool, true, false, not, ◌&&◌, ◌||◌, List, [], ◌∷◌, ◌++◌, map, Option, none,
  some, ◌==◌, ltb, if◌then◌else◌, length, get_elem?, Result, ok, err,
}
use sovereign_windows_auth.Core.{WideString, AccountProfile}
use sovereign_windows_auth.Filter.Types.{
  Scenario, cpus_invalid, HResult, s_ok, e_pointer, e_notimpl, e_invalidarg, is_desktop,
}
use sovereign_windows_auth.Provider.Credential.{
  Credential, ready, set_deselected, set_provider_events,
}

-- The array of users that Windows gives: its pointer, its count (none: the call fails), and the
-- SID of each (none: the user or the SID cannot be got).
pub record UserArray : Type 0 where
  pub pointer : ℕ
  pub count : Option ℕ
  pub sid_at : ℕ → Option WideString

pub record Provider : Type 0 where
  pub events : Option ℕ
  pub users : Option UserArray
  pub context : ℕ
  pub credentials : List Credential
  pub enumerated : Bool
  pub supported : Bool
  pub scenario : Scenario

unfoldable pub new_provider : Provider
new_provider = record {
  events = none;
  users = none;
  context = 0;
  credentials = [];
  enumerated = false;
  supported = false;
  scenario = cpus_invalid;
}

-- The constructor of Credential.
unfoldable pub new_credential : Provider → UserArray → AccountProfile → Credential
new_credential p users profile = record {
  references = 1;
  profile = profile;
  users = some users.pointer;
  scenario = p.scenario;
  pin_bridge = false;
  provider_events = p.events;
  event_context = p.context;
  ready_password = none;
  ready_at = 0;
  generation = 0;
  working = false;
  status = "Select Sign in, then touch your key.";
}

-- A user whose profile cannot be loaded gets no credential.
unfoldable pub join_profile :
    Provider → UserArray → Result AccountProfile → List Credential → List Credential
join_profile p users (err e) credentials = credentials
join_profile p users (ok profile) credentials = credentials ++ (new_credential p users profile ∷ [])

unfoldable pub join_user :
    (WideString → Result AccountProfile)
    → Provider
    → UserArray
    → Option WideString
    → List Credential
    → List Credential
join_user load p users none credentials = credentials
join_user load p users (some sid) credentials = join_profile p users (load sid) credentials

-- The loop of `enumerate`, from the user `i` on: `load` is `loadProfile`.
unfoldable pub enumerate_users :
    (WideString → Result AccountProfile)
    → Provider
    → UserArray
    → ℕ
    → ℕ
    → List Credential
    → List Credential
enumerate_users load p users zero i credentials = credentials
enumerate_users load p users (suc rounds) i credentials =
    enumerate_users load p users rounds (suc i)
      (join_user load p users (users.sid_at i) credentials)

unfoldable pub enumerate_counted :
    (WideString → Result AccountProfile) → Provider → UserArray → Option ℕ → Provider
enumerate_counted load p users none = record p { enumerated = true }
enumerate_counted load p users (some count) =
    if ltb 256 count then record p { enumerated = true } else record p {
      enumerated = true;
      credentials = enumerate_users load p users count 0 p.credentials;
    }

unfoldable pub enumerate : (WideString → Result AccountProfile) → Provider → Provider
enumerate load p =
    if p.enumerated || not p.supported
    then p
    else (elim p.users [ none ↦ p | some users ↦ enumerate_counted load p users users.count ])

-- `SetDeselected` on every credential, and the clearing of the list. The released credentials are
-- the second part: a worker can still hold one.
unfoldable pub release_all : Provider → Provider × List Credential
release_all p =
    (record p { credentials = []; enumerated = false }, map set_deselected p.credentials)

unfoldable pub set_usage_scenario :
    Bool → Scenario → Provider → HResult × Provider × List Credential
set_usage_scenario remote_session scenario p =
    let (p, released) = release_all p in
    let supported = is_desktop scenario && not remote_session in
    (
      if supported then s_ok else e_notimpl,
      record p { supported = supported; scenario = scenario },
      released,
    )

unfoldable pub advise : Option ℕ → ℕ → Provider → HResult × Provider
advise none context p = (e_pointer, p)
advise (some events) context p = (
  s_ok,
  record p {
    events = some events;
    context = context;
    credentials = map (set_provider_events (some events) context) p.credentials;
  },
)

unfoldable pub provider_un_advise : Provider → HResult × Provider × List Credential
provider_un_advise p =
    let (p, released) = release_all p in (s_ok, record p { events = none }, released)

unfoldable pub set_user_array : Option UserArray → Provider → HResult × Provider × List Credential
set_user_array none p = (e_pointer, p, [])
set_user_array (some users) p =
    let (p, released) = release_all p in (s_ok, record p { users = some users }, released)

-- The loop that looks for a credential that is ready, from the index `i` on.
unfoldable pub first_ready : ℕ → ℕ → List Credential → Option ℕ × List Credential
first_ready now i [] = (none, [])
first_ready now i (c ∷ rest) =
    let later = first_ready now (suc i) rest in
    let (b, c) = ready now c in if b then (some i, c ∷ rest) else (later.0, c ∷ later.1)

-- CREDENTIAL_PROVIDER_NO_DEFAULT.
abbrev pub no_default : ℕ
no_default = 0xffffffff

abbrev pub selection : ℕ → Option ℕ → ℕ × Bool
selection count (some i) = (i, true)
selection count none = (if count == 1 then 0 else no_default, false)

-- The count, the selected index and whether to sign in without a further click.
unfoldable pub get_credential_count :
    Bool
    → (WideString → Result AccountProfile)
    → ℕ
    → Provider
    → HResult × Option (ℕ × ℕ × Bool) × Provider
get_credential_count false load now p = (e_pointer, none, p)
get_credential_count true load now p =
    let p = enumerate load p in
    let count = length p.credentials in
    let (found, credentials) = first_ready now 0 p.credentials in
    let (selected, automatic) = selection count found in
    (s_ok, some (count, selected, automatic), record p { credentials = credentials })

unfoldable pub get_credential_at : Bool → ℕ → Provider → HResult × Option Credential
get_credential_at false index p = (e_pointer, none)
get_credential_at true index p = elim (get_elem? p.credentials index) [
  | none ↦ (e_invalidarg, none)
  | some c ↦ (s_ok, some c)
]

-- The calls that change the provider, one after another.
pub data Call : Type 0 where
  scenario_set : Bool → Scenario → Call
  advised : Option ℕ → ℕ → Call
  un_advised : Call
  users_set : Option UserArray → Call
  counted : Bool → ℕ → Call

unfoldable pub after_call : (WideString → Result AccountProfile) → Call → Provider → Provider
after_call load (scenario_set remote scenario) p = (set_usage_scenario remote scenario p).1
after_call load (advised events context) p = (advise events context p).1
after_call load un_advised p = (provider_un_advise p).1
after_call load (users_set users) p = (set_user_array users p).1
after_call load (counted present now) p = (get_credential_count present load now p).2

unfoldable pub after_calls : (WideString → Result AccountProfile) → List Call → Provider → Provider
after_calls load [] p = p
after_calls load (call ∷ calls) p = after_calls load calls (after_call load call p)
