-- ===== src/SignIn.antt =====
-- The sign-in as a whole: the Credential of src/provider.cpp with the worker's unlockAccount of
-- src/profile.cpp, and the packing of src/windows_pin.cpp and src/windows_auth.cpp.
pub mod Unchanged
pub mod Carried
pub mod Proven
use sovereign_windows_auth.Base.{
  ℕ, Bool, true, List, [], ◌∷◌, Option, none, some, Result, ok, err, ◌>>=◌, ◌>>◌,
}
use sovereign_windows_auth.Core.{Bytes, WideString, AccountProfile}
use sovereign_windows_auth.Core.Secret.{Cipher, Memory}
use sovereign_windows_auth.Profile.Sid.{SidApi}
use sovereign_windows_auth.Filter.Types.{Scenario, HResult, is_some}
use sovereign_windows_auth.Touch.Device.{Hardware}
use sovereign_windows_auth.Touch.Unlock.{unlock_account}
use sovereign_windows_auth.Windows.Pin.{PinProvider, PinAnswer, initialize, serialize}
use sovereign_windows_auth.Windows.Auth.{
  Authority, Packer, windows_authentication_package, pack_windows_credential,
}
use sovereign_windows_auth.Provider.Credential.{Credential, Worker, Platform, worker_password}
use sovereign_windows_auth.Provider.Serialize.{Auth, Packing, Reply, get_serialization}
use sovereign_windows_auth.Provider.Protocol.{
  Event, began, ended, asked, taken, deselected, listened, System, step,
}
use sovereign_windows_auth.Provider.Safety.{alone}

-- What Windows answers while a password is packed.
pub record Desktop : Type 0 where
  pub memory : Memory
  pub pin_provider : PinProvider
  pub pin_answer : PinAnswer
  pub packer : Packer
  pub authority : Authority

-- The two branches of `GetSerialization`: a new WindowsPin that is asked once, or the package and
-- the packed account.
unfoldable pub by_pin : Desktop → Option ℕ → WideString → Scenario → WideString → Result Auth
by_pin desktop users sid scenario text = do
  windows ← initialize desktop.pin_provider (is_some users) sid scenario
  (serialize desktop.memory desktop.pin_answer (some text) windows).1

unfoldable pub by_account : Desktop → WideString → WideString → Result Auth
by_account desktop account text = do
  auth_package ← windows_authentication_package desktop.authority
  buffer ← pack_windows_credential desktop.packer desktop.memory account (some text)
  ok (record { auth_package = auth_package; buffer = buffer })

unfoldable pub desktop_packing : Desktop → Packing
desktop_packing desktop = record {
  pin_serialize = by_pin desktop;
  pack_credential = by_account desktop;
}

-- What opens the passwords on this machine.
pub record Opener : Type 0 where
  pub api : SidApi
  pub cipher : Cipher
  pub memory : Memory

-- The time that a worker gives the key, and rounds of the search that are enough for it.
abbrev pub worker_timeout : ℕ
worker_timeout = 15000

abbrev pub worker_rounds : ℕ
worker_rounds = 181

unfoldable pub returned : Bool → Bool → Option (Result Bytes) → Option Bytes
returned initialized unmarshaled none = none
returned initialized unmarshaled (some r) = worker_password initialized unmarshaled r

-- The password that a worker ends with, from what the hardware answers to it.
unfoldable pub worker_end : Opener → AccountProfile → Bool → Bool → Hardware → Option Bytes
unfolding returned
worker_end opener profile initialized unmarshaled hardware = returned initialized unmarshaled (
    unlock_account opener.api opener.cipher opener.memory hardware worker_rounds profile
      worker_timeout)

-- The operations on a credential, in which a worker ends with what the hardware answered to it at a
-- time. What other calls take is not handed out.
pub data Operation : Type 0 where
  begin_proof : Platform → Operation
  key_answered : ℕ → Bool → Bool → Hardware → Operation
  readiness_asked : ℕ → Operation
  password_taken : ℕ → Operation
  deselection : Operation
  events_set : Option ℕ → ℕ → Operation

unfoldable pub event_of : Opener → AccountProfile → Operation → Event
event_of opener profile (begin_proof platform) = began platform
event_of opener profile (key_answered now initialized unmarshaled hardware) =
    ended now (worker_end opener profile initialized unmarshaled hardware)
event_of opener profile (readiness_asked now) = asked now
event_of opener profile (password_taken now) = taken now
event_of opener profile deselection = deselected
event_of opener profile (events_set events context) = listened events context

unfoldable pub events_of : Opener → AccountProfile → List Operation → List Event
unfolding event_of
events_of opener profile [] = []
events_of opener profile (o ∷ operations) =
    event_of opener profile o ∷ events_of opener profile operations

unfoldable pub after : List Event → System → System
after [] s = s
after (e ∷ es) s = after es (step e s).0

-- `GetSerialization` after operations, while other threads go on with `others` between its critical
-- sections.
unfoldable pub sign_in :
    Opener
    → Desktop
    → Credential
    → List Operation
    → List Operation
    → ℕ
    → Platform
    → Bool
    → HResult × Option Reply × Credential × Option Worker
unfolding events_of after desktop_packing
sign_in opener desktop c before others now platform allocates =
    let s = after (events_of opener c.profile before) (alone c) in
    let elsewhere : Credential → Credential = λ d.
      (after (events_of opener c.profile others)
        (record { credential = d; worker = s.worker })).credential in
    get_serialization true now platform (desktop_packing desktop) elsewhere allocates s.credential
