-- ===== src/Tests/Signins.antt =====
-- A credential that is packed, and a PIN that is asked, for src/windows_auth.cpp and
-- src/windows_pin.cpp.
use sovereign_windows_auth.Base.{
  ◌≡◌, refl, ℕ, ◌≤◌, Bool, true, false, [], ◌∷◌, some, ok, codes, length, replicate, List, ap, none,
  Option,
}
use sovereign_windows_auth.Core.{WideString}
use sovereign_windows_auth.Core.Secret.{new_secret}
use sovereign_windows_auth.Filter.Types.{cpus_logon}
use sovereign_windows_auth.Windows.Token.{Token, formatted, token_sid}
use sovereign_windows_auth.Windows.Auth.{
  Authority, Packer, found_package, windows_authentication_package, has_value, sized, packed,
  pack_text, pack_windows_credential, logged_on, authenticate_windows_buffer,
  validate_windows_credential,
}
use sovereign_windows_auth.Windows.Auth.Validated.{
  IsValidated, validate_windows_credential-IsValidated,
}
use sovereign_windows_auth.Windows.Pin.{
  Candidate, Field, PinProvider, PinCall, text_set, serialization_asked, PinSerialization,
  PinAnswer, WindowsPin, is_user, user_places, pin_fields, keep_one, pick_one, required, connect,
  choose, initialize, is_pin, buffer_of, take_buffer, set_text, ask_serialization, supply,
  supply_pin, serialize, serialize_all,
}
use sovereign_windows_auth.Windows.Pin.Once.{texts, asks, produced, serialize_all_once}
use sovereign_windows_auth.Windows.Pin.Supplied.{IsSupplied, serialize-IsSupplied}
use sovereign_windows_auth.Provider.Serialize.{Auth}
use sovereign_windows_auth.Tests.Touches.{memory}

abbrev pub token : Token
token = record { size = 40; reads = true; text = some (codes "S-1") }

abbrev pub authority : Authority
authority = record {
  connects = true;
  auth_package = some 5;
  identifies = true;
  logon = λ auth_package buffer. some (some token);
}

abbrev pub packer : Packer
packer = record {
  size = λ account password. some 4;
  pack = λ account password n. some (replicate n 1, n);
}

abbrev pub account : WideString
account = codes "MicrosoftAccount\\a"

validated :
    validate_windows_credential packer memory authority account (some (codes "pw")) (codes "S-1")
    ≡ ok tt
unfolding validate_windows_credential pack_windows_credential has_value pack_text sized packed
    new_secret windows_authentication_package found_package authenticate_windows_buffer logged_on
    token_sid formatted
validated = refl

validate_windows_credential-IsValidated_example :
    IsValidated packer memory authority account (some (codes "pw")) (codes "S-1")
validate_windows_credential-IsValidated_example =
    validate_windows_credential-IsValidated packer memory authority account (some (codes "pw"))
      (codes "S-1") validated

abbrev candidate : WideString → Candidate
candidate sid = record { available = true; has_user = true; sid = some sid }

abbrev field : ℕ → Bool → Field
field n secret_text = record {
  described = true;
  identifier = n;
  is_password = secret_text;
  has_state = true;
  is_shown = true;
  is_focused = secret_text;
}

abbrev pub provider : PinProvider
provider = record {
  identified = true;
  opened = true;
  takes_scenario = true;
  advised = true;
  takes_users = true;
  sets_users = true;
  counts = true;
  automatic = false;
  candidates = candidate (codes "S-2") ∷ candidate (codes "S-1") ∷ [];
  credential_advised = true;
  selects = true;
  auto_selected = false;
  counts_fields = true;
  fields = field 3 false ∷ field 4 true ∷ [];
}

abbrev windows : WindowsPin
windows = record { credential = 1; pin_field = 4; used = false; calls = [] }

initialized : initialize provider true (codes "S-1") cpus_logon ≡ ok windows
unfolding initialize connect choose user_places is_user pin_fields pick_one keep_one required
initialized = refl

-- A credential that makes the text that it was given last into its buffer.
abbrev pub answered : List PinCall → PinSerialization
answered (serialization_asked k ∷ (text_set j place text ∷ earlier)) = record {
  succeeded = true;
  finished = true;
  auth_package = 5;
  serialized = some text;
}
answered _ = record { succeeded = false; finished = false; auth_package = 0; serialized = none }

abbrev pub answer : PinAnswer
answer = record { takes_text = λ calls. true; serializes = answered }

abbrev pub pin : WideString
pin = codes "1234"

abbrev auth : Auth
auth = record { auth_package = 5; buffer = pin }

abbrev calls : List PinCall
calls = text_set 1 4 [] ∷ serialization_asked 1 ∷ text_set 1 4 pin ∷ []

supplied :
    serialize memory answer (some pin) windows
    ≡ (record windows { used = true; calls = calls }, ok auth)
unfolding serialize is_pin supply_pin supply set_text ask_serialization take_buffer buffer_of
    new_secret
supplied = refl

serialize-IsSupplied_example :
    IsSupplied provider answer
      (codes "S-1")
      pin
      (serialize memory answer (some pin) windows).0.calls
      auth
serialize-IsSupplied_example =
    serialize-IsSupplied memory provider answer true (codes "S-1") pin cpus_logon windows auth
      initialized (ap (λ r. r.1) supplied)

abbrev requests : List (Option WideString)
requests = none ∷ some pin ∷ some pin ∷ []

serialize_all_once_example :
    (length (texts (serialize_all memory answer requests windows).0.calls) ≤ 1)
    × (length (asks (serialize_all memory answer requests windows).0.calls) ≤ 1)
    × (length (produced (serialize_all memory answer requests windows).1)
        ≤ length (asks (serialize_all memory answer requests windows).0.calls))
serialize_all_once_example =
    serialize_all_once memory answer requests provider true (codes "S-1") cpus_logon windows
      initialized
