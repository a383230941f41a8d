-- ===== src/Windows/Pin.antt =====
-- src/windows_pin.cpp: the PIN credential of Windows, found for one user and asked once.
pub mod Once
pub mod Chosen
pub mod Supplied
use sovereign_windows_auth.Base.{
  ℕ, ◌+◌, Bool, true, false, not, ◌&&◌, ◌||◌, List, [], ◌∷◌, length, Option, none, some, ◌==◌, ltb,
  leb, if◌then◌else◌, String, Result, ok, err, ◌>>=◌, ◌>>◌, need,
}
use sovereign_windows_auth.Core.{Bytes, WideString}
use sovereign_windows_auth.Core.Secret.{Memory, new_secret}
use sovereign_windows_auth.Profile.Wide.{wide_eq, c_str}
use sovereign_windows_auth.Filter.Types.{Scenario, is_desktop}
use sovereign_windows_auth.Provider.Serialize.{Auth}

-- A credential of the provider: whether it is handed out, has the newer interface, and its user's
-- SID, if it tells one.
pub record Candidate : Type 0 where
  pub available : Bool
  pub has_user : Bool
  pub sid : Option WideString

-- A field of the chosen credential: whether its descriptor is handed out, its identifier, whether
-- it is a password, and where its state is told, whether it is shown and whether it has the focus.
pub record Field : Type 0 where
  pub described : Bool
  pub identifier : ℕ
  pub is_password : Bool
  pub has_state : Bool
  pub is_shown : Bool
  pub is_focused : Bool

-- What the PIN provider answers, call by call; a failure of a call throws.
pub record PinProvider : Type 0 where
  pub identified : Bool
  pub opened : Bool
  pub takes_scenario : Bool
  pub advised : Bool
  pub takes_users : Bool
  pub sets_users : Bool
  pub counts : Bool
  pub automatic : Bool
  pub candidates : List Candidate
  pub credential_advised : Bool
  pub selects : Bool
  pub auto_selected : Bool
  pub counts_fields : Bool
  pub fields : List Field

-- A call on the credential at a place of the provider's list: a text is set in a field, or the
-- serialization is asked for.
pub data PinCall : Type 0 where
  text_set : ℕ → ℕ → WideString → PinCall
  serialization_asked : ℕ → PinCall

-- `Impl` once it is initialized: the credential's place and its field for the PIN, with the calls
-- that were made on the provider's credentials since then, the latest first.
pub record WindowsPin : Type 0 where
  pub credential : ℕ
  pub pin_field : ℕ
  pub used : Bool
  pub calls : List PinCall

unfoldable pub is_user : WideString → Option WideString → Bool
is_user expected none = false
is_user expected (some sid) = wide_eq expected sid

-- The places of the credentials of one user, one entry for each credential.
unfoldable pub user_places : WideString → ℕ → List Candidate → List (Option ℕ)
unfolding is_user
user_places expected i [] = []
user_places expected i (c ∷ candidates) =
    (if c.available && (c.has_user && is_user expected c.sid) then some i else none)
    ∷ user_places expected (i + 1) candidates

unfoldable pub pin_fields : List Field → List (Option ℕ)
pin_fields [] = []
pin_fields (f ∷ fields) =
    (if (f.described && f.is_password) && (f.has_state && (f.is_shown && f.is_focused))
      then some f.identifier
      else none)
    ∷ pin_fields fields

-- The body of both loops: a second match throws.
unfoldable pub keep_one : String → Option ℕ → Option ℕ → Result (Option ℕ)
keep_one message chosen none = ok chosen
keep_one message none (some k) = ok (some k)
keep_one message (some j) (some k) = err message

unfoldable pub pick_one : String → Option ℕ → List (Option ℕ) → Result (Option ℕ)
unfolding keep_one
pick_one message chosen [] = ok chosen
pick_one message chosen (entry ∷ entries) = do
  next ← keep_one message chosen entry
  pick_one message next entries

unfoldable pub required : String → Option ℕ → Result ℕ
required message none = err message
required message (some k) = ok k

-- The connection to the provider, up to the count of its credentials.
unfoldable pub connect : PinProvider → Result (Unit {0})
connect provider = do
  need provider.identified "Identify Windows PIN provider"
  need provider.opened "Open Windows PIN provider"
  need provider.takes_scenario "Set Windows PIN scenario"
  need provider.advised "Connect Windows PIN provider events"
  need provider.takes_users "Query Windows PIN user interface"
  need provider.sets_users "Set Windows PIN user identity"
  need provider.counts "Enumerate Windows PIN credentials"
  need (leb (length provider.candidates) 256 && not provider.automatic)
      "Unexpected Windows PIN enumeration state"

-- The selection of the credential, up to the count of its fields.
unfoldable pub choose : PinProvider → Result (Unit {0})
choose provider = do
  need provider.credential_advised "Connect Windows PIN credential events"
  need provider.selects "Select Windows PIN credential"
  need (not provider.auto_selected) "Unexpected automatic Windows PIN submission"
  need provider.counts_fields "Enumerate Windows PIN fields"
  need (leb (length provider.fields) 128) "Too many Windows PIN fields"

unfoldable pub initialize : PinProvider → Bool → WideString → Scenario → Result WindowsPin
unfolding connect choose user_places pin_fields pick_one required
initialize provider has_users expected scenario = do
  need (has_users && is_desktop scenario) "Invalid Windows PIN scenario or user array"
  connect provider
  chosen ←
      pick_one "Ambiguous Windows PIN identity" none (user_places expected 0 provider.candidates)
  credential ← required "No Windows PIN credential for the enrolled user" chosen
  choose provider
  input ← pick_one "Ambiguous Windows PIN input" none (pin_fields provider.fields)
  field ← required "Windows PIN input unavailable" input
  ok (record { credential = credential; pin_field = field; used = false; calls = [] })

-- What GetSerialization gives: whether the call succeeded, whether the response is that a credential
-- is finished, and what was made.
pub record PinSerialization : Type 0 where
  pub succeeded : Bool
  pub finished : Bool
  pub auth_package : ℕ
  pub serialized : Option Bytes

-- What the provider's credentials answer to the latest of the calls that were made on them: whether
-- a text is taken, and the serialization.
pub record PinAnswer : Type 0 where
  pub takes_text : List PinCall → Bool
  pub serializes : List PinCall → PinSerialization

abbrev pub no_credential : String
no_credential = "Windows PIN did not produce a credential; no automatic retry"

unfoldable pub buffer_of : Memory → ℕ → Option Bytes → Result Auth
buffer_of memory auth_package none = err no_credential
buffer_of memory auth_package (some bytes) = do
  need (not (length bytes == 0) && leb (length bytes) 65536) no_credential
  size ← new_secret memory (length bytes)
  ok (record { auth_package = auth_package; buffer = bytes })

unfoldable pub take_buffer : Memory → PinSerialization → Result Auth
unfolding buffer_of
take_buffer memory made = do
  need made.succeeded "Windows PIN serialization"
  need made.finished no_credential
  buffer_of memory made.auth_package made.serialized

-- The text that a pointer leads to: none for null.
unfoldable pub is_pin : Option WideString → Bool
is_pin none = false
is_pin (some text) = ltb 0 (length (c_str text)) && leb (length (c_str text)) 256

-- A text is set in the field for the PIN of the chosen credential.
unfoldable pub set_text : WideString → WindowsPin → WindowsPin
set_text text windows = record windows {
  calls = text_set windows.credential windows.pin_field text ∷ windows.calls;
}

unfoldable pub ask_serialization : WindowsPin → WindowsPin
ask_serialization windows = record windows {
  calls = serialization_asked windows.credential ∷ windows.calls;
}

-- The PIN is set, the serialization asked for, and the field is emptied.
unfoldable pub supply : Memory → PinAnswer → WideString → WindowsPin → WindowsPin × Result Auth
unfolding set_text ask_serialization take_buffer
supply memory answer text windows =
    let set = set_text text windows in
    let asked = ask_serialization set in
    if answer.takes_text set.calls
    then (set_text [] asked, take_buffer memory (answer.serializes asked.calls))
    else (set, err "Supply Windows PIN")

unfoldable pub supply_pin :
    Memory → PinAnswer → Option WideString → WindowsPin → WindowsPin × Result Auth
unfolding supply
supply_pin memory answer none windows = (windows, err "Invalid or repeated Windows PIN request")
supply_pin memory answer (some text) windows = supply memory answer (c_str text) windows

unfoldable pub serialize :
    Memory → PinAnswer → Option WideString → WindowsPin → WindowsPin × Result Auth
unfolding is_pin supply_pin
serialize memory answer pin windows =
    if is_pin pin && not windows.used
    then supply_pin memory answer pin (record windows { used = true })
    else (windows, err "Invalid or repeated Windows PIN request")

-- A sequence of requests to one `WindowsPin`, which is left with the results.
unfoldable pub serialize_all :
    Memory → PinAnswer → List (Option WideString) → WindowsPin → WindowsPin × List (Result Auth)
unfolding serialize
serialize_all memory answer [] windows = (windows, [])
serialize_all memory answer (pin ∷ requests) windows =
    let (windows, result) = serialize memory answer pin windows in
    let (windows, results) = serialize_all memory answer requests windows in
    (windows, result ∷ results)
