-- ===== src/Bridge/Tile.antt =====
-- src/pin_bridge_vm.cpp: the class Credential of the test machine's provider.
use sovereign_windows_auth.Base.{
  ℕ, ◌%◌, ◌^◌, Bool, true, false, not, ◌&&◌, ◌||◌, List, [], ◌∷◌, length, take, Option, none, some,
  ◌==◌, ◌=/=◌, ltb, leb, if◌then◌else◌, String, Result, ok, err, ◌>>=◌,
}
use sovereign_windows_auth.Core.{WideString}
use sovereign_windows_auth.Core.Secret.{Memory}
use sovereign_windows_auth.Profile.Wide.{c_str}
use sovereign_windows_auth.Filter.Types.{
  Scenario, HResult, s_ok, e_pointer, e_invalidarg, e_outofmemory, other_result, is_some,
  clsid_sovereign_auth,
}
use sovereign_windows_auth.Recovery.Path.{Attributes}
use sovereign_windows_auth.Provider.Serialize.{Auth, Reply, no_reply, return_credential_finished}
use sovereign_windows_auth.Windows.Pin.{PinProvider, PinAnswer, initialize, serialize}

-- What the process reads of the machine: whether its manufacturer can be read and is QEMU, in upper
-- or lower case, two values of the filter's key, and the attributes of the marker file.
pub record LabMachine : Type 0 where
  pub is_qemu : Bool
  pub bridge_armed : Option ℕ
  pub mode : Option ℕ
  pub marker : Option Attributes

unfoldable pub has_marker : Option Attributes → Bool
has_marker none = false
has_marker (some a) = not (a.is_directory || a.is_reparse_point)

unfoldable pub has_number : ℕ → Option ℕ → Bool
has_number n none = false
has_number n (some m) = m == n

unfoldable pub lab_armed : LabMachine → Bool
unfolding has_marker has_number
lab_armed m =
    (m.is_qemu && has_number 1 m.bridge_armed) && (has_number 2 m.mode && has_marker m.marker)

-- Of the bridge the state keeps whether there is one.
pub record LabCredential : Type 0 where
  pub users : Option ℕ
  pub sid : WideString
  pub scenario : Scenario
  pub events : Option ℕ
  pub pin : Option WideString
  pub bridge : Bool

unfoldable pub new_lab_credential : Option ℕ → WideString → Scenario → LabCredential
new_lab_credential users sid scenario = record {
  users = users;
  sid = sid;
  scenario = scenario;
  events = none;
  pin = none;
  bridge = false;
}

abbrev pub pin_id : ℕ
pin_id = 2

abbrev pub forget : LabCredential → LabCredential
forget c = record c { pin = none; bridge = false }

abbrev pub e_accessdenied : HResult
e_accessdenied = other_result 0x80070005

unfoldable pub advise_tile : Option ℕ → LabCredential → HResult × LabCredential
advise_tile events c = (if is_some events then s_ok else e_pointer, record c { events = events })

unfoldable pub deselect : LabCredential → LabCredential
deselect c = forget c

unfoldable pub un_advise_tile : LabCredential → HResult × LabCredential
unfolding deselect
un_advise_tile c = (s_ok, record (deselect c) { events = none })

unfoldable pub are_digits : WideString → Bool
are_digits [] = true
are_digits (c ∷ text) = (leb 48 c && leb c 57) && are_digits text

unfoldable pub stored : Bool → WideString → LabCredential → HResult × LabCredential
stored true text c = (s_ok, record c { pin = some text })
stored false text c = (e_outofmemory, c)

-- The text that the pointer leads to, up to its end; `room` is whether there is memory for it. A
-- call that is not for the PIN leaves the old one.
unfoldable pub entered_pin : Bool → WideString → LabCredential → HResult × LabCredential
unfolding are_digits stored
entered_pin room text c =
    if ltb 256 (length text)
    then (e_invalidarg, c)
    else if length text == 0
    then (s_ok, c)
    else if not (are_digits text)
    then (e_invalidarg, c)
    else stored room text c

unfoldable pub set_string_value :
    Bool → ℕ → Option WideString → LabCredential → HResult × LabCredential
unfolding entered_pin
set_string_value room id none c = (e_invalidarg, c)
set_string_value room id (some value) c =
    if id =/= pin_id
    then (e_invalidarg, c)
    else entered_pin room (c_str value) (record c { pin = none })

-- What is there when the tile is submitted: the machine, the provider of Windows with its answer to
-- the request, the memory, whether CoTaskMemAlloc and the copy of a text succeed.
pub record Submission : Type 0 where
  pub machine : LabMachine
  pub provider : PinProvider
  pub answer : PinAnswer
  pub memory : Memory
  pub allocates : Bool
  pub copies : Bool

-- The bridge is made, and asked for the serialization of the PIN.
unfoldable pub bridged : Submission → LabCredential → WideString → Result Auth
bridged s c pin = do
  windows ← initialize s.provider (is_some c.users) c.sid c.scenario
  (serialize s.memory s.answer (some pin) windows).1

abbrev pub carried : Auth → Reply
carried auth =
    let size = length auth.buffer % 2 ^ 32 in
    record no_reply {
      response = return_credential_finished;
      serialized = some (record {
        authentication_package = auth.auth_package;
        provider = clsid_sovereign_auth;
        size = size;
        bytes = take size auth.buffer;
      });
    }

-- What is written to the filter's key, besides the process's number.
unfoldable pub delivered_tile :
    Submission → Result Auth → LabCredential → HResult × Reply × LabCredential × List (String × ℕ)
delivered_tile s (ok auth) c =
    let c = record c { pin = none; bridge = true } in
    if s.allocates
    then (s_ok, carried auth, c, ("BridgeProduced", 1) ∷ [])
    else (e_outofmemory, no_reply, c, [])
delivered_tile s (err message) c = (
  if s.copies then s_ok else e_outofmemory,
  record no_reply { text = if s.copies then some message else none; icon_error = true },
  forget c,
  ("BridgeProduced", 0) ∷ [],
)

unfoldable pub submitted :
    Submission
    → Option WideString
    → LabCredential
    → HResult × Reply × LabCredential × List (String × ℕ)
unfolding bridged delivered_tile
submitted s none c = (e_accessdenied, no_reply, c, [])
submitted s (some pin) c = delivered_tile s (bridged s c pin) c

-- The outputs are there, or a pointer is null.
unfoldable pub submit_tile :
    Bool → Submission → LabCredential → HResult × Option Reply × LabCredential × List (String × ℕ)
unfolding lab_armed submitted
submit_tile false s c = (e_pointer, none, c, [])
submit_tile true s c =
    if lab_armed s.machine
    then (let (result, reply, c, reports) = submitted s c.pin c in (result, some reply, c, reports))
    else (e_accessdenied, some no_reply, c, [])

abbrev pub lab_rejected : String
lab_rejected = "The lab PIN was rejected. No automatic retry."

-- A status is its 32 bits. The third part holds the text and whether the icon is that of an error.
unfoldable pub report_tile :
    Bool
    → Bool
    → ℕ
    → ℕ
    → LabCredential
    → HResult × Option (Option String × Bool) × LabCredential × List (String × ℕ)
unfolding deselect
report_tile false copies status substatus c = (e_pointer, none, c, [])
report_tile true copies status substatus c =
    let reports : List (String × ℕ) =
      ("BridgeStatus", status) ∷ ("BridgeSubstatus", substatus) ∷ [] in
    if leb (2 ^ 31) status
    then (
      if copies then s_ok else e_outofmemory,
      some (if copies then some lab_rejected else none, true),
      deselect c,
      reports,
    )
    else (s_ok, some (none, false), deselect c, reports)

-- The calls that change the credential, one after another.
pub data TileCall : Type 0 where
  tile_advised : Option ℕ → TileCall
  tile_un_advised tile_deselected : TileCall
  tile_entered : Bool → ℕ → Option WideString → TileCall
  tile_submitted : Bool → Submission → TileCall
  tile_reported : Bool → Bool → ℕ → ℕ → TileCall

unfoldable pub after_tile_call : TileCall → LabCredential → LabCredential
unfolding advise_tile un_advise_tile deselect set_string_value submit_tile report_tile
after_tile_call (tile_advised events) c = (advise_tile events c).1
after_tile_call tile_un_advised c = (un_advise_tile c).1
after_tile_call tile_deselected c = deselect c
after_tile_call (tile_entered room id value) c = (set_string_value room id value c).1
after_tile_call (tile_submitted present s) c = (submit_tile present s c).2
after_tile_call (tile_reported present copies status substatus) c =
    (report_tile present copies status substatus c).2

unfoldable pub after_tile_calls : List TileCall → LabCredential → LabCredential
unfolding after_tile_call
after_tile_calls [] c = c
after_tile_calls (call ∷ calls) c = after_tile_calls calls (after_tile_call call c)
