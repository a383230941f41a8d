-- ===== src/Tests/Bridges.antt =====
-- A PIN that is entered on the tile of src/pin_bridge_vm.cpp, with the PIN provider of the sign-ins.
use sovereign_windows_auth.Base.{
  ◌≡◌, refl, zero, suc, true, false, List, [], ◌∷◌, none, some, codes, ◌>>=◌, ◌>>◌, need,
}
use sovereign_windows_auth.Core.Secret.{new_secret}
use sovereign_windows_auth.Filter.Types.{cpus_logon}
use sovereign_windows_auth.Provider.Serialize.{Auth}
use sovereign_windows_auth.Provider.Enumerate.{UserArray}
use sovereign_windows_auth.Windows.Pin.{
  is_user, user_places, pin_fields, keep_one, pick_one, required, connect, choose, initialize,
  is_pin, buffer_of, take_buffer, text_set, serialization_asked, set_text, ask_serialization,
  supply, supply_pin, serialize,
}
use sovereign_windows_auth.Bridge.Tile.{
  LabMachine, LabCredential, Submission, TileCall, tile_entered, tile_advised, has_marker,
  has_number, lab_armed, new_lab_credential, are_digits, stored, entered_pin, set_string_value,
  bridged, carried, delivered_tile, submitted, submit_tile, advise_tile, after_tile_call,
  after_tile_calls,
}
use sovereign_windows_auth.Bridge.Users.{
  LabProvider, has_sid, join_lab_user, find_lab_user, after_search, search_users, search_expected,
  count_armed, count_tiles, new_lab_provider, set_lab_scenario, set_lab_users,
}
use sovereign_windows_auth.Bridge.Single.{IsSingle, count_tiles-IsSingle}
use sovereign_windows_auth.Bridge.Bridged.{bridged_after_calls}
use sovereign_windows_auth.Tests.Touches.{memory}
use sovereign_windows_auth.Tests.Signins.{provider, answer, pin}

abbrev machine : LabMachine
machine = record {
  is_qemu = true;
  bridge_armed = some 1;
  mode = some 2;
  marker = some (record { is_directory = false; is_reparse_point = false });
}

abbrev submission : Submission
submission = record {
  machine = machine;
  provider = provider;
  answer = answer;
  memory = memory;
  allocates = true;
  copies = true;
}

abbrev calls : List TileCall
calls =
    tile_advised (some 1)
    ∷ tile_entered true 2 (some (codes "12345"))
    ∷ tile_entered true 2 (some (codes "12a4"))
    ∷ tile_entered true 2 (some pin)
    ∷ tile_entered true 1 (some (codes "9"))
    ∷ []

abbrev ready_tile : LabCredential
ready_tile = record {
  users = some 7;
  sid = codes "S-1";
  scenario = cpus_logon;
  events = some 1;
  pin = some pin;
  bridge = false;
}

entered : after_tile_calls calls (new_lab_credential (some 7) (codes "S-1") cpus_logon) ≡ ready_tile
unfolding after_tile_calls after_tile_call advise_tile set_string_value entered_pin stored
    are_digits new_lab_credential
entered = refl

bridged_after_calls_example : bridged submission ready_tile pin ≡ (
    initialize provider true (codes "S-1") cpus_logon >>= λ windows.
    let supplied = text_set windows.credential windows.pin_field pin ∷ [] in
    need (answer.takes_text supplied) "Supply Windows PIN"
    >> take_buffer memory (answer.serializes (serialization_asked windows.credential ∷ supplied)))
bridged_after_calls_example =
    bridged_after_calls (some 7) (codes "S-1") cpus_logon calls submission ready_tile pin entered
      refl

abbrev auth : Auth
auth = record { auth_package = 5; buffer = pin }

handed_out : (submit_tile true submission ready_tile).1 ≡ some (carried auth)
unfolding submit_tile lab_armed has_marker has_number submitted bridged initialize connect choose
    user_places is_user pin_fields pick_one keep_one required serialize supply_pin supply set_text
    ask_serialization is_pin take_buffer buffer_of new_secret delivered_tile
handed_out = refl

abbrev array : UserArray
array = record {
  pointer = 7;
  count = some 2;
  sid_at = λ i. elim i [ zero ↦ some (codes "S-2") | suc j ↦ some (codes "S-1") ];
}

abbrev lab : LabProvider
lab = record { users = some array; tile = none; scenario = cpus_logon }

set_up :
    (set_lab_users (some array) (set_lab_scenario machine false 0 cpus_logon new_lab_provider).1).1
    ≡ lab
unfolding set_lab_users set_lab_scenario lab_armed has_marker has_number new_lab_provider
set_up = refl

counted : (count_tiles true machine (some (codes "S-1")) lab).1 ≡ some (1, 0, false)
unfolding count_tiles lab_armed has_marker has_number count_armed search_expected search_users
    find_lab_user has_sid join_lab_user after_search
counted = refl

count_tiles-IsSingle_example :
    (lab_armed machine ≡ true)
    × IsSingle (some (codes "S-1")) lab (count_tiles true machine (some (codes "S-1")) lab).2
count_tiles-IsSingle_example =
    count_tiles-IsSingle machine (some (codes "S-1")) lab 0 false refl counted
