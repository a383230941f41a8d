-- ===== src/Tests/Enrollments.antt =====
-- Two keys that are enrolled with a PIN, for src/enroll.cpp.
use sovereign_windows_auth.Base.{
  ◌≡◌, refl, subst, suc, ◌==◌, ◌%◌, ◌*◌, ◌+◌, true, [], ◌∷◌, ◌++◌, map, none, some, ok, codes,
  length, replicate, if◌then◌else◌, arith, need-eq-ok, >>=-eq-ok, ok-injective,
}
use sovereign_windows_auth.Core.{
  Bytes, Sealed, AccountProfile, IsBytes, equal, gather, read_from, read32, windows_pin,
}
use sovereign_windows_auth.Core.Number.{le32}
use sovereign_windows_auth.Core.TestProfile.{parse_test_profile, test_bytes}
use sovereign_windows_auth.Core.Secret.{
  Cipher, new_secret, random_bytes, open_cipher, seal, unseal, sealed_box, opened_text,
}
use sovereign_windows_auth.Profile.Wide.{wide_eq, wide_bytes, c_str}
use sovereign_windows_auth.Profile.Sid.{validate_sid, canonical}
use sovereign_windows_auth.Profile.Wire.{put32, put_string, take_bytes, read_number, read_string}
use sovereign_windows_auth.Profile.Keys.{profile_for_key}
use sovereign_windows_auth.Profile.Codec.{
  profile_binding, encode_record, encode_profile, encode_multi, encode_keys, repeats,
  decode_profile, decode_multi, decode_keys, decode_record, decode_binding, join_key, is_multi,
  empty_sealed, empty_profile,
}
use sovereign_windows_auth.Profile.Codec.Layout.{record_bytes, binding_bytes}
use sovereign_windows_auth.Profile.Codec.Several.{multi_bytes, keys_bytes}
use sovereign_windows_auth.Profile.Files.{Entry, Disk, put, remove, move}
use sovereign_windows_auth.Profile.Trusted.{
  is_privileged, owner_trusted, aces_trusted, acl_trusted, trusted, trusted_path,
}
use sovereign_windows_auth.Profile.Store.{
  directory_of, file_of, located, profile_folder, make_directory, is_free, check_temporary,
  finish_save, temporary_entry, write_made, write_file, protected_data, temporary_suffix, prepare,
  save_prepared, save_in, save_below, save_profile, file_bytes, read_file, clear_data, load_profile,
}
use sovereign_windows_auth.Touch.Device.{Hardware, answered}
use sovereign_windows_auth.Touch.Seek.{
  seek, scan_round, after_round, scan_devices, ask, or_else, discover, discovered, find_key,
  discovery_request,
}
use sovereign_windows_auth.Touch.Sign.{
  touch_request, accept, sign, sign_at, sign_selected, has_valid_size, check_credentials,
  check_input, deadline_of, after_seek, touch_checked, touch_any_key, secret_of, touch_secret,
}
use sovereign_windows_auth.Touch.Unlock.{enrolled_keys, unlock_account}
use sovereign_windows_auth.Windows.Token.{formatted, token_sid, current_sid}
use sovereign_windows_auth.Windows.Auth.{logged_on, authenticate_windows_buffer}
use sovereign_windows_auth.Windows.Pin.{
  is_user, user_places, pin_fields, keep_one, pick_one, required, connect, choose, initialize,
  buffer_of, take_buffer, is_pin, set_text, ask_serialization, supply, supply_pin, serialize,
}
use sovereign_windows_auth.Enroll.{
  Desk, linked, microsoft_identity, is_retry, after_attempt, enroll_key, sealed_record, on_touch,
  second_record, add_second, with_second, enrolled,
}
use sovereign_windows_auth.Enroll.Unlocks.{OpensBytes, enrolled_touch, unlock_account-enrolled}
use sovereign_windows_auth.Enroll.Command.{
  Ready, typed_pin, try_pin, enter_pin, entered_text, enter_credential, read_public, read_second,
  kind_of, prepare_enrollment, check_saved, save_enrolled, enroll_ready, entry_at, enroll,
}
use sovereign_windows_auth.Enroll.Done.{IsDone, enroll-IsDone}
use sovereign_windows_auth.Tests.Codecs.{any_sid, key, other_key}
use sovereign_windows_auth.Tests.Stores.{restricted, host, reading}
use sovereign_windows_auth.Tests.Touches.{attached, assertion, signer, memory}
use sovereign_windows_auth.Tests.Proofs.{packing, credential}
use sovereign_windows_auth.Enroll.Accepted.{prepare_enrollment-is_accepted}
use sovereign_windows_auth.Provider.Credential.{worker_password, Credential}
use sovereign_windows_auth.Provider.Serialize.{authenticate}
use sovereign_windows_auth.Tests.Signins.{token, authority, packer, account, provider, answer, pin}

-- A cipher that hides nothing and opens to bytes.
abbrev byte_cipher : Cipher
byte_cipher = record {
  opens = true;
  takes_key = λ key. true;
  random = λ n. some (replicate n 5);
  encrypt = λ key nonce binding plaintext. some (plaintext, replicate 16 6, length plaintext);
  decrypt =
      λ key nonce tag binding ciphertext. some (map (λ b. b % 256) ciphertext, length ciphertext);
}

map-IsBytes : (l : Bytes) → IsBytes (map (λ b. b % 256) l)
map-IsBytes [] = tt
map-IsBytes (x ∷ l) = (omega arith, map-IsBytes l)

byte_cipher-OpensBytes : OpensBytes byte_cipher memory
unfolding unseal opened_text
byte_cipher-OpensBytes key binding text box h =
    let (sizes, h) = need-eq-ok _ _ _ h in
    let (u, opened, h) = >>=-eq-ok (open_cipher byte_cipher key) _ h in
    let (n, made, h) = >>=-eq-ok (new_secret memory (length box.ciphertext)) _ h in
    let (same, h) = need-eq-ok (length box.ciphertext == n) _ _ h in
    subst IsBytes (ok-injective h) (map-IsBytes box.ciphertext)

-- The hardware with one key, which answers for its credential.
abbrev with_key : Bytes → Bytes → Hardware
with_key credential secret = record {
  start = 100;
  allocates = true;
  scan = λ pass. record {
    tested = 100 + 50000 * pass;
    allocates = true;
    manifest = ok (record attached { asks = λ request. answered 1 credential } ∷ []);
    finished = 200;
  };
  signer = record signer {
    asks = λ request. ok (record assertion { identifier = credential; hmac_secret = secret });
  };
}

abbrev first_hardware : Hardware
first_hardware = with_key (replicate 16 7) (replicate 32 11)

abbrev second_hardware : Hardware
second_hardware = with_key (replicate 16 8) (replicate 32 12)

abbrev base : AccountProfile
base = record {
  kind = windows_pin;
  key = key;
  sid = codes "S-1";
  account = account;
  password = record { nonce = replicate 12 0; tag = replicate 16 0; ciphertext = [] };
  additional = [];
}

abbrev text : Bytes
text = wide_bytes (pin ++ (0 ∷ []))

abbrev box : Sealed
box = record { nonce = replicate 12 5; tag = replicate 16 6; ciphertext = text }

abbrev both : AccountProfile
both = record base { password = box; additional = record { key = other_key; password = box } ∷ [] }

abbrev desk : Desk
desk = record {
  api = any_sid;
  cipher = byte_cipher;
  memory = memory;
  fuel = 2;
  token = some token;
  identity = record { named = true; queried = true; principal = some (codes "a") };
  longest_name = 513;
  capacity = 257;
  entered = record {
    has_users = true;
    provider = provider;
    answer = answer;
    pin = some pin;
    dialog = none;
  };
  authority = authority;
  packer = packer;
  confirms_first = true;
  first_attempts =
      record { hardware = second_hardware; line = some [] }
      ∷ record { hardware = first_hardware; line = none }
      ∷ [];
  confirms_second = true;
  second_attempts = record { hardware = second_hardware; line = none } ∷ [];
  host = record host { written = suc (length (multi_bytes both)) };
  reading = reading;
}

-- The first attempt meets the other key, and the second one the key that is expected.
made : enrolled desk base (some other_key) text ≡ some (ok both)
unfolding enrolled with_second on_touch sealed_record add_second second_record enroll_key
    after_attempt is_retry touch_secret secret_of touch_any_key touch_checked check_input
    check_credentials has_valid_size after_seek deadline_of sign_selected sign_at sign accept
    touch_request seek scan_round after_round scan_devices ask or_else discover discovered find_key
    discovery_request random_bytes new_secret equal gather seal unseal open_cipher sealed_box
    opened_text profile_binding put32 put_string validate_sid canonical le32 empty_sealed
made = refl

second_touch : enrolled_touch desk base (some other_key) 1 ≡ some (ok (replicate 32 12))
unfolding enroll_key after_attempt is_retry touch_secret secret_of touch_any_key touch_checked
    check_input check_credentials has_valid_size after_seek deadline_of sign_selected sign_at sign
    accept touch_request seek scan_round after_round scan_devices ask or_else discover discovered
    find_key discovery_request random_bytes new_secret equal gather
second_touch = refl

touched_later :
    touch_any_key second_hardware 2 (enrolled_keys both) 1000
    ≡ some (ok (record { index = 1; secret = replicate 32 12 }))
unfolding enrolled_keys touch_any_key touch_checked check_input check_credentials has_valid_size
    after_seek deadline_of sign_selected sign_at sign accept touch_request seek scan_round
    after_round scan_devices ask or_else discover discovered find_key discovery_request random_bytes
    new_secret equal gather
touched_later = refl

unlock_account-enrolled_example :
    unlock_account any_sid byte_cipher memory second_hardware 2 both 1000 ≡ some (ok text)
unlock_account-enrolled_example =
    unlock_account-enrolled desk base (some other_key) text both second_hardware 2 1000
      (record { index = 1; secret = replicate 32 12 }) byte_cipher-OpensBytes (omega arith) refl
      made second_touch touched_later

abbrev file : Bytes → Entry
file content = record { content = some content; inspection = restricted }

abbrev disk : Disk
disk = λ path.
    if wide_eq path (codes "a")
    then some (file (test_bytes key))
    else (if wide_eq path (codes "b") then some (file (test_bytes other_key)) else none)

abbrev after : Disk
after = (save_profile any_sid desk.host both disk).0

enrolls : enroll desk true (codes "a") (some (codes "b")) disk ≡ some (after, ok tt)
unfolding enroll entry_at prepare_enrollment read_public read_second read_file file_bytes
    parse_test_profile test_bytes read32 read_from le32 current_sid token_sid formatted
    microsoft_identity linked kind_of enter_credential enter_pin typed_pin try_pin entered_text
    initialize connect choose user_places is_user pin_fields pick_one keep_one required serialize
    supply_pin supply set_text ask_serialization is_pin take_buffer buffer_of
    authenticate_windows_buffer logged_on enroll_ready save_enrolled check_saved enrolled
    with_second on_touch sealed_record add_second second_record enroll_key after_attempt is_retry
    touch_secret secret_of touch_any_key touch_checked check_input check_credentials has_valid_size
    after_seek deadline_of sign_selected sign_at sign accept touch_request seek scan_round
    after_round scan_devices ask or_else discover discovered find_key discovery_request random_bytes
    new_secret equal gather seal unseal open_cipher sealed_box opened_text profile_binding put32
    put_string validate_sid canonical empty_sealed save_profile save_below save_in save_prepared
    prepare profile_folder located directory_of file_of make_directory is_free check_temporary
    finish_save temporary_entry write_made write_file protected_data temporary_suffix put remove
    move trusted_path trusted acl_trusted aces_trusted owner_trusted is_privileged encode_profile
    encode_multi encode_keys repeats encode_record profile_for_key multi_bytes keys_bytes
    record_bytes binding_bytes load_profile clear_data decode_profile decode_multi decode_keys
    decode_record decode_binding join_key is_multi empty_profile take_bytes read_number read_string
enrolls = refl

enroll-IsDone_example : IsDone desk true (codes "a") (some (codes "b")) disk after
enroll-IsDone_example = enroll-IsDone desk true (codes "a") (some (codes "b")) disk after enrolls

abbrev prepared_ready : Ready
prepared_ready = record { profile = base; second = some other_key; text = text }

prepared :
    prepare_enrollment desk true
      (some (file (test_bytes key)))
      (some (some (file (test_bytes other_key))))
      disk
    ≡ ok prepared_ready
unfolding prepare_enrollment read_public read_second read_file file_bytes parse_test_profile
    test_bytes read32 read_from le32 current_sid token_sid formatted microsoft_identity linked
    kind_of enter_credential enter_pin typed_pin try_pin entered_text initialize connect choose
    user_places is_user pin_fields pick_one keep_one required serialize supply_pin supply set_text
    ask_serialization is_pin take_buffer buffer_of authenticate_windows_buffer logged_on new_secret
    equal gather profile_folder file_of validate_sid canonical is_free empty_sealed located
prepared = refl

abbrev enrolled_tile : Credential
enrolled_tile = record credential { profile = record credential.profile { kind = windows_pin } }

prepare_enrollment-is_accepted_example :
    (worker_password true true (ok prepared_ready.text) ≡ some prepared_ready.text)
    × (authenticate packing enrolled_tile prepared_ready.text
        ≡ packing.pin_serialize enrolled_tile.users enrolled_tile.profile.sid enrolled_tile.scenario
            (c_str pin))
prepare_enrollment-is_accepted_example =
    prepare_enrollment-is_accepted desk true (some (file (test_bytes key)))
      (some (some (file (test_bytes other_key)))) disk prepared_ready pin packing enrolled_tile refl
      (omega arith) (omega arith) prepared refl
