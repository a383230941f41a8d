-- ===== src/Tests/Wholes.antt =====
-- A whole sign-in with a touched key, for src/provider.cpp and what it calls.
use sovereign_windows_auth.Base.{◌≡◌, refl, true, List, [], ◌∷◌, some, arith}
use sovereign_windows_auth.Core.{Bytes, AccountProfile, equal, gather}
use sovereign_windows_auth.Core.Secret.{new_secret, random_bytes, open_cipher, unseal, opened_text}
use sovereign_windows_auth.Core.Number.{le32}
use sovereign_windows_auth.Profile.Sid.{validate_sid, canonical}
use sovereign_windows_auth.Profile.Wire.{put32, put_string}
use sovereign_windows_auth.Profile.Keys.{profile_for_key}
use sovereign_windows_auth.Profile.Codec.{profile_binding}
use sovereign_windows_auth.Touch.Seek.{
  pause, seek, scan_round, after_round, scan_devices, ask, or_else, discover, discovered, find_key,
  discovery_request,
}
use sovereign_windows_auth.Touch.Sign.{
  touch_request, accept, sign, sign_at, sign_selected, has_valid_size, check_credentials,
  check_input, deadline_of, after_seek, touch_checked, touch_any_key,
}
use sovereign_windows_auth.Touch.Unlock.{enrolled_keys, unlock_account, open_password, after_touch}
use sovereign_windows_auth.Windows.Pin.{
  is_user, user_places, pin_fields, keep_one, pick_one, required, connect, choose, initialize,
  is_pin, buffer_of, take_buffer, set_text, ask_serialization, supply, supply_pin, serialize,
}
use sovereign_windows_auth.Provider.Credential.{
  Credential, begin, launch, finish, ready, take_password, is_password, worker_password,
}
use sovereign_windows_auth.Provider.Serialize.{
  Auth, authenticate, get_serialization, answer, deliver, complete,
}
use sovereign_windows_auth.Provider.Protocol.{step}
use sovereign_windows_auth.Provider.Produced.{finished}
use sovereign_windows_auth.SignIn.{
  Desktop, Opener, Operation, begin_proof, key_answered, readiness_asked, events_of, event_of,
  worker_end, returned, after, by_pin, desktop_packing, sign_in,
}
use sovereign_windows_auth.SignIn.Proven.{IsSignIn, sign_in-IsSignIn}
use sovereign_windows_auth.Tests.Codecs.{any_sid, sample}
use sovereign_windows_auth.Tests.Proofs.{credential, platform}
use sovereign_windows_auth.Tests.Touches.{memory, plain_cipher, hardware}
use sovereign_windows_auth.Tests.Signins.{provider, answer as pin_answer, packer, authority}

-- "42" and its terminator.
abbrev pin : Bytes
pin = 52 ∷ 0 ∷ 50 ∷ 0 ∷ 0 ∷ 0 ∷ []

abbrev enrolled : AccountProfile
enrolled = record sample { password = record sample.password { ciphertext = pin } }

abbrev tile : Credential
tile = record credential { profile = enrolled }

abbrev opener : Opener
opener = record { api = any_sid; cipher = plain_cipher; memory = memory }

abbrev desktop : Desktop
desktop = record {
  memory = memory;
  pin_provider = provider;
  pin_answer = pin_answer;
  packer = packer;
  authority = authority;
}

ended_with : worker_end opener enrolled true true hardware ≡ some pin
unfolding worker_end returned worker_password is_password unlock_account after_touch open_password
    enrolled_keys touch_any_key touch_checked check_input check_credentials has_valid_size
    after_seek deadline_of sign_selected sign_at sign accept touch_request seek scan_round
    after_round pause scan_devices ask or_else discover discovered find_key discovery_request
    random_bytes new_secret equal gather profile_for_key profile_binding put_string put32
    validate_sid canonical unseal open_cipher opened_text le32
ended_with = refl

-- The tile is submitted, the key is touched, Windows asks for the readiness, and the tile is
-- submitted again.
abbrev before : List Operation
before = begin_proof platform ∷ key_answered 900 true true hardware ∷ readiness_asked 1000 ∷ []

abbrev auth : Auth
auth = record { auth_package = 5; buffer = 52 ∷ 50 ∷ [] }

signed_in : (sign_in opener desktop tile before [] 1200 platform true).1 ≡ some (finished auth)
unfolding sign_in events_of event_of after step begin launch finish ready take_password
    get_serialization answer deliver complete authenticate desktop_packing by_pin initialize connect
    choose user_places is_user pin_fields pick_one keep_one required serialize supply_pin supply
    set_text ask_serialization is_pin take_buffer buffer_of worker_end returned worker_password
    is_password unlock_account after_touch open_password enrolled_keys touch_any_key touch_checked
    check_input check_credentials has_valid_size after_seek deadline_of sign_selected sign_at sign
    accept touch_request seek scan_round after_round pause scan_devices ask or_else discover
    discovered find_key discovery_request random_bytes new_secret equal gather profile_for_key
    profile_binding put_string put32 validate_sid canonical unseal open_cipher opened_text le32
signed_in = refl

sign_in-IsSignIn_example : IsSignIn opener desktop tile before 1200 (finished auth)
unfolding events_of
sign_in-IsSignIn_example =
    sign_in-IsSignIn opener desktop tile before [] 1200 platform true (finished auth) refl refl
      (omega arith) signed_in refl
