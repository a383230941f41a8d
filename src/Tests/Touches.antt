-- ===== src/Tests/Touches.antt =====
-- A key that is found, touched and opens its account, for src/core.cpp and src/profile.cpp.
use sovereign_windows_auth.Base.{
  ◌≡◌, refl, sym, ap, ℕ, ◌+◌, ◌*◌, ◌≤◌, arith, true, [], ◌∷◌, some, some-injective, ok, replicate,
  Result, length, if◌then◌else◌, ltb,
}
use sovereign_windows_auth.Core.{Bytes, AccountProfile, equal, gather}
use sovereign_windows_auth.Core.Secret.{
  Memory, Cipher, new_secret, random_bytes, open_cipher, seal, unseal, sealed_box,
}
use sovereign_windows_auth.Core.Secret.RoundTrip.{IsLawful, unseal-seal}
use sovereign_windows_auth.Core.Number.{le32}
use sovereign_windows_auth.Profile.Sid.{validate_sid, canonical}
use sovereign_windows_auth.Profile.Wire.{put32, put_string}
use sovereign_windows_auth.Profile.Keys.{profile_for_key}
use sovereign_windows_auth.Profile.Codec.{profile_binding}
use sovereign_windows_auth.Profile.Codec.Layout.{binding_bytes}
use sovereign_windows_auth.Touch.Device.{Attached, Scan, Assertion, Signer, Hardware, answered}
use sovereign_windows_auth.Touch.Seek.{
  yubico, pause, seek, scan_round, after_round, scan_devices, ask, or_else, discover, discovered,
  find_key, discovery_request,
}
use sovereign_windows_auth.Touch.Sign.{
  KeyProof, touch_request, accept, sign, sign_at, sign_selected, has_valid_size, check_credentials,
  check_input, deadline_of, after_seek, touch_checked, touch_any_key,
}
use sovereign_windows_auth.Touch.Unlock.{enrolled_keys, unlock_account}
use sovereign_windows_auth.Touch.Proven.{IsProofOf, touch_any_key-IsProofOf}
use sovereign_windows_auth.Touch.Stops.{IsTimely, touch_any_key_returns}
use sovereign_windows_auth.Touch.Account.{IsOpened, unlock_account-IsOpened, unlock_account-seal}
use sovereign_windows_auth.Tests.Codecs.{any_sid, sample}

-- A cipher that hides nothing, with one nonce and one tag.
abbrev pub plain_cipher : Cipher
plain_cipher = record {
  opens = true;
  takes_key = λ key. true;
  random = λ n. some (replicate n 5);
  encrypt = λ key nonce binding plaintext. some (plaintext, replicate 16 6, length plaintext);
  decrypt = λ key nonce tag binding ciphertext. some (ciphertext, length ciphertext);
}

plain_cipher-IsLawful : IsLawful plain_cipher
plain_cipher-IsLawful = record {
  keeps_length = λ key nonce binding plaintext ciphertext tag n h.
      ap (λ (r : Bytes × Bytes × ℕ). length r.0) (sym (some-injective h));
  opens_again = λ key nonce binding plaintext ciphertext tag n h.
      ap (λ (r : Bytes × Bytes × ℕ). some (r.0, length ciphertext)) (sym (some-injective h));
}

abbrev pub memory : Memory
memory = record { allocates = true; locks = true }

abbrev pub secret : Bytes
secret = replicate 32 9

abbrev binding : Bytes
binding = 1 ∷ 2 ∷ []

sealed : seal plain_cipher secret (9 ∷ 10 ∷ []) binding ≡ ok sample.password
unfolding seal open_cipher random_bytes sealed_box
sealed = refl

unseal-seal_example : unseal plain_cipher memory secret sample.password binding ≡ ok (9 ∷ 10 ∷ [])
unseal-seal_example =
    unseal-seal plain_cipher memory secret (9 ∷ 10 ∷ []) binding sample.password
      plain_cipher-IsLawful refl refl sealed

abbrev pub attached : Attached
attached = record {
  vendor = yubico;
  reading = 150;
  takes_timeout = λ n. ok tt;
  opens = true;
  is_fido2 = true;
  allocates = true;
  random = λ n. some (replicate n 4);
  takes = λ request. ok tt;
  asks = λ request. answered 1 (replicate 16 7);
}

-- A first round without devices, then one with the key, every 300 milliseconds.
abbrev pub scan : ℕ → Scan
scan pass = record {
  tested = 100 + 300 * pass;
  allocates = true;
  manifest = if ltb 0 pass then ok (attached ∷ []) else ok [];
  finished = 100 + 300 * pass;
}

abbrev pub assertion : Assertion
assertion = record {
  count = 1;
  flags = 1;
  identifier = replicate 16 7;
  takes_public_key = λ k. ok tt;
  verifies = λ k. ok tt;
  hmac_secret = secret;
}

abbrev pub signer : Signer
signer = record {
  reading = 500;
  takes_timeout = λ n. ok tt;
  allocates = true;
  random = λ n. some (replicate n 3);
  takes = λ request. ok tt;
  asks = λ request. ok assertion;
  allocates_key = true;
  memory = memory;
}

abbrev pub hardware : Hardware
hardware = record { start = 100; allocates = true; scan = scan; signer = signer }

abbrev proof : KeyProof
proof = record { index = 0; secret = secret }

touched : touch_any_key hardware 2 (enrolled_keys sample) 1000 ≡ some (ok proof)
unfolding touch_any_key touch_checked check_input check_credentials has_valid_size after_seek
    deadline_of sign_selected sign_at sign accept touch_request seek scan_round after_round
    scan_devices ask or_else discover discovered find_key discovery_request enrolled_keys
    random_bytes new_secret equal gather
touched = refl

scan_sleeps :
    (deadline pass : ℕ)
    → (scan pass).finished + pause deadline (scan pass) ≤ (scan (pass + 1)).tested
unfolding pause
scan_sleeps deadline pass = ground arith

hardware-IsTimely : IsTimely hardware (deadline_of hardware 1000)
hardware-IsTimely = record {
  starts = omega arith;
  advances = λ pass. omega arith;
  sleeps = λ pass. scan_sleeps (deadline_of hardware 1000) pass;
}

touch_any_key_returns_example :
    (r : Result KeyProof) × (touch_any_key hardware 181 (enrolled_keys sample) 1000 ≡ some r)
touch_any_key_returns_example =
    touch_any_key_returns hardware (enrolled_keys sample) 1000 hardware-IsTimely

touch_any_key-IsProofOf_example :
    IsProofOf signer (deadline_of hardware 1000) (enrolled_keys sample) proof
touch_any_key-IsProofOf_example =
    touch_any_key-IsProofOf hardware 2 (enrolled_keys sample) 1000 proof touched

abbrev found : AccountProfile
found = record sample { additional = [] }

recorded : profile_for_key sample 0 ≡ ok found
unfolding profile_for_key
recorded = refl

bound : profile_binding any_sid found ≡ ok (binding_bytes found)
unfolding profile_binding binding_bytes put_string put32 validate_sid canonical le32
bound = refl

sealed_found : seal plain_cipher secret (9 ∷ 10 ∷ []) (binding_bytes found) ≡ ok found.password
unfolding seal open_cipher random_bytes sealed_box binding_bytes le32
sealed_found = refl

unlock_account-seal_example :
    unlock_account any_sid plain_cipher memory hardware 2 sample 1000 ≡ some (ok (9 ∷ 10 ∷ []))
unlock_account-seal_example =
    unlock_account-seal any_sid plain_cipher memory hardware 2 sample found 1000 proof
      (binding_bytes found) (9 ∷ 10 ∷ []) plain_cipher-IsLawful refl refl touched recorded bound
      sealed_found

unlocked :
    unlock_account any_sid plain_cipher memory hardware 2 sample 1000 ≡ some (ok (9 ∷ 10 ∷ []))
unlocked =
    unlock_account-seal any_sid plain_cipher memory hardware 2 sample found 1000 proof
      (binding_bytes found) (9 ∷ 10 ∷ []) plain_cipher-IsLawful refl refl touched recorded bound
      sealed_found

unlock_account-IsOpened_example :
    IsOpened any_sid plain_cipher memory hardware 1000 sample (9 ∷ 10 ∷ [])
unlock_account-IsOpened_example =
    unlock_account-IsOpened any_sid plain_cipher memory hardware 2 sample 1000 (9 ∷ 10 ∷ [])
      unlocked
