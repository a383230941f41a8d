-- ===== src/Tests/Codecs.antt =====
-- Profiles with one key and with two, for src/profile.cpp and src/core.cpp.
use sovereign_windows_auth.Base.{
  ◌≡◌, ◌↔◌, refl, true, [], ◌∷◌, some, ok, replicate, codes, All, arith,
}
use sovereign_windows_auth.Core.{
  Bytes, KeyProfile, Sealed, AccountProfile, windows_pin, IsBytes, equal, gather, read_from, read32,
}
use sovereign_windows_auth.Core.TestProfile.{parse_test_profile, test_bytes}
use sovereign_windows_auth.Core.Equal.{equal_iff}
use sovereign_windows_auth.Core.Number.{le32}
use sovereign_windows_auth.Profile.Sid.{SidApi, validate_sid, canonical}
use sovereign_windows_auth.Profile.Wire.{put32, put_string, take_bytes, read_number, read_string}
use sovereign_windows_auth.Profile.Keys.{profile_for_key}
use sovereign_windows_auth.Profile.Codec.{
  profile_binding, encode_record, encode_profile, encode_multi, encode_keys, decode_profile,
  decode_multi, decode_keys, decode_record, decode_binding, join_key, repeats, is_multi,
  empty_sealed, empty_profile,
}
use sovereign_windows_auth.Profile.Codec.Layout.{
  IsKey, IsSealed, IsTyped, record_bytes, binding_bytes,
}
use sovereign_windows_auth.Profile.Codec.Several.{IsTypedKey, multi_bytes, keys_bytes}
use sovereign_windows_auth.Profile.Codec.SeveralRoundTrip.{decode_profile-encode_profile}
use sovereign_windows_auth.Profile.Codec.SeveralCanonical.{
  IsWellTyped, encode_profile-decode_profile,
}

-- Windows that takes every text for a SID.
abbrev pub any_sid : SidApi
any_sid = record {
  string_to_sid = λ text. some text;
  is_valid = λ sid. true;
  sid_to_string = λ sid. some sid;
}

abbrev pub key : KeyProfile
key = record { credential = replicate 16 7; public_key = replicate 64 1; salt = replicate 32 2 }

abbrev pub other_key : KeyProfile
other_key = record {
  credential = replicate 16 8;
  public_key = replicate 64 3;
  salt = replicate 32 4;
}

abbrev password : Sealed
password = record { nonce = replicate 12 5; tag = replicate 16 6; ciphertext = 9 ∷ 10 ∷ [] }

abbrev pub sample : AccountProfile
sample = record {
  kind = windows_pin;
  key = key;
  sid = codes "S-1";
  account = codes "MicrosoftAccount\\a";
  password = password;
  additional = record { key = other_key; password = password } ∷ [];
}

pub encoded : encode_profile any_sid sample ≡ ok (multi_bytes sample)
unfolding encode_profile encode_multi encode_keys repeats encode_record profile_binding put32
    put_string validate_sid canonical profile_for_key equal gather le32 multi_bytes keys_bytes
    record_bytes binding_bytes
encoded = refl

decoded : decode_profile any_sid (multi_bytes sample) ≡ ok sample
unfolding decode_profile decode_multi decode_keys decode_record decode_binding join_key is_multi
    empty_sealed empty_profile take_bytes read_number read_string read32 read_from encode_profile
    encode_multi encode_keys repeats encode_record profile_binding put32 put_string validate_sid
    canonical profile_for_key equal gather le32 multi_bytes keys_bytes record_bytes binding_bytes
decoded = refl

key-IsKey : IsKey key
key-IsKey = record {
  credential_bytes = omega arith;
  public_key_bytes = omega arith;
  public_key_size = refl;
  salt_bytes = omega arith;
  salt_size = refl;
}

other_key-IsKey : IsKey other_key
other_key-IsKey = record {
  credential_bytes = omega arith;
  public_key_bytes = omega arith;
  public_key_size = refl;
  salt_bytes = omega arith;
  salt_size = refl;
}

password-IsSealed : IsSealed password
password-IsSealed = record {
  nonce_bytes = omega arith;
  nonce_size = refl;
  tag_bytes = omega arith;
  tag_size = refl;
  ciphertext_bytes = omega arith;
}

pub sample-IsTyped : IsTyped sample
sample-IsTyped = record {
  key_typed = key-IsKey;
  password_typed = password-IsSealed;
  sid_units = omega arith;
  account_units = omega arith;
}

pub others-IsTypedKey : All IsTypedKey sample.additional
others-IsTypedKey = (record { key_typed = other_key-IsKey; password_typed = password-IsSealed }, tt)

sample-IsBytes : IsBytes (multi_bytes sample)
unfolding multi_bytes keys_bytes record_bytes binding_bytes le32
sample-IsBytes = omega arith

decode_profile-encode_profile_example : decode_profile any_sid (multi_bytes sample) ≡ ok sample
decode_profile-encode_profile_example =
    decode_profile-encode_profile any_sid sample (multi_bytes sample) sample-IsTyped
      others-IsTypedKey encoded

encode_profile-decode_profile_example :
    IsWellTyped sample × (encode_profile any_sid sample ≡ ok (multi_bytes sample))
encode_profile-decode_profile_example =
    encode_profile-decode_profile any_sid (multi_bytes sample) sample sample-IsBytes decoded

abbrev sevens : Bytes
sevens = replicate 16 7

abbrev eights : Bytes
eights = replicate 16 8

equal_iff_example : (equal sevens eights ≡ true) ↔ (sevens ≡ eights)
equal_iff_example = equal_iff sevens eights (omega arith) (omega arith)

test_bytes-IsBytes : IsBytes (test_bytes key)
unfolding test_bytes le32
test_bytes-IsBytes = omega arith

parsed : parse_test_profile (test_bytes key) ≡ ok key
unfolding parse_test_profile test_bytes le32 read32 read_from
parsed = refl
