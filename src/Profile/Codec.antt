-- ===== src/Profile/Codec.antt =====
-- src/profile.cpp: `profileBinding`, `encodeProfile` and `decodeProfile`.
pub mod Layout
pub mod RoundTrip
pub mod Canonical
pub mod Several
pub mod SeveralReads
pub mod SeveralRoundTrip
pub mod SeveralCanonical
use sovereign_windows_auth.Base.{ℕ, zero, suc, ◌+◌, ◌%◌, Bool, false, not}
use sovereign_windows_auth.Base.{◌&&◌, ◌||◌, List, [], ◌∷◌, ◌++◌, length, take}
use sovereign_windows_auth.Base.{ltb, leb, ◌==◌, codes}
use sovereign_windows_auth.Base.{Result, ok, ◌>>=◌, ◌>>◌, need, get_or, replicate, if◌then◌else◌}
use sovereign_windows_auth.Core.{Bytes, WideString, Sealed, AccountProfile}
use sovereign_windows_auth.Core.{microsoft_password, windows_pin, equal}
use sovereign_windows_auth.Profile.Wide.{begins_with, wide_eq}
use sovereign_windows_auth.Profile.Wire.{
  Reader, put32, put_string, take_bytes, read_number, read_string,
}
use sovereign_windows_auth.Profile.Sid.{SidApi, validate_sid}
use sovereign_windows_auth.Profile.Keys.{profile_for_key}

abbrev pub microsoft_prefix : WideString
microsoft_prefix = codes "MicrosoftAccount\\"

-- "SWA", the first bytes of a record, and "SWM" with 2, those of a profile with several keys.
abbrev pub record_magic : Bytes
record_magic = codes "SWA"

abbrev pub multi_magic : Bytes
multi_magic = codes "SWM" ++ (2 ∷ [])

unfoldable pub profile_binding : SidApi → AccountProfile → Result Bytes
profile_binding api profile = do
  validate_sid api profile.sid
  need (begins_with profile.account microsoft_prefix)
      "This prototype supports Microsoft accounts only"
  need (leb 16 (length profile.key.credential) && leb (length profile.key.credential) 2048)
      "Invalid credential length"
  need (profile.kind == microsoft_password || profile.kind == windows_pin) "Unknown credential kind"
  out ← put_string (record_magic ++ (profile.kind % 256 ∷ [])) profile.sid
  out ← put_string out profile.account
  out ← put32 out (length profile.key.credential)
  ok (((out ++ profile.key.credential) ++ profile.key.public_key) ++ profile.key.salt)

-- The part of `encodeProfile` below its first branch: a profile with one key.
unfoldable pub encode_record : SidApi → AccountProfile → Result Bytes
encode_record api profile = do
  binding ← profile_binding api profile
  need (ltb 0 (length profile.password.ciphertext) && leb (length profile.password.ciphertext) 8192)
      "Invalid encrypted credential size"
  out ← put32 [] (length binding)
  let out = ((out ++ binding) ++ profile.password.nonce) ++ profile.password.tag
  out ← put32 out (length profile.password.ciphertext)
  ok (out ++ profile.password.ciphertext)

-- The loop over the keys: `rounds` are left, and `identities` holds the credentials seen.
unfoldable pub repeats : Bytes → List Bytes → Bool
repeats credential [] = false
repeats credential (id ∷ identities) = equal id credential || repeats credential identities

-- The nested `encodeProfile(record)` is on a profile without additional keys, so it is
-- `encode_record`.
unfoldable pub encode_keys : SidApi → AccountProfile → ℕ → ℕ → List Bytes → Bytes → Result Bytes
encode_keys api profile zero i identities out = ok out
encode_keys api profile (suc rounds) i identities out = do
  entry ← profile_for_key profile i
  need (not (repeats entry.key.credential identities)) "Duplicate enrolled key credential"
  encoded ← encode_record api entry
  out ← put32 out (length encoded)
  encode_keys api profile rounds (suc i) (identities ++ (entry.key.credential ∷ []))
      (out ++ encoded)

unfoldable pub encode_multi : SidApi → AccountProfile → Result Bytes
encode_multi api profile = do
  need (ltb (length profile.additional) 8) "Too many enrolled keys"
  out ← put32 multi_magic (length profile.additional + 1)
  out ← encode_keys api profile (length profile.additional + 1) 0 [] out
  need (leb (length out) 60000) "Multi-key profile exceeds size limit"
  ok out

unfoldable pub encode_profile : SidApi → AccountProfile → Result Bytes
encode_profile api profile = elim profile.additional [
  | [] ↦ encode_record api profile
  | _ ∷ _ ↦ encode_multi api profile
]

unfoldable pub is_multi : Bytes → Bool
is_multi bytes = leb 4 (length bytes) && equal (take 4 bytes) multi_magic

unfoldable pub empty_sealed : Sealed
empty_sealed = record { nonce = replicate 12 0; tag = replicate 16 0; ciphertext = [] }

-- The part of `decodeProfile` that reads the binding.
unfoldable pub decode_binding : SidApi → Bytes → Result AccountProfile
decode_binding api buffer = do
  (magic, binding) ← take_bytes (record { buffer = buffer; position = 0 }) 4
  let kind = get_or magic 3 0
  need (equal (take 3 magic) record_magic && (kind == 1 || kind == 2))
      "Unknown account profile version"
  (sid, binding) ← read_string binding
  (account, binding) ← read_string binding
  (size, binding) ← read_number binding
  need (leb 16 size && leb size 2048) "Invalid credential size"
  (credential, binding) ← take_bytes binding size
  (public_key, binding) ← take_bytes binding 64
  (salt, binding) ← take_bytes binding 32
  need (binding.position == length buffer) "Trailing account binding data"
  let profile : AccountProfile = record {
    kind = kind;
    key = record { credential = credential; public_key = public_key; salt = salt };
    sid = sid;
    account = account;
    password = empty_sealed;
    additional = [];
  }
  expected ← profile_binding api profile
  need (equal expected buffer) "Noncanonical account binding"
  ok profile

-- The part of `decodeProfile` below its first branch: one key.
unfoldable pub decode_record : SidApi → Bytes → Result AccountProfile
decode_record api bytes = do
  need (leb (length bytes) 16384) "Account profile exceeds size limit"
  (size, outer) ← read_number (record { buffer = bytes; position = 0 })
  need (leb size 8192) "Account binding exceeds size limit"
  (binding, outer) ← take_bytes outer size
  profile ← decode_binding api binding
  (nonce, outer) ← take_bytes outer 12
  (tag, outer) ← take_bytes outer 16
  (size, outer) ← read_number outer
  need (ltb 0 size && leb size 8192) "Invalid encrypted password length"
  (ciphertext, outer) ← take_bytes outer size
  need (outer.position == length bytes) "Trailing encrypted profile data"
  ok (record profile { password = record { nonce = nonce; tag = tag; ciphertext = ciphertext } })

unfoldable pub empty_profile : AccountProfile
empty_profile = record {
  kind = microsoft_password;
  key = record { credential = []; public_key = replicate 64 0; salt = replicate 32 0 };
  sid = [];
  account = [];
  password = empty_sealed;
  additional = [];
}

-- The first record gives the identity, the others a key each.
unfoldable pub join_key : ℕ → AccountProfile → AccountProfile → Result AccountProfile
join_key zero result entry = ok entry
join_key (suc i) result entry = do
  need
      (wide_eq entry.sid result.sid
        && wide_eq entry.account result.account
        && (entry.kind == result.kind))
      "Multi-key profile crosses identities or credential kinds"
  ok (record result {
    additional = result.additional ++ (record { key = entry.key; password = entry.password } ∷ []);
  })

-- The nested `decodeProfile(recordBytes)` comes after the test for the magic of several keys, so
-- it is `decode_record`.
unfoldable pub decode_keys :
    SidApi → ℕ → ℕ → AccountProfile → Reader → Result (AccountProfile × Reader)
decode_keys api zero i result outer = ok (result, outer)
decode_keys api (suc rounds) i result outer = do
  (size, outer) ← read_number outer
  need (ltb 4 size && leb size 16384) "Invalid key record length"
  (bytes, outer) ← take_bytes outer size
  need (not (equal (take 4 bytes) multi_magic)) "Nested multi-key profiles are not allowed"
  entry ← decode_record api bytes
  result ← join_key i result entry
  decode_keys api rounds (suc i) result outer

unfoldable pub decode_multi : SidApi → Bytes → Result AccountProfile
decode_multi api bytes = do
  need (leb (length bytes) 60000) "Multi-key profile exceeds size limit"
  (magic, outer) ← take_bytes (record { buffer = bytes; position = 0 }) 4
  (count, outer) ← read_number outer
  need (leb 2 count && leb count 8) "Invalid enrolled key count"
  (result, outer) ← decode_keys api count 0 empty_profile outer
  need (outer.position == length bytes) "Trailing multi-key profile data"
  again ← encode_profile api result
  need (equal again bytes) "Noncanonical multi-key profile"
  ok result

unfoldable pub decode_profile : SidApi → Bytes → Result AccountProfile
decode_profile api bytes =
    if is_multi bytes then decode_multi api bytes else decode_record api bytes
