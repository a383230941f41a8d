-- ===== src/Profile/Codec/Layout.antt =====
-- The bytes that the encoder writes, and exactly when it writes them.
use sovereign_windows_auth.Base.{ℕ, ◌+◌, ◌*◌, ◌%◌, ◌≤◌, ◌<◌, ◌≡◌, arith, true}
use sovereign_windows_auth.Base.{
  List, [], ◌∷◌, ◌++◌, append_assoc, length, length-append, All, All-append, ◌&&◌, ◌||◌,
}
use sovereign_windows_auth.Base.{
  ◌==◌, ltb, leb, le→leb, lt→ltb, positive_le, le_le, ok, need-eq-ok, >>=-eq-ok,
}
use sovereign_windows_auth.Core.{
  Bytes, KeyProfile, Sealed, AccountProfile, microsoft_password, windows_pin, IsBytes,
}
use sovereign_windows_auth.Core.Number.{le32, length-le32, le32-IsBytes}
use sovereign_windows_auth.Profile.Wide.{begins_with, wide_bytes}
use sovereign_windows_auth.Profile.Wire.{put32, put_string}
use sovereign_windows_auth.Profile.Wire.Writes.{
  IsUnit, IsIdentity, string_bytes, put32_appends, put_string_appends, put_string_inv,
}
use sovereign_windows_auth.Profile.Wire.Moves.{length-wide_bytes}
use sovereign_windows_auth.Profile.Sid.{SidApi, validate_sid}
use sovereign_windows_auth.Profile.Codec.{
  profile_binding, encode_record, microsoft_prefix, record_magic,
}

-- What a `KeyProfile` and a `Sealed` are by their C++ types: bytes, and arrays of fixed lengths.
pub record IsKey (k : KeyProfile) : Type 0 where
  pub credential_bytes : IsBytes k.credential
  pub public_key_bytes : IsBytes k.public_key
  pub public_key_size : length k.public_key ≡ 64
  pub salt_bytes : IsBytes k.salt
  pub salt_size : length k.salt ≡ 32

pub record IsSealed (s : Sealed) : Type 0 where
  pub nonce_bytes : IsBytes s.nonce
  pub nonce_size : length s.nonce ≡ 12
  pub tag_bytes : IsBytes s.tag
  pub tag_size : length s.tag ≡ 16
  pub ciphertext_bytes : IsBytes s.ciphertext

pub record IsTyped (p : AccountProfile) : Type 0 where
  pub key_typed : IsKey p.key
  pub password_typed : IsSealed p.password
  pub sid_units : All IsUnit p.sid
  pub account_units : All IsUnit p.account

-- The conditions of `profileBinding`.
pub record IsBindable (api : SidApi) (p : AccountProfile) : Type 0 where
  pub sid_valid : validate_sid api p.sid ≡ ok tt
  pub sid_identity : IsIdentity p.sid
  pub account_identity : IsIdentity p.account
  pub account_microsoft : begins_with p.account microsoft_prefix ≡ true
  pub credential_long : 16 ≤ length p.key.credential
  pub credential_short : length p.key.credential ≤ 2048
  pub kind_known : (p.kind == microsoft_password || p.kind == windows_pin) ≡ true

-- Those of `encodeProfile` on one key.
pub record IsEncodable (api : SidApi) (p : AccountProfile) : Type 0 where
  pub bindable : IsBindable api p
  pub ciphertext_some : 0 < length p.password.ciphertext
  pub ciphertext_short : length p.password.ciphertext ≤ 8192

abbrev pub magic_bytes : ℕ → Bytes
magic_bytes kind = record_magic ++ (kind ∷ [])

unfoldable pub binding_bytes : AccountProfile → Bytes
binding_bytes p =
    magic_bytes p.kind
    ++ (string_bytes p.sid
        ++ (string_bytes p.account
            ++ (le32 (length p.key.credential)
                ++ (p.key.credential ++ (p.key.public_key ++ p.key.salt)))))

unfoldable pub record_bytes : AccountProfile → Bytes
record_bytes p =
    le32 (length (binding_bytes p))
    ++ (binding_bytes p
        ++ (p.password.nonce
            ++ (p.password.tag ++ (le32 (length p.password.ciphertext) ++ p.password.ciphertext))))

-- The kind fits the byte that it is written in.
pub kind_byte :
    (k : ℕ) → (k == microsoft_password || k == windows_pin) ≡ true → (k < 256) × (k % 256 ≡ k)
kind_byte k h = ground arith

pub profile_binding_writes :
    (api : SidApi) (p : AccountProfile)
    → IsBindable api p
    → profile_binding api p ≡ ok (binding_bytes p)
unfolding profile_binding binding_bytes
profile_binding_writes api p h =
    rw
      (
        h.sid_valid,
        h.account_microsoft,
        le→leb _ _ h.credential_long,
        le→leb _ _ h.credential_short,
        h.kind_known,
        (kind_byte _ h.kind_known).1,
      )
      (rw (put_string_appends (magic_bytes p.kind) p.sid h.sid_identity) (
        rw
          (put_string_appends (magic_bytes p.kind ++ string_bytes p.sid) p.account
            h.account_identity)
          (rw
            (put32_appends ((magic_bytes p.kind ++ string_bytes p.sid) ++ string_bytes p.account)
              (length p.key.credential) (omega (arith, h.credential_short)))
            (simp append_assoc))))

pub profile_binding_inv :
    (api : SidApi) (p : AccountProfile) {b : Bytes}
    → profile_binding api p ≡ ok b
    → IsBindable api p × (b ≡ binding_bytes p)
unfolding profile_binding
profile_binding_inv api p {b} e =
    let (_, valid, h) = >>=-eq-ok (validate_sid api p.sid) _ e in
    let (microsoft, h) = need-eq-ok (begins_with p.account microsoft_prefix) _ _ h in
    let (sizes, h) =
      need-eq-ok (leb 16 (length p.key.credential) && leb (length p.key.credential) 2048) _ _ h in
    let (known, h) = need-eq-ok (p.kind == microsoft_password || p.kind == windows_pin) _ _ h in
    let (one, sid, h) = >>=-eq-ok (put_string (record_magic ++ (p.kind % 256 ∷ [])) p.sid) _ h in
    let (two, account, h) = >>=-eq-ok (put_string one p.account) _ h in
    let (three, credential, h) = >>=-eq-ok (put32 two (length p.key.credential)) _ h in
    let (long, short) = le_le 16 (length p.key.credential) 2048 sizes in
    let bindable : IsBindable api p = record {
      sid_valid = valid;
      sid_identity = (put_string_inv _ p.sid sid).0;
      account_identity = (put_string_inv one p.account account).0;
      account_microsoft = microsoft;
      credential_long = long;
      credential_short = short;
      kind_known = known;
    } in
    (bindable, cc (profile_binding_writes api p bindable))

-- How long a binding is; the bound is that of the parser.
pub length-binding_bytes :
    (p : AccountProfile)
    → IsKey p.key
    → length (binding_bytes p)
      ≡ 112 + length p.sid * 2 + length p.account * 2 + length p.key.credential
unfolding binding_bytes
length-binding_bytes p k =
    simp (length-append, length-wide_bytes, length-le32, k.public_key_size, k.salt_size)
      (omega arith)

pub binding_bytes-le :
    (api : SidApi) (p : AccountProfile)
    → IsKey p.key
    → IsBindable api p
    → length (binding_bytes p) ≤ 4208
binding_bytes-le api p k h = omega (
  arith,
  length-binding_bytes p k,
  h.credential_short,
  h.sid_identity.short,
  h.account_identity.short,
)

pub length-record_bytes :
    (p : AccountProfile)
    → IsSealed p.password
    → length (record_bytes p) ≡ 36 + length (binding_bytes p) + length p.password.ciphertext
unfolding record_bytes
length-record_bytes p s = simp (length-append, length-le32, s.nonce_size, s.tag_size) (omega arith)

pub encode_record_writes :
    (api : SidApi) (p : AccountProfile)
    → IsKey p.key
    → IsEncodable api p
    → encode_record api p ≡ ok (record_bytes p)
unfolding encode_record record_bytes
encode_record_writes api p k h = rw (profile_binding_writes api p h.bindable) (
    rw (lt→ltb _ _ h.ciphertext_some, le→leb _ _ h.ciphertext_short)
      (rw
        (put32_appends [] (length (binding_bytes p))
          (omega (arith, binding_bytes-le api p k h.bindable)))
        (rw
          (put32_appends
            (((le32 (length (binding_bytes p)) ++ binding_bytes p) ++ p.password.nonce)
              ++ p.password.tag)
            (length p.password.ciphertext) (omega (arith, h.ciphertext_short)))
          (simp append_assoc))))

pub encode_record_inv :
    (api : SidApi) (p : AccountProfile) {b : Bytes}
    → IsKey p.key
    → encode_record api p ≡ ok b
    → IsEncodable api p × (b ≡ record_bytes p)
unfolding encode_record
encode_record_inv api p k e =
    let (binding, bound, h) = >>=-eq-ok (profile_binding api p) _ e in
    let (sizes, h) =
      need-eq-ok (ltb 0 (length p.password.ciphertext) && leb (length p.password.ciphertext) 8192) _
        _ h in
    let (some_bytes, short) = positive_le (length p.password.ciphertext) 8192 sizes in
    let encodable : IsEncodable api p = record {
      bindable = (profile_binding_inv api p bound).0;
      ciphertext_some = some_bytes;
      ciphertext_short = short;
    } in
    (encodable, cc (encode_record_writes api p k encodable))

wide_bytes-IsBytes : (s : List ℕ) → IsBytes (wide_bytes s)
wide_bytes-IsBytes [] = tt
wide_bytes-IsBytes (c ∷ s) = (omega arith, (omega arith, wide_bytes-IsBytes s))

pub binding_bytes-IsBytes :
    (api : SidApi) (p : AccountProfile) → IsKey p.key → IsBindable api p → IsBytes (binding_bytes p)
unfolding binding_bytes
binding_bytes-IsBytes api p k h =
    let magic : IsBytes (magic_bytes p.kind) = omega (arith, kind_byte p.kind h.kind_known) in
    search (magic, All-append, le32-IsBytes, wide_bytes-IsBytes) depth 20

pub record_bytes-IsBytes :
    (api : SidApi) (p : AccountProfile) → IsTyped p → IsBindable api p → IsBytes (record_bytes p)
unfolding record_bytes
record_bytes-IsBytes api p t h =
    let binding = binding_bytes-IsBytes api p t.key_typed h in
    let s = t.password_typed in
    search (binding, All-append, le32-IsBytes, s.nonce_bytes, s.tag_bytes, s.ciphertext_bytes) depth
      20
