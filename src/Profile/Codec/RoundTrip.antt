-- ===== src/Profile/Codec/RoundTrip.antt =====
-- What the encoder writes for one key, the parser reads back.
use sovereign_windows_auth.Base.{◌^◌, ◌≤◌, ◌<◌, ◌≡◌, refl, arith, true}
use sovereign_windows_auth.Base.{[], ◌++◌, append_assoc, length}
use sovereign_windows_auth.Base.{eq→==, le→leb, lt→ltb, ok}
use sovereign_windows_auth.Core.{Bytes, AccountProfile, IsBytes, equal}
use sovereign_windows_auth.Core.Number.{le32}
use sovereign_windows_auth.Core.Equal.{equal_iff}
use sovereign_windows_auth.Profile.Wire.Writes.{string_bytes}
use sovereign_windows_auth.Profile.Wire.Moves.{
  take_moves, take_at, take_last, number_moves, string_moves,
}
use sovereign_windows_auth.Profile.Sid.{SidApi}
use sovereign_windows_auth.Profile.Codec.{decode_binding, decode_record, empty_sealed, record_magic}
use sovereign_windows_auth.Profile.Codec.Layout.{
  IsTyped, IsBindable, IsEncodable, magic_bytes, binding_bytes, record_bytes,
  profile_binding_writes, binding_bytes-IsBytes, binding_bytes-le, length-record_bytes,
}

-- What the binding says of a profile: all but the encrypted credential and the other keys.
abbrev bare : AccountProfile → AccountProfile
bare p = record p { password = empty_sealed; additional = [] }

bare-IsBindable : (api : SidApi) (p : AccountProfile) → IsBindable api p → IsBindable api (bare p)
bare-IsBindable api p h = record {
  sid_valid = h.sid_valid;
  sid_identity = h.sid_identity;
  account_identity = h.account_identity;
  account_microsoft = h.account_microsoft;
  credential_long = h.credential_long;
  credential_short = h.credential_short;
  kind_known = h.kind_known;
}

binding_bytes-bare : (p : AccountProfile) → binding_bytes (bare p) ≡ binding_bytes p
unfolding binding_bytes
binding_bytes-bare p = refl

pub equal_self : (b : Bytes) → IsBytes b → equal b b ≡ true
equal_self b h = (equal_iff b b h h).1 refl

magic_equal : equal record_magic record_magic ≡ true
magic_equal = equal_self record_magic (omega arith)

decode_binding_reads :
    (api : SidApi) (p : AccountProfile)
    → IsTyped p
    → IsBindable api p
    → decode_binding api (binding_bytes p)
      ≡ ok (record p { password = empty_sealed; additional = [] })
unfolding decode_binding binding_bytes
decode_binding_reads api p t h =
    let k = t.key_typed in
    let one = magic_bytes p.kind in
    let two = one ++ string_bytes p.sid in
    let three = two ++ string_bytes p.account in
    let four = three ++ le32 (length p.key.credential) in
    let five = four ++ p.key.credential in
    let six = five ++ p.key.public_key in
    let last = p.key.public_key ++ p.key.salt in
    let size : length p.key.credential < 2 ^ 32 = omega (arith, h.credential_short) in
    rw
      (take_moves [] one (
        string_bytes p.sid
        ++ (string_bytes p.account
            ++ (le32 (length p.key.credential) ++ (p.key.credential ++ last)))))
      (rw
        (string_moves one p.sid
          (string_bytes p.account ++ (le32 (length p.key.credential) ++ (p.key.credential ++ last)))
          h.sid_identity t.sid_units)
        (rw
          (string_moves two p.account (le32 (length p.key.credential) ++ (p.key.credential ++ last))
            h.account_identity t.account_units)
          (rw (number_moves three (length p.key.credential) (p.key.credential ++ last) size) (
            rw (le→leb _ _ h.credential_long, le→leb _ _ h.credential_short)
              (rw (take_moves four p.key.credential last) (
                rw (take_at five p.key.public_key p.key.salt 64 k.public_key_size) (
                  rw (take_last six p.key.salt 32 k.salt_size) (
                    rw (magic_equal, h.kind_known)
                      (rw
                        (eq→== (length (six ++ p.key.salt)) (length (binding_bytes p))
                          (simp append_assoc))
                        (rw (profile_binding_writes api (bare p) (bare-IsBindable api p h)) (
                          rw (binding_bytes-bare p)
                            (rw (equal_self _ (binding_bytes-IsBytes api p k h))))))))))))))

pub record_bytes-le :
    (api : SidApi) (p : AccountProfile)
    → IsTyped p
    → IsEncodable api p
    → length (record_bytes p) ≤ 12436
record_bytes-le api p t h = omega (
  arith,
  length-record_bytes p t.password_typed,
  binding_bytes-le api p t.key_typed h.bindable,
  h.ciphertext_short,
)

pub decode_record_reads :
    (api : SidApi) (p : AccountProfile)
    → IsTyped p
    → IsEncodable api p
    → decode_record api (record_bytes p) ≡ ok (record p { additional = [] })
unfolding decode_record record_bytes
decode_record_reads api p t h =
    let s = t.password_typed in
    let head = le32 (length (binding_bytes p)) in
    let one = head ++ binding_bytes p in
    let two = one ++ p.password.nonce in
    let three = two ++ p.password.tag in
    let sealed = le32 (length p.password.ciphertext) ++ p.password.ciphertext in
    let four = three ++ le32 (length p.password.ciphertext) in
    let small : length (binding_bytes p) ≤ 4208 = binding_bytes-le api p t.key_typed h.bindable in
    let whole = binding_bytes p ++ (p.password.nonce ++ (p.password.tag ++ sealed)) in
    rw (le→leb (length (record_bytes p)) 16384 (omega (arith, record_bytes-le api p t h))) (
      rw (number_moves [] (length (binding_bytes p)) whole (omega arith)) (
        rw (le→leb (length (binding_bytes p)) 8192 (omega arith)) (
          rw (take_moves head (binding_bytes p) (p.password.nonce ++ (p.password.tag ++ sealed))) (
            rw (decode_binding_reads api p t h.bindable) (
              rw (take_at one p.password.nonce (p.password.tag ++ sealed) 12 s.nonce_size) (
                rw (take_at two p.password.tag sealed 16 s.tag_size) (
                  rw
                    (number_moves three (length p.password.ciphertext) p.password.ciphertext
                      (omega (arith, h.ciphertext_short)))
                    (rw (lt→ltb _ _ h.ciphertext_some, le→leb _ _ h.ciphertext_short)
                      (rw (take_last four p.password.ciphertext _ refl) (
                        rw (
                          eq→== (length (four ++ p.password.ciphertext)) (length (record_bytes p))
                            (simp append_assoc))))))))))))
