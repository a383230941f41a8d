-- ===== src/Profile/Codec/SeveralRoundTrip.antt =====
-- What the encoder writes for several keys, the parser reads back.
use sovereign_windows_auth.Base.{
  ◌<◌, ◌≡◌, refl, sym, ap, ◌∙◌, arith, true, false, List, [], ◌∷◌, length, All, le→leb, ok,
}
use sovereign_windows_auth.Core.{Bytes, AccountProfile, AdditionalKey}
use sovereign_windows_auth.Profile.Sid.{SidApi}
use sovereign_windows_auth.Profile.Codec.{
  decode_profile, encode_profile, encode_multi, encode_record, multi_magic, is_multi,
}
use sovereign_windows_auth.Profile.Codec.Layout.{
  IsTyped, IsEncodable, record_bytes, encode_record_inv,
}
use sovereign_windows_auth.Profile.Codec.RoundTrip.{equal_self, decode_record_reads}
use sovereign_windows_auth.Profile.Codec.Several.{single, IsTypedKey, multi_bytes, encode_multi_inv}
use sovereign_windows_auth.Profile.Codec.SeveralReads.{record_not_multi, decode_multi_reads}

-- The bytes of a record do not look like several keys.
record_is_single :
    (api : SidApi) (p : AccountProfile)
    → IsTyped p
    → IsEncodable api p
    → is_multi (record_bytes p) ≡ false
unfolding is_multi
record_is_single api p t h = rw (record_not_multi api p t h) (ground arith)

multi_is_multi : (p : AccountProfile) → is_multi (multi_bytes p) ≡ true
unfolding is_multi multi_bytes
multi_is_multi p =
    rw (le→leb 4 (length (multi_bytes p)) (omega arith)) (equal_self multi_magic (omega arith))

-- The two branches of `encodeProfile`.
pub encode_profile_one :
    (api : SidApi) (p : AccountProfile)
    → p.additional ≡ []
    → encode_profile api p ≡ encode_record api p
unfolding encode_profile
encode_profile_one api p e = rw e

pub encode_profile_several :
    (api : SidApi) (p : AccountProfile) {a : AdditionalKey} {l : List AdditionalKey}
    → p.additional ≡ a ∷ l
    → encode_profile api p ≡ encode_multi api p
unfolding encode_profile
encode_profile_several api p e = rw e

without_others : (p : AccountProfile) → p.additional ≡ [] → single p ≡ p
without_others p e = λ i. record p { additional = sym e i }

by_keys :
    (api : SidApi) (p : AccountProfile) (l : List AdditionalKey) {b : Bytes}
    → p.additional ≡ l
    → IsTyped p
    → All IsTypedKey p.additional
    → encode_profile api p ≡ ok b
    → decode_profile api b ≡ ok p
unfolding decode_profile
by_keys api p [] e t ts h =
    let (encodable, is_b) =
      encode_record_inv api p t.key_typed (sym (encode_profile_one api p e) ∙ h) in
    rw (is_b, record_is_single api p t encodable)
      (decode_record_reads api p t encodable ∙ ap ok (without_others p e))
by_keys api p (a ∷ l) e t ts h =
    let (first, others, few, short, is_b) =
      encode_multi_inv api p t ts (sym (encode_profile_several api p e) ∙ h) in
    let some_keys : 0 < length p.additional = rw e (omega arith) in
    rw (is_b, multi_is_multi p)
      (decode_multi_reads api p t ts first others some_keys few (rw is_b at short) (h ∙ ap ok is_b))

-- A profile that was encoded is read back: whatever `encodeProfile` writes for a profile of the
-- types of its fields (byte values, 64-byte public keys, 32-byte salts, 12-byte nonces, 16-byte tags,
-- 16-bit text units), with one key or with several, `decodeProfile` accepts and returns that profile.
pub decode_profile-encode_profile :
    (api : SidApi) (p : AccountProfile) (b : Bytes)
    → IsTyped p
    → All IsTypedKey p.additional
    → encode_profile api p ≡ ok b
    → decode_profile api b ≡ ok p
decode_profile-encode_profile api p b t ts h = by_keys api p p.additional refl t ts h
