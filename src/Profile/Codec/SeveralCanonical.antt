-- ===== src/Profile/Codec/SeveralCanonical.antt =====
-- The parser accepts only what the encoder writes, with one key and with several.
use sovereign_windows_auth.Base.{
  ℕ, zero, suc, ◌≤◌, ◌≡◌, refl, sym, ap, ◌∙◌, subst, arith, not, inl, inr, Bool-cases,
}
use sovereign_windows_auth.Base.{
  List, [], ◌∷◌, ◌++◌, length, take, All, All-append, ◌&&◌, ◌==◌, le_le, ltb, leb, ok, need_elim,
  bind_elim, ok-injective,
}
use sovereign_windows_auth.Core.{Bytes, AccountProfile, AdditionalKey, IsBytes, equal}
use sovereign_windows_auth.Core.Number.{le32}
use sovereign_windows_auth.Core.Equal.{equal_iff}
use sovereign_windows_auth.Profile.Wide.{wide_eq}
use sovereign_windows_auth.Profile.Wire.{Reader}
use sovereign_windows_auth.Profile.Wire.Moves.{at}
use sovereign_windows_auth.Profile.Wire.Reads.{take_elim, number_elim}
use sovereign_windows_auth.Profile.Sid.{SidApi}
use sovereign_windows_auth.Profile.Codec.{
  decode_record, decode_keys, decode_multi, decode_profile, encode_profile, empty_profile,
  multi_magic, is_multi, join_key,
}
use sovereign_windows_auth.Profile.Codec.Layout.{
  IsTyped, encode_record_inv, encode_record_writes, record_bytes-IsBytes,
}
use sovereign_windows_auth.Profile.Codec.Canonical.{decode_record_inv}
use sovereign_windows_auth.Profile.Codec.Several.{IsTypedKey, encode_multi_inv}
use sovereign_windows_auth.Profile.Codec.SeveralReads.{multi_bytes-IsBytes}
use sovereign_windows_auth.Profile.Codec.SeveralRoundTrip.{
  encode_profile_one, encode_profile_several,
}

-- The fields of a profile have the values of their C++ types.
pub record IsWellTyped (p : AccountProfile) : Type 0 where
  pub main : IsTyped p
  pub others : All IsTypedKey p.additional

with_others-IsTyped :
    (p : AccountProfile) (l : List AdditionalKey)
    → IsTyped p
    → IsTyped (record p { additional = l })
with_others-IsTyped p l t = record {
  key_typed = t.key_typed;
  password_typed = t.password_typed;
  sid_units = t.sid_units;
  account_units = t.account_units;
}

join_key-IsWellTyped :
    (i : ℕ) (result entry : AccountProfile) {r : AccountProfile}
    → IsWellTyped result
    → IsWellTyped entry
    → join_key (suc i) result entry ≡ ok r
    → IsWellTyped r
unfolding join_key
join_key-IsWellTyped i result entry t te h =
    need_elim
      (wide_eq entry.sid result.sid
        && wide_eq entry.account result.account
        && (entry.kind == result.kind))
      _ _ h
      λ same h. subst IsWellTyped (ok-injective h) (record {
        main = with_others-IsTyped result _ t.main;
        others =
            All-append IsTypedKey result.additional _ t.others (
              record { key_typed = te.main.key_typed; password_typed = te.main.password_typed },
              tt,
            );
      })

entry-IsWellTyped :
    (api : SidApi) (b : Bytes) {e : AccountProfile}
    → IsBytes b
    → decode_record api b ≡ ok e
    → IsWellTyped e
entry-IsWellTyped api b {e} k h =
    let r = decode_record_inv api b k h in
    record { main = r.typed; others = subst (All IsTypedKey) (sym r.no_others) tt }

decode_keys-IsWellTyped :
    (api : SidApi) (rounds i : ℕ) (result : AccountProfile) (done tail : Bytes) {r : AccountProfile}
    {reader : Reader}
    → IsBytes tail
    → IsWellTyped result
    → decode_keys api rounds (suc i) result (at done tail) ≡ ok (r, reader)
    → IsWellTyped r
unfolding decode_keys
decode_keys-IsWellTyped api zero i result done tail k t h =
    subst IsWellTyped (ap (λ (x : AccountProfile × Reader). x.0) (ok-injective h)) t
decode_keys-IsWellTyped api (suc rounds) i result done tail k t h =
    number_elim done tail _ k h λ size l1 c1 k1 h.
      need_elim (ltb 4 size && leb size 16384) _ _ h λ sizes h.
        take_elim (done ++ le32 size) l1 size _ k1 h λ bytes l2 c2 n2 kb k2 h.
          need_elim (not (equal (take 4 bytes) multi_magic)) _ _ h λ plain h.
            bind_elim (decode_record api bytes) _ h λ entry read h.
              bind_elim (join_key (suc i) result entry) _ h λ joined join h.
                decode_keys-IsWellTyped api rounds (suc i) joined _ l2 k2
                  (join_key-IsWellTyped i result entry t (entry-IsWellTyped api bytes kb read) join)
                  h

first-IsWellTyped :
    (api : SidApi) (rounds : ℕ) (result : AccountProfile) (done tail : Bytes) {r : AccountProfile}
    {reader : Reader}
    → IsBytes tail
    → decode_keys api (suc rounds) 0 result (at done tail) ≡ ok (r, reader)
    → IsWellTyped r
unfolding decode_keys join_key
first-IsWellTyped api rounds result done tail k h = number_elim done tail _ k h λ size l1 c1 k1 h.
    need_elim (ltb 4 size && leb size 16384) _ _ h λ sizes h.
      take_elim (done ++ le32 size) l1 size _ k1 h λ bytes l2 c2 n2 kb k2 h.
        need_elim (not (equal (take 4 bytes) multi_magic)) _ _ h λ plain h.
          bind_elim (decode_record api bytes) _ h λ entry read h.
            decode_keys-IsWellTyped api rounds 0 entry _ l2 k2 (entry-IsWellTyped api bytes kb read)
              h

counted-IsWellTyped :
    (api : SidApi) (count : ℕ) (result : AccountProfile) (done tail : Bytes)
    {r : AccountProfile × Reader}
    → IsBytes tail
    → 2 ≤ count
    → decode_keys api count 0 result (at done tail) ≡ ok r
    → IsWellTyped r.0
counted-IsWellTyped api zero result done tail k some_keys h = absurd (omega arith)
counted-IsWellTyped api (suc rounds) result done tail k some_keys h =
    first-IsWellTyped api rounds result done tail k h

-- What is encoded are bytes.
encoded-IsBytes :
    (api : SidApi) (p : AccountProfile) (l : List AdditionalKey) {b : Bytes}
    → p.additional ≡ l
    → IsWellTyped p
    → encode_profile api p ≡ ok b
    → IsBytes b
encoded-IsBytes api p [] e t h =
    let (encodable, is_b) =
      encode_record_inv api p t.main.key_typed (sym (encode_profile_one api p e) ∙ h) in
    subst IsBytes (sym is_b) (record_bytes-IsBytes api p t.main encodable.bindable)
encoded-IsBytes api p (a ∷ l) e t h =
    let (first, others, few, short, is_b) =
      encode_multi_inv api p t.main t.others (sym (encode_profile_several api p e) ∙ h) in
    subst IsBytes (sym is_b) (multi_bytes-IsBytes api p t.main t.others first others)

decode_multi_canonical :
    (api : SidApi) (b : Bytes) {p : AccountProfile}
    → IsBytes b
    → decode_multi api b ≡ ok p
    → IsWellTyped p × (encode_profile api p ≡ ok b)
unfolding decode_multi
decode_multi_canonical api b {p} k h = need_elim (leb (length b) 60000) _ _ h λ fits h.
    take_elim [] b 4 _ k h λ magic l1 c1 n1 km k1 h. number_elim magic l1 _ k1 h λ count l2 c2 k2 h.
      need_elim (leb 2 count && leb count 8) _ _ h λ counts h.
        bind_elim (decode_keys api count 0 empty_profile (at (magic ++ le32 count) l2)) _ h
          λ pair keys h. need_elim (pair.1.position == length b) _ _ h λ place h.
            bind_elim (encode_profile api pair.0) _ h λ again written h.
              need_elim (equal again b) _ _ h λ same h.
                let typed =
                  counted-IsWellTyped api count empty_profile _ l2 k2 (le_le 2 count 8 counts).0
                    keys in
                let bytes = encoded-IsBytes api pair.0 pair.0.additional refl typed written in
                let is_b = (equal_iff again b bytes k).0 same in
                let is_p = ok-injective h in
                (
                  subst IsWellTyped is_p typed,
                  subst (λ q. encode_profile api q ≡ ok b) is_p (written ∙ ap ok is_b),
                )

-- The parser accepts only what the encoder writes: if `decodeProfile` returns a profile for a
-- buffer of bytes, then `encodeProfile` of that profile is that very buffer, and the profile has
-- 64-byte public keys, 32-byte salts, 12-byte nonces, 16-byte tags, byte values and 16-bit units,
-- in each of its keys.
pub encode_profile-decode_profile :
    (api : SidApi) (b : Bytes) (p : AccountProfile)
    → IsBytes b
    → decode_profile api b ≡ ok p
    → IsWellTyped p × (encode_profile api p ≡ ok b)
unfolding decode_profile
encode_profile-decode_profile api b p k h = elim (Bool-cases (is_multi b)) [
  | inl e ↦ decode_multi_canonical api b k (rw e at h)
  | inr e ↦
      let r = decode_record_inv api b k (rw e at h) in
      (
        record { main = r.typed; others = subst (All IsTypedKey) (sym r.no_others) tt },
        encode_profile_one api p r.no_others
            ∙ encode_record_writes api p r.typed.key_typed r.encodable
            ∙ ap ok (sym r.bytes),
      )
]
