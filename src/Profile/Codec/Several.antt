-- ===== src/Profile/Codec/Several.antt =====
-- Profiles with several keys: what the encoder writes, and when.
use sovereign_windows_auth.Base.{suc, ◌+◌, ◌≤◌, ◌<◌, ◌≡◌, refl, sym, ap, ◌∙◌, subst, arith, not}
use sovereign_windows_auth.Base.{
  List, [], ◌∷◌, ◌++◌, append_assoc, append-nil, length, length-append, get_elem?, All, some,
}
use sovereign_windows_auth.Base.{
  ltb, leb, le→leb, leb→le, ltb→lt, ok, need_elim, bind_elim, ok-injective,
}
use native.Mathlib.Numerals.{add-one}
use sovereign_windows_auth.Core.{Bytes, AccountProfile, AdditionalKey}
use sovereign_windows_auth.Core.Number.{le32}
use sovereign_windows_auth.Profile.Wire.{put32}
use sovereign_windows_auth.Profile.Wire.Writes.{put32_inv}
use sovereign_windows_auth.Profile.Sid.{SidApi}
use sovereign_windows_auth.Profile.Keys.{profile_for_key}
use sovereign_windows_auth.Profile.Codec.{
  encode_record, encode_keys, encode_multi, multi_magic, repeats,
}
use sovereign_windows_auth.Profile.Codec.Layout.{
  IsKey, IsSealed, IsTyped, IsEncodable, record_bytes, encode_record_inv,
}

-- The profile of one of the additional keys.
abbrev pub with_key : AccountProfile → AdditionalKey → AccountProfile
with_key p a = record p { key = a.key; password = a.password; additional = [] }

abbrev pub single : AccountProfile → AccountProfile
single p = record p { additional = [] }

pub record IsTypedKey (a : AdditionalKey) : Type 0 where
  pub key_typed : IsKey a.key
  pub password_typed : IsSealed a.password

unfoldable pub keys_bytes : AccountProfile → List AdditionalKey → Bytes
keys_bytes p [] = []
keys_bytes p (a ∷ rest) =
    le32 (length (record_bytes (with_key p a)))
    ++ (record_bytes (with_key p a) ++ keys_bytes p rest)

unfoldable pub multi_bytes : AccountProfile → Bytes
multi_bytes p =
    multi_magic
    ++ (le32 (suc (length p.additional))
        ++ (le32 (length (record_bytes (single p)))
            ++ (record_bytes (single p) ++ keys_bytes p p.additional)))

get_elem?-length :
    (before : List AdditionalKey) (a : AdditionalKey) (rest : List AdditionalKey)
    → get_elem? (before ++ (a ∷ rest)) (length before) ≡ some a
get_elem?-length [] a rest = refl
get_elem?-length (x ∷ before) a rest = get_elem?-length before a rest

profile_for_key-at :
    (p : AccountProfile) (before : List AdditionalKey) (a : AdditionalKey)
    (rest : List AdditionalKey)
    → p.additional ≡ before ++ (a ∷ rest)
    → profile_for_key p (suc (length before)) ≡ ok (with_key p a)
unfolding profile_for_key
profile_for_key-at p before a rest e =
    let small : suc (length before) ≤ length p.additional =
      omega (arith, ap (λ (t : List AdditionalKey). length t) e, length-append before (a ∷ rest)) in
    rw (le→leb _ _ small) (rw (e, get_elem?-length before a rest))

-- One record joins what was written.
regroup :
    (out out' encoded entry rest : Bytes)
    → encoded ≡ entry
    → out' ≡ out ++ le32 (length encoded)
    → (out' ++ encoded) ++ rest ≡ out ++ (le32 (length entry) ++ (entry ++ rest))
regroup out out' encoded entry rest p q = rw (q, p) (simp append_assoc)

pub encode_keys_inv :
    (api : SidApi) (p : AccountProfile) (before rest : List AdditionalKey) (ids : List Bytes)
    (out : Bytes) {b : Bytes}
    → p.additional ≡ before ++ rest
    → All IsTypedKey rest
    → encode_keys api p (length rest) (suc (length before)) ids out ≡ ok b
    → All (λ a. IsEncodable api (with_key p a)) rest × (b ≡ out ++ keys_bytes p rest)
unfolding encode_keys keys_bytes
encode_keys_inv api p before [] ids out e t h = (tt, sym (append-nil out ∙ ok-injective h))
encode_keys_inv api p before (a ∷ rest) ids out {b} e (ta, ts) h =
    let h = rw (profile_for_key-at p before a rest e) at h in
    need_elim (not (repeats a.key.credential ids)) _ _ h λ fresh h.
      bind_elim (encode_record api (with_key p a)) _ h λ encoded written h.
        bind_elim (put32 out (length encoded)) _ h λ out' put h.
          let (encodable, is_record) = encode_record_inv api (with_key p a) ta.key_typed written in
          let (_, is_out) = put32_inv out (length encoded) put in
          let next : before ++ (a ∷ rest) ≡ (before ++ (a ∷ [])) ++ rest =
            sym (append_assoc before (a ∷ []) rest) in
          let index : suc (suc (length before)) ≡ suc (length (before ++ (a ∷ []))) =
            omega (arith, length-append before (a ∷ [])) in
          let (others, is_b) =
            encode_keys_inv api p (before ++ (a ∷ [])) rest (ids ++ (a.key.credential ∷ []))
              (out' ++ encoded) (e ∙ next) ts (rw index at h) in
          ((encodable, others), is_b ∙ regroup out out' encoded _ _ is_record is_out)

encode_first_inv :
    (api : SidApi) (p : AccountProfile) (out : Bytes) {b : Bytes}
    → IsTyped p
    → All IsTypedKey p.additional
    → encode_keys api p (suc (length p.additional)) 0 [] out ≡ ok b
    → IsEncodable api (single p)
      × All (λ a. IsEncodable api (with_key p a)) p.additional
      × (b
          ≡ out
            ++ (le32 (length (record_bytes (single p)))
                ++ (record_bytes (single p) ++ keys_bytes p p.additional)))
unfolding encode_keys profile_for_key
encode_first_inv api p out {b} t ts h =
    need_elim (not (repeats p.key.credential [])) _ _ h λ fresh h.
      bind_elim (encode_record api (single p)) _ h λ encoded written h.
        bind_elim (put32 out (length encoded)) _ h λ out' put h.
          let (encodable, is_record) = encode_record_inv api (single p) t.key_typed written in
          let (_, is_out) = put32_inv out (length encoded) put in
          let (others, is_b) =
            encode_keys_inv api p [] p.additional (p.key.credential ∷ []) (out' ++ encoded) refl ts
              h in
          (encodable, others, is_b ∙ regroup out out' encoded _ _ is_record is_out)

pub encode_multi_inv :
    (api : SidApi) (p : AccountProfile) {b : Bytes}
    → IsTyped p
    → All IsTypedKey p.additional
    → encode_multi api p ≡ ok b
    → IsEncodable api (single p)
      × All (λ a. IsEncodable api (with_key p a)) p.additional
      × (length p.additional < 8)
      × (length b ≤ 60000)
      × (b ≡ multi_bytes p)
unfolding encode_multi multi_bytes
encode_multi_inv api p {b} t ts h = need_elim (ltb (length p.additional) 8) _ _ h λ few h.
    bind_elim (put32 multi_magic (length p.additional + 1)) _ h λ out put h.
      bind_elim (encode_keys api p (length p.additional + 1) 0 [] out) _ h λ all keys h.
        need_elim (leb (length all) 60000) _ _ h λ fits h.
          let all_is_b = ok-injective h in
          let (_, is_out) = put32_inv multi_magic (length p.additional + 1) put in
          let (first, others, is_all) =
            encode_first_inv api p out t ts (rw (add-one (length p.additional)) at keys) in
          (
            first,
            others,
            ltb→lt _ _ few,
            subst (λ (x : Bytes). length x ≤ 60000) all_is_b (leb→le _ _ fits),
            sym all_is_b
                ∙ is_all
                ∙ rw (is_out, add-one (length p.additional))
                    (append_assoc multi_magic (le32 (suc (length p.additional))) _),
          )
