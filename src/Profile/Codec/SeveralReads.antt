-- ===== src/Profile/Codec/SeveralReads.antt =====
-- The turns of the parser of several keys, on the bytes that the encoder writes.
use sovereign_windows_auth.Base.{
  ℕ, suc, ◌^◌, ◌≤◌, ◌<◌, ◌≡◌, refl, ap, arith, false, inl, inr, Bool-cases, List, [], ◌∷◌, ◌++◌,
  append_assoc, append-nil, length, take, take-append, All, All-append, eq→==, le→leb, lt→ltb, ok,
  ◌>>=◌,
}
use sovereign_windows_auth.Core.{Bytes, AccountProfile, AdditionalKey, IsBytes, equal, read32}
use sovereign_windows_auth.Core.Number.{le32, length-le32, le32-IsBytes, read32-le32, read32_sum}
use sovereign_windows_auth.Core.Equal.{equal_iff}
use sovereign_windows_auth.Profile.Wide.{wide_eq_self}
use sovereign_windows_auth.Profile.Wire.Moves.{at, take_moves, number_moves}
use sovereign_windows_auth.Profile.Sid.{SidApi}
use sovereign_windows_auth.Profile.Codec.{
  decode_keys, decode_multi, encode_profile, empty_profile, multi_magic, join_key,
}
use sovereign_windows_auth.Profile.Codec.Layout.{
  IsTyped, IsEncodable, record_bytes, binding_bytes, binding_bytes-le, length-record_bytes,
  record_bytes-IsBytes,
}
use sovereign_windows_auth.Profile.Codec.RoundTrip.{
  equal_self, decode_record_reads, record_bytes-le,
}
use sovereign_windows_auth.Profile.Codec.Several.{
  with_key, single, IsTypedKey, keys_bytes, multi_bytes,
}

-- A length below 2^24 does not start with the magic of several keys.
le32-ne-magic : (n : ℕ) → n < 16777216 → equal (le32 n) multi_magic ≡ false
le32-ne-magic n h = elim (Bool-cases (equal (le32 n) multi_magic)) [
  | inl e ↦
      let same = (equal_iff (le32 n) multi_magic (le32-IsBytes n) (omega arith)).0 e in
      absurd (
        omega (
          arith,
          ap read32 same,
          read32-le32 n (omega arith),
          read32_sum 83 87 77 2 (omega arith) (omega arith) (omega arith) (omega arith),
        ))
  | inr e ↦ e
]

module _ (api : SidApi) (p : AccountProfile) (t : IsTyped p) (h : IsEncodable api p) where
  pub record_not_multi : equal (take 4 (record_bytes p)) multi_magic ≡ false
  unfolding record_bytes
  record_not_multi =
      let n = length (binding_bytes p) in
      rw (← length-le32 n) (
        rw (take-append (le32 n) _)
          (le32-ne-magic n (omega (arith, binding_bytes-le api p t.key_typed h.bindable))))

with_key-IsTyped :
    (p : AccountProfile) (a : AdditionalKey) → IsTyped p → IsTypedKey a → IsTyped (with_key p a)
with_key-IsTyped p a t k = record {
  key_typed = k.key_typed;
  password_typed = k.password_typed;
  sid_units = t.sid_units;
  account_units = t.account_units;
}

-- One turn of the loop, at any index and before whatever follows.
module _ (api : SidApi) (e : AccountProfile) (t : IsTyped e) (h : IsEncodable api e) where
  decode_turn :
      (rounds i : ℕ) (result : AccountProfile) (done left : Bytes)
      → decode_keys api
          (suc rounds)
          i
          result
          (at done (le32 (length (record_bytes e)) ++ (record_bytes e ++ left)))
        ≡ (join_key i result (single e) >>= λ r.
            decode_keys api rounds
              (suc i)
              r
              (at ((done ++ le32 (length (record_bytes e))) ++ record_bytes e) left))
  unfolding decode_keys
  decode_turn rounds i result done left =
      let n = length (record_bytes e) in
      let low : 4 < n = omega (arith, length-record_bytes e t.password_typed) in
      let high : n ≤ 12436 = record_bytes-le api e t h in
      let fits : n < 2 ^ 32 = omega arith in
      let short : n ≤ 16384 = omega arith in
      rw (number_moves done n (record_bytes e ++ left) fits) (
        rw (lt→ltb 4 n low, le→leb n 16384 short)
          (rw (take_moves (done ++ le32 n) (record_bytes e) left)
            (rw (record_not_multi api e t h) (rw (decode_record_reads api e t h)))))

join_key_same :
    (p : AccountProfile) (before : List AdditionalKey) (a : AdditionalKey) (i : ℕ)
    → join_key (suc i) (record p { additional = before }) (single (with_key p a))
      ≡ ok (record p { additional = before ++ (a ∷ []) })
unfolding join_key
join_key_same p before a i =
    rw (wide_eq_self p.sid, wide_eq_self p.account, eq→== p.kind p.kind refl)

decode_keys_reads :
    (api : SidApi) (p : AccountProfile) (before rest : List AdditionalKey) (i : ℕ) (done : Bytes)
    → IsTyped p
    → All IsTypedKey rest
    → All (λ a. IsEncodable api (with_key p a)) rest
    → decode_keys api
        (length rest)
        (suc i)
        (record p { additional = before })
        (at done (keys_bytes p rest))
      ≡ ok (record p { additional = before ++ rest }, at (done ++ keys_bytes p rest) [])
unfolding keys_bytes
decode_keys_reads api p before [] i done t ts hs = simp append-nil (unfold decode_keys in refl)
decode_keys_reads api p before (a ∷ rest) i done t (ta, ts) (ha, hs) =
    rw
      (decode_turn api (with_key p a) (with_key-IsTyped p a t ta) ha (length rest) (suc i)
        (record p { additional = before }) done (keys_bytes p rest))
      (rw (join_key_same p before a i) (
        rw (decode_keys_reads api p (before ++ (a ∷ [])) rest (suc i) _ t ts hs)
          (rw (append_assoc before (a ∷ []) rest) (simp append_assoc))))

keys_bytes-IsBytes :
    (api : SidApi) (p : AccountProfile) (rest : List AdditionalKey)
    → IsTyped p
    → All IsTypedKey rest
    → All (λ a. IsEncodable api (with_key p a)) rest
    → IsBytes (keys_bytes p rest)
unfolding keys_bytes
keys_bytes-IsBytes api p [] t ts hs = tt
keys_bytes-IsBytes api p (a ∷ rest) t (ta, ts) (ha, hs) =
    let one = record_bytes-IsBytes api (with_key p a) (with_key-IsTyped p a t ta) ha.bindable in
    let more = keys_bytes-IsBytes api p rest t ts hs in search (one, more, All-append, le32-IsBytes)

single-IsTyped : (p : AccountProfile) → IsTyped p → IsTyped (single p)
single-IsTyped p t = record {
  key_typed = t.key_typed;
  password_typed = t.password_typed;
  sid_units = t.sid_units;
  account_units = t.account_units;
}

module _ (api : SidApi) (p : AccountProfile) (t : IsTyped p) (ts : All IsTypedKey p.additional)
    (h : IsEncodable api (single p))
    (hs : All (λ a. IsEncodable api (with_key p a)) p.additional) where
  pub multi_bytes-IsBytes : IsBytes (multi_bytes p)
  unfolding multi_bytes
  multi_bytes-IsBytes =
      let magic : IsBytes multi_magic = omega arith in
      let one = record_bytes-IsBytes api (single p) (single-IsTyped p t) h.bindable in
      let more = keys_bytes-IsBytes api p p.additional t ts hs in
      search (magic, one, more, All-append, le32-IsBytes) depth 12

  first_and_keys :
      (done : Bytes)
      → decode_keys api (suc (length p.additional)) 0 empty_profile (
          at done (
            le32 (length (record_bytes (single p)))
            ++ (record_bytes (single p) ++ keys_bytes p p.additional)))
        ≡ ok (
          p,
          at
              (done
                ++ (le32 (length (record_bytes (single p)))
                    ++ (record_bytes (single p) ++ keys_bytes p p.additional)))
              [],
        )
  unfolding join_key
  first_and_keys done =
      rw
        (decode_turn api (single p) (single-IsTyped p t) h (length p.additional) 0 empty_profile
          done (keys_bytes p p.additional))
        (rw (decode_keys_reads api p [] p.additional 0 _ t ts hs) (simp append_assoc))

  pub decode_multi_reads :
      0 < length p.additional
      → length p.additional < 8
      → length (multi_bytes p) ≤ 60000
      → encode_profile api p ≡ ok (multi_bytes p)
      → decode_multi api (multi_bytes p) ≡ ok p
  unfolding decode_multi multi_bytes
  decode_multi_reads some_keys few short again =
      let n = suc (length p.additional) in
      let keys =
        le32 (length (record_bytes (single p)))
        ++ (record_bytes (single p) ++ keys_bytes p p.additional) in
      let low : 2 ≤ n = omega arith in
      let high : n ≤ 8 = omega arith in
      let small : n < 2 ^ 32 = omega arith in
      rw (le→leb (length (multi_bytes p)) 60000 short) (
        rw (take_moves [] multi_magic (le32 n ++ keys)) (
          rw (number_moves multi_magic n keys small) (
            rw (le→leb 2 n low, le→leb n 8 high)
              (rw (first_and_keys (multi_magic ++ le32 n)) (
                rw
                  (eq→== (length (multi_magic ++ (le32 n ++ keys)))
                    (length (multi_magic ++ (le32 n ++ keys))) refl)
                  (rw again (rw (equal_self (multi_bytes p) multi_bytes-IsBytes))))))))
