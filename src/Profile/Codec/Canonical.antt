-- ===== src/Profile/Codec/Canonical.antt =====
-- What the parser of one key accepts is what the encoder writes.
use sovereign_windows_auth.Base.{ℕ, ◌≤◌, ◌<◌, ◌≡◌, refl, sym, ap, ◌∙◌, subst, arith, true}
use sovereign_windows_auth.Base.{
  [], ◌∷◌, ◌++◌, append_assoc, append-nil, length, length-append, take, get_or, All, ◌&&◌, ◌||◌,
}
use sovereign_windows_auth.Base.{
  ◌==◌, ==_iff, ltb, leb, positive_le, ok, need_elim, bind_elim, ok-injective,
}
use sovereign_windows_auth.Core.{Bytes, KeyProfile, Sealed, AccountProfile, IsBytes, equal}
use sovereign_windows_auth.Core.Number.{le32}
use sovereign_windows_auth.Core.Equal.{equal_iff}
use sovereign_windows_auth.Profile.Wire.Writes.{IsUnit, string_bytes}
use sovereign_windows_auth.Profile.Wire.Reads.{take_elim, number_elim, string_elim}
use sovereign_windows_auth.Profile.Sid.{SidApi}
use sovereign_windows_auth.Profile.Codec.{
  profile_binding, decode_binding, decode_record, empty_sealed, record_magic,
}
use sovereign_windows_auth.Profile.Codec.Layout.{
  IsKey, IsSealed, IsTyped, IsBindable, IsEncodable, binding_bytes, record_bytes,
  profile_binding_inv, binding_bytes-IsBytes,
}

-- What is known of a profile that was read from a binding.
pub record IsBoundTo (api : SidApi) (b : Bytes) (p : AccountProfile) : Type 0 where
  pub key_typed : IsKey p.key
  pub sid_units : All IsUnit p.sid
  pub account_units : All IsUnit p.account
  pub bindable : IsBindable api p
  pub bytes : b ≡ binding_bytes p
  pub no_others : p.additional ≡ []

-- The last two steps: the binding was written again and compared.
bound_to :
    (api : SidApi) (b : Bytes)
    → IsBytes b
    → (q : AccountProfile) (expected : Bytes) {p : AccountProfile} → IsKey q.key
    → All IsUnit q.sid
    → All IsUnit q.account
    → profile_binding api q ≡ ok expected
    → equal expected b ≡ true
    → q.additional ≡ []
    → q ≡ p
    → IsBoundTo api b p
bound_to api b bytes q expected key sid account bound same alone e =
    let (bindable, written) = profile_binding_inv api q bound in
    let expected_bytes = subst IsBytes (sym written) (binding_bytes-IsBytes api q key bindable) in
    subst (IsBoundTo api b) e (record {
      key_typed = key;
      sid_units = sid;
      account_units = account;
      bindable = bindable;
      bytes = sym ((equal_iff expected b expected_bytes bytes).0 same) ∙ written;
      no_others = alone;
    })

decode_binding_inv :
    (api : SidApi) (b : Bytes) {p : AccountProfile}
    → IsBytes b
    → decode_binding api b ≡ ok p
    → IsBoundTo api b p
unfolding decode_binding
decode_binding_inv api b {p} bytes e = take_elim [] b 4 _ bytes e λ magic l1 c1 n1 k1 b1 e.
    let kind = get_or magic 3 0 in
    need_elim (equal (take 3 magic) record_magic && (kind == 1 || kind == 2)) _ _ e λ known e.
      string_elim magic l1 _ b1 e λ sid l2 c2 b2 sid_id sid_units e.
        let d2 = magic ++ string_bytes sid in
        string_elim d2 l2 _ b2 e λ account l3 c3 b3 account_id account_units e.
          let d3 = d2 ++ string_bytes account in
          number_elim d3 l3 _ b3 e λ size l4 c4 b4 e.
            need_elim (leb 16 size && leb size 2048) _ _ e λ sizes e.
              let d4 = d3 ++ le32 size in
              take_elim d4 l4 size _ b4 e λ credential l5 c5 n5 k5 b5 e.
                take_elim (d4 ++ credential) l5 64 _ b5 e λ public_key l6 c6 n6 k6 b6 e.
                  take_elim ((d4 ++ credential) ++ public_key) l6 32 _ b6 e λ salt l7 c7 n7 k7 b7 e.
                    need_elim (length (((d4 ++ credential) ++ public_key) ++ salt) == length b) _ _
                      e
                      λ place e.
                        let key : KeyProfile = record {
                          credential = credential;
                          public_key = public_key;
                          salt = salt;
                        } in
                        let read : AccountProfile = record {
                          kind = kind;
                          key = key;
                          sid = sid;
                          account = account;
                          password = empty_sealed;
                          additional = [];
                        } in
                        bind_elim (profile_binding api read) _ e λ expected bound e.
                          need_elim (equal expected b) _ _ e λ same e.
                            let typed : IsKey key = record {
                              credential_bytes = k5;
                              public_key_bytes = k6;
                              public_key_size = n6;
                              salt_bytes = k7;
                              salt_size = n7;
                            } in
                            bound_to api b bytes read expected typed sid_units account_units bound
                              same refl (ok-injective e)

-- What is known of a profile that was read from one record.
pub record IsReadFrom (api : SidApi) (b : Bytes) (p : AccountProfile) : Type 0 where
  pub typed : IsTyped p
  pub encodable : IsEncodable api p
  pub bytes : b ≡ record_bytes p
  pub no_others : p.additional ≡ []

no_rest : (bs left whole : Bytes) → length bs ≡ length whole → whole ≡ bs ++ left → left ≡ []
no_rest bs [] whole e cut = refl
no_rest bs (x ∷ left) whole e cut =
    absurd (omega (arith, length-append bs (x ∷ left), ap (λ (t : Bytes). length t) cut))

with_password-IsBindable :
    (api : SidApi) (p : AccountProfile) (s : Sealed)
    → IsBindable api p
    → IsBindable api (record p { password = s })
with_password-IsBindable api p s h = record {
  sid_valid = h.sid_valid;
  sid_identity = h.sid_identity;
  account_identity = h.account_identity;
  account_microsoft = h.account_microsoft;
  credential_long = h.credential_long;
  credential_short = h.credential_short;
  kind_known = h.kind_known;
}

-- The parts of a record, put together.
bound_read :
    (api : SidApi) (b : Bytes) (front : AccountProfile) (nonce tag ciphertext : Bytes)
    {binding : Bytes} {count : ℕ} {p : AccountProfile}
    → IsBoundTo api binding front
    → IsSealed (record { nonce = nonce; tag = tag; ciphertext = ciphertext })
    → (0 < count) × (count ≤ 8192)
    → length ciphertext ≡ count
    → b ≡ le32 (length binding) ++ (binding ++ (nonce ++ (tag ++ (le32 count ++ ciphertext))))
    → record front { password = record { nonce = nonce; tag = tag; ciphertext = ciphertext } } ≡ p
    → IsReadFrom api b p
unfolding record_bytes binding_bytes
bound_read api b front nonce tag ciphertext bound sealed (low, high) size cut e =
    subst (IsReadFrom api b) e (record {
      typed = record {
        key_typed = bound.key_typed;
        password_typed = sealed;
        sid_units = bound.sid_units;
        account_units = bound.account_units;
      };
      encodable = record {
        bindable = with_password-IsBindable api front _ bound.bindable;
        ciphertext_some = subst (λ k. 0 < k) (sym size) low;
        ciphertext_short = subst (λ k. k ≤ 8192) (sym size) high;
      };
      bytes = cut ∙ rw (bound.bytes, ← size);
      no_others = bound.no_others;
    })

pub decode_record_inv :
    (api : SidApi) (b : Bytes) {p : AccountProfile}
    → IsBytes b
    → decode_record api b ≡ ok p
    → IsReadFrom api b p
unfolding decode_record
decode_record_inv api b {p} bytes e = need_elim (leb (length b) 16384) _ _ e λ fits e.
    number_elim [] b _ bytes e λ size l1 c1 b1 e. need_elim (leb size 8192) _ _ e λ small e.
      take_elim (le32 size) l1 size _ b1 e λ binding l2 c2 n2 k2 b2 e.
        let d2 = le32 size ++ binding in
        bind_elim (decode_binding api binding) _ e λ front read e.
          take_elim d2 l2 12 _ b2 e λ nonce l3 c3 n3 k3 b3 e.
            take_elim (d2 ++ nonce) l3 16 _ b3 e λ tag l4 c4 n4 k4 b4 e.
              let d4 = (d2 ++ nonce) ++ tag in
              number_elim d4 l4 _ b4 e λ count l5 c5 b5 e.
                need_elim (ltb 0 count && leb count 8192) _ _ e λ sizes e.
                  let d5 = d4 ++ le32 count in
                  take_elim d5 l5 count _ b5 e λ ciphertext l6 c6 n6 k6 b6 e.
                    need_elim (length (d5 ++ ciphertext) == length b) _ _ e λ place e.
                      let sealed : IsSealed
                          (record { nonce = nonce; tag = tag; ciphertext = ciphertext }) =
                        record {
                          nonce_bytes = k3;
                          nonce_size = n3;
                          tag_bytes = k4;
                          tag_size = n4;
                          ciphertext_bytes = k6;
                        } in
                      let bound = decode_binding_inv api binding k2 read in
                      let cut : b
                          ≡ le32 size
                            ++ (binding ++ (nonce ++ (tag ++ (le32 count ++ (ciphertext ++ l6))))) =
                        cc in
                      let end =
                        no_rest (d5 ++ ciphertext) l6 b ((==_iff _ _).0 place)
                          (cut ∙ simp append_assoc) in
                      let whole : b
                          ≡ le32 size
                            ++ (binding ++ (nonce ++ (tag ++ (le32 count ++ ciphertext)))) =
                        rw (end, append-nil) at cut in
                      bound_read api b front nonce tag ciphertext bound sealed
                        (positive_le count 8192 sizes) n6
                        (whole
                          ∙ ap
                              (λ n.
                                le32 n
                                ++ (binding ++ (nonce ++ (tag ++ (le32 count ++ ciphertext)))))
                              (sym n2))
                        (ok-injective e)
