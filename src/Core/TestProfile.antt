-- ===== src/Core/TestProfile.antt =====
-- src/core.cpp: `parseTestProfile`, the parser of the public test profile.
use sovereign_windows_auth.Base.{
  ◌≡◌, sym, ap, ◌∙◌, subst, ℕ, ◌≤◌, ◌++◌, append-nil, take-append, take-append-drop, drop-drop,
  length-take, length-drop, le_le, ==_iff, true, need-eq-ok, ok-injective, All-append_left,
  All-append_right, arith,
}
use sovereign_windows_auth.Core.Number.{le32, le32-read32}
use sovereign_windows_auth.Core.{IsByte, IsBytes}
use sovereign_windows_auth.Base.{
  ◌+◌, ◌&&◌, [], ◌∷◌, ◌==◌, leb, length, take, drop, get_or, Result, ok, ◌>>◌, need,
}
use sovereign_windows_auth.Core.{Bytes, KeyProfile, read32}

-- "SWT" with 1.
abbrev pub test_magic : Bytes
test_magic = 83 ∷ 87 ∷ 84 ∷ 1 ∷ []

unfoldable pub parse_test_profile : Bytes → Result KeyProfile
parse_test_profile bytes = do
  need (leb 8 (length bytes)) "Truncated profile header"
  need
      (get_or bytes 0 0 == 83
        && get_or bytes 1 0 == 87
        && get_or bytes 2 0 == 84
        && get_or bytes 3 0 == 1)
      "Unknown profile format"
  let n = read32 (take 4 (drop 4 bytes))
  need (leb 16 n && leb n 2048) "Invalid credential identifier length"
  need (length bytes == 8 + n + 64 + 32) "Truncated or trailing profile data"
  ok (record {
    credential = take n (drop 8 bytes);
    public_key = take 64 (drop (8 + n) bytes);
    salt = take 32 (drop (8 + n + 64) bytes);
  })

-- The conditions of the parser, and its result.
accepted_parts :
    (bytes : Bytes) (k : KeyProfile)
    → parse_test_profile bytes ≡ ok k
    → let n = read32 (take 4 (drop 4 bytes)) in
      (leb 8 (length bytes) ≡ true)
      × ((get_or bytes 0 0 == 83
            && get_or bytes 1 0 == 87
            && get_or bytes 2 0 == 84
            && get_or bytes 3 0 == 1)
          ≡ true)
      × ((leb 16 n && leb n 2048) ≡ true)
      × ((length bytes == 8 + n + 64 + 32) ≡ true)
      × (record {
        credential = take n (drop 8 bytes);
        public_key = take 64 (drop (8 + n) bytes);
        salt = take 32 (drop (8 + n + 64) bytes);
      }
          ≡ k)
unfolding parse_test_profile
accepted_parts bytes k h =
    let (a, h) = need-eq-ok _ _ _ h in
    let (b, h) = need-eq-ok _ _ _ h in
    let (c, h) = need-eq-ok _ _ _ h in
    let (d, h) = need-eq-ok _ _ _ h in (a, b, c, d, ok-injective h)

take_all : (n : ℕ) (xs : Bytes) → length xs ≡ n → take n xs ≡ xs
take_all n xs h =
    ap (λ (m : ℕ). take m xs) (sym h)
    ∙ ap (take (length xs)) (sym (append-nil xs))
    ∙ take-append xs []

-- The three parts of what follows the header.
split_body :
    (n : ℕ) (xs : Bytes)
    → length xs ≡ n + 96
    → xs ≡ take n xs ++ (take 64 (drop n xs) ++ take 32 (drop 64 (drop n xs)))
split_body n xs h =
    let rest = drop n xs in
    let last : take 32 (drop 64 rest) ≡ drop 64 rest =
      take_all 32 (drop 64 rest) (omega (arith, length-drop 64 rest, length-drop n xs)) in
    sym (take-append-drop n xs)
    ∙ ap (λ (t : Bytes). take n xs ++ t)
        (sym (take-append-drop 64 rest) ∙ ap (λ (t : Bytes). take 64 rest ++ t) (sym last))

-- The layout of the file.
unfoldable pub test_bytes : KeyProfile → Bytes
test_bytes k =
    test_magic ++ (le32 (length k.credential) ++ (k.credential ++ (k.public_key ++ k.salt)))

pub record HasLayout (bytes : Bytes) (k : KeyProfile) : Type 0 where
  pub laid_out : bytes ≡ test_bytes k
  pub long : 16 ≤ length k.credential
  pub short : length k.credential ≤ 2048
  pub public_key_size : length k.public_key ≡ 64
  pub salt_size : length k.salt ≡ 32

layout_of :
    (header n : Bytes) (body : Bytes) (size : ℕ)
    → header ≡ test_magic
    → le32 size ≡ n
    → 16 ≤ size
    → size ≤ 2048
    → length body ≡ size + 96
    → HasLayout (header ++ (n ++ body)) (record {
      credential = take size body;
      public_key = take 64 (drop size body);
      salt = take 32 (drop 64 (drop size body));
    })
unfolding test_bytes
layout_of header n body size is_magic is_size long short whole =
    let credential_size = length-take size body (omega arith) in
    record {
      laid_out = rw is_magic (
          rw (← is_size) (
            rw credential_size
              (ap (λ (t : Bytes). test_magic ++ (le32 size ++ t)) (split_body size body whole))));
      long = omega arith;
      short = omega arith;
      public_key_size = length-take 64 (drop size body) (omega (arith, length-drop size body));
      salt_size =
          length-take 32 (drop 64 (drop size body))
            (omega (arith, length-drop 64 (drop size body), length-drop size body));
    }

middle-IsBytes : (bytes : Bytes) → IsBytes bytes → IsBytes (take 4 (drop 4 bytes))
middle-IsBytes bytes typed =
    let rest : IsBytes (drop 4 bytes) =
      All-append_right IsByte (take 4 bytes) (drop 4 bytes)
        (subst IsBytes (sym (take-append-drop 4 bytes)) typed) in
    All-append_left IsByte (take 4 (drop 4 bytes)) (drop 4 (drop 4 bytes))
      (subst IsBytes (sym (take-append-drop 4 (drop 4 bytes))) rest)

abbrev key_at : Bytes → Bytes → Bytes → KeyProfile
key_at c s t = record { credential = c; public_key = take 64 s; salt = take 32 t }

same_key : (c : Bytes) {s s' t t' : Bytes} → s ≡ s' → t ≡ t' → key_at c s t ≡ key_at c s' t'
same_key c p q = rw p (rw q)

magic_of :
    (bytes : Bytes)
    → 8 ≤ length bytes
    → (get_or bytes 0 0 == 83
        && get_or bytes 1 0 == 87
        && get_or bytes 2 0 == 84
        && get_or bytes 3 0 == 1)
      ≡ true
    → take 4 bytes ≡ test_magic
magic_of (a ∷ b ∷ c ∷ d ∷ rest) long h =
    let a_is : a ≡ 83 = ground arith in
    let b_is : b ≡ 87 = ground arith in
    let c_is : c ≡ 84 = ground arith in let d_is : d ≡ 1 = ground arith in cc
magic_of _ long h = absurd (omega arith)

-- The test profile's parser accepts one layout only: where it returns a key for a buffer of
-- bytes, the buffer is "SWT" and 1, the length of the credential in four bytes, the credential
-- of 16 to 2048 bytes, the 64 bytes of the public key and the 32 bytes of the salt.
pub parse_test_profile-HasLayout :
    (bytes : Bytes) (k : KeyProfile)
    → IsBytes bytes
    → parse_test_profile bytes ≡ ok k
    → HasLayout bytes k
parse_test_profile-HasLayout bytes k typed accepted =
    let (header, magic, bounds, size, made) = accepted_parts bytes k accepted in
    let (long, short) = le_le 16 (read32 (take 4 (drop 4 bytes))) 2048 bounds in
    let enough : 8 ≤ length bytes = ground arith in
    let n = read32 (take 4 (drop 4 bytes)) in
    let body = drop 8 bytes in
    let split : bytes ≡ take 4 bytes ++ (take 4 (drop 4 bytes) ++ body) =
      sym (take-append-drop 4 bytes)
      ∙ ap (λ (t : Bytes). take 4 bytes ++ t)
          (sym (take-append-drop 4 (drop 4 bytes))
            ∙ ap (λ (t : Bytes). take 4 (drop 4 bytes) ++ t) (drop-drop 4 4 bytes)) in
    let number : le32 n ≡ take 4 (drop 4 bytes) =
      le32-read32 (take 4 (drop 4 bytes)) (middle-IsBytes bytes typed)
        (length-take 4 (drop 4 bytes) (omega (arith, length-drop 4 bytes))) in
    let whole : length body ≡ n + 96 = omega (arith, length-drop 8 bytes, (==_iff _ _).0 size) in
    let laid =
      layout_of (take 4 bytes) (take 4 (drop 4 bytes)) body n (magic_of bytes enough magic) number
        long short whole in
    let next : drop n body ≡ drop (8 + n) bytes = drop-drop n 8 bytes in
    let last : drop 64 (drop n body) ≡ drop (8 + n + 64) bytes =
      ap (drop 64) next ∙ drop-drop 64 (8 + n) bytes in
    subst (λ (b : Bytes). HasLayout b k) (sym split)
      (subst (HasLayout _) (same_key (take n body) next last ∙ made) laid)
