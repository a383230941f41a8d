-- ===== src/Core/Secret/RoundTrip.antt =====
-- What was sealed is opened again: src/core.cpp.
use sovereign_windows_auth.Base.{
  ◌≡◌, refl, sym, ap, ◌∙◌, ltb→lt, lt→ltb, leb→le, le→leb, need-eq-ok, >>=-eq-ok, ℕ, ◌≤◌, ◌<◌, true,
  ◌&&◌, &&-elim, Option, none, some, ◌==◌, ==_iff, eq→==, ltb, leb, length, ok, need_elim, arith,
}
use sovereign_windows_auth.Core.{Bytes, Sealed}
use sovereign_windows_auth.Core.Secret.{
  Memory, new_secret, Cipher, random_bytes, open_cipher, sealed_box, opened_text, seal, unseal,
}

-- What Windows documents of the cipher: a ciphertext is as long as its text, and opens to it
-- under the key, the nonce, the tag and the binding that it was made with.
pub record IsLawful (cipher : Cipher) : Type 0 where
  pub keeps_length :
      (key nonce binding plaintext ciphertext tag : Bytes) (n : ℕ)
      → cipher.encrypt key nonce binding plaintext ≡ some (ciphertext, tag, n)
      → length ciphertext ≡ length plaintext
  pub opens_again :
      (key nonce binding plaintext ciphertext tag : Bytes) (n : ℕ)
      → cipher.encrypt key nonce binding plaintext ≡ some (ciphertext, tag, n)
      → cipher.decrypt key nonce tag binding ciphertext ≡ some (plaintext, length ciphertext)

sealed_box-eq-ok :
    (plaintext nonce : Bytes) (r : Option (Bytes × Bytes × ℕ)) {box : Sealed}
    → sealed_box plaintext nonce r ≡ ok box
    → (r ≡ some (box.ciphertext, box.tag, length plaintext)) × (nonce ≡ box.nonce)
unfolding sealed_box
sealed_box-eq-ok plaintext nonce none h = cc
sealed_box-eq-ok plaintext nonce (some (c, t, n)) {box} h =
    need_elim (n == length plaintext) _ _ h λ same made.
      let made : record { nonce = nonce; tag = t; ciphertext = c } ≡ box = cc in
      let whole : n ≡ length plaintext = (==_iff _ _).0 same in
      (
        ap (λ (m : ℕ). some (c, t, m)) whole
            ∙ ap (λ (b : Sealed). some (b.ciphertext, b.tag, length plaintext)) made,
        ap (λ (b : Sealed). b.nonce) made,
      )

-- A secret of a size that the formats allow is made where there is memory.
new_secret_lem :
    (memory : Memory) (n : ℕ)
    → memory.allocates ≡ true
    → memory.locks ≡ true
    → 0 < n
    → n ≤ 32768
    → new_secret memory n ≡ ok n
unfolding new_secret
new_secret_lem memory n a l low high =
    rw (lt→ltb 0 n low) (rw (le→leb n 65536 (omega arith)) (rw a (rw l)))

unseal_steps :
    (cipher : Cipher) (memory : Memory) (key binding plaintext : Bytes) (box : Sealed)
    → open_cipher cipher key ≡ ok tt
    → 0 < length box.ciphertext
    → length box.ciphertext ≤ 32768
    → length binding ≤ 32768
    → new_secret memory (length box.ciphertext) ≡ ok (length box.ciphertext)
    → cipher.decrypt key box.nonce box.tag binding box.ciphertext
      ≡ some (plaintext, length box.ciphertext)
    → unseal cipher memory key box binding ≡ ok plaintext
unfolding unseal opened_text
unseal_steps cipher memory key binding plaintext box opened low high short made decrypted =
    rw (lt→ltb _ _ low) (
      rw (le→leb _ _ high) (
        rw (le→leb _ _ short)
          (rw opened (rw made (rw decrypted (rw (eq→== (length box.ciphertext) _ refl)))))))

-- What was sealed is opened again: where `seal` returns a box, `unseal` with the same key and
-- binding returns the text, if the memory of the secret can be had, for a cipher that does what
-- Windows documents.
pub unseal-seal :
    (cipher : Cipher) (memory : Memory) (key plaintext binding : Bytes) (box : Sealed)
    → IsLawful cipher
    → memory.allocates ≡ true
    → memory.locks ≡ true
    → seal cipher key plaintext binding ≡ ok box
    → unseal cipher memory key box binding ≡ ok plaintext
unfolding seal
unseal-seal cipher memory key plaintext binding box lawful has locked h =
    let (sizes, h) =
      need-eq-ok
        (ltb 0 (length plaintext) && (leb (length plaintext) 32768 && leb (length binding) 32768)) _
        _ h in
    let (unit, opened, h) = >>=-eq-ok (open_cipher cipher key) _ h in
    let (nonce, drawn, h) = >>=-eq-ok (random_bytes cipher.random 12) _ h in
    let (encrypted, same) = sealed_box-eq-ok plaintext nonce _ h in
    let encrypted' : cipher.encrypt key box.nonce binding plaintext
        ≡ some (box.ciphertext, box.tag, length plaintext) =
      ap (λ (m : Bytes). cipher.encrypt key m binding plaintext) (sym same) ∙ encrypted in
    let n = lawful.keeps_length key box.nonce binding plaintext _ _ _ encrypted' in
    let (some_text, rest) = &&-elim _ _ sizes in
    let (short_text, short_binding) = &&-elim _ _ rest in
    let low : 0 < length plaintext = ltb→lt _ _ some_text in
    let high : length plaintext ≤ 32768 = leb→le _ _ short_text in
    unseal_steps cipher memory key binding plaintext box opened (omega arith) (omega arith)
      (leb→le _ _ short_binding)
      (new_secret_lem memory (length box.ciphertext) has locked (omega arith) (omega arith))
      (lawful.opens_again key box.nonce binding plaintext _ _ _ encrypted')
