-- ===== src/Touch/Account.antt =====
-- What an unlocked account's password stands for: src/profile.cpp.
use sovereign_windows_auth.Base.{
  ℕ, zero, suc, ◌≡◌, refl, sym, ap, ◌∙◌, true, List, [], ◌∷◌, map, length, get_elem?, leb, Option,
  none, some, some-injective, Result, ok, need-eq-ok, >>=-eq-ok, ok-injective,
}
use sovereign_windows_auth.Core.{Bytes, KeyProfile, AccountProfile, AdditionalKey}
use sovereign_windows_auth.Core.Secret.{Cipher, Memory, seal, unseal}
use sovereign_windows_auth.Core.Secret.RoundTrip.{IsLawful, unseal-seal}
use sovereign_windows_auth.Profile.Sid.{SidApi}
use sovereign_windows_auth.Profile.Keys.{profile_for_key}
use sovereign_windows_auth.Profile.Codec.{profile_binding}
use sovereign_windows_auth.Touch.Device.{Hardware}
use sovereign_windows_auth.Touch.Sign.{KeyProof, deadline_of, touch_any_key}
use sovereign_windows_auth.Touch.Unlock.{enrolled_keys, open_password, after_touch, unlock_account}
use sovereign_windows_auth.Touch.Proven.{IsProven, touch_any_key-IsProofOf}

get_elem?-map :
    (l : List AdditionalKey) (i : ℕ) {k : KeyProfile}
    → get_elem? (map (λ (extra : AdditionalKey). extra.key) l) i ≡ some k
    → (extra : AdditionalKey) × (get_elem? l i ≡ some extra) × (extra.key ≡ k)
get_elem?-map [] i h = cc
get_elem?-map (x ∷ l) zero h = (x, refl, some-injective h)
get_elem?-map (x ∷ l) (suc i) h = get_elem?-map l i h

-- The record of a key is the one whose key was asked.
profile_for_key-key :
    (p : AccountProfile) (i : ℕ) {k : KeyProfile} {found : AccountProfile}
    → get_elem? (enrolled_keys p) i ≡ some k
    → profile_for_key p i ≡ ok found
    → found.key ≡ k
unfolding profile_for_key enrolled_keys
profile_for_key-key p zero {k} {found} h f = cc
profile_for_key-key p (suc i) {k} {found} h f =
    let (extra, there, same) = get_elem?-map p.additional i h in
    let (_, made) = need-eq-ok (leb (suc i) (length p.additional)) _ _ f in
    let made : record p { key = extra.key; password = extra.password; additional = [] } ≡ found =
      ok-injective (rw there at made) in
    sym (ap (λ (q : AccountProfile). q.key) made) ∙ same

after_touch_steps :
    (api : SidApi) (cipher : Cipher) (memory : Memory) (profile : AccountProfile)
    (touched : Option (Result KeyProof)) {password : Bytes}
    → after_touch api cipher memory profile touched ≡ some (ok password)
    → (proof : KeyProof) × (touched ≡ some (ok proof))
      × (open_password api cipher memory profile proof ≡ ok password)
unfolding after_touch
after_touch_steps api cipher memory profile none h = cc
after_touch_steps api cipher memory profile (some touched) h =
    let (proof, e, opened) = >>=-eq-ok touched _ (some-injective h) in (proof, ap some e, opened)

-- How a password was opened: by a touch of one of the account's keys, the record of that same key
-- and its binding.
pub record IsOpened (api : SidApi) (cipher : Cipher) (memory : Memory) (hardware : Hardware)
    (timeout : ℕ) (profile : AccountProfile) (password : Bytes) : Type 0 where
  pub proof : KeyProof
  pub found : AccountProfile
  pub binding : Bytes
  pub recorded : profile_for_key profile proof.index ≡ ok found
  pub proven : IsProven hardware.signer (deadline_of hardware timeout) found.key proof.secret
  pub bound : profile_binding api found ≡ ok binding
  pub opened : unseal cipher memory proof.secret found.password binding ≡ ok password

-- A password is handed out for a touch alone: where `unlockAccount` returns one, a key of the
-- profile was touched before the deadline with a verified signature, and the password was opened
-- with that key's secret, from the record of that same key and under that record's binding.
pub unlock_account-IsOpened :
    (api : SidApi) (cipher : Cipher) (memory : Memory) (hardware : Hardware) (fuel : ℕ)
    (profile : AccountProfile) (timeout : ℕ) (password : Bytes)
    → unlock_account api cipher memory hardware fuel profile timeout ≡ some (ok password)
    → IsOpened api cipher memory hardware timeout profile password
unfolding unlock_account open_password
unlock_account-IsOpened api cipher memory hardware fuel profile timeout password h =
    let (proof, touched, h) = after_touch_steps api cipher memory profile _ h in
    let (key, at, proven) =
      touch_any_key-IsProofOf hardware fuel (enrolled_keys profile) timeout proof touched in
    let (found, recorded, h) = >>=-eq-ok (profile_for_key profile proof.index) _ h in
    let (binding, bound, opened) = >>=-eq-ok (profile_binding api found) _ h in
    record {
      proof = proof;
      found = found;
      binding = binding;
      recorded = recorded;
      proven = rw (profile_for_key-key profile proof.index at recorded) proven;
      bound = bound;
      opened = opened;
    }

-- An enrolled key opens its account: where `touchAnyKey` returns a proof for the keys of a
-- profile, and the record of the touched key holds a password that `seal` made with the secret of
-- that proof under the binding of that record, `unlockAccount` returns this password, if the
-- memory for it can be had and the cipher does what Windows documents.
pub unlock_account-seal :
    (api : SidApi) (cipher : Cipher) (memory : Memory) (hardware : Hardware) (fuel : ℕ)
    (profile found : AccountProfile) (timeout : ℕ) (proof : KeyProof) (binding password : Bytes)
    → IsLawful cipher
    → memory.allocates ≡ true
    → memory.locks ≡ true
    → touch_any_key hardware fuel (enrolled_keys profile) timeout ≡ some (ok proof)
    → profile_for_key profile proof.index ≡ ok found
    → profile_binding api found ≡ ok binding
    → seal cipher proof.secret password binding ≡ ok found.password
    → unlock_account api cipher memory hardware fuel profile timeout ≡ some (ok password)
unfolding unlock_account after_touch open_password
unlock_account-seal api cipher memory hardware fuel profile found timeout proof binding password
      lawful has locked touched recorded bound sealed =
    rw touched (
      rw recorded (
        rw bound (
          ap some (
            unseal-seal cipher memory proof.secret password binding found.password lawful has locked
              sealed))))
