-- ===== src/Touch/Proven.antt =====
-- What a returned proof of touch stands for: src/core.cpp.
use sovereign_windows_auth.Base.{
  ℕ, ◌<◌, ◌≡◌, ◌-◌, refl, sym, ap, ◌∙◌, subst, bit_and, Bool, true, List, length, get_elem?, Option,
  none, some, [], ◌∷◌, codes, some-injective, ◌==◌, ==_iff, ltb, ltb→lt, Result, ok, err,
  need-eq-ok, >>=-eq-ok, ok-injective,
}
use sovereign_windows_auth.Core.{Bytes, KeyProfile, equal}
use sovereign_windows_auth.Core.Secret.{Memory, new_secret, random_bytes}
use sovereign_windows_auth.Touch.Device.{Request, Assertion, Signer, Hardware}
use sovereign_windows_auth.Touch.Seek.{seek}
use sovereign_windows_auth.Touch.Sign.{
  KeyProof, touch_request, accept, sign, sign_at, sign_selected, check_input, deadline_of,
  after_seek, touch_checked, touch_any_key,
}

-- An assertion that a key's owner signed by touch, and no more: user presence without user
-- verification, one assertion, of this credential, with a signature of its public key.
pub record IsSigned (profile : KeyProfile) (assertion : Assertion) : Type 0 where
  pub one : assertion.count ≡ 1
  pub touched : bit_and assertion.flags 5 ≡ 1
  pub credential : equal assertion.identifier profile.credential ≡ true
  pub takes_public_key : assertion.takes_public_key profile.public_key ≡ ok tt
  pub verified : assertion.verifies profile.public_key ≡ ok tt

-- That a secret is what a device gave for one profile, before the deadline.
pub record IsProven (signer : Signer) (deadline : ℕ) (profile : KeyProfile) (secret : Bytes)
    : Type 0 where
  pub request : Request
  pub assertion : Assertion
  pub in_time : signer.reading < deadline
  pub fresh : random_bytes signer.random 32 ≡ ok request.challenge
  pub with_presence : request.presence ≡ true
  pub only_credential : request.allowed ≡ profile.credential ∷ []
  pub own_relying_party : request.relying_party ≡ codes "sovereign-windows-auth.local"
  pub own_salt : request.salt ≡ some profile.salt
  pub asked : signer.asks request ≡ ok assertion
  pub signed : IsSigned profile assertion
  pub secret_given : secret ≡ assertion.hmac_secret
  pub secret_size : length secret ≡ 32

accept-IsSigned :
    (allocates : Bool) (memory : Memory) (profile : KeyProfile) (assertion : Assertion)
    {secret : Bytes}
    → accept allocates memory profile assertion ≡ ok secret
    → IsSigned profile assertion
      × (secret ≡ assertion.hmac_secret)
      × (length assertion.hmac_secret ≡ 32)
unfolding accept
accept-IsSigned allocates memory profile assertion h =
    let (one, h) = need-eq-ok (assertion.count == 1) _ _ h in
    let (flags, h) = need-eq-ok (bit_and assertion.flags 5 == 1) _ _ h in
    let (same, h) = need-eq-ok (equal assertion.identifier profile.credential) _ _ h in
    let (made, h) = need-eq-ok allocates _ _ h in
    let (u, takes, h) = >>=-eq-ok (assertion.takes_public_key profile.public_key) _ h in
    let (v, verified, h) = >>=-eq-ok (assertion.verifies profile.public_key) _ h in
    let (size, h) = need-eq-ok (length assertion.hmac_secret == 32) _ _ h in
    let (memory_size, had, h) = >>=-eq-ok (new_secret memory 32) _ h in
    (
      record {
        one = (==_iff _ _).0 one;
        touched = (==_iff _ _).0 flags;
        credential = same;
        takes_public_key = takes;
        verified = verified;
      },
      sym (ok-injective h),
      (==_iff _ _).0 size,
    )

sign-IsProven :
    (signer : Signer) (deadline : ℕ) (profile : KeyProfile) {secret : Bytes}
    → sign signer deadline profile ≡ ok secret
    → IsProven signer deadline profile secret
unfolding sign touch_request
sign-IsProven signer deadline profile {secret} h =
    let (early, h) = need-eq-ok (ltb signer.reading deadline) _ _ h in
    let (u, set, h) = >>=-eq-ok (signer.takes_timeout (deadline - signer.reading)) _ h in
    let (made, h) = need-eq-ok signer.allocates _ _ h in
    let (challenge, drawn, h) = >>=-eq-ok (random_bytes signer.random 32) _ h in
    let (v, taken, h) = >>=-eq-ok (signer.takes (touch_request challenge profile)) _ h in
    let (assertion, asked, h) = >>=-eq-ok (signer.asks (touch_request challenge profile)) _ h in
    let (signed, given, size) = accept-IsSigned _ _ _ _ h in
    record {
      request = touch_request challenge profile;
      assertion = assertion;
      in_time = ltb→lt _ _ early;
      fresh = drawn;
      with_presence = refl;
      only_credential = refl;
      own_relying_party = refl;
      own_salt = refl;
      asked = asked;
      signed = signed;
      secret_given = given;
      secret_size = ap (λ (b : Bytes). length b) given ∙ size;
    }

-- The profile that a proof names is one of the list, and the proof is about it.
abbrev pub IsProofOf : Signer → ℕ → List KeyProfile → KeyProof → Type 0
IsProofOf signer deadline profiles proof =
    (profile : KeyProfile) × (get_elem? profiles proof.index ≡ some profile)
    × IsProven signer deadline profile proof.secret

sign_at-IsProven :
    (signer : Signer) (deadline index : ℕ) (at : Option KeyProfile) {proof : KeyProof}
    → sign_at signer deadline index at ≡ ok proof
    → (index ≡ proof.index)
      × ((profile : KeyProfile) × (at ≡ some profile)
          × IsProven signer deadline profile proof.secret)
unfolding sign_at
sign_at-IsProven signer deadline index none h = cc
sign_at-IsProven signer deadline index (some profile) {proof} h =
    let (secret, signed, e) = >>=-eq-ok (sign signer deadline profile) _ h in
    let made : record { index = index; secret = secret } ≡ proof = ok-injective e in
    (
      ap (λ (p : KeyProof). p.index) made,
      (
        profile,
        refl,
        subst (λ (s : Bytes). IsProven signer deadline profile s)
            (ap (λ (p : KeyProof). p.secret) made) (sign-IsProven signer deadline profile signed),
      ),
    )

sign_selected-IsProofOf :
    (signer : Signer) (deadline : ℕ) (profiles : List KeyProfile) (selected : Option ℕ)
    {proof : KeyProof}
    → sign_selected signer deadline profiles selected ≡ ok proof
    → (selected ≡ some proof.index) × IsProofOf signer deadline profiles proof
unfolding sign_selected
sign_selected-IsProofOf signer deadline profiles none h = cc
sign_selected-IsProofOf signer deadline profiles (some index) h =
    let (same, (profile, at, proven)) =
      sign_at-IsProven signer deadline index (get_elem? profiles index) h in
    (ap some same, (profile, rw (← same) at, proven))

after_seek-IsProofOf :
    (signer : Signer) (deadline : ℕ) (profiles : List KeyProfile)
    (found : Option (Result (Option ℕ))) {proof : KeyProof}
    → after_seek signer deadline profiles found ≡ some (ok proof)
    → (found ≡ some (ok (some proof.index))) × IsProofOf signer deadline profiles proof
unfolding after_seek
after_seek-IsProofOf signer deadline profiles none h = cc
after_seek-IsProofOf signer deadline profiles (some (err message)) h = cc
after_seek-IsProofOf signer deadline profiles (some (ok selected)) h =
    let (index, proven) =
      sign_selected-IsProofOf signer deadline profiles selected (some-injective h) in
    (ap (λ (o : Option ℕ). some (ok o)) index, proven)

checked_steps :
    (hardware : Hardware) (fuel : ℕ) (profiles : List KeyProfile) (timeout : ℕ)
    (checked : Result (Unit {0})) {proof : KeyProof}
    → touch_checked hardware fuel profiles timeout checked ≡ some (ok proof)
    → (checked ≡ ok tt)
      × (seek hardware (deadline_of hardware timeout) profiles fuel 0
          ≡ some (ok (some proof.index)))
      × IsProofOf hardware.signer (deadline_of hardware timeout) profiles proof
unfolding touch_checked
checked_steps hardware fuel profiles timeout (err message) h = cc
checked_steps hardware fuel profiles timeout (ok _) h =
    let (found, proven) =
      after_seek-IsProofOf hardware.signer (deadline_of hardware timeout) profiles _ h in
    (refl, found, proven)

-- What a call that returned a proof went through.
pub touch_any_key_steps :
    (hardware : Hardware) (fuel : ℕ) (profiles : List KeyProfile) (timeout : ℕ) {proof : KeyProof}
    → touch_any_key hardware fuel profiles timeout ≡ some (ok proof)
    → (check_input profiles timeout ≡ ok tt)
      × (seek hardware (deadline_of hardware timeout) profiles fuel 0
          ≡ some (ok (some proof.index)))
      × IsProofOf hardware.signer (deadline_of hardware timeout) profiles proof
unfolding touch_any_key
touch_any_key_steps hardware fuel profiles timeout h =
    let (checked, found, proven) = checked_steps hardware fuel profiles timeout _ h in
    let (unit, input, _) = >>=-eq-ok (check_input profiles timeout) _ checked in
    (input, found, proven)

-- A proof is a touch of an enrolled key: where `touchAnyKey` returns an index and a secret, the
-- profile at that index was asked, before the deadline and with a fresh challenge, for an
-- assertion of its credential alone, with its salt, with the user present; the answer had one assertion, of that
-- credential, whose flags say presence without verification, the profile's public key verified it,
-- and the secret is the 32 bytes that came with it.
pub touch_any_key-IsProofOf :
    (hardware : Hardware) (fuel : ℕ) (profiles : List KeyProfile) (timeout : ℕ) (proof : KeyProof)
    → touch_any_key hardware fuel profiles timeout ≡ some (ok proof)
    → IsProofOf hardware.signer (deadline_of hardware timeout) profiles proof
touch_any_key-IsProofOf hardware fuel profiles timeout proof h =
    (touch_any_key_steps hardware fuel profiles timeout h).2
