-- ===== src/Enroll/Unlocks.antt =====
-- An enrolled key unlocks the account that it was enrolled for: src/enroll.cpp and src/profile.cpp.
use sovereign_windows_auth.Base.{
  ℕ, zero, suc, ◌≡◌, refl, sym, ap, subst, ◌∙◌, Bool-cases, inl, inr, [], ◌∷◌, ◌++◌, Option, none,
  some, some-injective, String, Result, ok, err, need-eq-ok, >>=-eq-ok, ok-injective,
}
use sovereign_windows_auth.Core.{Bytes, KeyProfile, Sealed, AccountProfile, IsBytes, equal}
use sovereign_windows_auth.Core.Equal.{equal_iff}
use sovereign_windows_auth.Core.Secret.{Memory, Cipher, seal, unseal}
use sovereign_windows_auth.Profile.Sid.{SidApi}
use sovereign_windows_auth.Profile.Keys.{profile_for_key}
use sovereign_windows_auth.Profile.Codec.{profile_binding}
use sovereign_windows_auth.Touch.Device.{Hardware}
use sovereign_windows_auth.Touch.Sign.{KeyProof, touch_any_key}
use sovereign_windows_auth.Touch.Unlock.{enrolled_keys, open_password, after_touch, unlock_account}
use sovereign_windows_auth.Enroll.{
  Desk, enroll_key, sealed_record, on_touch, second_record, add_second, with_second, enrolled,
}

-- An opened text is bytes.
abbrev pub OpensBytes : Cipher → Memory → Type 0
OpensBytes cipher memory =
    (key binding text : Bytes) (box : Sealed)
    → unseal cipher memory key box binding ≡ ok text
    → IsBytes text

-- A record whose password a secret opens.
pub record Opens (api : SidApi) (cipher : Cipher) (memory : Memory) (secret text : Bytes)
    (profile : AccountProfile) : Type 0 where
  pub binding : Bytes
  pub bound : profile_binding api profile ≡ ok binding
  pub opened : unseal cipher memory secret profile.password binding ≡ ok text

sealed_record-Opens :
    (api : SidApi) (cipher : Cipher) (memory : Memory) (message : String) (profile : AccountProfile)
    (text secret : Bytes) {r : AccountProfile}
    → OpensBytes cipher memory
    → IsBytes text
    → sealed_record api cipher memory message profile text secret ≡ ok r
    → (box : Sealed) × (record profile { password = box } ≡ r)
      × Opens api cipher memory secret text (record profile { password = box })
unfolding sealed_record profile_binding
sealed_record-Opens api cipher memory message profile text secret gives bytes h =
    let (binding, bound, h) = >>=-eq-ok (profile_binding api profile) _ h in
    let (box, sealed, h) = >>=-eq-ok (seal cipher secret text binding) _ h in
    let (check, opened, h) = >>=-eq-ok (unseal cipher memory secret box binding) _ h in
    let (same, h) = need-eq-ok (equal check text) message _ h in
    let whole = (equal_iff check text (gives secret binding check box opened) bytes).0 same in
    (
      box,
      ok-injective h,
      record { binding = binding; bound = bound; opened = opened ∙ ap ok whole },
    )

on_touch_steps :
    (next : Bytes → Result AccountProfile) (touched : Option (Result Bytes)) {p : AccountProfile}
    → on_touch next touched ≡ some (ok p)
    → (secret : Bytes) × (touched ≡ some (ok secret)) × (next secret ≡ ok p)
unfolding on_touch
on_touch_steps next none h = cc
on_touch_steps next (some touched) h =
    let (secret, e, made) = >>=-eq-ok touched next (some-injective h) in (secret, ap some e, made)

-- The touch that an enrolled key was sealed for: that of the first key, or of the second.
abbrev pub enrolled_touch : Desk → AccountProfile → Option KeyProfile → ℕ → Option (Result Bytes)
enrolled_touch desk profile second zero = enroll_key desk.fuel desk.first_attempts profile.key
enrolled_touch desk profile none (suc i) = none
enrolled_touch desk profile (some key) (suc zero) = enroll_key desk.fuel desk.second_attempts key
enrolled_touch desk profile (some key) (suc (suc i)) = none

same_secret : {t : Option (Result Bytes)} {a b : Bytes} → t ≡ some (ok a) → t ≡ some (ok b) → a ≡ b
same_secret h g = ok-injective (some-injective (sym h ∙ g))

-- The record of a key, and that it opens.
abbrev pub RecordOpens : Desk → AccountProfile → ℕ → Bytes → Bytes → Type 0
RecordOpens desk p index secret text =
    (found : AccountProfile) × (profile_for_key p index ≡ ok found)
    × Opens desk.api desk.cipher desk.memory secret text found

module _ (desk : Desk) (profile : AccountProfile) (text : Bytes)
    (gives : OpensBytes desk.cipher desk.memory) (bytes : IsBytes text) where
  -- The first record of a profile, whatever keys were added.
  first-Opens :
      (p : AccountProfile) (box : Sealed) (secret : Bytes)
      → Opens desk.api desk.cipher desk.memory secret text (record profile { password = box })
      → Opens desk.api desk.cipher desk.memory secret text
          (record profile { password = box; additional = [] })
  unfolding profile_binding
  first-Opens p box secret opens = record {
    binding = opens.binding;
    bound = opens.bound;
    opened = opens.opened;
  }

  one-RecordOpens :
      (p : AccountProfile) (index : ℕ) (secret : Bytes)
      → enrolled desk profile none text ≡ some (ok p)
      → enrolled_touch desk profile none index ≡ some (ok secret)
      → RecordOpens desk p index secret text
  unfolding enrolled with_second profile_for_key
  one-RecordOpens p (suc i) secret h touched = cc
  one-RecordOpens p zero secret h touched =
      let (first, t, made) =
        on_touch_steps _ (enroll_key desk.fuel desk.first_attempts profile.key) h in
      let (box, is_p, opens) =
        sealed_record-Opens desk.api desk.cipher desk.memory "Encrypted profile verification failed"
          profile text first gives bytes made in
      subst (λ (q : AccountProfile). RecordOpens desk q 0 secret text) is_p
        (
          record profile { password = box; additional = [] },
          refl,
          first-Opens p box secret (
              subst
                (λ (s : Bytes).
                  Opens desk.api desk.cipher desk.memory s text (record profile { password = box }))
                (same_secret t touched) opens),
        )

  -- What the enrollment of two keys went through.
  second_steps :
      (key : KeyProfile) (first : Option (Result AccountProfile)) {p : AccountProfile}
      → with_second desk (some key) text first ≡ some (ok p)
      → (q : AccountProfile) × (second_secret : Bytes) × (first ≡ some (ok q))
        × (enroll_key desk.fuel desk.second_attempts key ≡ some (ok second_secret))
        × (add_second desk.api desk.cipher desk.memory q key text second_secret ≡ ok p)
  unfolding with_second
  second_steps key none h = cc
  second_steps key (some (err m)) h = cc
  second_steps key (some (ok q)) h = elim (Bool-cases desk.confirms_second) [
    | inl confirmed ↦
        let (secret, t, made) =
          on_touch_steps (add_second desk.api desk.cipher desk.memory q key text)
            (enroll_key desk.fuel desk.second_attempts key) (rw confirmed at h) in
        (q, secret, refl, t, made)
    | inr canceled ↦ cc (rw canceled at h)
  ]

  -- The profile with two keys.
  abbrev two_keys : KeyProfile → AccountProfile → Sealed → AccountProfile
  two_keys key q box = record q {
    additional = q.additional ++ (record { key = key; password = box } ∷ []);
  }

  two_at :
      (key : KeyProfile) (box second_box : Sealed) (first second secret : Bytes) (index : ℕ)
      → profile.additional ≡ []
      → Opens desk.api desk.cipher desk.memory first text (record profile { password = box })
      → Opens desk.api desk.cipher desk.memory second text
          (record (second_record (record profile { password = box }) key) { password = second_box })
      → enroll_key desk.fuel desk.first_attempts profile.key ≡ some (ok first)
      → enroll_key desk.fuel desk.second_attempts key ≡ some (ok second)
      → enrolled_touch desk profile (some key) index ≡ some (ok secret)
      → RecordOpens desk
          (two_keys key (record profile { password = box }) second_box)
          index
          secret
          text
  unfolding profile_for_key second_record
  two_at key box second_box first second secret zero alone opens second_opens t1 t2 touched = (
    record profile { password = box; additional = [] },
    refl,
    first-Opens profile box secret (
        subst
          (λ (s : Bytes).
            Opens desk.api desk.cipher desk.memory s text (record profile { password = box }))
          (same_secret t1 touched) opens),
  )
  two_at key box second_box first second secret (suc zero) alone opens second_opens t1 t2 touched =
      (
        record profile { key = key; password = second_box; additional = [] },
        rw alone refl,
        subst
            (λ (s : Bytes).
              Opens desk.api desk.cipher desk.memory s text
                (record profile { key = key; password = second_box; additional = [] }))
            (same_secret t2 touched) second_opens,
      )
  two_at key box second_box first second secret (suc (suc i)) alone opens second_opens t1 t2
        touched =
      cc

  two-RecordOpens :
      (key : KeyProfile) (p : AccountProfile) (index : ℕ) (secret : Bytes)
      → profile.additional ≡ []
      → enrolled desk profile (some key) text ≡ some (ok p)
      → enrolled_touch desk profile (some key) index ≡ some (ok secret)
      → RecordOpens desk p index secret text
  unfolding enrolled add_second second_record profile_for_key
  two-RecordOpens key p index secret alone h touched =
      let (q, second_secret, first, t2, made) = second_steps key _ h in
      let (first_secret, t1, sealed) =
        on_touch_steps _ (enroll_key desk.fuel desk.first_attempts profile.key) first in
      let (box, is_q, opens) =
        sealed_record-Opens desk.api desk.cipher desk.memory "Encrypted profile verification failed"
          profile text first_secret gives bytes sealed in
      let (r, sealed_second, made) =
        >>=-eq-ok
          (sealed_record desk.api desk.cipher desk.memory "Second key profile verification failed"
            (second_record q key) text second_secret)
          _ made in
      let (second_box, is_r, second_opens) =
        sealed_record-Opens desk.api desk.cipher desk.memory
          "Second key profile verification failed" (second_record q key) text second_secret gives
          bytes sealed_second in
      let moved =
        subst
          (λ (x : AccountProfile).
            Opens desk.api desk.cipher desk.memory second_secret text
              (record (second_record x key) { password = second_box }))
          (sym is_q) second_opens in
      let is_p : two_keys key (record profile { password = box }) second_box ≡ p =
        ap (λ (x : AccountProfile). two_keys key x second_box) is_q
        ∙ (ap (λ (x : AccountProfile). two_keys key q x.password) is_r ∙ ok-injective made) in
      subst (λ (x : AccountProfile). RecordOpens desk x index secret text) is_p
        (two_at key box second_box first_secret second_secret secret index alone opens moved t1 t2
          touched)

  by_keys :
      (second : Option KeyProfile) (p : AccountProfile) (index : ℕ) (secret : Bytes)
      → profile.additional ≡ []
      → enrolled desk profile second text ≡ some (ok p)
      → enrolled_touch desk profile second index ≡ some (ok secret)
      → RecordOpens desk p index secret text
  by_keys none p index secret alone = one-RecordOpens p index secret
  by_keys (some key) p index secret alone = two-RecordOpens key p index secret alone

-- An enrolled key unlocks its account: where the enrollment of one key or two made a profile for a
-- password, a later touch of either key that gives the secret which its enrollment gave makes
-- `unlockAccount` return that password. What is opened is bytes, and the profile starts without
-- other keys.
pub unlock_account-enrolled :
    (desk : Desk) (profile : AccountProfile) (second : Option KeyProfile) (text : Bytes)
    (p : AccountProfile) (hardware : Hardware) (fuel timeout : ℕ) (proof : KeyProof)
    → OpensBytes desk.cipher desk.memory
    → IsBytes text
    → profile.additional ≡ []
    → enrolled desk profile second text ≡ some (ok p)
    → enrolled_touch desk profile second proof.index ≡ some (ok proof.secret)
    → touch_any_key hardware fuel (enrolled_keys p) timeout ≡ some (ok proof)
    → unlock_account desk.api desk.cipher desk.memory hardware fuel p timeout ≡ some (ok text)
unfolding unlock_account after_touch open_password
unlock_account-enrolled desk profile second text p hardware fuel timeout proof gives bytes alone
      made enrolled_secret touched =
    let (found, recorded, opens) =
      by_keys desk profile text gives bytes second p proof.index proof.secret alone made
        enrolled_secret in
    rw touched (rw recorded (rw opens.bound (ap some opens.opened)))
