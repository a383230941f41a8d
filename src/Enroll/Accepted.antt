-- ===== src/Enroll/Accepted.antt =====
-- What was enrolled is what the provider signs in with: src/enroll.cpp and src/provider.cpp.
use sovereign_windows_auth.Base.{
  ℕ, ◌≤◌, ◌<◌, ◌≡◌, ◌+◌, ◌*◌, ◌-◌, ◌/◌, ◌%◌, refl, sym, ap, ◌∙◌, arith, Bool, true, false, Option,
  some-injective, not, Bool-cases, inl, inr, ◌&&◌, ◌||◌, [], ◌∷◌, ◌++◌, All, All-append, length,
  length-append, some, ◌==◌, ◌=/=◌, ltb, if◌then◌else◌, ok,
}
use sovereign_windows_auth.Core.{WideString, windows_pin}
use sovereign_windows_auth.Profile.Wide.{wide_bytes, wide_of, c_str}
use sovereign_windows_auth.Profile.Wire.Writes.{IsUnit}
use sovereign_windows_auth.Profile.Wire.Moves.{wide_of-wide_bytes, length-wide_bytes}
use sovereign_windows_auth.Provider.Credential.{Credential, is_password, worker_password}
use sovereign_windows_auth.Provider.Serialize.{Packing, authenticate}
use sovereign_windows_auth.Profile.Files.{Entry, Disk}
use sovereign_windows_auth.Enroll.{Desk}
use sovereign_windows_auth.Enroll.Command.{Ready, kind_of, prepare_enrollment}
use sovereign_windows_auth.Enroll.Prepared.{typed, prepare_enrollment-IsPrepared}

c_str-units : (s : WideString) → All IsUnit s → All IsUnit (c_str s)
c_str-units [] h = tt
c_str-units (c ∷ s) (u, h) = elim (Bool-cases (c == 0)) [
  | inl end ↦ rw end tt
  | inr more ↦ rw more (u, c_str-units s h)
]

-- The text up to its terminator is read again with a terminator behind it.
c_str_terminated : (s : WideString) → c_str (c_str s ++ (0 ∷ [])) ≡ c_str s
c_str_terminated [] = refl
c_str_terminated (c ∷ s) = elim (Bool-cases (c == 0)) [
  | inl end ↦ rw end refl
  | inr more ↦ rw more (rw more (ap (λ t. c ∷ t) (c_str_terminated s)))
]

-- The checks of a worker, on the sizes.
accepted_sizes :
    (n size : ℕ)
    → 0 < n
    → n < 4096
    → size ≡ 2 * (n + 1)
    → (not (ltb size 4 || ltb 8192 size || size % 2 =/= 0) && n == size / 2 - 1) ≡ true
accepted_sizes n size low high e = ground arith

-- The bytes of a text that was taken from a buffer, with its terminator, are accepted by a worker of
-- the provider, and what GetSerialization packs of them is that very text.
terminated-is_accepted :
    (capacity : ℕ) (buffer text : WideString) (packing : Packing) (c : Credential)
    → All IsUnit buffer
    → capacity ≤ 4096
    → (c_str buffer ≡ text) × (0 < length (c_str buffer)) × (length (c_str buffer) < capacity)
    → (worker_password true true (ok (wide_bytes (text ++ (0 ∷ []))))
        ≡ some (wide_bytes (text ++ (0 ∷ []))))
      × (authenticate packing c (wide_bytes (text ++ (0 ∷ []))) ≡ (
          if c.profile.kind == windows_pin
          then packing.pin_serialize c.users c.profile.sid c.scenario text
          else packing.pack_credential c.profile.account text))
unfolding worker_password is_password authenticate
terminated-is_accepted capacity buffer text packing c units small h =
    let (is_text, low, high) = h in
    let whole : WideString = c_str buffer ++ (0 ∷ []) in
    let read : wide_of (wide_bytes whole) ≡ whole =
      wide_of-wide_bytes whole
        (All-append IsUnit (c_str buffer) (0 ∷ []) (c_str-units buffer units) (omega arith, tt)) in
    let size : length (wide_bytes whole) ≡ 2 * (length (c_str buffer) + 1) =
      omega (arith, length-wide_bytes whole, length-append (c_str buffer) (0 ∷ [])) in
    rw (← is_text) (
      rw (read, c_str_terminated buffer)
          (rw
            (accepted_sizes (length (c_str buffer)) (length (wide_bytes whole)) low (omega arith)
              size)
            refl),
      rw (read, c_str_terminated buffer) refl,
    )

kind_of-pin : (use_pin : Bool) → (kind_of use_pin == windows_pin) ≡ use_pin
unfolding kind_of
kind_of-pin true = refl
kind_of-pin false = refl

-- A credential is signed in with as it was entered: the bytes that a prepared enrollment gives to its
-- touches to seal, made of a typed text of 16-bit units in a buffer for 4096 units at most, are
-- accepted by a worker of the provider when a touch opens them; and what GetSerialization then packs
-- for a profile of the enrolled kind, as a PIN or as a password, is the very text that was typed, up
-- to its terminator.
pub prepare_enrollment-is_accepted :
    (desk : Desk) (use_pin : Bool) (first : Option Entry) (second : Option (Option Entry))
    (disk : Disk) (ready : Ready) (buffer : WideString) (packing : Packing) (c : Credential)
    → typed use_pin desk.entered ≡ some buffer
    → All IsUnit buffer
    → desk.capacity ≤ 4096
    → prepare_enrollment desk use_pin first second disk ≡ ok ready
    → c.profile.kind ≡ ready.profile.kind
    → (worker_password true true (ok ready.text) ≡ some ready.text)
      × (authenticate packing c ready.text ≡ (
          if use_pin
          then packing.pin_serialize c.users c.profile.sid c.scenario (c_str buffer)
          else packing.pack_credential c.profile.account (c_str buffer)))
prepare_enrollment-is_accepted desk use_pin first second disk ready buffer packing c was_typed units
      small h same_kind =
    let p = prepare_enrollment-IsPrepared desk use_pin first second disk h in
    let same : p.buffer ≡ buffer = some-injective (sym p.was_typed ∙ was_typed) in
    let text : ready.text ≡ wide_bytes (c_str buffer ++ (0 ∷ [])) =
      p.terminated ∙ ap (λ b. wide_bytes (c_str b ++ (0 ∷ []))) same in
    let (worker, packs) =
      terminated-is_accepted desk.capacity buffer (c_str buffer) packing c units small
        (refl, rw (← same) p.not_empty, rw (← same) p.fits) in
    let as_pin : (c.profile.kind == windows_pin) ≡ use_pin =
      ap (λ k. k == windows_pin) (same_kind ∙ p.right_kind) ∙ kind_of-pin use_pin in
    (
      rw text worker,
      rw text packs
          ∙ ap
              (λ b.
                if b
                then packing.pin_serialize c.users c.profile.sid c.scenario (c_str buffer)
                else packing.pack_credential c.profile.account (c_str buffer))
              as_pin,
    )
