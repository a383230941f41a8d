-- ===== src/Windows/Pin/Supplied.antt =====
-- Whom the PIN is given to, and what is made of it: src/windows_pin.cpp.
use sovereign_windows_auth.Base.{
  ◌≡◌, refl, ap, Bool, true, not, Bool-cases, inl, inr, ◌&&◌, &&-elim, ℕ, ◌≤◌, ◌<◌, arith, length,
  List, [], ◌∷◌, Option, none, some, ◌==◌, leb, leb→le, ok, need-eq-ok, >>=-eq-ok, ok-injective,
}
use sovereign_windows_auth.Core.{WideString}
use sovereign_windows_auth.Core.Secret.{Memory, new_secret}
use sovereign_windows_auth.Filter.Types.{Scenario}
use sovereign_windows_auth.Profile.Wide.{c_str}
use sovereign_windows_auth.Provider.Serialize.{Auth}
use sovereign_windows_auth.Windows.Pin.{
  PinProvider, PinCall, text_set, serialization_asked, WindowsPin, PinAnswer, PinSerialization,
  initialize, is_pin, buffer_of, take_buffer, set_text, ask_serialization, supply, supply_pin,
  serialize,
}
use sovereign_windows_auth.Windows.Pin.Once.{initialize-only_one}
use sovereign_windows_auth.Windows.Pin.Chosen.{IsOwn, IsInput, IsOnly, IsOnly-IsOwn, IsOnly-IsInput}

-- A finished credential that Windows made, and that is handed on unchanged.
pub record IsMade (made : PinSerialization) (auth : Auth) : Type 0 where
  pub succeeded : made.succeeded ≡ true
  pub finished : made.finished ≡ true
  pub same_package : made.auth_package ≡ auth.auth_package
  pub same_buffer : made.serialized ≡ some auth.buffer
  pub positive : 0 < length auth.buffer
  pub short : length auth.buffer ≤ 65536

-- What a credential was made of: the text was set, alone, in the one shown password field with the
-- focus of the one credential that has the expected SID; that credential took it, was then asked, and
-- the field was emptied.
pub record IsSupplied (provider : PinProvider) (answer : PinAnswer) (expected text : WideString)
    (calls : List PinCall) (auth : Auth) : Type 0 where
  pub own : IsOnly (IsOwn expected) provider.candidates
  pub input : IsOnly IsInput provider.fields
  pub taken :
      answer.takes_text (text_set (length own.before) input.the_one.identifier text ∷ []) ≡ true
  pub made :
      IsMade
        (answer.serializes (
          serialization_asked (length own.before)
          ∷ text_set (length own.before) input.the_one.identifier text
          ∷ []))
        auth
  pub called :
      calls
      ≡ text_set (length own.before) input.the_one.identifier []
        ∷ serialization_asked (length own.before)
        ∷ text_set (length own.before) input.the_one.identifier text
        ∷ []

buffer_of_inv :
    (memory : Memory) (auth_package : ℕ) (o : Option _) {auth : Auth}
    → buffer_of memory auth_package o ≡ ok auth
    → (auth_package ≡ auth.auth_package)
      × (o ≡ some auth.buffer)
      × (0 < length auth.buffer)
      × (length auth.buffer ≤ 65536)
unfolding buffer_of
buffer_of_inv memory auth_package none h = cc
buffer_of_inv memory auth_package (some bytes) {auth} h =
    let (sizes, h) = need-eq-ok (not (length bytes == 0) && leb (length bytes) 65536) _ _ h in
    let (size, room, h) = >>=-eq-ok (new_secret memory (length bytes)) _ h in
    let same : record { auth_package = auth_package; buffer = bytes } ≡ auth = ok-injective h in
    let (full, short) = &&-elim _ _ sizes in
    let bytes_same : bytes ≡ auth.buffer = ap (λ (a : Auth). a.buffer) same in
    (
      ap (λ (a : Auth). a.auth_package) same,
      ap some bytes_same,
      rw (← bytes_same) (positive (length bytes) full),
      rw (← bytes_same) (leb→le _ _ short),
    )
  where
    positive : (n : ℕ) → not (n == 0) ≡ true → 0 < n
    positive n h = ground arith

take_buffer-IsMade :
    (memory : Memory) (made : PinSerialization) {auth : Auth}
    → take_buffer memory made ≡ ok auth
    → IsMade made auth
unfolding take_buffer
take_buffer-IsMade memory made h =
    let (succeeded, h) = need-eq-ok made.succeeded _ _ h in
    let (finished, h) = need-eq-ok made.finished _ _ h in
    let (same_package, same_buffer, positive, short) =
      buffer_of_inv memory made.auth_package made.serialized h in
    record {
      succeeded = succeeded;
      finished = finished;
      same_package = same_package;
      same_buffer = same_buffer;
      positive = positive;
      short = short;
    }

supply-IsMade :
    (memory : Memory) (answer : PinAnswer) (text : WideString) (windows : WindowsPin) {auth : Auth}
    → windows.calls ≡ []
    → (supply memory answer text windows).1 ≡ ok auth
    → let supplied = text_set windows.credential windows.pin_field text ∷ [] in
      let asked = serialization_asked windows.credential ∷ supplied in
      (answer.takes_text supplied ≡ true)
      × IsMade (answer.serializes asked) auth
      × ((supply memory answer text windows).0.calls
          ≡ text_set windows.credential windows.pin_field [] ∷ asked)
unfolding supply set_text ask_serialization
supply-IsMade memory answer text windows none_made h =
    let set = text_set windows.credential windows.pin_field text ∷ windows.calls in
    elim (Bool-cases (answer.takes_text set)) [
      | inl takes ↦ (
        rw (← none_made) takes,
        take_buffer-IsMade memory _ (rw (takes, none_made) at h),
        rw (takes, none_made) refl,
      )
      | inr refuses ↦ cc (rw refuses at h)
    ]

-- The PIN is supplied to the user's own credential: where `serialize` of an initialized `WindowsPin`
-- returns a credential, exactly one of the credentials that Windows offers tells the expected SID and
-- exactly one field is a shown password with the focus; the PIN, up to its terminator, was set in that
-- field of that credential, whose serialization was then asked for and whose field was emptied, with
-- no other call; and what is returned is the finished credential that Windows then made, unchanged.
pub serialize-IsSupplied :
    (memory : Memory) (provider : PinProvider) (answer : PinAnswer) (has_users : Bool)
    (expected text : WideString) (scenario : Scenario) (windows : WindowsPin) (auth : Auth)
    → initialize provider has_users expected scenario ≡ ok windows
    → (serialize memory answer (some text) windows).1 ≡ ok auth
    → IsSupplied provider answer expected
        (c_str text)
        (serialize memory answer (some text) windows).0.calls
        auth
unfolding serialize supply_pin
serialize-IsSupplied memory provider answer has_users expected text scenario windows auth made h =
    let (users, fields, fresh, unasked) =
      initialize-only_one provider has_users expected scenario windows made in
    let (own, there) = IsOnly-IsOwn expected 0 provider.candidates users in
    let place : length own.before ≡ windows.credential = omega (arith, there) in
    let (input, field) = IsOnly-IsInput provider.fields fields in
    let marked : WindowsPin = record windows { used = true } in
    elim (Bool-cases (is_pin (some text) && not windows.used)) [
      | inl e ↦
          let (taken, serialized, called) =
            supply-IsMade memory answer (c_str text) marked unasked (rw e at h) in
          record {
            own = own;
            input = input;
            taken = rw (place, field) taken;
            made = rw (place, field) serialized;
            called = rw (e, place, field) called;
          }
      | inr e ↦ cc (rw e at h)
    ]
