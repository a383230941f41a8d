-- ===== src/Bridge/Bridged.antt =====
-- The tile of src/pin_bridge_vm.cpp with the bridge of src/windows_pin.cpp.
use sovereign_windows_auth.Base.{
  ◌≡◌, refl, sym, ap, ◌∙◌, subst, inl, inr, ℕ, true, false, ◌&&◌, List, [], ◌∷◌, Option, none, some,
  ◌==◌, leb, lt→ltb, le→leb, Result, ok, err, ◌>>=◌, ◌>>◌, need, Bool-cases, &&-elim,
  some-injective, arith,
}
use sovereign_windows_auth.Core.{WideString}
use sovereign_windows_auth.Core.Secret.{Memory}
use sovereign_windows_auth.Profile.Wide.{c_str}
use sovereign_windows_auth.Filter.Types.{Scenario, is_some}
use sovereign_windows_auth.Provider.Serialize.{
  Auth, Reply, Response, no_reply, return_credential_finished, no_credential_not_finished,
}
use sovereign_windows_auth.Windows.Pin.{
  WindowsPin, PinAnswer, text_set, serialization_asked, initialize, set_text, ask_serialization,
  supply, supply_pin, serialize, is_pin, take_buffer,
}
use sovereign_windows_auth.Windows.Pin.Once.{initialize-only_one}
use sovereign_windows_auth.Bridge.Tile.{
  LabCredential, Submission, TileCall, new_lab_credential, are_digits, bridged, after_tile_calls,
  carried, delivered_tile, submitted, submit_tile, lab_armed,
}
use sovereign_windows_auth.Bridge.Digits.{IsPin, calls-IsPin}

no_terminator : (c : ℕ) → (leb 48 c && leb c 57) ≡ true → (c == 0) ≡ false
no_terminator c h = ground arith

-- Digits have no terminator, so a C function reads them all.
c_str-digits : (pin : WideString) → are_digits pin ≡ true → c_str pin ≡ pin
unfolding are_digits
c_str-digits [] h = refl
c_str-digits (c ∷ pin) h =
    let (digit, digits) = &&-elim _ _ h in
    rw (no_terminator c digit) (ap (λ t. c ∷ t) (c_str-digits pin digits))

is_pin-digits : (pin : WideString) → IsPin (some pin) → is_pin (some pin) ≡ true
unfolding is_pin
is_pin-digits pin (positive, few, digits) =
    rw (c_str-digits pin digits) (rw (lt→ltb _ _ positive) (le→leb _ _ few))

-- What the provider of Windows makes of a PIN that is set in the field of an initialized bridge, which
-- then asks for the serialization.
abbrev pub made_of : Memory → PinAnswer → WideString → WindowsPin → Result Auth
made_of memory answer pin windows =
    let supplied = text_set windows.credential windows.pin_field pin ∷ [] in
    need (answer.takes_text supplied) "Supply Windows PIN"
    >> take_buffer memory (answer.serializes (serialization_asked windows.credential ∷ supplied))

supplied :
    (memory : Memory) (answer : PinAnswer) (pin : WideString) (windows : WindowsPin)
    → windows.calls ≡ []
    → (supply memory answer pin windows).1 ≡ made_of memory answer pin windows
unfolding supply set_text ask_serialization
supplied memory answer pin windows unasked =
    let set = text_set windows.credential windows.pin_field pin ∷ windows.calls in
    elim (Bool-cases (answer.takes_text set)) [
      | inl takes ↦ rw takes (rw (unasked, rw unasked at takes) refl)
      | inr refuses ↦ rw refuses (rw (rw unasked at refuses) refl)
    ]

asked :
    (memory : Memory) (answer : PinAnswer) (pin : WideString) (windows : WindowsPin)
    → IsPin (some pin)
    → windows.used ≡ false
    → windows.calls ≡ []
    → (serialize memory answer (some pin) windows).1 ≡ made_of memory answer pin windows
unfolding serialize supply_pin
asked memory answer pin windows good fresh unasked =
    rw (is_pin-digits pin good, fresh, c_str-digits pin good.2)
      (supplied memory answer pin (record windows { used = true }) unasked)

bridged_asks :
    (s : Submission) (c : LabCredential) (pin : WideString) (r : Result WindowsPin)
    → IsPin (some pin)
    → ((windows : WindowsPin) → r ≡ ok windows → (windows.used ≡ false) × (windows.calls ≡ []))
    → (r >>= λ windows. (serialize s.memory s.answer (some pin) windows).1)
      ≡ (r >>= made_of s.memory s.answer pin)
bridged_asks s c pin (err message) good fresh = refl
bridged_asks s c pin (ok windows) good fresh =
    let (unused, unasked) = fresh windows refl in
    asked s.memory s.answer pin windows good unused unasked

-- The bridge supplies the PIN that the tile keeps: whatever calls were made on a new credential, the
-- PIN that it then keeps is neither invalid nor repeated for the bridge, which is made for the
-- credential's users, SID and scenario; once it is initialized, all of that very PIN is set in the
-- field that it chose, and where the text is taken, the result is what Windows then makes of it.
pub bridged_after_calls :
    (users : Option ℕ) (sid : WideString) (scenario : Scenario) (calls : List TileCall)
    (s : Submission) (c : LabCredential) (pin : WideString)
    → after_tile_calls calls (new_lab_credential users sid scenario) ≡ c
    → c.pin ≡ some pin
    → bridged s c pin ≡ (
        initialize s.provider (is_some c.users) c.sid c.scenario >>= λ windows.
        let supplied = text_set windows.credential windows.pin_field pin ∷ [] in
        need (s.answer.takes_text supplied) "Supply Windows PIN"
        >> take_buffer s.memory
            (s.answer.serializes (serialization_asked windows.credential ∷ supplied)))
unfolding bridged new_lab_credential
bridged_after_calls users sid scenario calls s c pin h e =
    let good : IsPin c.pin =
      subst (λ (c : LabCredential). IsPin c.pin) h (calls-IsPin calls _ tt) in
    bridged_asks s c pin (initialize s.provider (is_some c.users) c.sid c.scenario)
      (subst IsPin e good)
      (λ windows made.
        let (users, fields, fresh, unasked) =
          initialize-only_one s.provider (is_some c.users) c.sid c.scenario windows made in
        (fresh, unasked))

response_of : Option Reply → Response
response_of none = no_credential_not_finished
response_of (some reply) = reply.response

-- What a submission that handed out a credential went through.
pub record IsSubmitted (s : Submission) (c c' : LabCredential) (reply : Reply) : Type 0 where
  pub armed : lab_armed s.machine ≡ true
  pub pin : WideString
  pub auth : Auth
  pub kept : c.pin ≡ some pin
  pub made : bridged s c pin ≡ ok auth
  pub replied : reply ≡ carried auth
  pub forgotten : c'.pin ≡ none

delivered_finished :
    (s : Submission) (r : Result Auth) (c : LabCredential)
    → (delivered_tile s r c).1.response ≡ return_credential_finished
    → (auth : Auth) × (r ≡ ok auth)
      × ((delivered_tile s r c).1 ≡ carried auth)
      × ((delivered_tile s r c).2.pin ≡ none)
unfolding delivered_tile
delivered_finished s (err message) c h = cc
delivered_finished s (ok auth) c h = elim (Bool-cases s.allocates) [
  | inl e ↦ (auth, refl, rw e, rw e)
  | inr e ↦ cc (rw e at h)
]

submitted_finished :
    (s : Submission) (c : LabCredential) (pin : Option WideString)
    → (submitted s pin c).1.response ≡ return_credential_finished
    → (p : WideString) × (auth : Auth) × (pin ≡ some p)
      × (bridged s c p ≡ ok auth)
      × ((submitted s pin c).1 ≡ carried auth)
      × ((submitted s pin c).2.pin ≡ none)
unfolding submitted
submitted_finished s c none h = cc
submitted_finished s c (some p) h =
    let (auth, e, same, gone) = delivered_finished s (bridged s c p) c h in
    (p, auth, refl, e, same, gone)

submit_armed :
    (s : Submission) (c : LabCredential)
    → lab_armed s.machine ≡ true
    → submit_tile true s c ≡ (
      (submitted s c.pin c).0,
      some (submitted s c.pin c).1,
      (submitted s c.pin c).2,
      (submitted s c.pin c).3,
    )
unfolding submit_tile
submit_armed s c h = simp h

submit_unarmed :
    (s : Submission) (c : LabCredential) (reply : Reply)
    → lab_armed s.machine ≡ false
    → (submit_tile true s c).1 ≡ some reply
    → reply.response ≡ return_credential_finished
    → ⊥
unfolding submit_tile response_of
submit_unarmed s c reply unarmed h f =
    let shown : some no_reply ≡ some reply = simp unarmed at h in cc (ap response_of shown ∙ f)

-- The lab's credential comes from a PIN that was entered, and uses it up: where a submission hands
-- out a finished credential, the machine is armed as the lab's, a PIN was kept, the bridge of
-- WindowsPin made the credential from it for the tile's own user, the reply carries what the bridge
-- made, and the PIN is forgotten.
pub submit_tile-IsSubmitted :
    (s : Submission) (c : LabCredential) (reply : Reply)
    → (submit_tile true s c).1 ≡ some reply
    → reply.response ≡ return_credential_finished
    → IsSubmitted s c (submit_tile true s c).2 reply
submit_tile-IsSubmitted s c reply h f = elim (Bool-cases (lab_armed s.machine)) [
  | inl e ↦
      let armed = submit_armed s c e in
      let same : (submitted s c.pin c).1 ≡ reply = some-injective (rw armed at h) in
      let (p, auth, kept, made, replied, gone) =
        submitted_finished s c c.pin (ap (λ (r : Reply). r.response) same ∙ f) in
      record {
        armed = e;
        pin = p;
        auth = auth;
        kept = kept;
        made = made;
        replied = sym same ∙ replied;
        forgotten = rw armed gone;
      }
  | inr e ↦ absurd (submit_unarmed s c reply e h f)
]
