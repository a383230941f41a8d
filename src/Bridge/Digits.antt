-- ===== src/Bridge/Digits.antt =====
-- What the tile of src/pin_bridge_vm.cpp keeps as a PIN, and what the bridge of src/windows_pin.cpp
-- makes of it.
use sovereign_windows_auth.Base.{
  ◌≡◌, refl, inl, inr, ℕ, ◌≤◌, ◌<◌, Bool, true, false, List, [], ◌∷◌, length, Option, none, some,
  ◌==◌, ◌=/=◌, ltb, leb, ◌^◌, Result, ok, err, Bool-cases, arith,
}
use sovereign_windows_auth.Core.{WideString}
use sovereign_windows_auth.Profile.Wide.{c_str}
use sovereign_windows_auth.Filter.Types.{Scenario}
use sovereign_windows_auth.Provider.Serialize.{Auth}
use sovereign_windows_auth.Bridge.Tile.{
  LabCredential, Submission, TileCall, new_lab_credential, are_digits, entered_pin, stored,
  set_string_value, pin_id, submitted, submit_tile, delivered_tile, bridged, lab_armed, advise_tile,
  un_advise_tile, deselect, report_tile, after_tile_call, after_tile_calls, tile_advised,
  tile_un_advised, tile_deselected, tile_entered, tile_submitted, tile_reported,
}

-- A PIN that is kept: one to 256 decimal digits.
abbrev pub IsPin : Option WideString → Type 0
IsPin none = Unit {0}
IsPin (some pin) = (0 < length pin) × (length pin ≤ 256) × (are_digits pin ≡ true)

within : {n : ℕ} → ltb 256 n ≡ false → n ≤ 256
within h = ground arith

some_units : {n : ℕ} → (n == 0) ≡ false → 0 < n
some_units h = ground arith

stored-IsPin :
    (room : Bool) (text : WideString) (c : LabCredential)
    → c.pin ≡ none
    → IsPin (some text)
    → IsPin (stored room text c).1.pin
unfolding stored
stored-IsPin true text c empty good = good
stored-IsPin false text c empty good = rw empty tt

entered_pin-IsPin :
    (room : Bool) (text : WideString) (c : LabCredential)
    → c.pin ≡ none
    → IsPin (entered_pin room text c).1.pin
unfolding entered_pin
entered_pin-IsPin room text c empty = elim (Bool-cases (ltb 256 (length text))) [
  | inl e ↦ rw e (rw empty tt)
  | inr e ↦ elim (Bool-cases (length text == 0)) [
    | inl z ↦ rw e (rw z (rw empty tt))
    | inr z ↦ elim (Bool-cases (are_digits text)) [
      | inl d ↦
          let kept = stored-IsPin room text c empty (some_units z, within e, d) in
          rw e (rw z (rw d kept))
      | inr d ↦ rw e (rw z (rw d (rw empty tt)))
    ]
  ]
]

set_string_value-IsPin :
    (room : Bool) (id : ℕ) (value : Option WideString) (c : LabCredential)
    → IsPin c.pin
    → IsPin (set_string_value room id value c).1.pin
unfolding set_string_value
set_string_value-IsPin room id none c good = good
set_string_value-IsPin room id (some value) c good = elim (Bool-cases (id =/= pin_id)) [
  | inl e ↦ simp e good
  | inr e ↦ simp e (entered_pin-IsPin room (c_str value) (record c { pin = none }) refl)
]

delivered-IsPin :
    (s : Submission) (r : Result Auth) (c : LabCredential) → (delivered_tile s r c).2.pin ≡ none
unfolding delivered_tile
delivered-IsPin s (err message) c = refl
delivered-IsPin s (ok auth) c = elim (Bool-cases s.allocates) [ inl e ↦ rw e | inr e ↦ rw e ]

submitted-IsPin :
    (s : Submission) (pin : Option WideString) (c : LabCredential)
    → IsPin c.pin
    → IsPin (submitted s pin c).2.pin
unfolding submitted
submitted-IsPin s none c good = good
submitted-IsPin s (some pin) c good = rw (delivered-IsPin s (bridged s c pin) c) tt

submit_tile-IsPin :
    (present : Bool) (s : Submission) (c : LabCredential)
    → IsPin c.pin
    → IsPin (submit_tile present s c).2.pin
unfolding submit_tile
submit_tile-IsPin false s c good = good
submit_tile-IsPin true s c good = elim (Bool-cases (lab_armed s.machine)) [
  | inl e ↦ simp e (submitted-IsPin s c.pin c good)
  | inr e ↦ simp e good
]

report_tile-IsPin :
    (copies : Bool) (status substatus : ℕ) (c : LabCredential)
    → (report_tile true copies status substatus c).2.pin ≡ none
unfolding report_tile deselect
report_tile-IsPin copies status substatus c = elim (Bool-cases (leb (2 ^ 31) status)) [
  | inl e ↦ rw e
  | inr e ↦ rw e
]

kept_pin :
    (copies : Bool) (status substatus : ℕ) (c : LabCredential)
    → IsPin c.pin
    → IsPin (report_tile false copies status substatus c).2.pin
unfolding report_tile
kept_pin copies status substatus c good = good

call-IsPin :
    (call : TileCall) (c : LabCredential) → IsPin c.pin → IsPin (after_tile_call call c).pin
unfolding after_tile_call advise_tile un_advise_tile deselect
call-IsPin (tile_advised events) c good = good
call-IsPin tile_un_advised c good = tt
call-IsPin tile_deselected c good = tt
call-IsPin (tile_entered room id value) c good = set_string_value-IsPin room id value c good
call-IsPin (tile_submitted present s) c good = submit_tile-IsPin present s c good
call-IsPin (tile_reported false copies status substatus) c good =
    kept_pin copies status substatus c good
call-IsPin (tile_reported true copies status substatus) c good =
    rw (report_tile-IsPin copies status substatus c) tt

pub calls-IsPin :
    (calls : List TileCall) (c : LabCredential) → IsPin c.pin → IsPin (after_tile_calls calls c).pin
unfolding after_tile_calls
calls-IsPin [] c good = good
calls-IsPin (call ∷ calls) c good =
    calls-IsPin calls (after_tile_call call c) (call-IsPin call c good)

-- The tile keeps no other PIN: after any calls on a new credential, the PIN that it keeps, if there
-- is one, is of one to 256 decimal digits.
pub after_tile_calls-IsPin :
    (users : Option ℕ) (sid : WideString) (scenario : Scenario) (calls : List TileCall)
    → IsPin (after_tile_calls calls (new_lab_credential users sid scenario)).pin
unfolding new_lab_credential
after_tile_calls-IsPin users sid scenario calls = calls-IsPin calls _ tt
