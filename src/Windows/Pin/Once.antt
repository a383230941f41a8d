-- ===== src/Windows/Pin/Once.antt =====
-- The PIN credential is the user's, and is asked once: src/windows_pin.cpp.
use sovereign_windows_auth.Base.{
  ◌≡◌, refl, sym, ap, ◌∙◌, Bool, true, false, not, Bool-cases, inl, inr, ◌&&◌, ℕ, ◌≤◌, arith,
  length, List, [], ◌∷◌, ◌++◌, Option, none, some, String, Result, ok, err, need-eq-ok, >>=-eq-ok,
  ok-injective,
}
use sovereign_windows_auth.Core.{WideString}
use sovereign_windows_auth.Core.Secret.{Memory}
use sovereign_windows_auth.Filter.Types.{Scenario, is_desktop}
use sovereign_windows_auth.Profile.Wide.{c_str}
use sovereign_windows_auth.Provider.Serialize.{Auth}
use sovereign_windows_auth.Windows.Pin.{
  PinProvider, PinCall, text_set, serialization_asked, WindowsPin, PinAnswer, user_places,
  pin_fields, keep_one, pick_one, required, connect, choose, initialize, is_pin, set_text,
  ask_serialization, supply, supply_pin, serialize, serialize_all,
}

-- The entries that are there, in order.
abbrev pub entries : List (Option ℕ) → List ℕ
entries [] = []
entries (none ∷ l) = entries l
entries (some k ∷ l) = k ∷ entries l

abbrev start : Option ℕ → List ℕ
start none = []
start (some k) = k ∷ []

pick_one-entries :
    (message : String) (chosen : Option ℕ) (l : List (Option ℕ)) {r : Option ℕ}
    → pick_one message chosen l ≡ ok r
    → start chosen ++ entries l ≡ start r
unfolding pick_one keep_one
pick_one-entries message none [] h = ap start (ok-injective h)
pick_one-entries message (some k) [] h = ap start (ok-injective h)
pick_one-entries message none (none ∷ l) h = pick_one-entries message none l h
pick_one-entries message (some k) (none ∷ l) h = pick_one-entries message (some k) l h
pick_one-entries message none (some j ∷ l) h = pick_one-entries message (some j) l h
pick_one-entries message (some k) (some j ∷ l) h = cc

required-some : (message : String) (o : Option ℕ) {k : ℕ} → required message o ≡ ok k → o ≡ some k
unfolding required
required-some message none h = cc
required-some message (some j) h = ap some (ok-injective h)

-- Where the initialization returns, the chosen credential and field are the only matches of the two
-- searches, and nothing was asked of them.
pub initialize-only_one :
    (provider : PinProvider) (has_users : Bool) (expected : WideString) (scenario : Scenario)
    (windows : WindowsPin)
    → initialize provider has_users expected scenario ≡ ok windows
    → (entries (user_places expected 0 provider.candidates) ≡ windows.credential ∷ [])
      × (entries (pin_fields provider.fields) ≡ windows.pin_field ∷ [])
      × (windows.used ≡ false)
      × (windows.calls ≡ [])
unfolding initialize
initialize-only_one provider has_users expected scenario windows h =
    let (input, h) = need-eq-ok (has_users && is_desktop scenario) _ _ h in
    let (u, connected, h) = >>=-eq-ok (connect provider) _ h in
    let (chosen, picked, h) =
      >>=-eq-ok
        (pick_one "Ambiguous Windows PIN identity" none
          (user_places expected 0 provider.candidates))
        _ h in
    let (credential, found, h) =
      >>=-eq-ok (required "No Windows PIN credential for the enrolled user" chosen) _ h in
    let (v, selected, h) = >>=-eq-ok (choose provider) _ h in
    let (field, read, h) =
      >>=-eq-ok (pick_one "Ambiguous Windows PIN input" none (pin_fields provider.fields)) _ h in
    let (pin_field, there, h) = >>=-eq-ok (required "Windows PIN input unavailable" field) _ h in
    let made : record { credential = credential; pin_field = pin_field; used = false; calls = [] }
        ≡ windows =
      ok-injective h in
    let users =
      pick_one-entries "Ambiguous Windows PIN identity" none
        (user_places expected 0 provider.candidates) picked in
    let inputs =
      pick_one-entries "Ambiguous Windows PIN input" none (pin_fields provider.fields) read in
    (
      users
          ∙ (ap start (required-some _ chosen found)
              ∙ ap (λ (w : WindowsPin). w.credential ∷ []) made),
      inputs
          ∙ (ap start (required-some _ field there)
              ∙ ap (λ (w : WindowsPin). w.pin_field ∷ []) made),
      ap (λ (w : WindowsPin). w.used) (sym made),
      ap (λ (w : WindowsPin). w.calls) (sym made),
    )

-- The results that are no error.
abbrev pub produced : List (Result Auth) → List Auth
produced [] = []
produced (ok auth ∷ l) = auth ∷ produced l
produced (err message ∷ l) = produced l

-- The texts that calls set, but for the empty ones.
abbrev pub texts : List PinCall → List WideString
texts [] = []
texts (text_set credential field [] ∷ calls) = texts calls
texts (text_set credential field (c ∷ text) ∷ calls) = (c ∷ text) ∷ texts calls
texts (serialization_asked credential ∷ calls) = texts calls

-- The credentials whose serialization is asked for.
abbrev pub asks : List PinCall → List ℕ
asks [] = []
asks (text_set credential field text ∷ calls) = asks calls
asks (serialization_asked credential ∷ calls) = credential ∷ asks calls

serialize-refused :
    (memory : Memory) (answer : PinAnswer) (pin : Option WideString) (windows : WindowsPin)
    → (is_pin pin && not windows.used) ≡ false
    → serialize memory answer pin windows ≡ (windows, err "Invalid or repeated Windows PIN request")
unfolding serialize
serialize-refused memory answer pin windows h = rw h refl

used_refuses : (b used : Bool) → used ≡ true → (b && not used) ≡ false
used_refuses b used h = ground arith

-- One that was used makes no call and produces nothing.
serialize_used :
    (memory : Memory) (answer : PinAnswer) (requests : List (Option WideString))
    (windows : WindowsPin)
    → windows.used ≡ true
    → ((serialize_all memory answer requests windows).0.calls ≡ windows.calls)
      × (produced (serialize_all memory answer requests windows).1 ≡ [])
unfolding serialize_all
serialize_used memory answer [] windows used = (refl, refl)
serialize_used memory answer (pin ∷ requests) windows used =
    rw (serialize-refused memory answer pin windows (used_refuses (is_pin pin) windows.used used))
      (serialize_used memory answer requests windows used)

length-texts :
    (credential field : ℕ) (text : WideString)
    → length (texts (text_set credential field text ∷ [])) ≤ 1
length-texts credential field [] = omega arith
length-texts credential field (c ∷ text) = omega arith

length-produced : (r : Result Auth) → length (produced (r ∷ [])) ≤ 1
length-produced (ok auth) = omega arith
length-produced (err message) = omega arith

-- What is kept of requests: one text at most, one serialization at most, and no more results.
abbrev pub IsOnce : WindowsPin × List (Result Auth) → Type 0
IsOnce (windows, results) =
    (length (texts windows.calls) ≤ 1)
    × (length (asks windows.calls) ≤ 1)
    × (length (produced results) ≤ length (asks windows.calls))

supply-IsOnce :
    (memory : Memory) (answer : PinAnswer) (text : WideString) (windows : WindowsPin)
    → windows.calls ≡ []
    → let (after, result) = supply memory answer text windows in IsOnce (after, result ∷ [])
unfolding supply set_text ask_serialization
supply-IsOnce memory answer text windows none_made =
    let set = set_text text windows in
    let few = length-texts windows.credential windows.pin_field text in
    elim (Bool-cases (answer.takes_text set.calls)) [
      | inl takes ↦ rw (takes, none_made) (few, omega arith, length-produced _)
      | inr refuses ↦ rw (refuses, none_made) (few, omega arith, omega arith)
    ]

supply-used :
    (memory : Memory) (answer : PinAnswer) (text : WideString) (windows : WindowsPin)
    → (supply memory answer text windows).0.used ≡ windows.used
unfolding supply set_text ask_serialization
supply-used memory answer text windows =
    elim (Bool-cases (answer.takes_text (set_text text windows).calls)) [
      | inl takes ↦ rw takes refl
      | inr refuses ↦ rw refuses refl
    ]

-- What follows a request that was made leaves everything as it is.
then_nothing :
    (memory : Memory) (answer : PinAnswer) (requests : List (Option WideString))
    (windows : WindowsPin) (result : Result Auth)
    → windows.used ≡ true
    → IsOnce (windows, result ∷ [])
    → let (after, results) = serialize_all memory answer requests windows in
      IsOnce (after, result ∷ results)
then_nothing memory answer requests windows result used once =
    let out = serialize_all memory answer requests windows in
    let (same, nothing) = serialize_used memory answer requests windows used in
    by_result result out.0 windows out.1 once same nothing
  where
    by_result :
        (result : Result Auth) (after before : WindowsPin) (results : List (Result Auth))
        → IsOnce (before, result ∷ [])
        → after.calls ≡ before.calls
        → produced results ≡ []
        → IsOnce (after, result ∷ results)
    by_result (ok auth) after before results once same nothing = rw (same, nothing) once
    by_result (err message) after before results once same nothing = rw (same, nothing) once

fresh-IsOnce :
    (memory : Memory) (answer : PinAnswer) (requests : List (Option WideString))
    (windows : WindowsPin)
    → windows.calls ≡ []
    → IsOnce (serialize_all memory answer requests windows)
unfolding serialize_all serialize supply_pin is_pin
fresh-IsOnce memory answer [] windows none_made =
    rw none_made (omega arith, omega arith, omega arith)
fresh-IsOnce memory answer (none ∷ requests) windows none_made =
    fresh-IsOnce memory answer requests windows none_made
fresh-IsOnce memory answer (some text ∷ requests) windows none_made =
    let marked : WindowsPin = record windows { used = true } in
    elim (Bool-cases (is_pin (some text) && not windows.used)) [
      | inl made ↦ rw made (
          then_nothing memory answer requests (supply memory answer (c_str text) marked).0
            (supply memory answer (c_str text) marked).1
            (supply-used memory answer (c_str text) marked)
            (supply-IsOnce memory answer (c_str text) marked none_made))
      | inr refused ↦ rw refused (fresh-IsOnce memory answer requests windows none_made)
    ]

-- A PIN is used once, and a failure is not retried: of all the requests that are made of one
-- initialized `WindowsPin`, whatever Windows answers to its calls, at most one text that is not empty
-- is ever set in a field of a credential, a serialization is asked for at most once, and there are no
-- more produced credentials than serializations that were asked for.
pub serialize_all_once :
    (memory : Memory) (answer : PinAnswer) (requests : List (Option WideString))
    (provider : PinProvider) (has_users : Bool) (expected : WideString) (scenario : Scenario)
    (windows : WindowsPin)
    → initialize provider has_users expected scenario ≡ ok windows
    → let (after, results) = serialize_all memory answer requests windows in
      (length (texts after.calls) ≤ 1)
      × (length (asks after.calls) ≤ 1)
      × (length (produced results) ≤ length (asks after.calls))
serialize_all_once memory answer requests provider has_users expected scenario windows h =
    let (_, _, _, unasked) = initialize-only_one provider has_users expected scenario windows h in
    fresh-IsOnce memory answer requests windows unasked
