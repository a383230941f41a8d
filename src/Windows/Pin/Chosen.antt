-- ===== src/Windows/Pin/Chosen.antt =====
-- Which credential and which field the searches of src/windows_pin.cpp choose.
use sovereign_windows_auth.Base.{
  ◌≡◌, refl, sym, ap, Bool, true, false, Bool-cases, inl, inr, ◌&&◌, &&-elim, &&-intro, ℕ, ◌+◌,
  length, List, [], ◌∷◌, ◌++◌, All, Option, none, some, arith,
}
use sovereign_windows_auth.Core.{WideString}
use sovereign_windows_auth.Profile.Wide.{wide_eq_self}
use sovereign_windows_auth.Profile.Files.{wide_eq-eq}
use sovereign_windows_auth.Windows.Pin.{Candidate, Field, is_user, user_places, pin_fields}
use sovereign_windows_auth.Windows.Pin.Once.{entries}

-- A credential that tells the expected SID.
pub record IsOwn (expected : WideString) (c : Candidate) : Type 0 where
  pub available : c.available ≡ true
  pub has_user : c.has_user ≡ true
  pub same_sid : c.sid ≡ some expected

-- A shown password field with the focus.
pub record IsInput (f : Field) : Type 0 where
  pub described : f.described ≡ true
  pub is_password : f.is_password ≡ true
  pub has_state : f.has_state ≡ true
  pub is_shown : f.is_shown ≡ true
  pub is_focused : f.is_focused ≡ true

-- The one element of a list that is one, with those before it and behind it.
pub record IsOnly {A : Type 0} (P : A → Type 0) (l : List A) : Type 0 where
  pub before : List A
  pub the_one : A
  pub behind : List A
  pub split : l ≡ before ++ (the_one ∷ behind)
  pub holds : P the_one
  pub none_before : All (λ a. ¬ P a) before
  pub none_behind : All (λ a. ¬ P a) behind

abbrev pub is_own : WideString → Candidate → Bool
is_own expected c = c.available && (c.has_user && is_user expected c.sid)

abbrev pub is_input : Field → Bool
is_input f = (f.described && f.is_password) && (f.has_state && (f.is_shown && f.is_focused))

is_user-some :
    (expected : WideString) (sid : Option WideString)
    → is_user expected sid ≡ true
    → sid ≡ some expected
unfolding is_user
is_user-some expected none h = cc
is_user-some expected (some sid) h = ap some (sym (wide_eq-eq expected sid h))

is_user_self :
    (expected : WideString) (sid : Option WideString)
    → sid ≡ some expected
    → is_user expected sid ≡ true
unfolding is_user
is_user_self expected sid h = rw h (wide_eq_self expected)

is_own-IsOwn : (expected : WideString) (c : Candidate) → is_own expected c ≡ true → IsOwn expected c
is_own-IsOwn expected c h =
    let (available, h) = &&-elim _ _ h in
    let (has_user, h) = &&-elim _ _ h in
    record { available = available; has_user = has_user; same_sid = is_user-some expected c.sid h }

not-IsOwn : (expected : WideString) (c : Candidate) → is_own expected c ≡ false → ¬ IsOwn expected c
not-IsOwn expected c h own =
    let same =
      &&-intro _ _ own.available
        (&&-intro _ _ own.has_user (is_user_self expected c.sid own.same_sid)) in
    cc

is_input-IsInput : (f : Field) → is_input f ≡ true → IsInput f
is_input-IsInput f h =
    let (a, b) = &&-elim (f.described && f.is_password) _ h in
    let (described, is_password) = &&-elim _ _ a in
    let (has_state, b) = &&-elim _ _ b in
    let (is_shown, is_focused) = &&-elim _ _ b in
    record {
      described = described;
      is_password = is_password;
      has_state = has_state;
      is_shown = is_shown;
      is_focused = is_focused;
    }

not-IsInput : (f : Field) → is_input f ≡ false → ¬ IsInput f
not-IsInput f h input =
    let same =
      &&-intro _ _ (&&-intro _ _ input.described input.is_password)
        (&&-intro _ _ input.has_state (&&-intro _ _ input.is_shown input.is_focused)) in
    cc

none-IsOwn :
    (expected : WideString) (i : ℕ) (l : List Candidate)
    → entries (user_places expected i l) ≡ []
    → All (λ c. ¬ IsOwn expected c) l
unfolding user_places
none-IsOwn expected i [] h = tt
none-IsOwn expected i (c ∷ l) h = elim (Bool-cases (is_own expected c)) [
  | inl e ↦ cc (rw e at h)
  | inr e ↦ (not-IsOwn expected c e, none-IsOwn expected (i + 1) l (rw e at h))
]

-- The place that the search finds is that of the one own credential.
pub IsOnly-IsOwn :
    (expected : WideString) (i : ℕ) (l : List Candidate) {k : ℕ}
    → entries (user_places expected i l) ≡ k ∷ []
    → (only : IsOnly (IsOwn expected) l) × (i + length only.before ≡ k)
unfolding user_places
IsOnly-IsOwn expected i [] h = cc
IsOnly-IsOwn expected i (c ∷ l) {k} h = elim (Bool-cases (is_own expected c)) [
  | inl e ↦
      let found : i ∷ entries (user_places expected (i + 1) l) ≡ k ∷ [] = rw e at h in
      let here : i ≡ k = cc in
      (
        record {
          before = [];
          the_one = c;
          behind = l;
          split = refl;
          holds = is_own-IsOwn expected c e;
          none_before = tt;
          none_behind = none-IsOwn expected (i + 1) l cc;
        },
        omega (arith, here),
      )
  | inr e ↦
      let (only, place) = IsOnly-IsOwn expected (i + 1) l {k = k} (rw e at h) in
      (
        record {
          before = c ∷ only.before;
          the_one = only.the_one;
          behind = only.behind;
          split = ap (λ t. c ∷ t) only.split;
          holds = only.holds;
          none_before = (not-IsOwn expected c e, only.none_before);
          none_behind = only.none_behind;
        },
        omega (arith, place),
      )
]

none-IsInput : (l : List Field) → entries (pin_fields l) ≡ [] → All (λ f. ¬ IsInput f) l
unfolding pin_fields
none-IsInput [] h = tt
none-IsInput (f ∷ l) h = elim (Bool-cases (is_input f)) [
  | inl e ↦ cc (rw e at h)
  | inr e ↦ (not-IsInput f e, none-IsInput l (rw e at h))
]

-- The field that the search finds is the one input.
pub IsOnly-IsInput :
    (l : List Field) {k : ℕ}
    → entries (pin_fields l) ≡ k ∷ []
    → (only : IsOnly IsInput l) × (only.the_one.identifier ≡ k)
unfolding pin_fields
IsOnly-IsInput [] h = cc
IsOnly-IsInput (f ∷ l) {k} h = elim (Bool-cases (is_input f)) [
  | inl e ↦
      let found : f.identifier ∷ entries (pin_fields l) ≡ k ∷ [] = rw e at h in
      (
        record {
          before = [];
          the_one = f;
          behind = l;
          split = refl;
          holds = is_input-IsInput f e;
          none_before = tt;
          none_behind = none-IsInput l cc;
        },
        cc,
      )
  | inr e ↦
      let (only, place) = IsOnly-IsInput l {k = k} (rw e at h) in
      (
        record {
          before = f ∷ only.before;
          the_one = only.the_one;
          behind = only.behind;
          split = ap (λ t. f ∷ t) only.split;
          holds = only.holds;
          none_before = (not-IsInput f e, only.none_before);
          none_behind = only.none_behind;
        },
        place,
      )
]
