-- ===== src/Provider/Operations.antt =====
-- Each operation of the class Credential of src/provider.cpp follows the phases of
-- Provider/Protocol.
use sovereign_windows_auth.Base.{
  ◌≡◌, refl, ap, ◌∙◌, sym, subst, ℕ, ◌+◌, ◌^◌, ◌≤◌, ◌<◌, Bool, true, false, not, ◌&&◌, Option, none,
  some, ◌==◌, eq→==, ltb, leb, if◌then◌else◌, Bool-cases, inl, inr, arith,
}
use sovereign_windows_auth.Core.{Bytes}
use sovereign_windows_auth.Filter.Types.{is_some, s_false, e_unexpected, HResult}
use sovereign_windows_auth.Provider.Credential.{
  Credential, Worker, Platform, begin, launch, finish, ready, take_password, set_deselected,
  set_provider_events, succeeded, elapsed, from_win32,
}
use sovereign_windows_auth.Provider.Protocol.{
  Phase, idle, waiting, canceled, proven, end_worker, latest, starts, begin_phase, end_phase,
  ask_phase, offered, take_phase, deselect_phase,
}

-- How a state stands for a phase.
abbrev pub StandsFor : Phase → Credential → Option Worker → Type 0
StandsFor idle c w = (c.working ≡ false) × (c.ready_password ≡ none) × (w ≡ none)
StandsFor waiting c w =
    (c.working ≡ true)
    × (c.ready_password ≡ none)
    × (x : Worker) × (w ≡ some x)
    × (x.attempt ≡ c.generation)
StandsFor canceled c w =
    (c.working ≡ true)
    × (c.ready_password ≡ none)
    × (x : Worker) × (w ≡ some x)
    × (x.attempt < c.generation)
StandsFor (proven p at) c w =
    (c.working ≡ false) × (c.ready_password ≡ some p) × (c.ready_at ≡ at) × (w ≡ none)

-- What is left of a credential and the worker, when `begin` runs without one.
abbrev Begun : Bool → Credential → HResult × Credential × Option Worker → Type 0
Begun s c (result, c', w) =
    StandsFor (if s then waiting else idle) c' (latest w none)
    × (c'.provider_events ≡ c.provider_events)
    × (c'.generation ≤ c.generation + 1)

launch-Begun :
    (platform : Platform) (c : Credential)
    → c.working ≡ false
    → c.ready_password ≡ none
    → c.generation + 1 < 2 ^ 64
    → Begun platform.thread_starts c (launch platform c)
unfolding launch
launch-Begun platform c free cleared small = elim (Bool-cases platform.thread_starts) [
  | inl e ↦ rw e ((refl, cleared, _, refl, refl), refl, omega arith)
  | inr e ↦ rw e ((refl, cleared, refl), refl, omega arith)
]

begin_cases :
    (platform : Platform) (c : Credential) (events pin : Option ℕ)
    → c.working ≡ false
    → c.ready_password ≡ none
    → c.generation + 1 < 2 ^ 64
    → Begun
        (is_some events
          && not (is_some pin)
          && succeeded platform.marshal
          && platform.thread_starts)
        c
        (elim events [
          | none ↦ (e_unexpected, c, none)
          | some listener ↦ elim pin [
            | some code ↦ (from_win32 code, c, none)
            | none ↦
                if succeeded platform.marshal
                then launch platform c
                else (platform.marshal, c, none)
          ]
        ])
begin_cases platform c none pin free cleared small = ((free, cleared, refl), refl, omega arith)
begin_cases platform c (some e) (some code) free cleared small =
    ((free, cleared, refl), refl, omega arith)
begin_cases platform c (some e) none free cleared small =
    elim (Bool-cases (succeeded platform.marshal)) [
      | inl e ↦ rw e (launch-Begun platform c free cleared small)
      | inr e ↦ rw e ((free, cleared, refl), refl, omega arith)
    ]

begin_eq :
    (platform : Platform) (c : Credential)
    → c.working ≡ false
    → let cleared : Credential = record c { ready_password = none } in
      begin platform c ≡ elim c.provider_events [
        | none ↦ (e_unexpected, cleared, none)
        | some listener ↦ elim platform.pin_error [
          | some code ↦ (from_win32 code, cleared, none)
          | none ↦
              if succeeded platform.marshal
              then launch platform cleared
              else (platform.marshal, cleared, none)
        ]
      ]
unfolding begin
begin_eq platform c free = simp free

begin_free :
    (platform : Platform) (c : Credential)
    → c.working ≡ false
    → c.generation + 1 < 2 ^ 64
    → Begun (starts platform c.provider_events) c (begin platform c)
begin_free platform c free small =
    let cleared : Credential = record c { ready_password = none } in
    subst (Begun (starts platform c.provider_events) c) (sym (begin_eq platform c free))
      (begin_cases platform cleared c.provider_events platform.pin_error free refl small)

begin_busy :
    (platform : Platform) (c : Credential)
    → c.working ≡ true
    → begin platform c ≡ (s_false, c, none)
unfolding begin
begin_busy platform c busy = simp busy

pub begin_keeps :
    (platform : Platform) (ph : Phase) (c : Credential) (w : Option Worker)
    → StandsFor ph c w
    → c.generation + 1 < 2 ^ 64
    → let (result, c', w') = begin platform c in
      StandsFor (begin_phase (starts platform c.provider_events) ph) c' (latest w' w)
      × (c'.provider_events ≡ c.provider_events)
      × (c'.generation ≤ c.generation + 1)
begin_keeps platform idle c w (a, b, d) small = rw d (begin_free platform c a small)
begin_keeps platform waiting c w (a, b, x, d, e) small =
    simp (begin_busy platform c a) ((a, b, x, d, e), refl, omega arith)
begin_keeps platform canceled c w (a, b, x, d, e) small =
    simp (begin_busy platform c a) ((a, b, x, d, e), refl, omega arith)
begin_keeps platform (proven p at) c w (a, b, d, e) small = rw e (begin_free platform c a small)

pub set_deselected_keeps :
    (ph : Phase) (c : Credential) (w : Option Worker)
    → StandsFor ph c w
    → c.generation + 1 < 2 ^ 64
    → StandsFor (deselect_phase ph) (set_deselected c) w
      × ((set_deselected c).generation ≤ c.generation + 1)
      × ((set_deselected c).provider_events ≡ c.provider_events)
unfolding set_deselected
set_deselected_keeps idle c w (a, b, d) small = ((a, refl, d), omega arith, refl)
set_deselected_keeps waiting c w (a, b, x, d, e) small =
    ((a, refl, x, d, omega arith), omega arith, refl)
set_deselected_keeps canceled c w (a, b, x, d, e) small =
    ((a, refl, x, d, omega arith), omega arith, refl)
set_deselected_keeps (proven p at) c w (a, b, d, e) small = ((a, refl, e), omega arith, refl)

pub take_keeps :
    (now : ℕ) (ph : Phase) (c : Credential) (w : Option Worker)
    → StandsFor ph c w
    → let (attempt, p, c') = take_password now c in
      StandsFor (take_phase ph) c' w
      × (p ≡ offered now ph)
      × (c'.generation ≡ c.generation)
      × (c'.provider_events ≡ c.provider_events)
unfolding take_password
take_keeps now idle c w (a, b, d) = ((a, refl, d), rw b (ground arith), refl, refl)
take_keeps now waiting c w (a, b, x, d, e) = ((a, refl, x, d, e), rw b (ground arith), refl, refl)
take_keeps now canceled c w (a, b, x, d, e) = ((a, refl, x, d, e), rw b (ground arith), refl, refl)
take_keeps now (proven p at) c w (a, b, d, e) = ((a, refl, e), rw b (rw d), refl, refl)

expired : (n : ℕ) → ltb 30000 n ≡ true → leb n 30000 ≡ false
expired n h = ground arith

fresh : (n : ℕ) → ltb 30000 n ≡ false → leb n 30000 ≡ true
fresh n h = ground arith

pub ready_keeps :
    (now : ℕ) (ph : Phase) (c : Credential) (w : Option Worker)
    → StandsFor ph c w
    → let (b, c') = ready now c in
      StandsFor (ask_phase now ph) c' w
      × (b ≡ is_some (offered now ph))
      × (c'.generation ≡ c.generation)
      × (c'.provider_events ≡ c.provider_events)
unfolding ready
ready_keeps now idle c w (a, b, d) = rw b ((a, refl, d), refl, refl, refl)
ready_keeps now waiting c w (a, b, x, d, e) = rw b ((a, refl, x, d, e), refl, refl, refl)
ready_keeps now canceled c w (a, b, x, d, e) = rw b ((a, refl, x, d, e), refl, refl, refl)
ready_keeps now (proven p at) c w (a, b, d, e) =
    elim (Bool-cases (ltb 30000 (elapsed now c.ready_at))) [
      | inl t ↦ rw (← d) (rw b (rw t (rw (expired _ t) ((a, refl, e), refl, refl, refl))))
      | inr t ↦ rw (← d) (rw b (rw t (rw (fresh _ t) ((a, refl, refl, e), refl, refl, refl))))
    ]

some-none : {x : Worker} → some x ≡ none → ⊥
some-none h = cc

none-some : {x : Worker} → none ≡ some x → ⊥
none-some h = cc

same_attempt : {x y : Worker} {n : ℕ} → some x ≡ some y → y.attempt ≡ n → (x.attempt == n) ≡ true
same_attempt {x} {y} {n} h e =
    let q : x ≡ y = cc in eq→== _ _ (ap (λ (v : Worker). v.attempt) q ∙ e)

old_attempt : {x y : Worker} {n : ℕ} → some x ≡ some y → y.attempt < n → (x.attempt == n) ≡ false
old_attempt {x} {y} {n} h e =
    let q : x ≡ y = cc in
    let same : x.attempt ≡ y.attempt = ap (λ (v : Worker). v.attempt) q in ground arith

finish_keeps :
    (now : ℕ) (password : Option Bytes) (ph : Phase) (c : Credential) (x : Worker)
    → StandsFor ph c (some x)
    → StandsFor (end_phase now password ph) (finish now x password c) none
      × ((finish now x password c).generation ≡ c.generation)
      × ((finish now x password c).provider_events ≡ c.provider_events)
unfolding finish
finish_keeps now p idle c x (a, b, d) = absurd (some-none d)
finish_keeps now none waiting c x (a, b, y, d, e) =
    rw (same_attempt d e) ((refl, b, refl), refl, refl)
finish_keeps now (some p) waiting c x (a, b, y, d, e) =
    rw (same_attempt d e) ((refl, refl, refl, refl), refl, refl)
finish_keeps now none canceled c x (a, b, y, d, e) =
    rw (old_attempt d e) ((refl, b, refl), refl, refl)
finish_keeps now (some p) canceled c x (a, b, y, d, e) =
    rw (old_attempt d e) ((refl, b, refl), refl, refl)
finish_keeps now p (proven q at) c x (a, b, d, e) = absurd (some-none e)

pub end_keeps :
    (now : ℕ) (p : Option Bytes) (ph : Phase) (c : Credential) (w : Option Worker)
    → StandsFor ph c w
    → let (c', w') = end_worker now p c w in
      StandsFor (end_phase now p ph) c' w'
      × (c'.generation ≡ c.generation)
      × (c'.provider_events ≡ c.provider_events)
end_keeps now p ph c (some x) h = finish_keeps now p ph c x h
end_keeps now p idle c none h = (h, refl, refl)
end_keeps now p waiting c none (a, b, x, d, e) = absurd (none-some d)
end_keeps now p canceled c none (a, b, x, d, e) = absurd (none-some d)
end_keeps now p (proven q at) c none h = (h, refl, refl)

pub listen_keeps :
    (events : Option ℕ) (context : ℕ) (ph : Phase) (c : Credential) (w : Option Worker)
    → StandsFor ph c w
    → let c' = set_provider_events events context c in
      StandsFor ph c' w × (c'.provider_events ≡ events) × (c'.generation ≡ c.generation)
unfolding set_provider_events
listen_keeps events context idle c w h = (h, refl, refl)
listen_keeps events context waiting c w h = (h, refl, refl)
listen_keeps events context canceled c w h = (h, refl, refl)
listen_keeps events context (proven p at) c w h = (h, refl, refl)
