-- ===== src/Provider/Safety.antt =====
-- What the promise of src/provider.cpp's Credential means for the passwords that it hands out.
use sovereign_windows_auth.Base.{
  ◌≡◌, inl, inr, ℕ, ◌+◌, ◌^◌, ◌≤◌, ◌<◌, Bool, true, false, not, ◌&&◌, List, [], ◌∷◌, Option, none,
  some, ltb, leb, length, Bool-cases, arith,
}
use sovereign_windows_auth.Core.{Bytes}
use sovereign_windows_auth.Provider.Credential.{Credential, elapsed}
use sovereign_windows_auth.Provider.Protocol.{
  Phase, idle, waiting, canceled, proven, Event, began, ended, asked, taken, deselected, listened,
  Shown, nothing, is_ready, password, System, run, Promise, promised, promised_run, starts,
  begin_phase, end_phase, ask_phase, offered, take_phase, deselect_phase,
}
use sovereign_windows_auth.Provider.Refinement.{run-promised_run}

-- A credential without worker.
abbrev pub alone : Credential → System
alone c = record { credential = c; worker = none }

-- The passwords among what was shown, and the events that bring one.
abbrev pub passwords : List Shown → List Bytes
passwords [] = []
passwords (password (some b) ∷ rest) = b ∷ passwords rest
passwords (password none ∷ rest) = passwords rest
passwords (nothing ∷ rest) = passwords rest
passwords (is_ready b ∷ rest) = passwords rest

abbrev pub unlocks : Event → ℕ
unlocks (ended now (some b)) = 1
unlocks _ = 0

abbrev pub count_unlocks : List Event → ℕ
count_unlocks [] = 0
count_unlocks (e ∷ es) = unlocks e + count_unlocks es

abbrev pub is_begin : Event → Bool
is_begin (began platform) = true
is_begin _ = false

abbrev pub no_begin : List Event → Bool
no_begin [] = true
no_begin (e ∷ es) = not (is_begin e) && no_begin es

held : Phase → ℕ
held (proven b at) = 1
held _ = 0

abbrev given : Shown → ℕ
given (password (some b)) = 1
given _ = 0

length-passwords :
    (s : Shown) (rest : List Shown)
    → length (passwords (s ∷ rest)) ≡ given s + length (passwords rest)
length-passwords nothing rest = omega arith
length-passwords (is_ready b) rest = omega arith
length-passwords (password none) rest = omega arith
length-passwords (password (some b)) rest = omega arith

offer_bound :
    (now : ℕ) (ph : Phase) → held (take_phase ph) + given (password (offered now ph)) ≤ held ph
unfolding held
offer_bound now idle = omega arith
offer_bound now waiting = omega arith
offer_bound now canceled = omega arith
offer_bound now (proven b at) = elim (Bool-cases (leb (elapsed now at) 30000)) [
  | inl e ↦ rw e (omega arith)
  | inr e ↦ rw e (omega arith)
]

begin_bound : (s : Bool) (ph : Phase) → held (begin_phase s ph) ≤ held ph
unfolding held
begin_bound true idle = omega arith
begin_bound false idle = omega arith
begin_bound s waiting = omega arith
begin_bound s canceled = omega arith
begin_bound true (proven b at) = omega arith
begin_bound false (proven b at) = omega arith

end_bound :
    (now : ℕ) (q : Option Bytes) (ph : Phase)
    → held (end_phase now q ph) ≤ held ph + unlocks (ended now q)
unfolding held
end_bound now none idle = omega arith
end_bound now (some b) idle = omega arith
end_bound now none waiting = omega arith
end_bound now (some b) waiting = omega arith
end_bound now none canceled = omega arith
end_bound now (some b) canceled = omega arith
end_bound now q (proven b at) = omega arith

ask_bound : (now : ℕ) (ph : Phase) → held (ask_phase now ph) ≤ held ph
unfolding held
ask_bound now idle = omega arith
ask_bound now waiting = omega arith
ask_bound now canceled = omega arith
ask_bound now (proven b at) = elim (Bool-cases (ltb 30000 (elapsed now at))) [
  | inl e ↦ rw e (omega arith)
  | inr e ↦ rw e (omega arith)
]

deselect_bound : (ph : Phase) → held (deselect_phase ph) ≤ held ph
unfolding held
deselect_bound idle = omega arith
deselect_bound waiting = omega arith
deselect_bound canceled = omega arith
deselect_bound (proven b at) = omega arith

step_bound :
    (e : Event) (p : Promise)
    → held (promised e p).0.phase + given (promised e p).1 ≤ held p.phase + unlocks e
unfolding promised
step_bound (began platform) p = omega (arith, begin_bound (starts platform p.events) p.phase)
step_bound (ended now q) p = omega (arith, end_bound now q p.phase)
step_bound (asked now) p = omega (arith, ask_bound now p.phase)
step_bound (taken now) p = omega (arith, offer_bound now p.phase)
step_bound deselected p = omega (arith, deselect_bound p.phase)
step_bound (listened events context) p = omega arith

run_bound :
    (es : List Event) (p : Promise)
    → length (passwords (promised_run es p)) ≤ held p.phase + count_unlocks es
unfolding promised_run
run_bound [] p = omega arith
run_bound (e ∷ es) p = omega (
  arith,
  length-passwords (promised e p).1 (promised_run es (promised e p).0),
  run_bound es (promised e p).0,
  step_bound e p,
)

-- A proof is used at most once: however the operations follow one another, a new credential
-- hands out at most as many passwords as workers ended with one, while the generation does not
-- wrap around.
pub passwords-run :
    (es : List Event) (c : Credential)
    → c.working ≡ false
    → c.ready_password ≡ none
    → c.generation + length es < 2 ^ 64
    → length (passwords (run es (alone c))) ≤ count_unlocks es
unfolding held
passwords-run es c free cleared small =
    rw (run-promised_run es c free cleared small)
      (omega (arith, run_bound es (record { phase = idle; events = c.provider_events })))
