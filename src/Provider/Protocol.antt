-- ===== src/Provider/Protocol.antt =====
-- What the class Credential of src/provider.cpp promises about the password that a key unlocked:
-- an abstract machine of four phases, and the runs of both.
use sovereign_windows_auth.Base.{
  ℕ, Bool, not, ◌&&◌, List, [], ◌∷◌, Option, none, some, ltb, leb, if◌then◌else◌,
}
use sovereign_windows_auth.Core.{Bytes}
use sovereign_windows_auth.Filter.Types.{is_some}
use sovereign_windows_auth.Provider.Credential.{
  Credential, Worker, Platform, begin, finish, ready, take_password, set_deselected,
  set_provider_events, succeeded, elapsed,
}

-- Nothing under way; a worker whose password will count; a worker whose password will not; a
-- password, with the time when it was unlocked.
pub data Phase : Type 0 where
  idle waiting canceled : Phase
  proven : Bytes → ℕ → Phase

-- The operations that can follow one another, each with what it is told: `ended` is the end of
-- the worker, if there is one.
pub data Event : Type 0 where
  began : Platform → Event
  ended : ℕ → Option Bytes → Event
  asked : ℕ → Event
  taken : ℕ → Event
  deselected : Event
  listened : Option ℕ → ℕ → Event

-- What an operation shows: whether a password is ready, or the password taken.
pub data Shown : Type 0 where
  nothing : Shown
  is_ready : Bool → Shown
  password : Option Bytes → Shown

pub record System : Type 0 where
  pub credential : Credential
  pub worker : Option Worker

-- The worker that an operation started, or the old one.
abbrev pub latest : Option Worker → Option Worker → Option Worker
latest (some w) old = some w
latest none old = old

abbrev pub end_worker : ℕ → Option Bytes → Credential → Option Worker → Credential × Option Worker
end_worker now p c none = (c, none)
end_worker now p c (some w) = (finish now w p c, none)

unfoldable pub step : Event → System → System × Shown
step (began platform) s =
    let (result, c, w) = begin platform s.credential in
    (record { credential = c; worker = latest w s.worker }, nothing)
step (ended now p) s =
    let (c, w) = end_worker now p s.credential s.worker in
    (record { credential = c; worker = w }, nothing)
step (asked now) s =
    let (b, c) = ready now s.credential in (record s { credential = c }, is_ready b)
step (taken now) s =
    let (attempt, p, c) = take_password now s.credential in
    (record s { credential = c }, password p)
step deselected s = (record s { credential = set_deselected s.credential }, nothing)
step (listened events context) s =
    (record s { credential = set_provider_events events context s.credential }, nothing)

unfoldable pub run : List Event → System → List Shown
run [] s = []
run (e ∷ es) s = let (s, shown) = step e s in shown ∷ run es s

-- Whether `begin` starts a worker.
abbrev pub starts : Platform → Option ℕ → Bool
starts platform events =
    is_some events
    && not (is_some platform.pin_error)
    && succeeded platform.marshal
    && platform.thread_starts

pub record Promise : Type 0 where
  pub phase : Phase
  pub events : Option ℕ

abbrev pub begin_phase : Bool → Phase → Phase
begin_phase s waiting = waiting
begin_phase s canceled = canceled
begin_phase s _ = if s then waiting else idle

abbrev pub end_phase : ℕ → Option Bytes → Phase → Phase
end_phase now p waiting = elim p [ none ↦ idle | some bytes ↦ proven bytes now ]
end_phase now p canceled = idle
end_phase now p idle = idle
end_phase now p (proven q at) = proven q at

abbrev pub ask_phase : ℕ → Phase → Phase
ask_phase now (proven p at) = if ltb 30000 (elapsed now at) then idle else proven p at
ask_phase now phase = phase

abbrev pub offered : ℕ → Phase → Option Bytes
offered now (proven p at) = if leb (elapsed now at) 30000 then some p else none
offered now phase = none

abbrev pub take_phase : Phase → Phase
take_phase (proven p at) = idle
take_phase phase = phase

abbrev pub deselect_phase : Phase → Phase
deselect_phase waiting = canceled
deselect_phase canceled = canceled
deselect_phase phase = idle

unfoldable pub promised : Event → Promise → Promise × Shown
promised (began platform) s =
    (record s { phase = begin_phase (starts platform s.events) s.phase }, nothing)
promised (ended now p) s = (record s { phase = end_phase now p s.phase }, nothing)
promised (asked now) s =
    (record s { phase = ask_phase now s.phase }, is_ready (is_some (offered now s.phase)))
promised (taken now) s = (record s { phase = take_phase s.phase }, password (offered now s.phase))
promised deselected s = (record s { phase = deselect_phase s.phase }, nothing)
promised (listened events context) s = (record s { events = events }, nothing)

unfoldable pub promised_run : List Event → Promise → List Shown
promised_run [] s = []
promised_run (e ∷ es) s = let (s, shown) = promised e s in shown ∷ promised_run es s
