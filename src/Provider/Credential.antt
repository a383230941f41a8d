-- ===== src/Provider/Credential.antt =====
-- src/provider.cpp: the state of the class Credential and the operations that hold its mutex.
use sovereign_windows_auth.Base.{
  ℕ, ◌+◌, ◌-◌, ◌/◌, ◌%◌, ◌^◌, Bool, true, false, not, ◌&&◌, ◌||◌, Option, none, some, String, ◌==◌,
  ◌=/=◌, ltb, leb, if◌then◌else◌, length, Result, ok, err,
}
use sovereign_windows_auth.Core.{Bytes, AccountProfile}
use sovereign_windows_auth.Profile.Wide.{wide_of, c_str}
use sovereign_windows_auth.Filter.Types.{
  Scenario, HResult, s_ok, s_false, e_pointer, e_unexpected, e_outofmemory, other_result, is_some,
}

-- A pointer is none where it is null, and else a number. Of the PIN bridge the state keeps
-- whether there is one.
pub record Credential : Type 0 where
  pub references : ℕ
  pub profile : AccountProfile
  pub users : Option ℕ
  pub scenario : Scenario
  pub pin_bridge : Bool
  pub provider_events : Option ℕ
  pub event_context : ℕ
  pub ready_password : Option Bytes
  pub ready_at : ℕ
  pub generation : ℕ
  pub working : Bool
  pub status : String

-- What a worker thread carries.
pub record Worker : Type 0 where
  pub attempt : ℕ
  pub context : ℕ

-- What Windows answers while `begin` runs: the last error if the module cannot be pinned, the
-- result of the marshaling, and whether the thread starts.
pub record Platform : Type 0 where
  pub pin_error : Option ℕ
  pub marshal : HResult
  pub thread_starts : Bool

-- SUCCEEDED.
abbrev pub succeeded : HResult → Bool
succeeded s_ok = true
succeeded s_false = true
succeeded (other_result code) = ltb code (2 ^ 31)
succeeded _ = false

-- HRESULT_FROM_WIN32.
abbrev pub from_win32 : ℕ → HResult
from_win32 code =
    if code == 0
    then s_ok
    else other_result (if ltb code (2 ^ 31) then 0x80070000 + code % 65536 else code)

-- `++` on a uint64_t, and `++` and `--` on the count of references.
abbrev pub next : ℕ → ℕ
next generation = (generation + 1) % 2 ^ 64

abbrev pub add_ref : ℕ → ℕ
add_ref references = (references + 1) % 2 ^ 32

abbrev pub release : ℕ → ℕ
release references = (references + (2 ^ 32 - 1)) % 2 ^ 32

-- The part of `begin` that starts the thread.
unfoldable pub launch : Platform → Credential → HResult × Credential × Option Worker
launch platform c =
    let started : Credential = record c {
      references = add_ref c.references;
      generation = next c.generation;
      working = true;
      status = "Touch your key. This request expires after 15 seconds.";
    } in
    if platform.thread_starts
    then (
      s_ok,
      started,
      some (record { attempt = started.generation; context = started.event_context }),
    )
    else (
      e_outofmemory,
      record started {
        references = release started.references;
        working = false;
        status = "Could not start authentication.";
      },
      none,
    )

unfoldable pub begin : Platform → Credential → HResult × Credential × Option Worker
begin platform c =
    if c.working
    then (s_false, c, none)
    else (let c = record c { ready_password = none } in
        elim c.provider_events [
          | none ↦ (e_unexpected, c, none)
          | some events ↦ elim platform.pin_error [
            | some code ↦ (from_win32 code, c, none)
            | none ↦
                if succeeded platform.marshal
                then launch platform c
                else (platform.marshal, c, none)
          ]
        ])

-- The checks of a worker on the password that the key unlocked.
unfoldable pub is_password : Bytes → Bool
is_password bytes =
    let n = length bytes in
    not (ltb n 4 || ltb 8192 n || n % 2 =/= 0) && length (c_str (wide_of bytes)) == n / 2 - 1

-- The password of a worker, from whether it could initialize COM and get the events' interface,
-- and from what `unlockAccount` returns or throws.
unfoldable pub worker_password : Bool → Bool → Result Bytes → Option Bytes
unfolding is_password
worker_password initialized unmarshaled (err e) = none
worker_password initialized unmarshaled (ok bytes) =
    if initialized && unmarshaled && is_password bytes then some bytes else none

-- The end of a worker: its critical section, and the release of its reference.
unfoldable pub finish : ℕ → Worker → Option Bytes → Credential → Credential
finish now worker password c =
    let c = record c { references = release c.references; working = false } in
    if worker.attempt == c.generation
    then (elim password [
      | some bytes ↦ record c {
        ready_password = some bytes;
        ready_at = now;
        status = "Key verified. Signing in...";
      }
      | none ↦ record c { status = "The key could not authenticate. Select Sign in to retry." }
    ])
    else c

-- The difference of two readings of GetTickCount64.
abbrev pub elapsed : ℕ → ℕ → ℕ
elapsed now at = (now + (2 ^ 64 - at)) % 2 ^ 64

unfoldable pub ready : ℕ → Credential → Bool × Credential
ready now c =
    if is_some c.ready_password && ltb 30000 (elapsed now c.ready_at)
    then (false, record c { ready_password = none })
    else (is_some c.ready_password, c)

-- The first critical section of `GetSerialization`.
unfoldable pub take_password : ℕ → Credential → ℕ × Option Bytes × Credential
take_password now c = (
  c.generation,
  if leb (elapsed now c.ready_at) 30000 then c.ready_password else none,
  record c { ready_password = none },
)

unfoldable pub set_deselected : Credential → Credential
set_deselected c = record c {
  generation = next c.generation;
  ready_password = none;
  pin_bridge = false;
  status =
      if c.working
      then "Authentication canceled; waiting for the key request to finish."
      else "Select Sign in, then touch your key.";
}

unfoldable pub set_provider_events : Option ℕ → ℕ → Credential → Credential
set_provider_events events context c = record c {
  provider_events = events;
  event_context = context;
}

-- The output pointer of `SetSelected` is null or not; `automatic` is what is stored.
unfoldable pub set_selected : Bool → ℕ → Credential → HResult × Option Bool × Credential
set_selected false now c = (e_pointer, none, c)
set_selected true now c = let (automatic, c) = ready now c in (s_ok, some automatic, c)

-- `UnAdvise` keeps the proof.
unfoldable pub un_advise : Credential → HResult × Credential
un_advise c = (s_ok, c)
