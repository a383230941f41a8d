-- ===== src/Tests/Proofs.antt =====
-- A credential that is asked, answered by a touch and deselected, for src/provider.cpp.
use sovereign_windows_auth.Base.{
  ◌≡◌, refl, ℕ, ◌≤◌, true, false, List, [], ◌∷◌, ◌++◌, none, some, ok, length, drop, arith,
}
use sovereign_windows_auth.Core.{Bytes}
use sovereign_windows_auth.Filter.Types.{cpus_logon, s_ok}
use sovereign_windows_auth.Provider.Credential.{
  Credential, Platform, elapsed, begin, launch, finish, take_password, is_password, worker_password,
}
use sovereign_windows_auth.Provider.Serialize.{
  Auth, Packing, authenticate, get_serialization, answer, deliver, complete,
}
use sovereign_windows_auth.Provider.Protocol.{
  idle, Event, began, ended, asked, taken, deselected, password, run, promised_run, step,
}
use sovereign_windows_auth.Provider.Refinement.{run-promised_run}
use sovereign_windows_auth.Provider.Safety.{alone, passwords, count_unlocks, passwords-run}
use sovereign_windows_auth.Provider.Cancel.{IsAmong, deselected_hands_out_nothing, taken-is_fresh}
use sovereign_windows_auth.Provider.Produced.{
  finished, meanwhile, get_serialization-is_proven, get_serialization_delivers,
}
use sovereign_windows_auth.Provider.Discarded.{touch_asked, get_serialization-discards}
use sovereign_windows_auth.Tests.Codecs.{sample}

abbrev pub platform : Platform
platform = record { pin_error = none; marshal = s_ok; thread_starts = true }

-- "42" and its terminator.
abbrev pin : Bytes
pin = 52 ∷ 0 ∷ 50 ∷ 0 ∷ 0 ∷ 0 ∷ []

abbrev pub credential : Credential
credential = record {
  references = 1;
  profile = sample;
  users = some 1;
  scenario = cpus_logon;
  pin_bridge = false;
  provider_events = some 2;
  event_context = 3;
  ready_password = none;
  ready_at = 0;
  generation = 0;
  working = false;
  status = "Select Sign in, then touch your key.";
}

abbrev pub proved : Credential
proved = record credential { ready_password = some pin; ready_at = 100; generation = 1 }

abbrev auth : Auth
auth = record { auth_package = 5; buffer = 1 ∷ 2 ∷ 3 ∷ [] }

abbrev pub packing : Packing
packing = record {
  pin_serialize = λ users sid scenario text. ok auth;
  pack_credential = λ account text. ok auth;
}

pin-is_password : worker_password true true (ok pin) ≡ some pin
unfolding worker_password is_password
pin-is_password = refl

abbrev touched : List Event
touched = began platform ∷ ended 100 (some pin) ∷ []

shown : drop 2 (run (touched ++ (taken 200 ∷ [])) (alone credential)) ≡ password (some pin) ∷ []
unfolding run step begin launch finish take_password
shown = refl

packed : authenticate packing (meanwhile (λ c. c) proved) pin ≡ ok auth
unfolding authenticate
packed = refl

replied :
    (get_serialization true 200 platform packing (λ c. c) true proved).1 ≡ some (finished auth)
unfolding get_serialization take_password answer deliver complete authenticate
replied = refl

run-promised_run_example :
    run (touched ++ (deselected ∷ asked 300 ∷ [])) (alone credential)
    ≡ promised_run
        (touched ++ (deselected ∷ asked 300 ∷ []))
        (record { phase = idle; events = some 2 })
run-promised_run_example =
    run-promised_run (touched ++ (deselected ∷ asked 300 ∷ [])) credential refl refl (omega arith)

passwords-run_example :
    length (passwords (run (touched ++ (taken 200 ∷ taken 300 ∷ [])) (alone credential)))
    ≤ count_unlocks (touched ++ (taken 200 ∷ taken 300 ∷ []))
passwords-run_example =
    passwords-run (touched ++ (taken 200 ∷ taken 300 ∷ [])) credential refl refl (omega arith)

deselected_hands_out_nothing_example :
    passwords (
      drop 1 (
        run
          (began platform ∷ deselected ∷ ended 100 (some pin) ∷ taken 200 ∷ [])
          (alone credential)))
    ≡ []
deselected_hands_out_nothing_example =
    deselected_hands_out_nothing (began platform ∷ []) (ended 100 (some pin) ∷ taken 200 ∷ [])
      credential refl refl (omega arith) refl

taken-is_fresh_example : (at : ℕ) × IsAmong (ended at (some pin)) touched × (elapsed 200 at ≤ 30000)
taken-is_fresh_example = taken-is_fresh touched 200 pin credential refl refl (omega arith) shown

get_serialization-is_proven_example :
    (b : Bytes) × (a : Auth) × (proved.ready_password ≡ some b)
    × (elapsed 200 proved.ready_at ≤ 30000)
    × ((meanwhile (λ c. c) proved).generation ≡ proved.generation)
    × (authenticate packing (meanwhile (λ c. c) proved) b ≡ ok a)
    × (finished auth ≡ finished a)
get_serialization-is_proven_example =
    get_serialization-is_proven 200 platform packing (λ c. c) true proved (finished auth) replied
      refl

get_serialization_delivers_example :
    (c' : Credential) × (get_serialization true 200 platform packing (λ c. c) true proved
      ≡ (s_ok, some (finished auth), c', none))
get_serialization_delivers_example =
    get_serialization_delivers 200 platform packing (λ c. c) proved pin auth refl (omega arith) refl
      packed

-- The first worker is canceled, and the tile is submitted again before it ends.
abbrev canceled : Credential
canceled = record credential { working = true; generation = 2 }

get_serialization-discards_example :
    (c' : Credential) × (get_serialization true 200 platform packing (λ d. d) true canceled
      ≡ (s_ok, some touch_asked, c', none))
    × ((finish 300 (record { attempt = 1; context = 3 }) (some pin) c').ready_password ≡ none)
get_serialization-discards_example =
    get_serialization-discards 200 300 platform packing true canceled
      (record { attempt = 1; context = 3 }) (some pin) refl refl (λ h. absurd (omega arith))
