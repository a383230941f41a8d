-- ===== src/Provider/Refinement.antt =====
-- The class Credential of src/provider.cpp keeps the promise of Provider/Protocol.
use sovereign_windows_auth.Base.{
  ◌≡◌, refl, ap, ◌∙◌, sym, ◌+◌, ◌^◌, ◌≤◌, ◌<◌, false, List, [], ◌∷◌, none, length, arith,
}
use sovereign_windows_auth.Provider.Credential.{Credential}
use sovereign_windows_auth.Provider.Protocol.{
  idle, Event, began, ended, asked, taken, deselected, listened, is_ready, password, System, step,
  run, Promise, promised, promised_run,
}
use sovereign_windows_auth.Provider.Operations.{
  StandsFor, begin_keeps, set_deselected_keeps, take_keeps, ready_keeps, end_keeps, listen_keeps,
}

pub record Keeps (p : Promise) (s : System) : Type 0 where
  pub phase_kept : StandsFor p.phase s.credential s.worker
  pub events_kept : p.events ≡ s.credential.provider_events

-- One operation: the state keeps standing for the promise, and shows what the promise shows.
pub step-Keeps :
    (e : Event) (p : Promise) (s : System)
    → Keeps p s
    → s.credential.generation + 1 < 2 ^ 64
    → Keeps (promised e p).0 (step e s).0
      × ((promised e p).1 ≡ (step e s).1)
      × ((step e s).0.credential.generation ≤ s.credential.generation + 1)
unfolding step promised
step-Keeps (began platform) p s k small =
    let (a, b, d) = begin_keeps platform p.phase s.credential s.worker k.phase_kept small in
    (record { phase_kept = rw k.events_kept a; events_kept = k.events_kept ∙ sym b }, refl, d)
step-Keeps (ended now q) p s k small =
    let (a, b, d) = end_keeps now q p.phase s.credential s.worker k.phase_kept in
    (record { phase_kept = a; events_kept = k.events_kept ∙ sym d }, refl, omega arith)
step-Keeps (asked now) p s k small =
    let (a, b, d, f) = ready_keeps now p.phase s.credential s.worker k.phase_kept in
    (
      record { phase_kept = a; events_kept = k.events_kept ∙ sym f },
      ap is_ready (sym b),
      omega arith,
    )
step-Keeps (taken now) p s k small =
    let (a, b, d, f) = take_keeps now p.phase s.credential s.worker k.phase_kept in
    (
      record { phase_kept = a; events_kept = k.events_kept ∙ sym f },
      ap password (sym b),
      omega arith,
    )
step-Keeps deselected p s k small =
    let (a, d, f) = set_deselected_keeps p.phase s.credential s.worker k.phase_kept small in
    (record { phase_kept = a; events_kept = k.events_kept ∙ sym f }, refl, d)
step-Keeps (listened events context) p s k small =
    let (a, b, d) = listen_keeps events context p.phase s.credential s.worker k.phase_kept in
    (record { phase_kept = a; events_kept = sym b }, refl, omega arith)

run-Keeps :
    (es : List Event) (p : Promise) (s : System)
    → Keeps p s
    → s.credential.generation + length es < 2 ^ 64
    → run es s ≡ promised_run es p
unfolding run promised_run
run-Keeps [] p s k small = refl
run-Keeps (e ∷ es) p s k small =
    let (kept, same, low) = step-Keeps e p s k (omega arith) in
    let rest = run-Keeps es (promised e p).0 (step e s).0 kept (omega arith) in cc

-- The credential implements its promise: a new credential and the abstract machine from `idle`
-- show the same readiness and hand out the same passwords, whatever operations follow one
-- another, while the generation does not wrap around.
pub run-promised_run :
    (es : List Event) (c : Credential)
    → c.working ≡ false
    → c.ready_password ≡ none
    → c.generation + length es < 2 ^ 64
    → run es (record { credential = c; worker = none })
      ≡ promised_run es (record { phase = idle; events = c.provider_events })
run-promised_run es c free cleared small =
    run-Keeps es (record { phase = idle; events = c.provider_events })
      (record { credential = c; worker = none })
      (record { phase_kept = (free, cleared, refl); events_kept = refl }) small
