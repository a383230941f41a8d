-- ===== src/Recovery/Offline/Removed.antt =====
-- What a recovery that returned has done: src/filter_recovery.cpp.
use sovereign_windows_auth.Base.{
  ℕ, ◌≡◌, refl, ap, ◌∙◌, Bool, true, false, ◌==◌, ◌++◌, Option, none, some, codes, String, Result,
  ok, err, need-eq-ok,
}
use sovereign_windows_auth.Core.{WideString}
use sovereign_windows_auth.Recovery.Registry.{
  Registry, IsLawful, is_missing, filter_registration, require_status,
}
use sovereign_windows_auth.Recovery.Registry.Removal.{removed-cases}
use sovereign_windows_auth.Recovery.Copy.{Copies, unique_name}
use sovereign_windows_auth.Recovery.Offline.{
  config_in, repair_checked, repair, check_target, reported, repair_loaded, repair_copied,
  repair_named, after_inspection, recover_at, recover,
}
use sovereign_windows_auth.Recovery.Inspect.{
  Environment, Machine, Report, inspect, unloaded, still_loaded, inspect_loaded, inspect_copied,
  inspect_in, inspect_copy,
}
use sovereign_windows_auth.Recovery.Offline.Changes.{inspect_copy-software}

unloaded-eq-ok :
    {A : Type 0} (code : ℕ) (message : String) (r : Result A) {a : A}
    → unloaded code message r ≡ ok a
    → (r ≡ ok a) × (code == 0 ≡ true)
unfolding unloaded require_status
unloaded-eq-ok code message (err m) h = cc
unloaded-eq-ok code message (ok a) h =
    let (success, h) = need-eq-ok (code == 0) _ _ h in (h, success)

still_loaded_lem : (code loaded : ℕ) → code == 0 ≡ true → still_loaded code loaded ≡ loaded
unfolding still_loaded
still_loaded_lem code loaded h = rw h refl

module _ (registry : Registry) (env : Environment) (key_file : Option WideString) where
  inspect_loaded-loaded :
      (inspecting : Bool) (before : Copies) (machine : Machine registry) (r : Result (Unit {0}))
      {report : Report}
      → (inspect_loaded registry env key_file inspecting before machine r).1 ≡ ok report
      → (inspect_loaded registry env key_file inspecting before machine r).0.loaded ≡ machine.loaded
  unfolding inspect_loaded
  inspect_loaded-loaded inspecting before machine (err m) h = cc
  inspect_loaded-loaded inspecting before machine (ok _) h =
      let (_, success) =
        unloaded-eq-ok env.inspected.unload "Unload temporary inspection hive"
          (inspect registry env machine.software key_file inspecting) h in
      still_loaded_lem env.inspected.unload machine.loaded success

  inspect_copied-loaded :
      (inspecting : Bool) (machine : Machine registry) (copy : Copies × Result WideString)
      {report : Report}
      → (inspect_copied registry env key_file inspecting machine copy).1 ≡ ok report
      → (inspect_copied registry env key_file inspecting machine copy).0.loaded ≡ machine.loaded
  unfolding inspect_copied
  inspect_copied-loaded inspecting machine (copies, copy) h =
      inspect_loaded-loaded inspecting machine.copies (record machine { copies = copies }) _ h

  inspect_in-loaded :
      (hive : WideString) (inspecting : Bool) (machine : Machine registry) (o : Option WideString)
      {report : Report}
      → (inspect_in registry env hive key_file inspecting machine o).1 ≡ ok report
      → (inspect_in registry env hive key_file inspecting machine o).0.loaded ≡ machine.loaded
  unfolding inspect_in
  inspect_in-loaded hive inspecting machine none h = cc
  inspect_in-loaded hive inspecting machine (some temporary) h =
      inspect_copied-loaded inspecting machine _ h

  inspect_copy-loaded :
      (hive : WideString) (inspecting : Bool) (machine : Machine registry) {report : Report}
      → (inspect_copy registry env hive key_file inspecting machine).1 ≡ ok report
      → (inspect_copy registry env hive key_file inspecting machine).0.loaded ≡ machine.loaded
  unfolding inspect_copy
  inspect_copy-loaded hive inspecting machine h =
      inspect_in-loaded hive inspecting machine env.temporary h

  -- A removal that was reported: the registration is gone, and the hive is unloaded.
  abbrev IsRemoved : Machine registry → ℕ → Type 0
  IsRemoved after loaded =
      (is_missing (registry.open_key after.software filter_registration) ≡ true)
      × (after.loaded ≡ loaded)

  repair_checked-removes :
      (software : registry.Hive) (r : Result (Unit {0})) (b : Bool)
      → IsLawful registry
      → (repair_checked registry software r).1 ≡ ok b
      → is_missing (registry.open_key (repair_checked registry software r).0 filter_registration)
        ≡ true
  unfolding repair_checked
  repair_checked-removes software (err m) b lawful h = cc
  repair_checked-removes software (ok _) b lawful h = removed-cases registry lawful software b h

  reported-ok :
      (r : Result Bool) {report : Report} → reported r ≡ ok report → (b : Bool) × (r ≡ ok b)
  unfolding reported
  reported-ok (err m) h = cc
  reported-ok (ok b) h = (b, refl)

  repair_loaded-removes :
      (machine : Machine registry) (r : Result (Unit {0})) {report : Report}
      → IsLawful registry
      → (repair_loaded registry env key_file machine r).1 ≡ ok report
      → IsRemoved (repair_loaded registry env key_file machine r).0 machine.loaded
  unfolding repair_loaded repair
  repair_loaded-removes machine (err m) lawful h = cc
  repair_loaded-removes machine (ok _) lawful h =
      let (done, success) =
        unloaded-eq-ok env.repaired.unload "Unload offline SOFTWARE hive"
          (reported (repair registry env machine.software key_file).1) h in
      let (b, removed) = reported-ok (repair registry env machine.software key_file).1 done in
      (
        repair_checked-removes machine.software _ b lawful removed,
        still_loaded_lem env.repaired.unload machine.loaded success,
      )

  repair_copied-removes :
      (machine : Machine registry) (copy : Copies × Result WideString) {report : Report}
      → IsLawful registry
      → (repair_copied registry env key_file machine copy).1 ≡ ok report
      → IsRemoved (repair_copied registry env key_file machine copy).0 machine.loaded
  unfolding repair_copied
  repair_copied-removes machine (copies, backup) lawful h =
      repair_loaded-removes (record machine { copies = copies }) _ lawful h

  repair_named-removes :
      (config : WideString) (machine : Machine registry) (r : Result WideString) {report : Report}
      → IsLawful registry
      → (repair_named registry env config key_file machine r).1 ≡ ok report
      → IsRemoved (repair_named registry env config key_file machine r).0 machine.loaded
  unfolding repair_named
  repair_named-removes config machine (err m) lawful h = cc
  repair_named-removes config machine (ok name) lawful h = repair_copied-removes machine _ lawful h

  after_inspection-removes :
      (config : WideString) (r : Machine registry × Result Report) (loaded : ℕ) {report : Report}
      → IsLawful registry
      → ((first : Report) → r.1 ≡ ok first → r.0.loaded ≡ loaded)
      → (after_inspection registry env config key_file false r).1 ≡ ok report
      → IsRemoved (after_inspection registry env config key_file false r).0 loaded
  unfolding after_inspection
  after_inspection-removes config (machine, err m) loaded lawful same h = cc
  after_inspection-removes config (machine, ok first) loaded lawful same h =
      let (gone, after) =
        repair_named-removes config machine (unique_name env.repaired.guid) lawful h in
      (gone, after ∙ same first refl)

  recover_at-removes :
      (machine : Machine registry) (r : Result WideString) {report : Report}
      → IsLawful registry
      → (recover_at registry env key_file false machine r).1 ≡ ok report
      → IsRemoved (recover_at registry env key_file false machine r).0 machine.loaded
  unfolding recover_at
  recover_at-removes machine (err m) lawful h = cc
  recover_at-removes machine (ok root) lawful h =
      after_inspection-removes (config_in root) _ machine.loaded lawful
        (λ first e. inspect_copy-loaded (config_in root ++ codes "\\SOFTWARE") false machine e) h

  after_inspection_keeps :
      (config : WideString) (r : Machine registry × Result Report)
      → (after_inspection registry env config key_file true r).0 ≡ r.0
  unfolding after_inspection
  after_inspection_keeps config (machine, err m) = refl
  after_inspection_keeps config (machine, ok first) = refl

  recover_at_inspects :
      (machine : Machine registry) (r : Result WideString)
      → (recover_at registry env key_file true machine r).0.software ≡ machine.software
  unfolding recover_at
  recover_at_inspects machine (err m) = refl
  recover_at_inspects machine (ok root) =
      let hive = config_in root ++ codes "\\SOFTWARE" in
      ap (λ (m : Machine registry). m.software)
        (after_inspection_keeps (config_in root)
          (inspect_copy registry env hive key_file true machine))
      ∙ inspect_copy-software registry env key_file hive true machine

-- A recovery that returned has removed the filter: after a `recover` that does not only inspect and
-- that returned, the registration is missing in the offline SOFTWARE hive, and no hive stays loaded
-- that was not loaded before.
pub recover-removes :
    (registry : Registry) (env : Environment) (argument : WideString) (key_file : Option WideString)
    (machine : Machine registry) (report : Report)
    → IsLawful registry
    → (recover registry env argument key_file false machine).1 ≡ ok report
    → (is_missing (
          registry.open_key
            (recover registry env argument key_file false machine).0.software
            filter_registration)
        ≡ true)
      × ((recover registry env argument key_file false machine).0.loaded ≡ machine.loaded)
unfolding recover
recover-removes registry env argument key_file machine report lawful h =
    recover_at-removes registry env key_file machine (check_target env argument) lawful h

-- An inspection changes nothing of the installation: with `--inspect-usb`, whatever `recover`
-- returns and whatever Windows answers, the offline SOFTWARE hive is as before.
pub recover_inspects :
    (registry : Registry) (env : Environment) (argument : WideString) (key_file : Option WideString)
    (machine : Machine registry)
    → (recover registry env argument key_file true machine).0.software ≡ machine.software
unfolding recover
recover_inspects registry env argument key_file machine =
    recover_at_inspects registry env key_file machine (check_target env argument)
