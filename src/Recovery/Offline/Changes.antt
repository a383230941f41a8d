-- ===== src/Recovery/Offline/Changes.antt =====
-- What a recovery changes of the installation, and when: src/filter_recovery.cpp.
use sovereign_windows_auth.Base.{
  ◌≡◌, ◌≢◌, refl, subst, Bool, true, false, ◌++◌, Option, none, some, codes, Result, ok, err,
  >>=-eq-ok,
}
use sovereign_windows_auth.Core.{WideString}
use sovereign_windows_auth.Recovery.Registry.{
  Registry, IsLawful, filter_registration, require_status, remove_registration,
}
use sovereign_windows_auth.Recovery.Registry.Removal.{remove_registration_scope}
use sovereign_windows_auth.Recovery.Copy.{Copies, unique_name}
use sovereign_windows_auth.Recovery.Offline.{
  config_in, repair_checked, repair, check_target, repair_loaded, loads_target, repair_copied,
  repair_named, after_inspection, recover_at, recover,
}
use sovereign_windows_auth.Recovery.Inspect.{
  Environment, Machine, Report, authorize_recovery, has_structure, inspect_loaded, inspect_copied,
  inspect_in, inspect_copy,
}

-- The hive that an installation can be left with: its own, or, where the key file authorized it,
-- the one without the registration.
pub data Change (registry : Registry) (env : Environment) (key_file : Option WideString)
    (before : registry.Hive) : registry.Hive → Type 0 where
  untouched : Change registry env key_file before before
  registration_removed :
      has_structure registry before ≡ ok tt
      → authorize_recovery registry env.drive env.disk before key_file false ≡ ok tt
      → Change registry env key_file before (remove_registration registry before).0

module _ (registry : Registry) (env : Environment) (key_file : Option WideString) where
  repair_checked-Change :
      (software : registry.Hive) (r : Result (Unit {0}))
      → (r ≡ ok tt
          → Change registry env key_file software (remove_registration registry software).0)
      → Change registry env key_file software (repair_checked registry software r).0
  unfolding repair_checked
  repair_checked-Change software (err m) removes = untouched
  repair_checked-Change software (ok _) removes = removes refl

  repair-Change :
      (software : registry.Hive)
      → Change registry env key_file software (repair registry env software key_file).0
  unfolding repair
  repair-Change software = repair_checked-Change software _ λ h.
      let (u, opened, h) =
        >>=-eq-ok (require_status env.repaired.root "Open offline SOFTWARE hive") _ h in
      let (v, structured, h) = >>=-eq-ok (has_structure registry software) _ h in
      registration_removed structured h

  repair_loaded-Change :
      (machine : Machine registry) (r : Result (Unit {0}))
      → Change registry env key_file machine.software
          (repair_loaded registry env key_file machine r).0.software
  unfolding repair_loaded
  repair_loaded-Change machine (err m) = untouched
  repair_loaded-Change machine (ok _) = repair-Change machine.software

  repair_copied-Change :
      (machine : Machine registry) (copy : Copies × Result WideString)
      → Change registry env key_file machine.software
          (repair_copied registry env key_file machine copy).0.software
  unfolding repair_copied
  repair_copied-Change machine (copies, backup) =
      repair_loaded-Change (record machine { copies = copies }) (loads_target env.repaired backup)

  repair_named-Change :
      (config : WideString) (machine : Machine registry) (r : Result WideString)
      → Change registry env key_file machine.software
          (repair_named registry env config key_file machine r).0.software
  unfolding repair_named
  repair_named-Change config machine (err m) = untouched
  repair_named-Change config machine (ok name) = repair_copied-Change machine _

  inspect_loaded-software :
      (inspecting : Bool) (before : Copies) (machine : Machine registry) (r : Result (Unit {0}))
      → (inspect_loaded registry env key_file inspecting before machine r).0.software
        ≡ machine.software
  unfolding inspect_loaded
  inspect_loaded-software inspecting before machine (err m) = refl
  inspect_loaded-software inspecting before machine (ok _) = refl

  inspect_copied-software :
      (inspecting : Bool) (machine : Machine registry) (copy : Copies × Result WideString)
      → (inspect_copied registry env key_file inspecting machine copy).0.software ≡ machine.software
  unfolding inspect_copied
  inspect_copied-software inspecting machine (copies, copy) =
      inspect_loaded-software inspecting machine.copies (record machine { copies = copies }) _

  inspect_in-software :
      (hive : WideString) (inspecting : Bool) (machine : Machine registry) (o : Option WideString)
      → (inspect_in registry env hive key_file inspecting machine o).0.software ≡ machine.software
  unfolding inspect_in
  inspect_in-software hive inspecting machine none = refl
  inspect_in-software hive inspecting machine (some temporary) =
      inspect_copied-software inspecting machine _

  -- The inspection works on a copy.
  pub inspect_copy-software :
      (hive : WideString) (inspecting : Bool) (machine : Machine registry)
      → (inspect_copy registry env hive key_file inspecting machine).0.software ≡ machine.software
  unfolding inspect_copy
  inspect_copy-software hive inspecting machine =
      inspect_in-software hive inspecting machine env.temporary

  after_inspection-Change :
      (config : WideString) (inspecting : Bool) (r : Machine registry × Result Report)
      → Change registry env key_file r.0.software
          (after_inspection registry env config key_file inspecting r).0.software
  unfolding after_inspection
  after_inspection-Change config inspecting (machine, err m) = untouched
  after_inspection-Change config true (machine, ok report) = untouched
  after_inspection-Change config false (machine, ok report) =
      repair_named-Change config machine (unique_name env.repaired.guid)

  recover_at-Change :
      (inspecting : Bool) (machine : Machine registry) (r : Result WideString)
      → Change registry env key_file machine.software
          (recover_at registry env key_file inspecting machine r).0.software
  unfolding recover_at
  recover_at-Change inspecting machine (err m) = untouched
  recover_at-Change inspecting machine (ok root) =
      let hive = config_in root ++ codes "\\SOFTWARE" in
      subst
        (λ (s : registry.Hive).
          Change registry env key_file s
            (after_inspection registry env (config_in root) key_file inspecting
              (inspect_copy registry env hive key_file inspecting machine)).0.software)
        (inspect_copy-software hive inspecting machine)
        (after_inspection-Change (config_in root) inspecting
          (inspect_copy registry env hive key_file inspecting machine))

-- A recovery does one thing to an installation: whatever `recover` returns, and whatever Windows
-- answers, the offline SOFTWARE hive is as before, or it is the hive that the removal of the filter's
-- registration left, and then it had the structure of such a hive and the key file authorized it: an
-- installation with a pairing took its own recovery USB, one without took no key file.
pub recover-Change :
    (registry : Registry) (env : Environment) (argument : WideString) (key_file : Option WideString)
    (inspecting : Bool) (machine : Machine registry)
    → Change registry env key_file machine.software
        (recover registry env argument key_file inspecting machine).0.software
unfolding recover
recover-Change registry env argument key_file inspecting machine =
    recover_at-Change registry env key_file inspecting machine (check_target env argument)

Change-scope :
    (registry : Registry) (env : Environment) (key_file : Option WideString)
    {before after : registry.Hive}
    → IsLawful registry
    → Change registry env key_file before after
    → (other name : WideString) → registry.key_of other ≢ registry.key_of filter_registration
    → (registry.open_key after other ≡ registry.open_key before other)
      × (registry.get_binary after other name ≡ registry.get_binary before other name)
Change-scope registry env key_file lawful untouched other name apart = (refl, refl)
Change-scope registry env key_file lawful (registration_removed _ _) other name apart =
    remove_registration_scope registry lawful _ other name apart

-- A recovery preserves everything else: whatever `recover` returns, every path that does not lead to
-- the filter's registration in any spelling, such as the provider's or the PIN's, leads to a key of the
-- offline SOFTWARE hive, or to none, as before, with the same values.
pub recover_scope :
    (registry : Registry) (env : Environment) (argument : WideString) (key_file : Option WideString)
    (inspecting : Bool) (machine : Machine registry) (other name : WideString)
    → IsLawful registry
    → registry.key_of other ≢ registry.key_of filter_registration
    → (registry.open_key
          (recover registry env argument key_file inspecting machine).0.software
          other
        ≡ registry.open_key machine.software other)
      × (registry.get_binary
            (recover registry env argument key_file inspecting machine).0.software
            other
            name
          ≡ registry.get_binary machine.software other name)
recover_scope registry env argument key_file inspecting machine other name lawful apart =
    Change-scope registry env key_file lawful
      (recover-Change registry env argument key_file inspecting machine) other name apart
