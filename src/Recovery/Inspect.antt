-- ===== src/Recovery/Inspect.antt =====
-- src/filter_recovery.cpp: `authorizeRecovery` and `inspectCopy`, and what a run meets and changes.
use sovereign_windows_auth.Base.{
  ℕ, Bool, true, false, not, ◌+◌, Option, none, some, ◌==◌, if◌then◌else◌, codes, String, Result,
  ok, err, ◌>>=◌, ◌>>◌, need,
}
use sovereign_windows_auth.Core.{WideString}
use sovereign_windows_auth.Profile.Files.{Disk}
use sovereign_windows_auth.Recovery.Registry.{
  Registry, filter_registration, require_status, key_exists,
}
use sovereign_windows_auth.Recovery.Usb.{Drive, paired, authorize}
use sovereign_windows_auth.Recovery.Copy.{Copying, Guid, Copies, Token, unique_name, protected_copy}

-- What Windows answers while one hive is loaded: the copy before it, the name of the place, whether
-- that place is taken (the code of its key), the codes of the loading, of the opening of its root and
-- of the unloading, and whether the copy is deleted at the end.
pub record Mounting : Type 0 where
  pub copying : Copying
  pub guid : Guid
  pub place : ℕ
  pub load : ℕ
  pub root : ℕ
  pub unload : ℕ
  pub removes_copy : Bool

-- What a run meets: the code of the key MiniNT, the two privileges, the directory of temporary
-- files, the paths, the drive of the credential, and the two hives that are loaded, first that of a
-- copy.
pub record Environment : Type 0 where
  pub mini_nt : ℕ
  pub backup : Token
  pub restore : Token
  pub temporary : Option WideString
  pub drive : Drive
  pub disk : Disk
  pub inspected : Mounting
  pub repaired : Mounting

-- What a run changes: the SOFTWARE hive of the offline Windows, the directories of the copies,
-- and the number of hives that are loaded.
pub record Machine (registry : Registry) : Type 0 where
  pub software : registry.Hive
  pub copies : Copies
  pub loaded : ℕ

abbrev pub version_path : WideString
version_path = codes "Microsoft\\Windows NT\\CurrentVersion"

abbrev pub classes_path : WideString
classes_path = codes "Classes\\CLSID"

-- What is reported: that the key was verified and whether the restriction is installed (nothing
-- where a removal only inspects first), and whether the registration was removed.
pub data Report : Type 0 where
  verified : Bool → Report
  quiet : Report
  removal : Bool → Report

-- An installation without a pairing takes no key file, and is not inspected.
unfoldable pub without_pairing : Option WideString → Bool → Result (Unit {0})
without_pairing none inspecting =
    need (not inspecting) "This Windows installation has no paired recovery USB."
without_pairing (some path) inspecting = err "This Windows installation has no paired recovery USB."

abbrev pub no_structure : String
no_structure = "The target does not have the expected Windows SOFTWARE structure"

unfoldable pub inspection_report : Bool → Result Bool → Result Report
inspection_report false restricted = ok quiet
inspection_report true (err message) = err message
inspection_report true (ok there) = ok (verified there)

-- The unloading after the work on a hive: a failure of the work goes first, and what cannot be
-- unloaded stays loaded.
unfoldable pub unloaded {ℓ} : {A : Type ℓ} → ℕ → String → Result A → Result A
unfolding require_status
unloaded code message (err failed) = err failed
unloaded code message (ok a) = require_status code message >> ok a

unfoldable pub still_loaded : ℕ → ℕ → ℕ
still_loaded code loaded = if code == 0 then loaded else loaded + 1

-- A copy that was inspected without a failure is deleted.
unfoldable pub cleaned {ℓ} : {A : Type ℓ} → Bool → Copies → Copies → Result A → Copies
cleaned removes before copies (err message) = copies
cleaned removes before copies (ok a) = if removes then before else copies

abbrev pub ask_unloaded : ℕ → Result Report → Result Report
ask_unloaded code = unloaded code "Unload temporary inspection hive"

-- Whether the place is named and the hive is loaded, after the copy.
unfoldable pub loads_copy : Mounting → Result WideString → Result (Unit {0})
unfolding unique_name require_status
loads_copy mounting copy = do
  path ← copy
  name ← unique_name mounting.guid
  require_status mounting.load "Inspect a separate copy of the offline registry"

module _ (registry : Registry) where
  unfoldable pub authorize_recovery :
      Drive → Disk → registry.Hive → Option WideString → Bool → Result (Unit {0})
  unfolding paired authorize without_pairing
  authorize_recovery drive disk software key_file inspecting = do
    known ← paired registry software
    if known
        then authorize registry drive disk software key_file
        else without_pairing key_file inspecting

  -- The second key is looked for where the first one is there.
  unfoldable pub has_structure : registry.Hive → Result (Unit {0})
  unfolding key_exists
  has_structure software = do
    version ← key_exists (registry.open_key software version_path)
    need version no_structure
    classes ← key_exists (registry.open_key software classes_path)
    need classes no_structure

  -- What is done with the copy: nothing is changed.
  unfoldable pub inspect : Environment → registry.Hive → Option WideString → Bool → Result Report
  unfolding has_structure authorize_recovery inspection_report key_exists
  inspect env software key_file inspecting = do
    require_status env.inspected.root "Read recovery inspection hive"
    has_structure software
    authorize_recovery env.drive env.disk software key_file inspecting
    inspection_report inspecting (key_exists (registry.open_key software filter_registration))

  -- The copy is loaded, inspected and unloaded.
  unfoldable pub inspect_loaded :
      Environment
      → Option WideString
      → Bool
      → Copies
      → Machine registry
      → Result (Unit {0})
      → Machine registry × Result Report
  unfolding inspect cleaned unloaded still_loaded
  inspect_loaded env key_file inspecting before machine (err message) = (machine, err message)
  inspect_loaded env key_file inspecting before machine (ok _) =
      let result =
        ask_unloaded env.inspected.unload (inspect env machine.software key_file inspecting) in
      (
        record {
          software = machine.software;
          copies = cleaned env.inspected.removes_copy before machine.copies result;
          loaded = still_loaded env.inspected.unload machine.loaded;
        },
        result,
      )

  unfoldable pub inspect_copied :
      Environment
      → Option WideString
      → Bool
      → Machine registry
      → Copies × Result WideString
      → Machine registry × Result Report
  unfolding inspect_loaded loads_copy
  inspect_copied env key_file inspecting machine (copies, copy) =
      inspect_loaded env key_file inspecting machine.copies (record machine { copies = copies })
        (loads_copy env.inspected copy)

  unfoldable pub inspect_in :
      Environment
      → WideString
      → Option WideString
      → Bool
      → Machine registry
      → Option WideString
      → Machine registry × Result Report
  unfolding inspect_copied protected_copy
  inspect_in env hive key_file inspecting machine none =
      (machine, err "Cannot locate temporary recovery storage")
  inspect_in env hive key_file inspecting machine (some temporary) =
      inspect_copied env key_file inspecting machine
        (protected_copy env.drive.paths env.inspected.copying temporary hive machine.copies)

  unfoldable pub inspect_copy :
      Environment
      → WideString
      → Option WideString
      → Bool
      → Machine registry
      → Machine registry × Result Report
  unfolding inspect_in
  inspect_copy env hive key_file inspecting machine =
      inspect_in env hive key_file inspecting machine env.temporary
