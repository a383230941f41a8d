-- ===== src/Recovery/Offline.antt =====
-- src/filter_recovery.cpp: `recover`.
pub mod Changes
pub mod Removed
use sovereign_windows_auth.Base.{
  ℕ, Bool, true, false, not, ◌&&◌, ◌||◌, ◌+◌, ◌++◌, Option, none, some, ◌==◌, if◌then◌else◌, codes,
  String, Result, ok, err, ◌>>=◌, ◌>>◌, need,
}
use sovereign_windows_auth.Core.{WideString}
use sovereign_windows_auth.Profile.Files.{Disk}
use sovereign_windows_auth.Recovery.Path.{PathApi, absolute_windows_root, require_regular_file}
use sovereign_windows_auth.Recovery.Registry.{
  Registry, filter_registration, require_status, key_exists, remove_registration,
}
use sovereign_windows_auth.Recovery.Usb.{Drive, paired, authorize}
use sovereign_windows_auth.Recovery.Copy.{
  Copying, Guid, Copies, Token, unique_name, protected_copy, enable_privilege,
}
use sovereign_windows_auth.Recovery.Inspect.{
  Environment, Machine, Mounting, Report, ask_unloaded, authorize_recovery, classes_path, cleaned,
  has_structure, inspect, inspect_copied, inspect_copy, inspect_in, inspect_loaded,
  inspection_report, loads_copy, no_structure, quiet, removal, still_loaded, unloaded, verified,
  version_path, without_pairing,
}

abbrev pub config_in : WideString → WideString
config_in root = root ++ codes "\\System32\\config"

-- Everything that is checked before a hive is touched; the root of the installation.
unfoldable pub check_target : Environment → WideString → Result WideString
unfolding key_exists absolute_windows_root require_regular_file enable_privilege
check_target env argument = do
  preinstalled ← key_exists env.mini_nt
  need preinstalled
      "Offline recovery runs only from WinRE/WinPE. No live registry changes were made."
  root ← absolute_windows_root env.drive.paths argument
  above ← absolute_windows_root env.drive.paths (config_in root)
  require_regular_file env.drive.paths (config_in root ++ codes "\\SOFTWARE")
  require_regular_file env.drive.paths (root ++ codes "\\System32\\ntoskrnl.exe")
  enable_privilege env.backup
  enable_privilege env.restore
  ok root

unfoldable pub reported : Result Bool → Result Report
reported (err message) = err message
reported (ok removed) = ok (removal removed)

unfoldable pub loads_target : Mounting → Result WideString → Result (Unit {0})
unfolding key_exists require_status
loads_target mounting backup = do
  path ← backup
  taken ← key_exists mounting.place
  need (not taken) "Recovery mount already exists"
  require_status mounting.load "Load offline SOFTWARE hive"

module _ (registry : Registry) where
  -- The hive of the installation once it is loaded: what it becomes, and the report.
  unfoldable pub repair_checked : registry.Hive → Result (Unit {0}) → registry.Hive × Result Bool
  unfolding remove_registration
  repair_checked software (err message) = (software, err message)
  repair_checked software (ok _) = remove_registration registry software

  unfoldable pub repair :
      Environment → registry.Hive → Option WideString → registry.Hive × Result Bool
  unfolding repair_checked has_structure authorize_recovery
  repair env software key_file = repair_checked software do
    require_status env.repaired.root "Open offline SOFTWARE hive"
    has_structure registry software
    authorize_recovery registry env.drive env.disk software key_file false

  -- The installation's hive is loaded, repaired and unloaded.
  unfoldable pub repair_loaded :
      Environment
      → Option WideString
      → Machine registry
      → Result (Unit {0})
      → Machine registry × Result Report
  unfolding repair unloaded still_loaded reported
  repair_loaded env key_file machine (err message) = (machine, err message)
  repair_loaded env key_file machine (ok _) = (
    record {
      software = (repair env machine.software key_file).0;
      copies = machine.copies;
      loaded = still_loaded env.repaired.unload machine.loaded;
    },
    unloaded env.repaired.unload "Unload offline SOFTWARE hive"
        (reported (repair env machine.software key_file).1),
  )

  unfoldable pub repair_copied :
      Environment
      → Option WideString
      → Machine registry
      → Copies × Result WideString
      → Machine registry × Result Report
  unfolding repair_loaded loads_target
  repair_copied env key_file machine (copies, backup) =
      repair_loaded env key_file (record machine { copies = copies })
        (loads_target env.repaired backup)

  unfoldable pub repair_named :
      Environment
      → WideString
      → Option WideString
      → Machine registry
      → Result WideString
      → Machine registry × Result Report
  unfolding repair_copied protected_copy
  repair_named env config key_file machine (err message) = (machine, err message)
  repair_named env config key_file machine (ok name) = repair_copied env key_file machine (
      protected_copy env.drive.paths env.repaired.copying config (config ++ codes "\\SOFTWARE")
        machine.copies)

  unfoldable pub after_inspection :
      Environment
      → WideString
      → Option WideString
      → Bool
      → Machine registry × Result Report
      → Machine registry × Result Report
  unfolding repair_named unique_name
  after_inspection env config key_file inspecting (machine, err message) = (machine, err message)
  after_inspection env config key_file inspecting (machine, ok report) =
      if inspecting
      then (machine, ok report)
      else repair_named env config key_file machine (unique_name env.repaired.guid)

  unfoldable pub recover_at :
      Environment
      → Option WideString
      → Bool
      → Machine registry
      → Result WideString
      → Machine registry × Result Report
  unfolding after_inspection inspect_copy
  recover_at env key_file inspecting machine (err message) = (machine, err message)
  recover_at env key_file inspecting machine (ok root) =
      after_inspection env (config_in root) key_file inspecting (
        inspect_copy registry env (config_in root ++ codes "\\SOFTWARE") key_file inspecting
          machine)

  unfoldable pub recover :
      Environment
      → WideString
      → Option WideString
      → Bool
      → Machine registry
      → Machine registry × Result Report
  unfolding recover_at check_target
  recover env argument key_file inspecting machine =
      recover_at env key_file inspecting machine (check_target env argument)
