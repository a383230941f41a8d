-- ===== src/Tests/Repairs.antt =====
-- An offline Windows that is inspected and repaired with its paired drive, for
-- src/filter_recovery.cpp and src/recovery_usb.cpp.
use sovereign_windows_auth.Base.{
  ◌≡◌, ◌≢◌, refl, ap, subst, Bool, true, false, [], ◌++◌, none, some, some-injective, ok, codes,
  length, replicate, if◌then◌else◌, Bool-cases, inl, inr, arith,
}
use sovereign_windows_auth.Core.{Bytes, WideString, IsBytes, gather}
use sovereign_windows_auth.Profile.Wide.{wide_eq}
use sovereign_windows_auth.Profile.Files.{Entry, Disk}
use sovereign_windows_auth.Recovery.Path.{
  is_letter, lacks, is_local, strip, trim, is_plain, walk, full, usb_path, running_volume,
  absolute_windows_root, is_regular, require_regular_file,
}
use sovereign_windows_auth.Recovery.Path.Plain.{IsOffline, absolute_windows_root-IsOffline}
use sovereign_windows_auth.Recovery.Registry.{
  is_missing, filter_registration, require_status, key_exists, after_delete, remove_registration,
}
use sovereign_windows_auth.Recovery.Usb.{
  magic, pairing_path, material_of, key_at, read_key, pairing_digest, expected, hashed, key_digest,
  digest_equal, paired, given_path, authorize,
}
use sovereign_windows_auth.Recovery.Usb.Authorized.{IsAuthorized, authorize-IsAuthorized}
use sovereign_windows_auth.Recovery.Copy.{
  Copying, Guid, Token, unique_name, guid_text, copy_files, is_absent, backup_in, copied,
  protected_copy, enable_privilege,
}
use sovereign_windows_auth.Recovery.Offline.{
  repair_checked, repair, check_target, reported, repair_loaded, loads_target, repair_copied,
  repair_named, after_inspection, recover_at, recover,
}
use sovereign_windows_auth.Recovery.Inspect.{
  Mounting, Environment, Machine, removal, version_path, classes_path, without_pairing,
  authorize_recovery, has_structure, inspection_report, inspect, unloaded, still_loaded, cleaned,
  inspect_loaded, loads_copy, inspect_copied, inspect_in, inspect_copy,
}
use sovereign_windows_auth.Recovery.Offline.Changes.{Change, recover-Change, recover_scope}
use sovereign_windows_auth.Recovery.Offline.Removed.{recover-removes}
use sovereign_windows_auth.Tests.Stores.{restricted}
use sovereign_windows_auth.Tests.Recoveries.{pad, hashing-HasDigests, paths, drive}
use sovereign_windows_auth.Tests.Registries.{Values, upper, registry, registry-IsLawful}

abbrev key_file : WideString
key_file = codes "E:\\keys\\recovery.key"

abbrev material : Bytes
material = magic ++ replicate 48 77

abbrev stick_entry : Entry
stick_entry = record { content = some material; inspection = restricted }

abbrev disk : Disk
disk = λ path. if wide_eq path key_file then some stick_entry else none

-- The keys of the hive, of which the pairing holds its value too.
abbrev present : WideString → Bool
present path =
    if wide_eq path (upper version_path)
    then true
    else (if wide_eq path (upper classes_path)
        then true
        else wide_eq path (upper filter_registration))

abbrev hive : Values
hive = λ path name.
    if wide_eq path (upper pairing_path)
    then some (magic ++ pad 32 material)
    else (if present path then some [] else none)

abbrev root : WideString
root = codes "D:\\Windows"

root_path : absolute_windows_root paths root ≡ ok root
unfolding absolute_windows_root is_local is_letter lacks full trim strip walk is_plain
    running_volume
root_path = refl

absolute_windows_root-IsOffline_example : IsOffline paths root
absolute_windows_root-IsOffline_example = absolute_windows_root-IsOffline paths root root root_path

removes : (remove_registration registry hive).1 ≡ ok true
unfolding remove_registration after_delete is_missing require_status
removes = refl

authorizes : authorize registry drive disk hive (some key_file) ≡ ok tt
unfolding authorize expected pairing_digest given_path read_key key_at material_of usb_path is_local
    is_letter lacks full trim strip walk is_plain key_digest hashed digest_equal gather
authorizes = refl

magic-pad-IsBytes : IsBytes (magic ++ pad 32 material)
magic-pad-IsBytes = omega arith

value-IsBytes :
    (path name : WideString) (value : Bytes) → hive path name ≡ some value → IsBytes value
value-IsBytes path name value h = elim (Bool-cases (wide_eq path (upper pairing_path))) [
  | inl same ↦ subst IsBytes (some-injective (rw same at h)) magic-pad-IsBytes
  | inr differs ↦ empty_value (present path) (rw differs at h)
]
  where
    empty_value : (b : Bool) → (if b then some [] else none) ≡ some value → IsBytes value
    empty_value true h = subst IsBytes (some-injective h) tt
    empty_value false h = cc

authorize-IsAuthorized_example : IsAuthorized registry drive disk hive (some key_file)
authorize-IsAuthorized_example =
    authorize-IsAuthorized registry drive disk hive (some key_file) hashing-HasDigests
      (λ path. value-IsBytes (upper path)) authorizes

already : paired registry hive ≡ ok true
unfolding paired is_missing
already = refl

abbrev guid : Guid
guid = record { created = true; text = some (codes "{1}") }

abbrev copying : Copying
copying = record {
  guid = guid;
  descriptor = true;
  makes_directory = true;
  not_found = λ path. true;
  copies = λ path. true;
}

abbrev mounting : Mounting
mounting = record {
  copying = copying;
  guid = guid;
  place = 2;
  load = 0;
  root = 0;
  unload = 0;
  removes_copy = true;
}

abbrev token : Token
token = record { opens = true; finds = true; adjusts = true; last_error = 0 }

abbrev environment : Environment
environment = record {
  mini_nt = 0;
  backup = token;
  restore = token;
  temporary = some (codes "X:\\temp");
  drive = drive;
  disk = disk;
  inspected = mounting;
  repaired = mounting;
}

abbrev machine : Machine registry
machine = record { software = hive; copies = []; loaded = 0 }

recovers : (recover registry environment root (some key_file) false machine).1 ≡ ok (removal true)
unfolding recover recover_at check_target after_inspection repair_named repair_copied repair_loaded
    loads_target repair repair_checked has_structure authorize_recovery without_pairing inspect_copy
    inspect_in inspect_copied inspect_loaded loads_copy inspect inspection_report cleaned unloaded
    still_loaded reported key_exists is_missing require_status remove_registration after_delete
    protected_copy copied copy_files is_absent require_regular_file is_regular backup_in unique_name
    guid_text enable_privilege absolute_windows_root running_volume paired authorize expected
    pairing_digest given_path read_key key_at material_of usb_path is_local is_letter lacks full
    trim strip walk is_plain key_digest hashed digest_equal gather
recovers = refl

recover-removes_example :
    (is_missing (
        registry.open_key
          (recover registry environment root (some key_file) false machine).0.software
          filter_registration)
      ≡ true)
    × ((recover registry environment root (some key_file) false machine).0.loaded ≡ 0)
recover-removes_example =
    recover-removes registry environment root (some key_file) machine (removal true)
      registry-IsLawful recovers

recover-Change_example :
    Change registry environment
      (some key_file)
      hive
      (recover registry environment root (some key_file) false machine).0.software
recover-Change_example = recover-Change registry environment root (some key_file) false machine

other_key : upper version_path ≢ upper filter_registration
other_key h = omega (arith, ap (λ (t : WideString). length t) h)

recover_scope_example :
    (registry.open_key
        (recover registry environment root (some key_file) false machine).0.software
        version_path
      ≡ registry.open_key hive version_path)
    × (registry.get_binary
          (recover registry environment root (some key_file) false machine).0.software
          version_path
          []
        ≡ registry.get_binary hive version_path [])
recover_scope_example =
    recover_scope registry environment root (some key_file) false machine version_path []
      registry-IsLawful other_key
