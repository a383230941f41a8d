-- ===== src/Recovery/Usb/Pair.antt =====
-- src/recovery_usb.cpp: `pairUsb` and `checkLiveUsb`.
pub mod Paired
use sovereign_windows_auth.Base.{
  ℕ, Bool, true, false, not, ◌&&◌, List, [], ◌∷◌, ◌++◌, length, take, drop, Option, none, some,
  ◌==◌, if◌then◌else◌, codes, String, Result, ok, err, ◌>>=◌, ◌>>◌, need,
}
use sovereign_windows_auth.Core.{Bytes, WideString}
use sovereign_windows_auth.Profile.Files.{Inspection, Entry, Disk, put}
use sovereign_windows_auth.Profile.Store.{is_free}
use sovereign_windows_auth.Recovery.Path.{usb_path}
use sovereign_windows_auth.Recovery.Registry.{Registry}
use sovereign_windows_auth.Recovery.Usb.{
  magic, key_size, pairing_path, pairing_name, Drive, read_key, key_digest, digest_equal, paired,
  authorize,
}

-- What Windows answers to `pairUsb`: its user, the codes of two keys that it opens, random bytes,
-- the calls that write the new file, and the descriptor of the new key.
pub record Host : Type 0 where
  pub is_admin : Bool
  pub mini_nt : ℕ
  pub software : ℕ
  pub random : ℕ → Option Bytes
  pub creates : Bool
  pub file_inspection : Inspection
  pub writes : Bool
  pub written : ℕ
  pub flushes : Bool
  pub descriptor : Bool

-- What is written: where, the credential, and its digest.
pub record Plan : Type 0 where
  pub target : WideString
  pub material : Bytes
  pub digest : Bytes

unfoldable pub generated : Option Bytes → Result Bytes
generated none = err "Cannot generate recovery credential."
generated (some bytes) = ok (magic ++ drop 8 bytes)

unfoldable pub key_file_in : WideString → WideString
key_file_in directory = directory ++ codes "\\recovery.key"

-- All that is checked and computed before anything is changed.
unfoldable pub plan :
    (registry : Registry) → Drive → Host → WideString → registry.Hive → Result Plan
unfolding paired generated key_file_in
plan registry drive host directory software = do
  need host.is_admin "Pairing a recovery USB requires administrator access."
  need (host.mini_nt == 2)
      "Pair the USB from the working Windows desktop, not a recovery environment."
  need (host.software == 0) "Cannot open Windows pairing configuration"
  already ← paired registry software
  need (not already) "A recovery USB is already paired. It was not replaced."
  folder ← usb_path drive.paths directory true
  material ← generated (host.random key_size)
  digest ← key_digest drive.hashing material
  ok (record { target = key_file_in folder; material = material; digest = digest })

-- The new file is read back before the registry is changed.
unfoldable pub read_back : Drive → Host → Plan → Disk → Result (Unit {0})
unfolding read_key key_digest digest_equal
read_back drive host plan disk = do
  need (host.writes && (host.written == key_size && host.flushes))
      "USB credential write failed. Windows pairing was not changed."
  checked ← read_key drive.paths drive.reading disk plan.target
  digest ← key_digest drive.hashing checked
  need (digest_equal digest plan.digest)
      "USB read-back verification failed. Windows pairing was not changed."

unfoldable pub key_entry : Host → Bytes → Entry
key_entry host material = record {
  content = some (take host.written material);
  inspection = host.file_inspection;
}

module _ (registry : Registry) where
  unfoldable pub after_set : ℕ × registry.Hive → registry.Hive × Result (Unit {0})
  after_set (code, hive) = (
    hive,
    need (code == 0 && registry.flush_key hive == 0)
        "Pairing record could not be saved. Keep the USB credential and diagnose before retrying.",
  )

  unfoldable pub after_create : Bytes → ℕ × Bool × registry.Hive → registry.Hive × Result (Unit {0})
  unfolding after_set
  after_create digest (code, created, hive) =
      if code == 0 && created
      then after_set (registry.set_binary hive pairing_path pairing_name (magic ++ digest))
      else (hive, err "Recovery pairing already exists or could not be created.")

  unfoldable pub record_pairing : Bool → Bytes → registry.Hive → registry.Hive × Result (Unit {0})
  unfolding after_create
  record_pairing descriptor digest software =
      if descriptor
      then after_create digest (registry.create_key software pairing_path)
      else (software, err "Cannot protect recovery pairing configuration.")

  unfoldable pub after_read_back :
      Host
      → Bytes
      → Disk
      → registry.Hive
      → Result (Unit {0})
      → Disk × registry.Hive × Result (Unit {0})
  unfolding record_pairing
  after_read_back host digest disk software (err message) = (disk, software, err message)
  after_read_back host digest disk software (ok _) = (
    disk,
    (record_pairing host.descriptor digest software).0,
    (record_pairing host.descriptor digest software).1,
  )

  -- The last check: what was saved is authorized as it will be later.
  unfoldable pub confirm :
      Drive
      → WideString
      → Disk × registry.Hive × Result (Unit {0})
      → Disk × registry.Hive × Result (Unit {0})
  unfolding authorize
  confirm drive target (disk, software, err message) = (disk, software, err message)
  confirm drive target (disk, software, ok _) =
      (disk, software, authorize registry drive disk software (some target))

  unfoldable pub write_key :
      Drive → Host → Disk → registry.Hive → Result Plan → Disk × registry.Hive × Result (Unit {0})
  unfolding confirm after_read_back read_back key_entry is_free put
  write_key drive host disk software (err message) = (disk, software, err message)
  write_key drive host disk software (ok plan) =
      if host.creates && is_free (disk plan.target)
      then confirm drive plan.target (
          after_read_back host plan.digest (put disk plan.target (key_entry host plan.material))
            software
            (read_back drive host plan (put disk plan.target (key_entry host plan.material))))
      else (
        disk,
        software,
        err "Cannot create the new USB credential. Existing files were not overwritten.",
      )

  unfoldable pub pair_usb :
      Drive → Host → WideString → Disk → registry.Hive → Disk × registry.Hive × Result (Unit {0})
  unfolding write_key plan
  pair_usb drive host directory disk software =
      write_key drive host disk software (plan registry drive host directory software)

  unfoldable pub check_live_usb :
      Drive → Disk → ℕ → registry.Hive → Option WideString → Result (Unit {0})
  unfolding authorize
  check_live_usb drive disk opened software key_file = do
    need (opened == 0) "Cannot inspect Windows pairing."
    authorize registry drive disk software key_file
