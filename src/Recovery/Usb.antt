-- ===== src/Recovery/Usb.antt =====
-- src/recovery_usb.cpp: the credential on a USB drive, its digest in the registry, the check of
-- both, and the pairing.
pub mod Authorized
pub mod Pair
use sovereign_windows_auth.Base.{
  ℕ, Bool, true, false, not, ◌&&◌, List, [], ◌∷◌, ◌++◌, length, take, drop, Option, none, some,
  ◌==◌, ltb, if◌then◌else◌, codes, String, Result, ok, err, ◌>>=◌, ◌>>◌, need,
}
use sovereign_windows_auth.Core.{Bytes, WideString, gather}
use sovereign_windows_auth.Profile.Wide.{wide_eq}
use sovereign_windows_auth.Profile.Files.{Entry, Disk}
use sovereign_windows_auth.Recovery.Path.{PathApi, usb_path}
use sovereign_windows_auth.Recovery.Registry.{Registry, is_missing}

abbrev pub magic : Bytes
magic = codes "SWAUSB" ++ (1 ∷ 0 ∷ [])

abbrev pub key_size : ℕ
key_size = 56

abbrev pub pairing_path : WideString
pairing_path = codes "SovereignWindowsAuth\\RecoveryUsb"

abbrev pub pairing_name : WideString
pairing_name = codes "Pairing"

-- What Windows answers about a file that is read: whether it opens, its information, its content.
pub record FileReading : Type 0 where
  pub opens : Bool
  pub informs : Bool
  pub reads : Bool

-- SHA-256 as Windows offers it; it gives 32 bytes.
pub record Hashing : Type 0 where
  pub opens : Bool
  pub sha256 : Bytes → Option Bytes

abbrev pub key_not_found : String
key_not_found = "Insert the paired recovery USB. Its private credential was not found."

-- A directory does not open.
unfoldable pub material_of : FileReading → Bool → Option Bytes → Result Bytes
material_of reading redirected none = err key_not_found
material_of reading redirected (some bytes) = do
  need reading.opens key_not_found
  need (reading.informs && ((length bytes == key_size) && not redirected))
      "The recovery credential is not a valid regular file."
  need reading.reads "The recovery credential could not be read completely."
  ok bytes

unfoldable pub key_at : FileReading → Option Entry → Result Bytes
unfolding material_of
key_at reading none = err key_not_found
key_at reading (some entry) = material_of reading entry.inspection.redirected entry.content

unfoldable pub read_key : PathApi → FileReading → Disk → WideString → Result Bytes
unfolding key_at
read_key api reading disk path = do full ← usb_path api path false; key_at reading (disk full)

abbrev pub pairing_damaged : String
pairing_damaged = "Recovery pairing is missing or damaged. No sign-in settings were changed."

unfoldable pub pairing_digest : Option Bytes → Result Bytes
pairing_digest none = err pairing_damaged
pairing_digest (some bytes) = do
  need ((length bytes == 40) && wide_eq magic (take 8 bytes)) pairing_damaged
  ok (drop 8 bytes)

unfoldable pub expected : (registry : Registry) → registry.Hive → Result Bytes
unfolding pairing_digest
expected registry software = pairing_digest (registry.get_binary software pairing_path pairing_name)

unfoldable pub hashed : Option Bytes → Result Bytes
hashed none = err "Cannot verify recovery credential."
hashed (some digest) = ok digest

unfoldable pub key_digest : Hashing → Bytes → Result Bytes
unfolding hashed
key_digest hashing key = do
  need ((length key == key_size) && wide_eq magic (take 8 key))
      "Invalid recovery credential format."
  need hashing.opens "Cannot open recovery hashing algorithm."
  hashed (hashing.sha256 key)

-- The digests are arrays of one length.
unfoldable pub digest_equal : Bytes → Bytes → Bool
unfolding gather
digest_equal left right = gather 0 left right == 0

unfoldable pub paired : (registry : Registry) → registry.Hive → Result Bool
unfolding is_missing
paired registry software =
    if is_missing (registry.open_key software pairing_path)
    then ok false
    else (need (registry.open_key software pairing_path == 0) "Cannot inspect recovery pairing."
        >> ok true)

-- The path that was given: none for a null pointer.
unfoldable pub given_path : Option WideString → Result WideString
given_path none = err "This Windows installation requires its paired recovery USB."
given_path (some path) = do
  need (ltb 0 (length path)) "This Windows installation requires its paired recovery USB."
  ok path

-- What is read in an authorization: the paths, the file, the hash, and the disks.
pub record Drive : Type 0 where
  pub paths : PathApi
  pub reading : FileReading
  pub hashing : Hashing

unfoldable pub authorize :
    (registry : Registry) → Drive → Disk → registry.Hive → Option WideString → Result (Unit {0})
unfolding expected given_path read_key key_digest digest_equal
authorize registry drive disk software key_file = do
  verifier ← expected registry software
  path ← given_path key_file
  material ← read_key drive.paths drive.reading disk path
  digest ← key_digest drive.hashing material
  need (digest_equal digest verifier)
      "This is not the recovery USB paired with this Windows installation."
