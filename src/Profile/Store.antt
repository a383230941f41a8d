-- ===== src/Profile/Store.antt =====
-- src/profile.cpp: `profilePath`, `saveProfile` and `loadProfile`, and `readFile` of src/core.cpp.
pub mod Keeps
pub mod Failed
pub mod Stored
pub mod RoundTrip
use sovereign_windows_auth.Base.{
  ℕ, Bool, true, false, ◌&&◌, List, [], ◌++◌, length, take, Option, none, some, ◌==◌, ltb, leb,
  if◌then◌else◌, codes, Result, ok, err, ◌>>=◌, ◌>>◌, need,
}
use sovereign_windows_auth.Core.{Bytes, WideString, AccountProfile}
use sovereign_windows_auth.Profile.Wide.{wide_eq}
use sovereign_windows_auth.Profile.Sid.{SidApi, validate_sid}
use sovereign_windows_auth.Profile.Codec.{encode_profile, decode_profile}
use sovereign_windows_auth.Profile.Files.{Inspection, Entry, Disk, put, remove, move}
use sovereign_windows_auth.Profile.Trusted.{trusted_path}

-- What Windows answers to a call of `saveProfile`: the known folder, the descriptor, the calls on
-- files that can fail for reasons of their own, what a new directory and a new file are reported
-- to be protected by, the protection of data and the name made of a new GUID. `written` is the
-- number of bytes that `WriteFile` reports.
pub record Host : Type 0 where
  pub program_data : Option WideString
  pub descriptor : Bool
  pub makes_directory : Bool
  pub directory_inspection : Inspection
  pub protect : Bytes → Option Bytes
  pub guid : Option WideString
  pub creates : Bool
  pub file_inspection : Inspection
  pub writes : Bool
  pub written : ℕ
  pub flushes : Bool
  pub moves : Bool
  pub deletes : Bool

-- What it answers to a call of `loadProfile`: whether a file opens, how its length is read (it is
-- the number of its bytes where it opens), whether it is read, and the protected data.
pub record Reading : Type 0 where
  pub folder : Option WideString
  pub opens : Bool
  pub reads : Bool
  pub unprotect : Bytes → Option Bytes

unfoldable pub directory_of : WideString → WideString
directory_of folder = folder ++ codes "\\SovereignWindowsAuth"

unfoldable pub file_of : WideString → WideString → WideString
unfolding directory_of
file_of folder sid = directory_of folder ++ (codes "\\" ++ (sid ++ codes ".swa"))

-- The folder below which the path of a profile lies, for a SID that is valid.
unfoldable pub located : Option WideString → Result WideString
located none = err "Cannot locate ProgramData"
located (some folder) = ok folder

unfoldable pub profile_folder : SidApi → Option WideString → WideString → Result WideString
unfolding located
profile_folder api folder sid = do validate_sid api sid; located folder

-- `CreateDirectoryW`: an entry with its name already is no failure.
unfoldable pub make_directory : Host → WideString → Option Entry → Disk → Disk × Result (Unit {0})
unfolding put
make_directory host path (some entry) disk = (disk, ok tt)
make_directory host path none disk =
    if host.makes_directory
    then (put disk path (record { content = none; inspection = host.directory_inspection }), ok tt)
    else (disk, err "Cannot create profile directory")

unfoldable pub is_free : Option Entry → Bool
is_free none = true
is_free (some entry) = false

-- What follows the file's creation, up to the move.
unfoldable pub check_temporary : Host → WideString → WideString → Bytes → Disk → Result (Unit {0})
unfolding is_free trusted_path
check_temporary host path temporary protected disk = do
  need (host.writes && host.written == length protected) "Cannot write full profile"
  need host.flushes "Cannot flush profile"
  trusted_path disk temporary
  need (host.moves && is_free (disk path))
      "Profile already exists or cannot be installed; no overwrite performed"

-- The move, or the handler that deletes the temporary file.
unfoldable pub finish_save :
    Host → WideString → WideString → Disk → Result (Unit {0}) → Disk × Result (Unit {0})
unfolding move remove
finish_save host path temporary disk (ok _) = (move disk temporary path (disk temporary), ok tt)
finish_save host path temporary disk (err message) =
    (if host.deletes then remove disk temporary else disk, err message)

-- The file that is created and written.
unfoldable pub temporary_entry : Host → Bytes → Entry
temporary_entry host protected = record {
  content = some (take host.written protected);
  inspection = host.file_inspection;
}

-- With the temporary file on the disk.
unfoldable pub write_made : Host → WideString → WideString → Bytes → Disk → Disk × Result (Unit {0})
unfolding finish_save check_temporary
write_made host path temporary protected disk =
    finish_save host path temporary disk (check_temporary host path temporary protected disk)

unfoldable pub write_file : Host → WideString → WideString → Bytes → Disk → Disk × Result (Unit {0})
unfolding write_made put temporary_entry is_free
write_file host path temporary protected disk =
    if host.creates && is_free (disk temporary)
    then write_made host path temporary protected
        (put disk temporary (temporary_entry host protected))
    else (disk, err "Cannot create restricted temporary profile")

unfoldable pub protected_data : Option Bytes → Result Bytes
protected_data none = err "Cannot bind encrypted profile to this Windows installation"
protected_data (some bytes) = ok bytes

unfoldable pub temporary_suffix : Option WideString → Result WideString
temporary_suffix none = err "Cannot generate temporary file name"
temporary_suffix (some name) = ok (codes ".new-" ++ name)

-- The bytes to write, and the end of the temporary file's name.
unfoldable pub prepare :
    SidApi → Host → AccountProfile → WideString → Disk → Result (Bytes × WideString)
unfolding trusted_path directory_of protected_data temporary_suffix
prepare api host profile folder disk = do
  trusted_path disk (directory_of folder)
  plain ← encode_profile api profile
  protected ← protected_data (host.protect plain)
  suffix ← temporary_suffix host.guid
  ok (protected, suffix)

unfoldable pub save_prepared :
    Host → WideString → Disk → Result (Bytes × WideString) → Disk × Result (Unit {0})
unfolding write_file
save_prepared host path disk (err message) = (disk, err message)
save_prepared host path disk (ok (protected, suffix)) =
    write_file host path (path ++ suffix) protected disk

-- After the directory was made.
unfoldable pub save_in :
    SidApi
    → Host
    → AccountProfile
    → WideString
    → Disk × Result (Unit {0})
    → Disk × Result (Unit {0})
unfolding save_prepared prepare file_of
save_in api host profile folder (disk, err message) = (disk, err message)
save_in api host profile folder (disk, ok _) =
    save_prepared host (file_of folder profile.sid) disk (prepare api host profile folder disk)

unfoldable pub save_below :
    SidApi → Host → AccountProfile → Disk → Result WideString → Disk × Result (Unit {0})
unfolding save_in make_directory directory_of
save_below api host profile disk (err message) = (disk, err message)
save_below api host profile disk (ok folder) =
    save_in api host profile folder
      (make_directory host (directory_of folder) (disk (directory_of folder)) disk)

unfoldable pub save_profile : SidApi → Host → AccountProfile → Disk → Disk × Result (Unit {0})
unfolding save_below profile_folder
save_profile api host profile disk = save_below api host profile disk do
  folder ← profile_folder api host.program_data profile.sid
  need host.descriptor "Cannot create restricted ACL"
  ok folder

-- `readFile`, whose limit is 65536 where no other is given.
unfoldable pub file_bytes : Reading → ℕ → Option Bytes → Result Bytes
file_bytes reading max_size none = err "Cannot open profile"
file_bytes reading max_size (some bytes) = do
  need reading.opens "Cannot open profile"
  need (ltb 0 (length bytes) && leb (length bytes) max_size) "Invalid profile length"
  need reading.reads "Truncated profile"
  ok bytes

unfoldable pub read_file : Reading → ℕ → Option Entry → Result Bytes
unfolding file_bytes
read_file reading max_size none = err "Cannot open profile"
read_file reading max_size (some entry) = file_bytes reading max_size entry.content

unfoldable pub clear_data : Option Bytes → Result Bytes
clear_data none = err "Profile belongs to another Windows installation or is damaged"
clear_data (some bytes) = ok bytes

unfoldable pub load_profile : SidApi → Reading → Disk → WideString → Result AccountProfile
unfolding profile_folder directory_of file_of trusted_path read_file clear_data
load_profile api reading disk sid = do
  folder ← profile_folder api reading.folder sid
  trusted_path disk (directory_of folder)
  trusted_path disk (file_of folder sid)
  encrypted ← read_file reading 65536 (disk (file_of folder sid))
  plain ← clear_data (reading.unprotect encrypted)
  result ← decode_profile api plain
  need (wide_eq result.sid sid) "Profile belongs to a different Windows user"
  ok result
