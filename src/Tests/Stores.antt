-- ===== src/Tests/Stores.antt =====
-- A profile that is saved, saved again and loaded, for src/profile.cpp.
use sovereign_windows_auth.Base.{
  ◌≡◌, refl, subst, suc, Option, if◌then◌else◌, leb, leb→le, Bool-cases, inl, inr, ◌<◌, ◌≤◌, arith,
  true, false, [], ◌∷◌, none, some, some-injective, ok, err, codes, length,
}
use sovereign_windows_auth.Core.{Bytes, WideString, equal, gather}
use sovereign_windows_auth.Core.Number.{le32}
use sovereign_windows_auth.Profile.Sid.{validate_sid, canonical}
use sovereign_windows_auth.Profile.Wire.{put32, put_string}
use sovereign_windows_auth.Profile.Wide.{wide_eq}
use sovereign_windows_auth.Profile.Keys.{profile_for_key}
use sovereign_windows_auth.Profile.Codec.{
  profile_binding, encode_record, encode_profile, encode_multi, encode_keys, repeats,
}
use sovereign_windows_auth.Profile.Codec.Layout.{record_bytes, binding_bytes}
use sovereign_windows_auth.Profile.Codec.Several.{multi_bytes, keys_bytes}
use sovereign_windows_auth.Profile.Files.{
  administrators, local_system, Inspection, Entry, Disk, put, remove, move,
}
use sovereign_windows_auth.Profile.Trusted.{
  is_privileged, owner_trusted, aces_trusted, acl_trusted, trusted, trusted_path,
}
use sovereign_windows_auth.Profile.Store.{
  Host, Reading, directory_of, file_of, located, profile_folder, make_directory, is_free,
  check_temporary, finish_save, temporary_entry, write_made, write_file, protected_data,
  temporary_suffix, prepare, save_prepared, save_in, save_below, save_profile, load_profile,
}
use sovereign_windows_auth.Profile.Store.Keeps.{save_profile-Keeps}
use sovereign_windows_auth.Profile.Store.Failed.{save_profile_failed}
use sovereign_windows_auth.Profile.Store.RoundTrip.{load_profile-save_profile}
use sovereign_windows_auth.Tests.Codecs.{any_sid, sample, sample-IsTyped, others-IsTypedKey}

abbrev pub restricted : Inspection
restricted = record {
  redirected = false;
  readable = true;
  owner = some administrators;
  control_protected = true;
  acl = some (record { readable = true; allows = true; principal = local_system } ∷ []);
}

abbrev pub folder : WideString
folder = codes "C:\\ProgramData"

-- Windows that protects data by a byte in front of it, and takes no more than a profile has.
abbrev protect : Bytes → Option Bytes
protect plain = if leb (length plain) 60000 then some (0 ∷ plain) else none

abbrev unprotect : Bytes → Option Bytes
unprotect [] = none
unprotect (x ∷ plain) = some plain

abbrev pub host : Host
host = record {
  program_data = some folder;
  descriptor = true;
  makes_directory = true;
  directory_inspection = restricted;
  protect = protect;
  guid = some (codes "{1}");
  creates = true;
  file_inspection = restricted;
  writes = true;
  written = suc (length (multi_bytes sample));
  flushes = true;
  moves = true;
  deletes = true;
}

abbrev pub reading : Reading
reading = record { folder = some folder; opens = true; reads = true; unprotect = unprotect }

abbrev empty : Disk
empty = λ path. none

protects :
    (plain protected : Bytes)
    → protect plain ≡ some protected
    → (0 < length protected) × (length protected ≤ 65536) × (unprotect protected ≡ some plain)
protects plain protected h = elim (Bool-cases (leb (length plain) 60000)) [
  | inl short ↦
      let same : 0 ∷ plain ≡ protected = some-injective (rw short at h) in
      let size = leb→le _ _ short in
      subst (λ (p : Bytes). (0 < length p) × (length p ≤ 65536) × (unprotect p ≡ some plain)) same
        (omega arith, omega arith, refl)
  | inr long ↦ cc (rw long at h)
]

saved : (save_profile any_sid host sample empty).1 ≡ ok tt
unfolding save_profile save_below save_in save_prepared prepare profile_folder located directory_of
    file_of make_directory is_free check_temporary finish_save temporary_entry write_made write_file
    protected_data temporary_suffix put remove move trusted_path trusted acl_trusted aces_trusted
    owner_trusted is_privileged encode_profile encode_multi encode_keys repeats encode_record
    profile_binding put32 put_string validate_sid canonical profile_for_key equal gather le32
    multi_bytes keys_bytes record_bytes binding_bytes
saved = refl

load_profile-save_profile_example :
    load_profile any_sid reading (save_profile any_sid host sample empty).0 sample.sid ≡ ok sample
load_profile-save_profile_example =
    load_profile-save_profile any_sid host reading sample empty sample-IsTyped others-IsTypedKey
      refl refl refl protects saved

-- A disk with a profile of another time.
abbrev old : Entry
old = record { content = some (1 ∷ 2 ∷ []); inspection = restricted }

abbrev path : WideString
path = codes "C:\\ProgramData\\SovereignWindowsAuth\\S-1.swa"

abbrev directory : WideString
directory = codes "C:\\ProgramData\\SovereignWindowsAuth"

abbrev taken : Disk
taken = λ other.
    if wide_eq other path
    then some old
    else (if wide_eq other directory
        then some (record { content = none; inspection = restricted })
        else none)

refused :
    (save_profile any_sid host sample taken).1
    ≡ err "Profile already exists or cannot be installed; no overwrite performed"
unfolding save_profile save_below save_in save_prepared prepare profile_folder located directory_of
    file_of make_directory is_free check_temporary finish_save temporary_entry write_made write_file
    protected_data temporary_suffix put remove move trusted_path trusted acl_trusted aces_trusted
    owner_trusted is_privileged encode_profile encode_multi encode_keys repeats encode_record
    profile_binding put32 put_string validate_sid canonical profile_for_key equal gather le32
    multi_bytes keys_bytes record_bytes binding_bytes
refused = refl

save_profile-Keeps_example : (save_profile any_sid host sample taken).0 path ≡ some old
save_profile-Keeps_example = save_profile-Keeps any_sid host sample taken path old refl

apart : wide_eq path (directory_of folder) ≡ false
unfolding directory_of
apart = refl

save_profile_failed_example : (save_profile any_sid host sample taken).0 path ≡ taken path
save_profile_failed_example =
    save_profile_failed any_sid host sample taken folder path
      "Profile already exists or cannot be installed; no overwrite performed" refl refl apart
      refused
