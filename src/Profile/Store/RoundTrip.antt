-- ===== src/Profile/Store/RoundTrip.antt =====
-- A profile that was saved is loaded again: src/profile.cpp.
use sovereign_windows_auth.Base.{
  ◌<◌, ◌≤◌, ◌≡◌, refl, ap, ◌∙◌, true, Option, none, some, length, lt→ltb, le→leb, All, Result, ok,
  err, ◌>>=◌, ◌>>◌, need, need-eq-ok, >>=-eq-ok, ok-injective,
}
use sovereign_windows_auth.Core.{Bytes, WideString, AccountProfile}
use sovereign_windows_auth.Profile.Wide.{wide_eq_self}
use sovereign_windows_auth.Profile.Sid.{SidApi}
use sovereign_windows_auth.Profile.Codec.{encode_profile}
use sovereign_windows_auth.Profile.Codec.Layout.{IsTyped}
use sovereign_windows_auth.Profile.Codec.Several.{IsTypedKey}
use sovereign_windows_auth.Profile.Codec.SeveralRoundTrip.{decode_profile-encode_profile}
use sovereign_windows_auth.Profile.Files.{Disk}
use sovereign_windows_auth.Profile.Trusted.{trusted_path}
use sovereign_windows_auth.Profile.Store.{
  Host, Reading, directory_of, file_of, profile_folder, make_directory, prepare, protected_data,
  temporary_suffix, save_prepared, save_in, save_below, save_profile, file_bytes, read_file,
  clear_data, load_profile,
}
use sovereign_windows_auth.Profile.Store.Stored.{IsStored, write_file-IsStored}

protected_data-some :
    (o : Option Bytes) {bytes : Bytes} → protected_data o ≡ ok bytes → o ≡ some bytes
unfolding protected_data
protected_data-some none h = cc
protected_data-some (some b) h = ap some (ok-injective h)

prepare_inv :
    (api : SidApi) (host : Host) (profile : AccountProfile) (folder : WideString) (disk : Disk)
    {protected : Bytes} {suffix : WideString}
    → prepare api host profile folder disk ≡ ok (protected, suffix)
    → (plain : Bytes) × (trusted_path disk (directory_of folder) ≡ ok tt)
      × (encode_profile api profile ≡ ok plain)
      × (host.protect plain ≡ some protected)
unfolding prepare protected_data
prepare_inv api host profile folder disk h =
    let (u, directory, h) = >>=-eq-ok (trusted_path disk (directory_of folder)) _ h in
    let (plain, encoded, h) = >>=-eq-ok (encode_profile api profile) _ h in
    let (bytes, protects, h) = >>=-eq-ok (protected_data (host.protect plain)) _ h in
    let (name, made, h) = >>=-eq-ok (temporary_suffix host.guid) _ h in
    let whole = ok-injective h in
    (
      plain,
      directory,
      encoded,
      protected_data-some (host.protect plain)
          (protects ∙ ap (λ (p : Bytes × WideString). ok p.0) whole),
    )

-- Everything that a successful save went through.
pub record IsSaved (api : SidApi) (host : Host) (profile : AccountProfile) (after : Disk)
    : Type 0 where
  pub folder : WideString
  pub plain : Bytes
  pub protected : Bytes
  pub located_there : profile_folder api host.program_data profile.sid ≡ ok folder
  pub encoded : encode_profile api profile ≡ ok plain
  pub protects : host.protect plain ≡ some protected
  pub stored : IsStored after folder profile.sid protected

save_prepared-IsSaved :
    (api : SidApi) (host : Host) (profile : AccountProfile) (folder : WideString) (disk : Disk)
    (r : Result (Bytes × WideString))
    → profile_folder api host.program_data profile.sid ≡ ok folder
    → prepare api host profile folder disk ≡ r
    → (save_prepared host (file_of folder profile.sid) disk r).1 ≡ ok tt
    → IsSaved api host profile (save_prepared host (file_of folder profile.sid) disk r).0
unfolding save_prepared
save_prepared-IsSaved api host profile folder disk (err m) known prepared h = cc
save_prepared-IsSaved api host profile folder disk (ok (protected, suffix)) known prepared h =
    let (plain, directory, encoded, protects) = prepare_inv api host profile folder disk prepared in
    record {
      folder = folder;
      plain = plain;
      protected = protected;
      located_there = known;
      encoded = encoded;
      protects = protects;
      stored = write_file-IsStored host folder profile.sid suffix protected disk directory h;
    }

save_in-IsSaved :
    (api : SidApi) (host : Host) (profile : AccountProfile) (folder : WideString)
    (r : Disk × Result (Unit {0}))
    → profile_folder api host.program_data profile.sid ≡ ok folder
    → (save_in api host profile folder r).1 ≡ ok tt
    → IsSaved api host profile (save_in api host profile folder r).0
unfolding save_in
save_in-IsSaved api host profile folder (disk, err m) known h = cc
save_in-IsSaved api host profile folder (disk, ok _) known h =
    save_prepared-IsSaved api host profile folder disk _ known refl h

save_below-IsSaved :
    (api : SidApi) (host : Host) (profile : AccountProfile) (disk : Disk) (r : Result WideString)
    → ((folder : WideString)
        → r ≡ ok folder
        → profile_folder api host.program_data profile.sid ≡ ok folder)
    → (save_below api host profile disk r).1 ≡ ok tt
    → IsSaved api host profile (save_below api host profile disk r).0
unfolding save_below
save_below-IsSaved api host profile disk (err m) known h = cc
save_below-IsSaved api host profile disk (ok folder) known h =
    save_in-IsSaved api host profile folder
      (make_directory host (directory_of folder) (disk (directory_of folder)) disk)
      (known folder refl) h

save_profile-IsSaved :
    (api : SidApi) (host : Host) (profile : AccountProfile) (disk : Disk)
    → (save_profile api host profile disk).1 ≡ ok tt
    → IsSaved api host profile (save_profile api host profile disk).0
unfolding save_profile
save_profile-IsSaved api host profile disk h =
    save_below-IsSaved api host profile disk
      (do
        found ← profile_folder api host.program_data profile.sid
        need host.descriptor "Cannot create restricted ACL"
        ok found)
      (λ folder e.
        let (one, at, e) = >>=-eq-ok (profile_folder api host.program_data profile.sid) _ e in
        let (made, e) = need-eq-ok host.descriptor _ _ e in at ∙ e)
      h

-- A profile that was saved is loaded again: after a `saveProfile` that returned, `loadProfile` of
-- the profile's SID returns that profile, with one key or several, if the known folder is the same,
-- the file can be opened and read, and Windows opens the data that it protected, of at most the 64
-- KiB that `readFile` takes. The profile has the types of its fields.
pub load_profile-save_profile :
    (api : SidApi) (host : Host) (reading : Reading) (profile : AccountProfile) (disk : Disk)
    → IsTyped profile
    → All IsTypedKey profile.additional
    → reading.folder ≡ host.program_data
    → reading.opens ≡ true
    → reading.reads ≡ true
    → ((plain protected : Bytes)
        → host.protect plain ≡ some protected
        → (0 < length protected)
          × (length protected ≤ 65536)
          × (reading.unprotect protected ≡ some plain))
    → (save_profile api host profile disk).1 ≡ ok tt
    → load_profile api reading (save_profile api host profile disk).0 profile.sid ≡ ok profile
unfolding load_profile read_file file_bytes clear_data
load_profile-save_profile api host reading profile disk typed others same opens reads lawful h =
    let saved = save_profile-IsSaved api host profile disk h in
    let (low, high, opened) = lawful saved.plain saved.protected saved.protects in
    rw (same, saved.located_there)
      (rw saved.stored.directory_trusted (
        rw saved.stored.file_trusted (
          rw saved.stored.at (
            rw (saved.stored.content, opens, lt→ltb _ _ low, le→leb _ _ high, reads, opened)
              (rw (decode_profile-encode_profile api profile saved.plain typed others saved.encoded)
                (rw (wide_eq_self profile.sid) refl))))))
