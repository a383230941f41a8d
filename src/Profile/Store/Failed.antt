-- ===== src/Profile/Store/Failed.antt =====
-- What a `saveProfile` of src/profile.cpp that failed leaves behind.
use sovereign_windows_auth.Base.{
  ◌≡◌, refl, sym, ◌∙◌, String, true, false, Bool-cases, inl, inr, ◌&&◌, &&-elim, Option, none, some,
  Result, ok, err, ◌>>=◌, ◌>>◌, need, need-eq-ok, >>=-eq-ok, ok-injective, ◌++◌,
}
use sovereign_windows_auth.Core.{Bytes, WideString, AccountProfile}
use sovereign_windows_auth.Profile.Wide.{wide_eq}
use sovereign_windows_auth.Profile.Sid.{SidApi, validate_sid}
use sovereign_windows_auth.Profile.Files.{Entry, Disk, put, remove, get-put_other, wide_eq-eq}
use sovereign_windows_auth.Profile.Store.{
  Host, directory_of, file_of, located, profile_folder, make_directory, is_free, finish_save,
  temporary_entry, write_made, write_file, check_temporary, prepare, save_prepared, save_in,
  save_below, save_profile,
}
use sovereign_windows_auth.Profile.Store.Keeps.{is_free-none}

-- A file that was made and deleted leaves the disk as it was.
get-remove-put :
    (disk : Disk) (path : WideString) (entry : Entry) (other : WideString)
    → disk path ≡ none
    → remove (put disk path entry) path other ≡ disk other
unfolding remove
get-remove-put disk path entry other free = elim (Bool-cases (wide_eq other path)) [
  | inl same ↦ rw same (sym (rw (wide_eq-eq other path same) free))
  | inr differs ↦ rw differs (get-put_other disk path entry other differs)
]

write_made-same :
    (host : Host) (path temporary other : WideString) (disk : Disk) (entry : Entry)
    (r : Result (Unit {0})) {message : String}
    → host.deletes ≡ true
    → disk temporary ≡ none
    → (finish_save host path temporary (put disk temporary entry) r).1 ≡ err message
    → (finish_save host path temporary (put disk temporary entry) r).0 other ≡ disk other
unfolding finish_save
write_made-same host path temporary other disk entry (ok _) deletes free h = cc
write_made-same host path temporary other disk entry (err m) deletes free h =
    rw deletes (get-remove-put disk temporary entry other free)

write_file-same :
    (host : Host) (path temporary : WideString) (protected : Bytes) (disk : Disk)
    (other : WideString) {message : String}
    → host.deletes ≡ true
    → (write_file host path temporary protected disk).1 ≡ err message
    → (write_file host path temporary protected disk).0 other ≡ disk other
unfolding write_file write_made
write_file-same host path temporary protected disk other deletes h =
    elim (Bool-cases (host.creates && is_free (disk temporary))) [
      | inl created ↦
          let entry = temporary_entry host protected in
          rw created (
            write_made-same host path temporary other disk entry
              (check_temporary host path temporary protected (put disk temporary entry)) deletes
              (is_free-none (disk temporary) (&&-elim _ _ created).1) (rw created at h))
      | inr refused ↦ rw refused refl
    ]

save_prepared-same :
    (host : Host) (path : WideString) (disk : Disk) (r : Result (Bytes × WideString))
    (other : WideString) {message : String}
    → host.deletes ≡ true
    → (save_prepared host path disk r).1 ≡ err message
    → (save_prepared host path disk r).0 other ≡ disk other
unfolding save_prepared
save_prepared-same host path disk (err m) other deletes h = refl
save_prepared-same host path disk (ok (protected, suffix)) other deletes h =
    write_file-same host path (path ++ suffix) protected disk other deletes h

save_in-same :
    (api : SidApi) (host : Host) (profile : AccountProfile) (folder : WideString)
    (r : Disk × Result (Unit {0})) (other : WideString) {message : String}
    → host.deletes ≡ true
    → (save_in api host profile folder r).1 ≡ err message
    → (save_in api host profile folder r).0 other ≡ r.0 other
unfolding save_in
save_in-same api host profile folder (disk, err m) other deletes h = refl
save_in-same api host profile folder (disk, ok _) other deletes h =
    save_prepared-same host (file_of folder profile.sid) disk (prepare api host profile folder disk)
      other deletes h

make_directory-same :
    (host : Host) (path : WideString) (o : Option Entry) (disk : Disk) (other : WideString)
    → wide_eq other path ≡ false
    → (make_directory host path o disk).0 other ≡ disk other
unfolding make_directory
make_directory-same host path (some entry) disk other differs = refl
make_directory-same host path none disk other differs = elim (Bool-cases host.makes_directory) [
  | inl made ↦ rw made (get-put_other disk path _ other differs)
  | inr failed ↦ rw failed refl
]

save_below-same :
    (api : SidApi) (host : Host) (profile : AccountProfile) (disk : Disk) (r : Result WideString)
    (other : WideString) {message : String}
    → host.deletes ≡ true
    → ((folder : WideString) → r ≡ ok folder → wide_eq other (directory_of folder) ≡ false)
    → (save_below api host profile disk r).1 ≡ err message
    → (save_below api host profile disk r).0 other ≡ disk other
unfolding save_below
save_below-same api host profile disk (err m) other deletes apart h = refl
save_below-same api host profile disk (ok folder) other deletes apart h =
    save_in-same api host profile folder
      (make_directory host (directory_of folder) (disk (directory_of folder)) disk) other deletes h
    ∙ make_directory-same host (directory_of folder) (disk (directory_of folder)) disk other
        (apart folder refl)

-- The folder is the known one.
profile_folder-eq :
    (api : SidApi) (folder : Option WideString) (sid : WideString) {found known : WideString}
    → folder ≡ some known
    → profile_folder api folder sid ≡ ok found
    → known ≡ found
unfolding profile_folder located
profile_folder-eq api folder sid h found =
    let (u, valid, found) = >>=-eq-ok (validate_sid api sid) _ found in ok-injective (rw h at found)

-- A save that failed leaves nothing behind: where `saveProfile` throws, whatever the reason, every
-- path other than that of the profile directory is as it was before, the temporary file included,
-- if a file that it made can be deleted.
pub save_profile_failed :
    (api : SidApi) (host : Host) (profile : AccountProfile) (disk : Disk) (folder path : WideString)
    (message : String)
    → host.deletes ≡ true
    → host.program_data ≡ some folder
    → wide_eq path (directory_of folder) ≡ false
    → (save_profile api host profile disk).1 ≡ err message
    → (save_profile api host profile disk).0 path ≡ disk path
unfolding save_profile
save_profile_failed api host profile disk folder path message deletes known apart =
    save_below-same api host profile disk
      (do
        found ← profile_folder api host.program_data profile.sid
        need host.descriptor "Cannot create restricted ACL"
        ok found)
      path deletes
      λ found h.
        let (one, at, h) = >>=-eq-ok (profile_folder api host.program_data profile.sid) _ h in
        let (made, h) = need-eq-ok host.descriptor _ _ h in
        rw (← ok-injective h, ← profile_folder-eq api host.program_data profile.sid known at) apart
