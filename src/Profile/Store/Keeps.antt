-- ===== src/Profile/Store/Keeps.antt =====
-- What `saveProfile` of src/profile.cpp leaves of the disk.
use sovereign_windows_auth.Base.{
  ◌≡◌, refl, ◌∙◌, true, Bool-cases, inl, inr, ◌&&◌, &&-elim, ◌==◌, Option, none, some, length,
  Result, ok, err, need-eq-ok, need-ok, >>=-eq-ok, ◌++◌,
}
use sovereign_windows_auth.Core.{Bytes, WideString, AccountProfile}
use sovereign_windows_auth.Profile.Sid.{SidApi}
use sovereign_windows_auth.Profile.Files.{
  Entry, Disk, put, remove, move, get-put, get-put_other, get-remove_other, taken_differs,
}
use sovereign_windows_auth.Profile.Trusted.{trusted_path}
use sovereign_windows_auth.Profile.Store.{
  Host, directory_of, file_of, make_directory, is_free, check_temporary, finish_save,
  temporary_entry, write_made, write_file, prepare, save_prepared, save_in, save_below,
  save_profile,
}

pub is_free-none : (o : Option Entry) → is_free o ≡ true → o ≡ none
unfolding is_free
is_free-none none h = refl
is_free-none (some e) h = cc

-- What was on the disk is there still, as it was.
abbrev pub Keeps : Disk → Disk → Type 0
Keeps disk after =
    (path : WideString) (entry : Entry) → disk path ≡ some entry → after path ≡ some entry

put-Keeps :
    (disk : Disk) (path : WideString) (entry : Entry)
    → disk path ≡ none
    → Keeps disk (put disk path entry)
put-Keeps disk path entry free other there h =
    get-put_other disk path entry other (taken_differs disk path other free h) ∙ h

remove-Keeps :
    (disk : Disk) (path : WideString) (entry : Entry)
    → disk path ≡ none
    → Keeps disk (remove (put disk path entry) path)
remove-Keeps disk path entry free other there h =
    let differs = taken_differs disk path other free h in
    get-remove_other (put disk path entry) path other differs
    ∙ (get-put_other disk path entry other differs ∙ h)

move-Keeps :
    (disk : Disk) (from to : WideString) (entry moved : Entry)
    → disk from ≡ none
    → put disk from entry to ≡ none
    → Keeps disk (move (put disk from entry) from to (some moved))
unfolding move
move-Keeps disk from to entry moved free target other there h =
    let made = put disk from entry in
    let differs = taken_differs disk from other free h in
    let kept = get-put_other disk from entry other differs ∙ h in
    get-put_other (remove made from) to moved other (taken_differs made to other target kept)
    ∙ (get-remove_other made from other differs ∙ kept)

check_temporary-free :
    (host : Host) (path temporary : WideString) (protected : Bytes) (disk : Disk)
    → check_temporary host path temporary protected disk ≡ ok tt
    → disk path ≡ none
unfolding check_temporary
check_temporary-free host path temporary protected disk h =
    let (full, h) = need-eq-ok (host.writes && host.written == length protected) _ _ h in
    let (flushed, h) = need-eq-ok host.flushes _ _ h in
    let (u, seen, h) = >>=-eq-ok (trusted_path disk temporary) _ h in
    let moved = need-ok (host.moves && is_free (disk path)) _ h in
    is_free-none (disk path) (&&-elim _ _ moved).1

-- With the temporary file made: the rest keeps what was there before it.
write_made-Keeps :
    (host : Host) (path temporary : WideString) (protected : Bytes) (disk : Disk) (entry : Entry)
    → disk temporary ≡ none
    → (r : Result (Unit {0})) → (r ≡ ok tt → put disk temporary entry path ≡ none)
    → Keeps disk (finish_save host path temporary (put disk temporary entry) r).0
unfolding finish_save
write_made-Keeps host path temporary protected disk entry free (ok _) target =
    rw (get-put disk temporary entry)
      (move-Keeps disk temporary path entry entry free (target refl))
write_made-Keeps host path temporary protected disk entry free (err message) target =
    elim (Bool-cases host.deletes) [
      | inl deleted ↦ rw deleted (remove-Keeps disk temporary entry free)
      | inr left ↦ rw left (put-Keeps disk temporary entry free)
    ]

write_file-Keeps :
    (host : Host) (path temporary : WideString) (protected : Bytes) (disk : Disk)
    → Keeps disk (write_file host path temporary protected disk).0
unfolding write_file write_made
write_file-Keeps host path temporary protected disk =
    elim (Bool-cases (host.creates && is_free (disk temporary))) [
      | inl created ↦
          let free = is_free-none (disk temporary) (&&-elim _ _ created).1 in
          rw created (
            write_made-Keeps host path temporary protected disk (temporary_entry host protected)
              free _
              (check_temporary-free host path temporary protected
                (put disk temporary (temporary_entry host protected))))
      | inr refused ↦ rw refused (λ other there h. h)
    ]

save_prepared-Keeps :
    (host : Host) (path : WideString) (disk : Disk) (r : Result (Bytes × WideString))
    → Keeps disk (save_prepared host path disk r).0
unfolding save_prepared
save_prepared-Keeps host path disk (err message) = λ other there h. h
save_prepared-Keeps host path disk (ok (protected, suffix)) =
    write_file-Keeps host path (path ++ suffix) protected disk

save_in-Keeps :
    (api : SidApi) (host : Host) (profile : AccountProfile) (folder : WideString)
    (r : Disk × Result (Unit {0}))
    → Keeps r.0 (save_in api host profile folder r).0
unfolding save_in
save_in-Keeps api host profile folder (disk, err message) = λ other there h. h
save_in-Keeps api host profile folder (disk, ok _) =
    save_prepared-Keeps host (file_of folder profile.sid) disk
      (prepare api host profile folder disk)

make_directory-Keeps :
    (host : Host) (path : WideString) (disk : Disk) (o : Option Entry)
    → disk path ≡ o
    → Keeps disk (make_directory host path o disk).0
unfolding make_directory
make_directory-Keeps host path disk (some entry) e = λ other there h. h
make_directory-Keeps host path disk none e = elim (Bool-cases host.makes_directory) [
  | inl made ↦ rw made (put-Keeps disk path _ e)
  | inr failed ↦ rw failed (λ other there h. h)
]

save_below-Keeps :
    (api : SidApi) (host : Host) (profile : AccountProfile) (disk : Disk) (r : Result WideString)
    → Keeps disk (save_below api host profile disk r).0
unfolding save_below
save_below-Keeps api host profile disk (err message) other there h = h
save_below-Keeps api host profile disk (ok folder) other there h =
    save_in-Keeps api host profile folder
      (make_directory host (directory_of folder) (disk (directory_of folder)) disk) other there
      (make_directory-Keeps host (directory_of folder) disk _ refl other there h)

-- Saving overwrites nothing: whatever `saveProfile` returns, and whatever Windows answers to its
-- calls, every file and directory that was on the disk before is there afterwards, with its
-- content and its protection unchanged.
pub save_profile-Keeps :
    (api : SidApi) (host : Host) (profile : AccountProfile) (disk : Disk) (path : WideString)
    (entry : Entry)
    → disk path ≡ some entry
    → (save_profile api host profile disk).0 path ≡ some entry
unfolding save_profile
save_profile-Keeps api host profile disk path entry there =
    save_below-Keeps api host profile disk _ path entry there
