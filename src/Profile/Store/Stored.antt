-- ===== src/Profile/Store/Stored.antt =====
-- The file that a save leaves, and its directory: src/profile.cpp.
use sovereign_windows_auth.Base.{
  ◌≡◌, refl, sym, ap, ◌∙◌, arith, false, Bool-cases, inl, inr, [], ◌∷◌, ◌++◌, codes, ◌&&◌, &&-elim,
  ◌==◌, ==_iff, none, some, length, length-append, take, Result, ok, err, need-ok, need-eq-ok,
  >>=-eq-ok,
}
use sovereign_windows_auth.Core.{Bytes, WideString}
use sovereign_windows_auth.Profile.Wide.{wide_eq}
use sovereign_windows_auth.Profile.Files.{
  Entry, Disk, put, remove, move, get-put, get-put_other, get-remove_other, wide_eq-shorter,
}
use sovereign_windows_auth.Profile.Trusted.{trusted, trusted_path}
use sovereign_windows_auth.Profile.Store.{
  Host, directory_of, file_of, is_free, finish_save, temporary_entry, write_made, write_file,
  check_temporary,
}
use sovereign_windows_auth.Profile.Store.Keeps.{is_free-none}

take_all : (b : Bytes) → take (length b) b ≡ b
take_all [] = refl
take_all (x ∷ b) = ap (λ t. x ∷ t) (take_all b)

-- The names are different: each is a longer one than that before it.
directory-file :
    (folder sid : WideString) → wide_eq (directory_of folder) (file_of folder sid) ≡ false
unfolding file_of
directory-file folder sid =
    wide_eq-shorter (directory_of folder) _
      (omega (arith, length-append (directory_of folder) (codes "\\" ++ (sid ++ codes ".swa"))))

-- The disk that a successful save leaves at the two paths that a load reads.
pub record IsStored (disk : Disk) (folder sid : WideString) (protected : Bytes) : Type 0 where
  pub entry : Entry
  pub at : disk (file_of folder sid) ≡ some entry
  pub content : entry.content ≡ some protected
  pub file_trusted : trusted_path disk (file_of folder sid) ≡ ok tt
  pub directory_trusted : trusted_path disk (directory_of folder) ≡ ok tt

check_temporary_inv :
    (host : Host) (path temporary : WideString) (protected : Bytes) (disk : Disk)
    → check_temporary host path temporary protected disk ≡ ok tt
    → (host.written ≡ length protected) × (trusted_path disk temporary ≡ ok tt) × (disk path ≡ none)
unfolding check_temporary
check_temporary_inv host path temporary protected disk h =
    let (full, h) = need-eq-ok (host.writes && host.written == length protected) _ _ h in
    let (flushed, h) = need-eq-ok host.flushes _ _ h in
    let (u, seen, h) = >>=-eq-ok (trusted_path disk temporary) _ h in
    let moved = need-ok (host.moves && is_free (disk path)) _ h in
    ((==_iff _ _).0 (&&-elim _ _ full).1, seen, is_free-none (disk path) (&&-elim _ _ moved).1)

-- A path that is neither of the two that are moved.
move_other :
    (disk : Disk) (from to other : WideString) (entry : Entry)
    → wide_eq other from ≡ false
    → wide_eq other to ≡ false
    → move (put disk from entry) from to (some entry) other ≡ disk other
unfolding move
move_other disk from to other entry a b =
    get-put_other (remove (put disk from entry) from) to entry other b
    ∙ (get-remove_other (put disk from entry) from other a ∙ get-put_other disk from entry other a)

move_target :
    (disk : Disk) (from to : WideString) (entry : Entry)
    → move (put disk from entry) from to (some entry) to ≡ some entry
unfolding move
move_target disk from to entry = get-put (remove (put disk from entry) from) to entry

directory-temporary :
    (folder sid suffix : WideString)
    → wide_eq (directory_of folder) (file_of folder sid ++ suffix) ≡ false
unfolding file_of
directory-temporary folder sid suffix = wide_eq-shorter (directory_of folder) _ (
    omega (
      arith,
      length-append (directory_of folder) (codes "\\" ++ (sid ++ codes ".swa")),
      length-append (directory_of folder ++ (codes "\\" ++ (sid ++ codes ".swa"))) suffix,
    ))

moved-IsStored :
    (host : Host) (folder sid suffix : WideString) (protected : Bytes) (disk : Disk)
    (r : Result (Unit {0}))
    → trusted_path disk (directory_of folder) ≡ ok tt
    → (r ≡ ok tt
        → (host.written ≡ length protected)
          × (trusted_path
                (put disk (file_of folder sid ++ suffix) (temporary_entry host protected))
                (file_of folder sid ++ suffix)
              ≡ ok tt))
    → (finish_save host
        (file_of folder sid)
        (file_of folder sid ++ suffix)
        (put disk (file_of folder sid ++ suffix) (temporary_entry host protected))
        r).1
      ≡ ok tt
    → IsStored
        (finish_save host
          (file_of folder sid)
          (file_of folder sid ++ suffix)
          (put disk (file_of folder sid ++ suffix) (temporary_entry host protected))
          r).0
        folder
        sid
        protected
unfolding finish_save trusted_path temporary_entry
moved-IsStored host folder sid suffix protected disk (err m) directory checked h = cc
moved-IsStored host folder sid suffix protected disk (ok _) directory checked h =
    let path = file_of folder sid in
    let temporary = path ++ suffix in
    let entry = temporary_entry host protected in
    let (written, seen) = checked refl in
    rw (get-put disk temporary entry) (record {
      entry = entry;
      at = move_target disk temporary path entry;
      content = ap some (rw written (take_all protected));
      file_trusted =
          ap trusted (move_target disk temporary path entry)
          ∙ (ap trusted (sym (get-put disk temporary entry)) ∙ seen);
      directory_trusted =
          ap trusted (
            move_other disk temporary path (directory_of folder) entry
              (directory-temporary folder sid suffix) (directory-file folder sid))
          ∙ directory;
    })

pub write_file-IsStored :
    (host : Host) (folder sid suffix : WideString) (protected : Bytes) (disk : Disk)
    → trusted_path disk (directory_of folder) ≡ ok tt
    → (write_file host (file_of folder sid) (file_of folder sid ++ suffix) protected disk).1 ≡ ok tt
    → IsStored
        (write_file host (file_of folder sid) (file_of folder sid ++ suffix) protected disk).0
        folder
        sid
        protected
unfolding write_file write_made
write_file-IsStored host folder sid suffix protected disk directory h =
    let temporary = file_of folder sid ++ suffix in
    elim (Bool-cases (host.creates && is_free (disk temporary))) [
      | inl created ↦
          let made = put disk temporary (temporary_entry host protected) in
          rw created (
            moved-IsStored host folder sid suffix protected disk
              (check_temporary host (file_of folder sid) temporary protected made) directory
              (λ checked.
                let (written, seen, free) =
                  check_temporary_inv host _ temporary protected made checked in
                (written, seen))
              (rw created at h))
      | inr refused ↦ cc (rw refused at h)
    ]
