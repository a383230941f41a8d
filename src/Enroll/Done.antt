-- ===== src/Enroll/Done.antt =====
-- What an enrollment that returned has done: src/enroll.cpp.
use sovereign_windows_auth.Base.{
  ◌≡◌, refl, sym, ap, ◌∙◌, Bool, true, Option, none, some, some-injective, Result, ok, err, need-ok,
  >>=-eq-ok,
}
use sovereign_windows_auth.Core.{Bytes, WideString, AccountProfile, equal}
use sovereign_windows_auth.Profile.Codec.{encode_profile}
use sovereign_windows_auth.Profile.Files.{Disk}
use sovereign_windows_auth.Profile.Store.{save_profile, load_profile}
use sovereign_windows_auth.Enroll.{Desk, enrolled}
use sovereign_windows_auth.Enroll.Prepared.{IsPrepared, prepare_enrollment-IsPrepared}
use sovereign_windows_auth.Enroll.Command.{
  Ready, check_saved, save_enrolled, enroll_ready, entry_at, enroll,
}

-- An enrollment that is complete: what `IsPrepared` lists held before the touches, the profile was
-- sealed by them and saved to the disk, and what is loaded from there is written as the same bytes.
pub record IsDone (desk : Desk) (use_pin : Bool) (first : WideString) (second : Option WideString)
    (before after : Disk) : Type 0 where
  pub ready : Ready
  pub profile : AccountProfile
  pub loaded : AccountProfile
  pub written : Bytes
  pub loaded_bytes : Bytes
  pub prepared : IsPrepared desk use_pin (before first) (entry_at before second) before ready
  pub made : enrolled desk ready.profile ready.second ready.text ≡ some (ok profile)
  pub saved : (save_profile desk.api desk.host profile before).1 ≡ ok tt
  pub left : (save_profile desk.api desk.host profile before).0 ≡ after
  pub loads : load_profile desk.api desk.reading after profile.sid ≡ ok loaded
  pub encoded : encode_profile desk.api profile ≡ ok written
  pub encoded_again : encode_profile desk.api loaded ≡ ok loaded_bytes
  pub same : equal written loaded_bytes ≡ true

-- What the last steps of an enrollment went through.
record IsChecked (desk : Desk) (profile : AccountProfile) (r : Disk × Result (Unit {0}))
    : Type 0 where
  saved : r.1 ≡ ok tt
  loaded : AccountProfile
  written : Bytes
  again : Bytes
  loads : load_profile desk.api desk.reading r.0 profile.sid ≡ ok loaded
  encoded : encode_profile desk.api profile ≡ ok written
  encoded_again : encode_profile desk.api loaded ≡ ok again
  same : equal written again ≡ true

check_saved-IsChecked :
    (desk : Desk) (profile : AccountProfile) (r : Disk × Result (Unit {0}))
    → (check_saved desk profile r).1 ≡ ok tt
    → IsChecked desk profile r × (r.0 ≡ (check_saved desk profile r).0)
unfolding check_saved
check_saved-IsChecked desk profile (disk, err m) h = cc
check_saved-IsChecked desk profile (disk, ok _) h =
    let (loaded, loads, h) = >>=-eq-ok (load_profile desk.api desk.reading disk profile.sid) _ h in
    let (written, encoded, h) = >>=-eq-ok (encode_profile desk.api profile) _ h in
    let (again, encoded_again, h) = >>=-eq-ok (encode_profile desk.api loaded) _ h in
    (
      record {
        saved = refl;
        loaded = loaded;
        written = written;
        again = again;
        loads = loads;
        encoded = encoded;
        encoded_again = encoded_again;
        same = need-ok (equal written again) _ h;
      },
      refl,
    )

save_enrolled_steps :
    (desk : Desk) (disk : Disk) (o : Option (Result AccountProfile)) {after : Disk}
    → save_enrolled desk disk o ≡ some (after, ok tt)
    → (profile : AccountProfile) × (o ≡ some (ok profile))
      × (check_saved desk profile (save_profile desk.api desk.host profile disk) ≡ (after, ok tt))
unfolding save_enrolled
save_enrolled_steps desk disk none h = cc
save_enrolled_steps desk disk (some (err m)) h =
    let e = ap (λ (r : Disk × Result (Unit {0})). r.1) (some-injective h) in cc
save_enrolled_steps desk disk (some (ok profile)) h = (profile, refl, some-injective h)

enroll_ready_steps :
    (desk : Desk) (disk : Disk) (r : Result Ready) {after : Disk}
    → enroll_ready desk disk r ≡ some (after, ok tt)
    → (ready : Ready) × (r ≡ ok ready)
      × (save_enrolled desk disk (enrolled desk ready.profile ready.second ready.text)
          ≡ some (after, ok tt))
unfolding enroll_ready
enroll_ready_steps desk disk (err m) h =
    let e = ap (λ (r : Disk × Result (Unit {0})). r.1) (some-injective h) in cc
enroll_ready_steps desk disk (ok ready) h = (ready, refl, h)

-- An enrollment that returned is complete: it was for the user and the linked account that Windows
-- tells; no profile of that user was on the disk before; a second key had another credential than the
-- first; the text that was typed was not empty, fitted, and Windows signed that very user in with it, as
-- a PIN or as a password; its user confirmed; the profile that the touches made of this text with its
-- terminator was saved to the disk that is left, and what `loadProfile` reads there for the user is a
-- profile that is written as the same bytes.
pub enroll-IsDone :
    (desk : Desk) (use_pin : Bool) (first : WideString) (second : Option WideString)
    (disk after : Disk)
    → enroll desk use_pin first second disk ≡ some (after, ok tt)
    → IsDone desk use_pin first second disk after
unfolding enroll
enroll-IsDone desk use_pin first second disk after h =
    let (ready, prepared, h) = enroll_ready_steps desk disk _ h in
    let (profile, made, h) = save_enrolled_steps desk disk _ h in
    let out = save_profile desk.api desk.host profile disk in
    let result = ap (λ (r : Disk × Result (Unit {0})). r.1) h in
    let left = ap (λ (r : Disk × Result (Unit {0})). r.0) h in
    let (checked, kept) = check_saved-IsChecked desk profile out result in
    record {
      ready = ready;
      profile = profile;
      loaded = checked.loaded;
      written = checked.written;
      loaded_bytes = checked.again;
      prepared =
          prepare_enrollment-IsPrepared desk use_pin (disk first) (entry_at disk second) disk
            prepared;
      made = made;
      saved = checked.saved;
      left = kept ∙ left;
      loads =
          ap (λ (d : Disk). load_profile desk.api desk.reading d profile.sid) (sym (kept ∙ left))
          ∙ checked.loads;
      encoded = checked.encoded;
      encoded_again = checked.encoded_again;
      same = checked.same;
    }
