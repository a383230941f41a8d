-- ===== src/Enroll/Command.antt =====
-- src/enroll.cpp: `enroll` and `verifySaved`, around the sealing of the passwords.
use sovereign_windows_auth.Base.{
  ℕ, ◌*◌, ◌-◌, ◌%◌, Bool, not, ◌&&◌, [], ◌∷◌, ◌++◌, length, get_or, Option, none, some, ◌==◌, ltb,
  leb, if◌then◌else◌, Result, ok, err, ◌>>=◌, ◌>>◌, need,
}
use sovereign_windows_auth.Core.{
  Bytes, WideString, KeyProfile, AccountProfile, CredentialKind, windows_pin, microsoft_password,
  equal,
}
use sovereign_windows_auth.Core.Secret.{new_secret}
use sovereign_windows_auth.Core.TestProfile.{parse_test_profile}
use sovereign_windows_auth.Filter.Types.{cpus_logon}
use sovereign_windows_auth.Profile.Wide.{wide_eq, wide_bytes, wide_of, c_str}
use sovereign_windows_auth.Profile.Codec.{encode_profile, empty_sealed}
use sovereign_windows_auth.Profile.Files.{Entry, Disk}
use sovereign_windows_auth.Profile.Store.{
  file_of, profile_folder, is_free, read_file, save_profile, load_profile,
}
use sovereign_windows_auth.Touch.Device.{Hardware}
use sovereign_windows_auth.Touch.Unlock.{unlock_account}
use sovereign_windows_auth.Windows.Token.{current_sid}
use sovereign_windows_auth.Windows.Auth.{authenticate_windows_buffer, validate_windows_credential}
use sovereign_windows_auth.Windows.Pin.{WindowsPin, initialize, serialize}
use sovereign_windows_auth.Enroll.{Desk, microsoft_identity, enrolled}

unfoldable pub typed_pin : Option WideString → Result WideString
typed_pin none = err "Windows PIN entry canceled"
typed_pin (some text) = ok text

-- A PIN is handed to Windows, and what it makes is authenticated.
unfoldable pub try_pin : Desk → WideString → WindowsPin → Option WideString → Result (Unit {0})
try_pin desk sid windows pin = do
  auth ← (serialize desk.memory desk.entered.answer pin windows).1
  authenticated ← authenticate_windows_buffer desk.authority auth.auth_package auth.buffer
  need (wide_eq authenticated sid) "Windows PIN authenticated another user"

unfoldable pub enter_pin : Desk → WideString → Result WideString
unfolding typed_pin try_pin
enter_pin desk sid = do
  windows ← initialize desk.entered.provider desk.entered.has_users sid cpus_logon
  text ← typed_pin desk.entered.pin
  try_pin desk sid windows (some text)
  ok text

-- The PIN of a profile that was unlocked.
unfoldable pub check_pin : Desk → WideString → Option WideString → Result (Unit {0})
unfolding try_pin
check_pin desk sid pin = do
  windows ← initialize desk.entered.provider desk.entered.has_users sid cpus_logon
  try_pin desk sid windows pin

unfoldable pub dialog_password : WideString → Option (WideString × WideString) → Result WideString
dialog_password account none = err "Enrollment dialog canceled or unavailable"
dialog_password account (some (name, text)) = do
  need (wide_eq account name) "Enrollment identity was changed"
  ok text

-- The text in the buffer, up to its terminator, which must be there.
unfoldable pub entered_text : ℕ → WideString → Result WideString
entered_text capacity buffer = do
  need (not (length (c_str buffer) == 0) && ltb (length (c_str buffer)) capacity)
      "Empty or invalid Windows credential"
  ok (c_str buffer)

unfoldable pub enter_credential : Desk → Bool → WideString → WideString → Result WideString
unfolding enter_pin dialog_password entered_text
enter_credential desk use_pin sid account = do
  room ← new_secret desk.memory (desk.capacity * 2)
  buffer ← (if use_pin then enter_pin desk sid else dialog_password account desk.entered.dialog)
  text ← entered_text desk.capacity buffer
  if use_pin
      then ok tt
      else validate_windows_credential desk.packer desk.memory desk.authority account (some text)
          sid
  ok text

-- The key of a public profile.
unfoldable pub read_public : Desk → Option Entry → Result KeyProfile
read_public desk entry = do bytes ← read_file desk.reading 4096 entry; parse_test_profile bytes

unfoldable pub read_second : Desk → KeyProfile → Option (Option Entry) → Result (Option KeyProfile)
unfolding read_public
read_second desk first none = ok none
read_second desk first (some entry) = do
  key ← read_public desk entry
  need (not (equal first.credential key.credential))
      "The second key duplicates the first credential"
  ok (some key)

-- What an enrollment starts its touches with: the profile without a password, the second key, and
-- the bytes to seal, with their terminator.
pub record Ready : Type 0 where
  pub profile : AccountProfile
  pub second : Option KeyProfile
  pub text : Bytes

unfoldable pub kind_of : Bool → CredentialKind
kind_of use_pin = if use_pin then windows_pin else microsoft_password

unfoldable pub prepare_enrollment :
    Desk → Bool → Option Entry → Option (Option Entry) → Disk → Result Ready
unfolding read_second read_public enter_credential kind_of is_free
prepare_enrollment desk use_pin first second disk = do
  key ← read_public desk first
  sid ← current_sid desk.token
  account ← microsoft_identity desk.identity
  second_key ← read_second desk key second
  folder ← profile_folder desk.api desk.host.program_data sid
  need (is_free (disk (file_of folder sid)))
      "A profile already exists. This enrollment tool will not overwrite it."
  need (leb (length account) desk.longest_name) "Account name is too long"
  text ← enter_credential desk use_pin sid account
  need desk.confirms_first "Enrollment canceled"
  ok (record {
    profile = record {
      kind = kind_of use_pin;
      key = key;
      sid = sid;
      account = account;
      password = empty_sealed;
      additional = [];
    };
    second = second_key;
    text = wide_bytes (text ++ (0 ∷ []));
  })

-- The saved profile is loaded again and compared.
unfoldable pub check_saved :
    Desk → AccountProfile → Disk × Result (Unit {0}) → Disk × Result (Unit {0})
check_saved desk profile (disk, err message) = (disk, err message)
check_saved desk profile (disk, ok _) = (
  disk,
  do
    reloaded ← load_profile desk.api desk.reading disk profile.sid
    written ← encode_profile desk.api profile
    read ← encode_profile desk.api reloaded
    need (equal written read) "Saved profile verification failed",
)

unfoldable pub save_enrolled :
    Desk → Disk → Option (Result AccountProfile) → Option (Disk × Result (Unit {0}))
unfolding check_saved
save_enrolled desk disk none = none
save_enrolled desk disk (some (err message)) = some (disk, err message)
save_enrolled desk disk (some (ok profile)) =
    some (check_saved desk profile (save_profile desk.api desk.host profile disk))

unfoldable pub enroll_ready : Desk → Disk → Result Ready → Option (Disk × Result (Unit {0}))
unfolding save_enrolled
enroll_ready desk disk (err message) = some (disk, err message)
enroll_ready desk disk (ok ready) =
    save_enrolled desk disk (enrolled desk ready.profile ready.second ready.text)

unfoldable pub entry_at : Disk → Option WideString → Option (Option Entry)
entry_at disk none = none
entry_at disk (some path) = some (disk path)

-- None while a further attempt is waited for.
unfoldable pub enroll :
    Desk → Bool → WideString → Option WideString → Disk → Option (Disk × Result (Unit {0}))
unfolding enroll_ready prepare_enrollment entry_at
enroll desk use_pin first second disk =
    enroll_ready desk disk
      (prepare_enrollment desk use_pin (disk first) (entry_at disk second) disk)

-- Whether decrypted bytes are a text with its terminator.
unfoldable pub is_text : Bytes → Bool
is_text bytes =
    leb 4 (length bytes)
    && (length bytes % 2 == 0 && get_or (wide_of bytes) (length (wide_of bytes) - 1) 1 == 0)

unfoldable pub check_unlocked : Desk → AccountProfile → Bytes → Result (Unit {0})
unfolding is_text check_pin
check_unlocked desk profile bytes = do
  need (is_text bytes) "Invalid decrypted Windows credential encoding"
  if profile.kind == windows_pin
      then check_pin desk profile.sid (some (wide_of bytes))
      else validate_windows_credential desk.packer desk.memory desk.authority profile.account
          (some (c_str (wide_of bytes))) profile.sid

unfoldable pub after_unlock :
    Desk → AccountProfile → Option (Result Bytes) → Option (Result (Unit {0}))
unfolding check_unlocked
after_unlock desk profile none = none
after_unlock desk profile (some opened) = some (opened >>= check_unlocked desk profile)

unfoldable pub after_load : Desk → Hardware → Result AccountProfile → Option (Result (Unit {0}))
unfolding after_unlock
after_load desk hardware (err message) = some (err message)
after_load desk hardware (ok profile) =
    after_unlock desk profile
      (unlock_account desk.api desk.cipher desk.memory hardware desk.fuel profile 45000)

unfoldable pub verify_saved : Desk → Hardware → Disk → Option (Result (Unit {0}))
unfolding after_load
verify_saved desk hardware disk =
    after_load desk hardware
      do sid ← current_sid desk.token; load_profile desk.api desk.reading disk sid
