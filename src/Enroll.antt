-- ===== src/Enroll.antt =====
-- src/enroll.cpp: the enrollment of one or two keys, and the check of a saved profile.
pub mod Unlocks
pub mod Command
pub mod Prepared
pub mod Done
pub mod Accepted
use sovereign_windows_auth.Base.{
  ℕ, zero, suc, ◌*◌, Bool, true, false, not, ◌&&◌, ◌||◌, List, [], ◌∷◌, ◌++◌, length, get_or,
  Option, none, some, ◌==◌, ◌%◌, ltb, leb, if◌then◌else◌, String, Result, ok, err, ◌>>=◌, ◌>>◌,
  need,
}
use sovereign_windows_auth.Core.{
  Bytes, WideString, KeyProfile, AccountProfile, CredentialKind, windows_pin, microsoft_password,
  equal,
}
use sovereign_windows_auth.Core.Secret.{Memory, Cipher, seal, unseal}
use sovereign_windows_auth.Core.TestProfile.{parse_test_profile}
use sovereign_windows_auth.Filter.Types.{cpus_logon}
use sovereign_windows_auth.Profile.Wide.{wide_eq, wide_bytes, c_str}
use sovereign_windows_auth.Profile.Sid.{SidApi}
use sovereign_windows_auth.Profile.Codec.{
  profile_binding, encode_profile, empty_sealed, microsoft_prefix,
}
use sovereign_windows_auth.Profile.Files.{Entry, Disk}
use sovereign_windows_auth.Profile.Store.{
  Host, Reading, file_of, profile_folder, is_free, read_file, save_profile, load_profile,
}
use sovereign_windows_auth.Provider.Serialize.{Auth}
use sovereign_windows_auth.Touch.Device.{Hardware}
use sovereign_windows_auth.Touch.Sign.{touch_secret}
use sovereign_windows_auth.Windows.Token.{Token, current_sid}
use sovereign_windows_auth.Windows.Auth.{
  Authority, Packer, authenticate_windows_buffer, validate_windows_credential,
}
use sovereign_windows_auth.Windows.Pin.{PinProvider, PinAnswer, WindowsPin, initialize, serialize}

-- A request for a touch, and the line that its user enters if it stops (none: no more input).
pub record Attempt : Type 0 where
  pub hardware : Hardware
  pub line : Option WideString

-- What Windows tells of the user: the user's name and details, and in them an internet identity with
-- its principal.
pub record Identity : Type 0 where
  pub named : Bool
  pub queried : Bool
  pub principal : Option WideString

-- The two ways to enter a credential. A text is what the buffer holds.
pub record Entered : Type 0 where
  pub has_users : Bool
  pub provider : PinProvider
  pub answer : PinAnswer
  pub pin : Option WideString
  pub dialog : Option (WideString × WideString)

-- Everything that an enrollment meets: `fuel` bounds the rounds of a touch, `capacity` is that of the
-- buffer of the credential, `longest_name` that of the name's, and a confirmation is an entered line.
pub record Desk : Type 0 where
  pub api : SidApi
  pub cipher : Cipher
  pub memory : Memory
  pub fuel : ℕ
  pub token : Option Token
  pub identity : Identity
  pub longest_name : ℕ
  pub capacity : ℕ
  pub entered : Entered
  pub authority : Authority
  pub packer : Packer
  pub confirms_first : Bool
  pub first_attempts : List Attempt
  pub confirms_second : Bool
  pub second_attempts : List Attempt
  pub host : Host
  pub reading : Reading

unfoldable pub linked : Option WideString → Result WideString
linked none = err "Current user is not linked to a Microsoft identity"
linked (some principal) = ok (microsoft_prefix ++ principal)

unfoldable pub microsoft_identity : Identity → Result WideString
unfolding linked
microsoft_identity identity = do
  need identity.named "Cannot identify current Windows user"
  need identity.queried "Cannot query the linked Microsoft identity"
  linked identity.principal

-- An empty line asks for another attempt.
unfoldable pub is_retry : Option WideString → Bool
is_retry none = false
is_retry (some []) = true
is_retry (some (c ∷ line)) = false

unfoldable pub after_attempt :
    Option WideString → Option (Result Bytes) → Option (Result Bytes) → Option (Result Bytes)
unfolding is_retry
after_attempt line rest none = none
after_attempt line rest (some (ok secret)) = some (ok secret)
after_attempt line rest (some (err message)) =
    if is_retry line then rest else some (err "Key enrollment canceled")

-- The loop over the attempts; none while it waits for a further one.
unfoldable pub enroll_key : ℕ → List Attempt → KeyProfile → Option (Result Bytes)
unfolding after_attempt
enroll_key fuel [] key = none
enroll_key fuel (attempt ∷ attempts) key =
    let rest = enroll_key fuel attempts key in
    after_attempt attempt.line rest (touch_secret attempt.hardware fuel key 45000)

-- The password is sealed for a record, and opened again before it is trusted.
unfoldable pub sealed_record :
    SidApi → Cipher → Memory → String → AccountProfile → Bytes → Bytes → Result AccountProfile
sealed_record api cipher memory message profile text secret = do
  binding ← profile_binding api profile
  box ← seal cipher secret text binding
  check ← unseal cipher memory secret box binding
  need (equal check text) message
  ok (record profile { password = box })

-- What follows a touch; none while it is waited for.
unfoldable pub on_touch :
    (Bytes → Result AccountProfile) → Option (Result Bytes) → Option (Result AccountProfile)
on_touch next none = none
on_touch next (some touched) = some (touched >>= next)

unfoldable pub second_record : AccountProfile → KeyProfile → AccountProfile
second_record profile key = record profile { key = key; password = empty_sealed; additional = [] }

unfoldable pub add_second :
    SidApi → Cipher → Memory → AccountProfile → KeyProfile → Bytes → Bytes → Result AccountProfile
unfolding sealed_record second_record
add_second api cipher memory profile key text secret = do
  sealed ←
      sealed_record api cipher memory "Second key profile verification failed"
        (second_record profile key) text secret
  ok (record profile {
    additional = profile.additional ++ (record { key = key; password = sealed.password } ∷ []);
  })

unfoldable pub with_second :
    Desk
    → Option KeyProfile
    → Bytes
    → Option (Result AccountProfile)
    → Option (Result AccountProfile)
unfolding on_touch add_second enroll_key
with_second desk none text first = first
with_second desk (some key) text none = none
with_second desk (some key) text (some (err message)) = some (err message)
with_second desk (some key) text (some (ok profile)) =
    if desk.confirms_second
    then on_touch (add_second desk.api desk.cipher desk.memory profile key text)
        (enroll_key desk.fuel desk.second_attempts key)
    else some (err "Second-key enrollment canceled")

-- The profile with its sealed passwords.
unfoldable pub enrolled :
    Desk → AccountProfile → Option KeyProfile → Bytes → Option (Result AccountProfile)
unfolding with_second on_touch sealed_record enroll_key
enrolled desk profile second text = with_second desk second text (
    on_touch
      (sealed_record desk.api desk.cipher desk.memory "Encrypted profile verification failed"
        profile text)
      (enroll_key desk.fuel desk.first_attempts profile.key))
