-- ===== src/Enroll/Prepared.antt =====
-- What an enrollment checks before its touches: src/enroll.cpp.
use sovereign_windows_auth.Base.{
  ◌≡◌, refl, sym, ap, subst, ◌∙◌, ℕ, ◌*◌, ◌≤◌, ◌<◌, arith, Bool, true, false, not, ◌&&◌, &&-elim,
  List, [], ◌∷◌, ◌++◌, length, Option, none, some, ◌==◌, ltb, leb, ltb→lt, leb→le, ok, need-ok,
  need-eq-ok, >>=-eq-ok, ok-injective,
}
use sovereign_windows_auth.Core.{WideString, KeyProfile, equal}
use sovereign_windows_auth.Core.Secret.{new_secret}
use sovereign_windows_auth.Filter.Types.{cpus_logon}
use sovereign_windows_auth.Profile.Wide.{wide_eq, wide_bytes, c_str}
use sovereign_windows_auth.Profile.Files.{Entry, Disk, wide_eq-eq}
use sovereign_windows_auth.Profile.Store.{file_of, profile_folder, is_free}
use sovereign_windows_auth.Provider.Serialize.{Auth}
use sovereign_windows_auth.Windows.Token.{current_sid}
use sovereign_windows_auth.Windows.Auth.{authenticate_windows_buffer, validate_windows_credential}
use sovereign_windows_auth.Windows.Auth.Validated.{
  IsValidated, validate_windows_credential-IsValidated,
}
use sovereign_windows_auth.Windows.Pin.{PinCall, WindowsPin, initialize, serialize}
use sovereign_windows_auth.Windows.Pin.Supplied.{IsSupplied, serialize-IsSupplied}
use sovereign_windows_auth.Enroll.{Desk, Entered, microsoft_identity}
use sovereign_windows_auth.Enroll.Command.{
  typed_pin, try_pin, enter_pin, dialog_password, entered_text, enter_credential, read_public,
  read_second, Ready, kind_of, prepare_enrollment,
}

-- What was typed in the dialog that the enrollment shows.
abbrev pub typed : Bool → Entered → Option WideString
typed true entered = entered.pin
typed false entered = elim entered.dialog [ none ↦ none | some (name, text) ↦ some text ]

-- That Windows signs the user with this SID in with the credential: with what its PIN provider made
-- of a PIN, or with a packed password.
pub data IsTested (desk : Desk) (sid account text : WideString) : Bool → Type 0 where
  pin_tested :
      (calls : List PinCall) (auth : Auth)
      → IsSupplied desk.entered.provider desk.entered.answer sid text calls auth
      → authenticate_windows_buffer desk.authority auth.auth_package auth.buffer ≡ ok sid
      → IsTested desk sid account text true
  password_tested :
      IsValidated desk.packer desk.memory desk.authority account (some text) sid
      → IsTested desk sid account text false

-- The second key, if one is given, has another credential than the first.
pub data IsSecond (desk : Desk) (first : KeyProfile)
    : Option (Option Entry) → Option KeyProfile → Type 0 where
  no_second : IsSecond desk first none none
  other_key :
      (entry : Option Entry) (key : KeyProfile)
      → read_public desk entry ≡ ok key
      → equal first.credential key.credential ≡ false
      → IsSecond desk first (some entry) (some key)

-- What is known when the touches start.
pub record IsPrepared (desk : Desk) (use_pin : Bool) (first : Option Entry)
    (second : Option (Option Entry)) (disk : Disk) (ready : Ready) : Type 0 where
  pub first_key : read_public desk first ≡ ok ready.profile.key
  pub own_sid : current_sid desk.token ≡ ok ready.profile.sid
  pub own_account : microsoft_identity desk.identity ≡ ok ready.profile.account
  pub second_key : IsSecond desk ready.profile.key second ready.second
  pub folder : WideString
  pub located : profile_folder desk.api desk.host.program_data ready.profile.sid ≡ ok folder
  pub no_profile : disk (file_of folder ready.profile.sid) ≡ none
  pub name_fits : length ready.profile.account ≤ desk.longest_name
  pub buffer : WideString
  pub was_typed : typed use_pin desk.entered ≡ some buffer
  pub not_empty : 0 < length (c_str buffer)
  pub fits : length (c_str buffer) < desk.capacity
  pub tested : IsTested desk ready.profile.sid ready.profile.account (c_str buffer) use_pin
  pub confirmed : desk.confirms_first ≡ true
  pub right_kind : ready.profile.kind ≡ kind_of use_pin
  pub terminated : ready.text ≡ wide_bytes (c_str buffer ++ (0 ∷ []))

-- What `entered_text` lets through.
pub entered_text_inv :
    (capacity : ℕ) (buffer : WideString) {text : WideString}
    → entered_text capacity buffer ≡ ok text
    → (c_str buffer ≡ text) × (0 < length (c_str buffer)) × (length (c_str buffer) < capacity)
unfolding entered_text
entered_text_inv capacity buffer h =
    let (sizes, h) =
      need-eq-ok (not (length (c_str buffer) == 0) && ltb (length (c_str buffer)) capacity) _ _ h in
    let (some_text, short) = &&-elim _ _ sizes in
    (ok-injective h, positive (length (c_str buffer)) some_text, ltb→lt _ _ short)
  where
    positive : (n : ℕ) → not (n == 0) ≡ true → 0 < n
    positive n h = ground arith

typed_pin-some : (o : Option WideString) {t : WideString} → typed_pin o ≡ ok t → o ≡ some t
unfolding typed_pin
typed_pin-some none h = cc
typed_pin-some (some text) h = ap some (ok-injective h)

dialog-typed :
    (account : WideString) (o : Option (WideString × WideString)) {t : WideString}
    → dialog_password account o ≡ ok t
    → (elim o as (λ _. Option WideString) [ none ↦ none | some (name, text) ↦ some text ]) ≡ some t
unfolding dialog_password
dialog-typed account none h = cc
dialog-typed account (some (name, text)) h =
    let (same, h) = need-eq-ok (wide_eq account name) _ _ h in ap some (ok-injective h)

is_free-none : (o : Option Entry) → is_free o ≡ true → o ≡ none
unfolding is_free
is_free-none none h = refl
is_free-none (some entry) h = cc

tried :
    (desk : Desk) (sid account text : WideString) (windows : WindowsPin)
    → initialize desk.entered.provider desk.entered.has_users sid cpus_logon ≡ ok windows
    → try_pin desk sid windows (some text) ≡ ok tt
    → IsTested desk sid account (c_str text) true
unfolding try_pin
tried desk sid account text windows made h =
    let (auth, serialized, h) =
      >>=-eq-ok (serialize desk.memory desk.entered.answer (some text) windows).1 _ h in
    let (logged_on, authenticated, h) =
      >>=-eq-ok (authenticate_windows_buffer desk.authority auth.auth_package auth.buffer) _ h in
    let same = wide_eq-eq logged_on sid (need-ok (wide_eq logged_on sid) _ h) in
    pin_tested (serialize desk.memory desk.entered.answer (some text) windows).0.calls auth
      (serialize-IsSupplied desk.memory desk.entered.provider desk.entered.answer
        desk.entered.has_users sid text cpus_logon windows auth made serialized)
      (authenticated ∙ ap ok same)

-- What the entry of a credential went through.
entered :
    (desk : Desk) (use_pin : Bool) (sid account : WideString) {text : WideString}
    → enter_credential desk use_pin sid account ≡ ok text
    → (buffer : WideString) × (typed use_pin desk.entered ≡ some buffer)
      × (c_str buffer ≡ text)
      × (0 < length (c_str buffer))
      × (length (c_str buffer) < desk.capacity)
      × IsTested desk sid account (c_str buffer) use_pin
unfolding enter_credential enter_pin
entered desk true sid account h =
    let (room, had, h) = >>=-eq-ok (new_secret desk.memory (desk.capacity * 2)) _ h in
    let (buffer, pinned, h) = >>=-eq-ok (enter_pin desk sid) _ h in
    let (text, taken, h) = >>=-eq-ok (entered_text desk.capacity buffer) _ h in
    let (is_text, low, high) = entered_text_inv desk.capacity buffer taken in
    let (windows, made, pinned) =
      >>=-eq-ok (initialize desk.entered.provider desk.entered.has_users sid cpus_logon) _ pinned in
    let (pin, was_typed, pinned) = >>=-eq-ok (typed_pin desk.entered.pin) _ pinned in
    let (u, accepted, pinned) = >>=-eq-ok (try_pin desk sid windows (some pin)) _ pinned in
    let same : pin ≡ buffer = ok-injective pinned in
    (
      buffer,
      typed_pin-some desk.entered.pin was_typed ∙ ap some same,
      is_text ∙ ok-injective h,
      low,
      high,
      subst (λ t. IsTested desk sid account (c_str t) true) same
          (tried desk sid account pin windows made accepted),
    )
entered desk false sid account h =
    let (room, had, h) = >>=-eq-ok (new_secret desk.memory (desk.capacity * 2)) _ h in
    let (buffer, shown, h) = >>=-eq-ok (dialog_password account desk.entered.dialog) _ h in
    let (text, taken, h) = >>=-eq-ok (entered_text desk.capacity buffer) _ h in
    let (is_text, low, high) = entered_text_inv desk.capacity buffer taken in
    let (u, accepted, h) =
      >>=-eq-ok
        (validate_windows_credential desk.packer desk.memory desk.authority account (some text) sid)
        _ h in
    (
      buffer,
      dialog-typed account desk.entered.dialog shown,
      is_text ∙ ok-injective h,
      low,
      high,
      password_tested (
          subst (λ t. IsValidated desk.packer desk.memory desk.authority account (some t) sid)
            (sym is_text)
            (validate_windows_credential-IsValidated desk.packer desk.memory desk.authority account
              (some text) sid accepted)),
    )

second_read :
    (desk : Desk) (first : KeyProfile) (second : Option (Option Entry)) {key : Option KeyProfile}
    → read_second desk first second ≡ ok key
    → IsSecond desk first second key
unfolding read_second
second_read desk first none h = subst (IsSecond desk first none) (ok-injective h) no_second
second_read desk first (some entry) h =
    let (key, read, h) = >>=-eq-ok (read_public desk entry) _ h in
    let (apart, h) = need-eq-ok (not (equal first.credential key.credential)) _ _ h in
    subst (IsSecond desk first (some entry)) (ok-injective h)
      (other_key entry key read (flipped _ apart))
  where
    flipped : (b : Bool) → not b ≡ true → b ≡ false
    flipped b h = ground arith

pub prepare_enrollment-IsPrepared :
    (desk : Desk) (use_pin : Bool) (first : Option Entry) (second : Option (Option Entry))
    (disk : Disk) {ready : Ready}
    → prepare_enrollment desk use_pin first second disk ≡ ok ready
    → IsPrepared desk use_pin first second disk ready
unfolding prepare_enrollment
prepare_enrollment-IsPrepared desk use_pin first second disk h =
    let (key, first_key, h) = >>=-eq-ok (read_public desk first) _ h in
    let (sid, own_sid, h) = >>=-eq-ok (current_sid desk.token) _ h in
    let (account, own_account, h) = >>=-eq-ok (microsoft_identity desk.identity) _ h in
    let (other, others, h) = >>=-eq-ok (read_second desk key second) _ h in
    let (folder, located, h) = >>=-eq-ok (profile_folder desk.api desk.host.program_data sid) _ h in
    let (free, h) = need-eq-ok (is_free (disk (file_of folder sid))) _ _ h in
    let (name_fits, h) = need-eq-ok (leb (length account) desk.longest_name) _ _ h in
    let (text, taken, h) = >>=-eq-ok (enter_credential desk use_pin sid account) _ h in
    let (confirmed, h) = need-eq-ok desk.confirms_first _ _ h in
    let (buffer, was_typed, is_text, low, high, tested) = entered desk use_pin sid account taken in
    subst (IsPrepared desk use_pin first second disk) (ok-injective h) (record {
      first_key = first_key;
      own_sid = own_sid;
      own_account = own_account;
      second_key = second_read desk key second others;
      folder = folder;
      located = located;
      no_profile = is_free-none _ free;
      name_fits = leb→le _ _ name_fits;
      buffer = buffer;
      was_typed = was_typed;
      not_empty = low;
      fits = high;
      tested = tested;
      confirmed = confirmed;
      right_kind = refl;
      terminated = ap (λ t. wide_bytes (t ++ (0 ∷ []))) (sym is_text);
    })
