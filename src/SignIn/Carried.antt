-- ===== src/SignIn/Carried.antt =====
-- What the reply of a sign-in carries: src/provider.cpp with src/windows_pin.cpp and
-- src/windows_auth.cpp.
use sovereign_windows_auth.Base.{
  ◌≡◌, ◌≢◌, refl, ap, subst, ◌∙◌, ℕ, ◌≤◌, ◌<◌, arith, true, not, Bool-cases, inl, inr, ◌&&◌,
  &&-elim, List, [], ◌∷◌, length, Option, none, some, ◌==◌, ==_iff, eq→==, ltb, leb, ok, need-eq-ok,
  >>=-eq-ok, ok-injective,
}
use sovereign_windows_auth.Core.{Bytes, WideString, windows_pin}
use sovereign_windows_auth.Core.Secret.{new_secret}
use sovereign_windows_auth.Filter.Types.{Scenario, is_some}
use sovereign_windows_auth.Profile.Wide.{wide_of, c_str, begins_with}
use sovereign_windows_auth.Profile.Codec.{microsoft_prefix}
use sovereign_windows_auth.Provider.Credential.{Credential}
use sovereign_windows_auth.Provider.Serialize.{Auth, authenticate}
use sovereign_windows_auth.Windows.Auth.{
  Authority, Packer, found_package, windows_authentication_package, has_value, sized, packed,
  pack_text, pack_windows_credential,
}
use sovereign_windows_auth.Windows.Pin.{PinCall, initialize, serialize}
use sovereign_windows_auth.Windows.Pin.Supplied.{IsSupplied, serialize-IsSupplied}
use sovereign_windows_auth.SignIn.{Desktop, by_pin, by_account, desktop_packing}

-- The account and the text, packed by Windows with the size that it asked for, for the package that
-- it names.
pub record IsPacked (packer : Packer) (authority : Authority) (account text : WideString)
    (auth : Auth) : Type 0 where
  pub size : ℕ
  pub linked : begins_with account microsoft_prefix ≡ true
  pub package_there : authority.auth_package ≡ some auth.auth_package
  pub asks_size : packer.size account text ≡ some size
  pub positive : 0 < size
  pub short : size ≤ 65536
  pub packs : packer.pack account text size ≡ some (auth.buffer, size)

-- A text is a PIN or a password, as the credential's profile has it, and is given to Windows as such.
pub data IsCarried (desktop : Desktop) (c : Credential) (text : WideString) (auth : Auth)
    : Type 0 where
  as_pin :
      (calls : List PinCall)
      → c.profile.kind ≡ windows_pin
      → IsSupplied desktop.pin_provider desktop.pin_answer c.profile.sid text calls auth
      → IsCarried desktop c text auth
  as_password :
      c.profile.kind ≢ windows_pin
      → IsPacked desktop.packer desktop.authority c.profile.account text auth
      → IsCarried desktop c text auth

c_str_idem : (s : WideString) → c_str (c_str s) ≡ c_str s
c_str_idem [] = refl
c_str_idem (c ∷ s) = elim (Bool-cases (c == 0)) [
  | inl end ↦ rw end refl
  | inr more ↦ rw more (rw more (ap (λ t. c ∷ t) (c_str_idem s)))
]

by_pin-IsSupplied :
    (desktop : Desktop) (users : Option ℕ) (sid text : WideString) (scenario : Scenario)
    {auth : Auth}
    → by_pin desktop users sid scenario text ≡ ok auth
    → (calls : List PinCall) × IsSupplied desktop.pin_provider desktop.pin_answer sid
        (c_str text)
        calls
        auth
unfolding by_pin
by_pin-IsSupplied desktop users sid text scenario {auth} h =
    let (windows, made, h) =
      >>=-eq-ok (initialize desktop.pin_provider (is_some users) sid scenario) _ h in
    (
      (serialize desktop.memory desktop.pin_answer (some text) windows).0.calls,
      serialize-IsSupplied desktop.memory desktop.pin_provider desktop.pin_answer (is_some users)
          sid text scenario windows auth made h,
    )

found : (o : Option ℕ) {p : ℕ} → found_package o ≡ ok p → o ≡ some p
unfolding found_package
found none h = cc
found (some q) h = ap some (ok-injective h)

sized_inv : (o : Option ℕ) {n : ℕ} → sized o ≡ ok n → (o ≡ some n) × (0 < n) × (n ≤ 65536)
unfolding sized
sized_inv none h = cc
sized_inv (some size) h =
    let (sizes, h) = need-eq-ok (not (size == 0) && leb size 65536) _ _ h in
    let same = ok-injective h in (ap some same, ground arith, ground arith)

packed_inv :
    (size : ℕ) (o : Option (Bytes × ℕ)) {b : Bytes} → packed size o ≡ ok b → o ≡ some (b, size)
unfolding packed
packed_inv size none h = cc
packed_inv size (some (buffer, reported)) {b} h =
    let (same, h) = need-eq-ok (reported == size) _ _ h in
    let is_buffer : buffer ≡ b = ok-injective h in
    let is_size : reported ≡ size = (==_iff _ _).0 same in
    ap (λ (p : Bytes × ℕ). some p) (λ i. (is_buffer i, is_size i))

by_account-IsPacked :
    (desktop : Desktop) (account text : WideString) {auth : Auth}
    → by_account desktop account text ≡ ok auth
    → IsPacked desktop.packer desktop.authority account text auth
unfolding by_account windows_authentication_package pack_windows_credential pack_text
by_account-IsPacked desktop account text {auth} h =
    let (auth_package, named, h) =
      >>=-eq-ok (windows_authentication_package desktop.authority) _ h in
    let (buffer, packs, h) =
      >>=-eq-ok (pack_windows_credential desktop.packer desktop.memory account (some text)) _ h in
    let (connects, named) = need-eq-ok desktop.authority.connects _ _ named in
    let (input, packs) =
      need-eq-ok
        ((begins_with account microsoft_prefix && ltb 17 (length account))
          && (leb (length account) 1024 && has_value (some text)))
        _ _ packs in
    let (name, rest) =
      &&-elim (begins_with account microsoft_prefix && ltb 17 (length account)) _ input in
    let (prefixed, long) = &&-elim (begins_with account microsoft_prefix) _ name in
    let (size, asked, packs) = >>=-eq-ok (sized (desktop.packer.size account text)) _ packs in
    let (room, had, packs) = >>=-eq-ok (new_secret desktop.memory size) _ packs in
    let (asks_size, positive, short) = sized_inv (desktop.packer.size account text) asked in
    let same : record { auth_package = auth_package; buffer = buffer } ≡ auth = ok-injective h in
    record {
      size = size;
      linked = prefixed;
      package_there =
          found desktop.authority.auth_package named ∙ ap (λ (a : Auth). some a.auth_package) same;
      asks_size = asks_size;
      positive = positive;
      short = short;
      packs =
          packed_inv size (desktop.packer.pack account text size) packs
          ∙ ap (λ (a : Auth). some (a.buffer, size)) same;
    }

-- What `GetSerialization` packs is the text of the bytes, up to its terminator.
pub authenticate-IsCarried :
    (desktop : Desktop) (c : Credential) (password : Bytes) {auth : Auth}
    → authenticate (desktop_packing desktop) c password ≡ ok auth
    → IsCarried desktop c (c_str (wide_of password)) auth
unfolding authenticate desktop_packing
authenticate-IsCarried desktop c password {auth} h =
    let text = c_str (wide_of password) in
    elim (Bool-cases (c.profile.kind == windows_pin)) [
      | inl e ↦
          let (calls, supplied) =
            by_pin-IsSupplied desktop c.users c.profile.sid text c.scenario (rw e at h) in
          as_pin calls ((==_iff _ _).0 e) (
            subst
              (λ t. IsSupplied desktop.pin_provider desktop.pin_answer c.profile.sid t calls auth)
              (c_str_idem (wide_of password)) supplied)
      | inr e ↦
          as_password (λ same. cc (eq→== c.profile.kind windows_pin same))
            (by_account-IsPacked desktop c.profile.account text (rw e at h))
    ]
