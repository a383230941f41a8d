-- ===== src/Windows/Auth/Validated.antt =====
-- What a validated credential stands for: src/windows_auth.cpp.
use sovereign_windows_auth.Base.{
  ℕ, ◌≡◌, refl, ap, ◌∙◌, ◌&&◌, length, ltb, leb, Option, none, some, ok, need-ok, need-eq-ok,
  >>=-eq-ok, ok-injective,
}
use sovereign_windows_auth.Core.{Bytes, WideString}
use sovereign_windows_auth.Core.Secret.{Memory}
use sovereign_windows_auth.Profile.Files.{wide_eq-eq}
use sovereign_windows_auth.Windows.Token.{Token, formatted, token_sid}
use sovereign_windows_auth.Windows.Auth.{
  Authority, Packer, found_package, windows_authentication_package, pack_windows_credential,
  logged_on, authenticate_windows_buffer, validate_windows_credential,
}

-- That Windows logged a user on with what was packed, under the package that it names.
pub record IsValidated (packer : Packer) (memory : Memory) (authority : Authority)
    (account : WideString) (password : Option WideString) (expected : WideString) : Type 0 where
  pub buffer : Bytes
  pub auth_package : ℕ
  pub token : Token
  pub packed_there : pack_windows_credential packer memory account password ≡ ok buffer
  pub package_there : authority.auth_package ≡ some auth_package
  pub logon : authority.logon auth_package buffer ≡ some (some token)
  pub identity : token.text ≡ some expected

found_package-some : (o : Option ℕ) {p : ℕ} → found_package o ≡ ok p → o ≡ some p
unfolding found_package
found_package-some none h = cc
found_package-some (some q) h = ap some (ok-injective h)

formatted-some : (o : Option WideString) {t : WideString} → formatted o ≡ ok t → o ≡ some t
unfolding formatted
formatted-some none h = cc
formatted-some (some q) h = ap some (ok-injective h)

logged_on-some :
    (o : Option (Option Token)) {sid : WideString}
    → logged_on o ≡ ok sid
    → (token : Token) × (o ≡ some (some token)) × (token.text ≡ some sid)
unfolding logged_on token_sid
logged_on-some none h = cc
logged_on-some (some none) h = cc
logged_on-some (some (some token)) h =
    let (sized, h) = need-eq-ok (ltb 0 token.size && leb token.size 65536) _ _ h in
    let (read, h) = need-eq-ok token.reads _ _ h in (token, refl, formatted-some token.text h)

-- A credential is enrolled for the user that it signs in: where `validateWindowsCredential` returns,
-- Windows logged on with the very buffer that the account and the password pack to, and the token
-- that it gave has the expected SID.
pub validate_windows_credential-IsValidated :
    (packer : Packer) (memory : Memory) (authority : Authority) (account : WideString)
    (password : Option WideString) (expected : WideString)
    → validate_windows_credential packer memory authority account password expected ≡ ok tt
    → IsValidated packer memory authority account password expected
unfolding validate_windows_credential windows_authentication_package authenticate_windows_buffer
validate_windows_credential-IsValidated packer memory authority account password expected h =
    let (buffer, packs, h) =
      >>=-eq-ok (pack_windows_credential packer memory account password) _ h in
    let (auth_package, found, h) = >>=-eq-ok (windows_authentication_package authority) _ h in
    let (sid, authenticated, h) =
      >>=-eq-ok (authenticate_windows_buffer authority auth_package buffer) _ h in
    let same = wide_eq-eq sid expected (need-ok _ _ h) in
    let (connects, found) = need-eq-ok authority.connects _ _ found in
    let (sizes, authenticated) =
      need-eq-ok (ltb 0 (length buffer) && leb (length buffer) 65536) _ _ authenticated in
    let (connects, authenticated) = need-eq-ok authority.connects _ _ authenticated in
    let (identified, authenticated) = need-eq-ok authority.identifies _ _ authenticated in
    let (token, logon, identity) =
      logged_on-some (authority.logon auth_package buffer) authenticated in
    record {
      buffer = buffer;
      auth_package = auth_package;
      token = token;
      packed_there = packs;
      package_there = found_package-some authority.auth_package found;
      logon = logon;
      identity = identity ∙ ap some same;
    }
