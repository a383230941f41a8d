-- ===== src/Windows/Auth.antt =====
-- src/windows_auth.cpp: the packing of a credential, and the authentication of what was packed. The
-- status codes in the texts of errors are left out.
pub mod Validated
use sovereign_windows_auth.Base.{
  ℕ, Bool, true, false, not, ◌&&◌, length, Option, none, some, ◌==◌, ltb, leb, Result, ok, err,
  ◌>>=◌, ◌>>◌, need,
}
use sovereign_windows_auth.Core.{Bytes, WideString}
use sovereign_windows_auth.Core.Secret.{Memory, new_secret}
use sovereign_windows_auth.Profile.Wide.{begins_with, wide_eq}
use sovereign_windows_auth.Profile.Codec.{microsoft_prefix}
use sovereign_windows_auth.Windows.Token.{Token, token_sid}

-- What the local security authority answers: whether it is connected to, the number of a package
-- (none: a failure), an identifier of the request, and a logon with a package and a buffer: whether
-- it failed, or the token, if there is one.
pub record Authority : Type 0 where
  pub connects : Bool
  pub auth_package : Option ℕ
  pub identifies : Bool
  pub logon : ℕ → Bytes → Option (Option Token)

-- `CredPackAuthenticationBufferW`: the size that it asks for (none where it does not fail for the
-- lack of room), and the buffer that it fills with the size that it reports.
pub record Packer : Type 0 where
  pub size : WideString → WideString → Option ℕ
  pub pack : WideString → WideString → ℕ → Option (Bytes × ℕ)

unfoldable pub found_package : Option ℕ → Result ℕ
found_package none = err "Windows authentication package lookup failed"
found_package (some auth_package) = ok auth_package

unfoldable pub windows_authentication_package : Authority → Result ℕ
unfolding found_package
windows_authentication_package authority = do
  need authority.connects "Windows authentication connection failed"
  found_package authority.auth_package

unfoldable pub has_value : Option WideString → Bool
has_value none = false
has_value (some text) = true

unfoldable pub sized : Option ℕ → Result ℕ
sized none = err "Windows online-identity sizing failed"
sized (some size) = do
  need (not (size == 0) && leb size 65536) "Windows online-identity sizing failed"
  ok size

unfoldable pub packed : ℕ → Option (Bytes × ℕ) → Result Bytes
packed size none = err "Windows online-identity packing failed"
packed size (some (buffer, reported)) = do
  need (reported == size) "Windows online-identity size changed"
  ok buffer

unfoldable pub pack_text : Packer → Memory → WideString → Option WideString → Result Bytes
unfolding sized packed
pack_text packer memory account none = err "Invalid Microsoft-account credential input"
pack_text packer memory account (some password) = do
  size ← sized (packer.size account password)
  room ← new_secret memory size
  packed size (packer.pack account password size)

-- The password is a pointer: none stands for null.
unfoldable pub pack_windows_credential :
    Packer → Memory → WideString → Option WideString → Result Bytes
unfolding has_value pack_text
pack_windows_credential packer memory account password = do
  need
      ((begins_with account microsoft_prefix && ltb 17 (length account))
        && (leb (length account) 1024 && has_value password))
      "Invalid Microsoft-account credential input"
  pack_text packer memory account password

unfoldable pub logged_on : Option (Option Token) → Result WideString
unfolding token_sid
logged_on none = err "Windows online-identity authentication failed"
logged_on (some none) = err "Windows returned success without an authenticated user token"
logged_on (some (some token)) = token_sid token

unfoldable pub authenticate_windows_buffer : Authority → ℕ → Bytes → Result WideString
unfolding logged_on
authenticate_windows_buffer authority auth_package buffer = do
  need (ltb 0 (length buffer) && leb (length buffer) 65536)
      "Invalid Windows authentication buffer size"
  need authority.connects "Windows authentication connection failed"
  need authority.identifies "Cannot identify authentication request"
  logged_on (authority.logon auth_package buffer)

unfoldable pub validate_windows_credential :
    Packer → Memory → Authority → WideString → Option WideString → WideString → Result (Unit {0})
validate_windows_credential packer memory authority account password expected = do
  buffer ← pack_windows_credential packer memory account password
  auth_package ← windows_authentication_package authority
  authenticated ← authenticate_windows_buffer authority auth_package buffer
  need (wide_eq authenticated expected)
      "Windows authenticated a different user; enrollment rejected"
