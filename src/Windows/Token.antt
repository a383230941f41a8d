-- ===== src/Windows/Token.antt =====
-- src/profile.cpp: `tokenSid` and `currentSid`.
use sovereign_windows_auth.Base.{
  ℕ, Bool, ◌&&◌, Option, none, some, ltb, leb, Result, ok, err, ◌>>◌, need,
}
use sovereign_windows_auth.Core.{WideString}

-- What Windows answers about a token: the size of its identity, whether it is read, and its text.
pub record Token : Type 0 where
  pub size : ℕ
  pub reads : Bool
  pub text : Option WideString

unfoldable pub formatted : Option WideString → Result WideString
formatted none = err "Cannot format token SID"
formatted (some text) = ok text

unfoldable pub token_sid : Token → Result WideString
unfolding formatted
token_sid token = do
  need (ltb 0 token.size && leb token.size 65536) "Cannot query token identity"
  need token.reads "Cannot read token identity"
  formatted token.text

-- The token of the process: none if it does not open.
unfoldable pub current_sid : Option Token → Result WideString
unfolding token_sid
current_sid none = err "Cannot open current token"
current_sid (some token) = token_sid token
