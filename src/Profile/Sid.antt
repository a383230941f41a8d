-- ===== src/Profile/Sid.antt =====
-- src/profile.cpp: `validateSid`, over what Windows answers.
use sovereign_windows_auth.Base.{Bool, false}
use sovereign_windows_auth.Base.{◌&&◌}
use sovereign_windows_auth.Base.{Option, none, some}
use sovereign_windows_auth.Base.{Result, err, need}
use sovereign_windows_auth.Core.{Bytes, WideString}
use sovereign_windows_auth.Profile.Wide.{wide_eq, c_str}

-- What Windows answers about SIDs: `ConvertStringSidToSidW` (none: it failed), `IsValidSid`
-- and `ConvertSidToStringSidW`. A SID is kept as its bytes.
pub record SidApi : Type 0 where
  pub string_to_sid : WideString → Option Bytes
  pub is_valid : Bytes → Bool
  pub sid_to_string : Bytes → Option WideString

unfoldable pub canonical : SidApi → WideString → Bytes → Bool
canonical api sid value = elim (api.sid_to_string value) [
  | none ↦ false
  | some text ↦ api.is_valid value && wide_eq sid text
]

unfoldable pub validate_sid : SidApi → WideString → Result (Unit {0})
unfolding canonical
validate_sid api sid = elim (api.string_to_sid (c_str sid)) [
  | none ↦ err "Invalid account SID"
  | some value ↦ need (canonical api sid value) "Noncanonical SID"
]
