-- ===== src/Profile/Trusted.antt =====
-- src/profile.cpp: `trustedPath`.
use sovereign_windows_auth.Base.{
  Bool, true, false, not, ◌&&◌, List, [], ◌∷◌, Option, none, some, Result, err, ◌>>◌, need,
}
use sovereign_windows_auth.Core.{WideString}
use sovereign_windows_auth.Profile.Files.{
  Principal, administrators, local_system, another, Ace, Entry, Disk,
}

unfoldable pub is_privileged : Principal → Bool
is_privileged administrators = true
is_privileged local_system = true
is_privileged another = false

unfoldable pub owner_trusted : Option Principal → Bool
unfolding is_privileged
owner_trusted none = false
owner_trusted (some owner) = is_privileged owner

-- The loop over the access list.
unfoldable pub aces_trusted : List Ace → Bool
unfolding is_privileged
aces_trusted [] = true
aces_trusted (ace ∷ aces) =
    (ace.readable && ace.allows) && (is_privileged ace.principal && aces_trusted aces)

-- No list at all stands for access by everybody.
unfoldable pub acl_trusted : Option (List Ace) → Bool
unfolding aces_trusted
acl_trusted none = false
acl_trusted (some aces) = aces_trusted aces

unfoldable pub trusted : Option Entry → Result (Unit {0})
unfolding acl_trusted owner_trusted
trusted none = err "Missing or redirected protected path"
trusted (some entry) = do
  need (not entry.inspection.redirected) "Missing or redirected protected path"
  need entry.inspection.readable "Cannot inspect protected path permissions"
  need
      (owner_trusted entry.inspection.owner
        && (entry.inspection.control_protected && acl_trusted entry.inspection.acl))
      "Protected path must be owned by SYSTEM/Administrators with access restricted to those identities"

unfoldable pub trusted_path : Disk → WideString → Result (Unit {0})
trusted_path disk path = trusted (disk path)
