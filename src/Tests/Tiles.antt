-- ===== src/Tests/Tiles.antt =====
-- A provider with two users, of whom one has a profile, for src/provider.cpp.
use sovereign_windows_auth.Base.{
  ◌≡◌, refl, zero, suc, true, false, List, [], ◌∷◌, some, Result, ok, err, codes, length, get_elem?,
}
use sovereign_windows_auth.Core.{WideString, AccountProfile}
use sovereign_windows_auth.Filter.Types.{cpus_logon, s_ok, is_some}
use sovereign_windows_auth.Provider.Credential.{Credential, ready}
use sovereign_windows_auth.Provider.Enumerate.{
  UserArray, Provider, Call, scenario_set, advised, users_set, counted, after_calls, enumerate,
  first_ready, get_credential_count, new_provider,
}
use sovereign_windows_auth.Provider.Enumerate.Sound.{
  IsSound, after_calls-IsSound, get_credential_count-is_ready,
}
use sovereign_windows_auth.Tests.Codecs.{sample}
use sovereign_windows_auth.Tests.Proofs.{proved}

abbrev load : WideString → Result AccountProfile
load [] = err "Cannot open account profile"
load (c ∷ sid) = ok sample

abbrev users : UserArray
users = record {
  pointer = 1;
  count = some 2;
  sid_at = λ i. elim i [ zero ↦ some (codes "S-1") | suc n ↦ some [] ];
}

abbrev calls : List Call
calls =
    scenario_set false cpus_logon
    ∷ users_set (some users)
    ∷ advised (some 2) 3
    ∷ counted true 50
    ∷ []

abbrev one_tile : Provider
one_tile = record {
  events = some 2;
  users = some users;
  context = 3;
  credentials = proved ∷ [];
  enumerated = true;
  supported = true;
  scenario = cpus_logon;
}

asked_once : get_credential_count true load 200 one_tile ≡ (s_ok, some (1, 0, true), one_tile)
unfolding get_credential_count enumerate first_ready ready
asked_once = refl

after_calls-IsSound_example : IsSound (after_calls load calls new_provider)
after_calls-IsSound_example = after_calls-IsSound load calls

get_credential_count-is_ready_example :
    (c : Credential) × (get_elem? one_tile.credentials 0 ≡ some c)
    × (is_some c.ready_password ≡ true)
    × (1 ≡ length one_tile.credentials)
get_credential_count-is_ready_example =
    get_credential_count-is_ready load 200 one_tile one_tile s_ok 1 0 asked_once
