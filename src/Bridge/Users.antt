-- ===== src/Bridge/Users.antt =====
-- src/pin_bridge_vm.cpp: the class Provider of the test machine, with one tile at most.
use sovereign_windows_auth.Base.{
  ℕ, zero, suc, Bool, true, false, not, ◌&&◌, ◌||◌, length, Option, none, some, ◌==◌, ltb,
  if◌then◌else◌,
}
use sovereign_windows_auth.Core.{WideString}
use sovereign_windows_auth.Profile.Wide.{wide_eq}
use sovereign_windows_auth.Filter.Types.{
  Scenario, cpus_invalid, HResult, s_ok, e_pointer, e_notimpl, e_invalidarg, e_fail, e_unexpected,
  is_desktop, is_some,
}
use sovereign_windows_auth.Provider.Enumerate.{UserArray, no_default}
use sovereign_windows_auth.Bridge.Tile.{
  LabMachine, LabCredential, lab_armed, new_lab_credential, e_accessdenied,
}

pub record LabProvider : Type 0 where
  pub users : Option UserArray
  pub tile : Option LabCredential
  pub scenario : Scenario

unfoldable pub new_lab_provider : LabProvider
new_lab_provider = record { users = none; tile = none; scenario = cpus_invalid }

-- A scenario that is refused leaves none.
unfoldable pub set_lab_scenario :
    LabMachine → Bool → ℕ → Scenario → LabProvider → HResult × LabProvider
set_lab_scenario machine remote_session flags scenario p =
    let p = record p { tile = none; scenario = cpus_invalid } in
    if lab_armed machine && ((flags == 0) && (not remote_session && is_desktop scenario))
    then (s_ok, record p { scenario = scenario })
    else (e_notimpl, p)

unfoldable pub set_lab_users : Option UserArray → LabProvider → HResult × LabProvider
set_lab_users users p =
    (if is_some users then s_ok else e_pointer, record p { tile = none; users = users })

unfoldable pub un_advise_lab : LabProvider → HResult × LabProvider
un_advise_lab p = (s_ok, record p { tile = none })

unfoldable pub has_sid : WideString → Option WideString → Bool
has_sid expected none = false
has_sid expected (some sid) = wide_eq expected sid

-- The body of the loop: none is a second match.
unfoldable pub join_lab_user :
    Bool → LabCredential → Option LabCredential → Option (Option LabCredential)
join_lab_user false tile found = some found
join_lab_user true tile none = some (some tile)
join_lab_user true tile (some other) = none

-- The loop over the users, from the user `i` on.
unfoldable pub find_lab_user :
    WideString
    → LabCredential
    → UserArray
    → ℕ
    → ℕ
    → Option LabCredential
    → Option (Option LabCredential)
unfolding has_sid join_lab_user
find_lab_user expected tile users zero i found = some found
find_lab_user expected tile users (suc rounds) i found =
    elim (join_lab_user (has_sid expected (users.sid_at i)) tile found) [
      | none ↦ none
      | some next ↦ find_lab_user expected tile users rounds (suc i) next
    ]

-- The outputs: the count, the selection, and whether to submit at once.
abbrev pub no_tile : ℕ × ℕ × Bool
no_tile = (0, no_default, false)

abbrev pub counted_tile : Option LabCredential → ℕ × ℕ × Bool
counted_tile none = no_tile
counted_tile (some tile) = (1, 0, false)

unfoldable pub after_search :
    Option (Option LabCredential) → LabProvider → HResult × (ℕ × ℕ × Bool) × LabProvider
after_search none p = (e_unexpected, no_tile, record p { tile = none })
after_search (some found) p = (s_ok, counted_tile found, record p { tile = found })

unfoldable pub search_users :
    WideString → UserArray → Option ℕ → LabProvider → HResult × (ℕ × ℕ × Bool) × LabProvider
unfolding find_lab_user after_search
search_users expected users none p = (e_fail, no_tile, p)
search_users expected users (some total) p =
    if ltb 256 total
    then (e_fail, no_tile, p)
    else after_search
        (find_lab_user expected (new_lab_credential (some users.pointer) expected p.scenario) users
          total 0 none)
        p

-- The SID that the key of the filter names: none where it cannot be read.
unfoldable pub search_expected :
    Option WideString → UserArray → LabProvider → HResult × (ℕ × ℕ × Bool) × LabProvider
unfolding search_users
search_expected none users p = (e_accessdenied, no_tile, p)
search_expected (some expected) users p =
    if length expected == 0
    then (e_accessdenied, no_tile, p)
    else search_users expected users users.count p

unfoldable pub count_armed :
    Option WideString
    → Option UserArray
    → Option LabCredential
    → LabProvider
    → HResult × (ℕ × ℕ × Bool) × LabProvider
unfolding search_expected
count_armed expected none tile p = (s_ok, no_tile, p)
count_armed expected (some users) (some tile) p = (s_ok, counted_tile (some tile), p)
count_armed expected (some users) none p = search_expected expected users p

abbrev pub is_invalid : Scenario → Bool
is_invalid cpus_invalid = true
is_invalid _ = false

unfoldable pub count_tiles :
    Bool
    → LabMachine
    → Option WideString
    → LabProvider
    → HResult × Option (ℕ × ℕ × Bool) × LabProvider
unfolding count_armed
count_tiles false machine expected p = (e_pointer, none, p)
count_tiles true machine expected p =
    if not (lab_armed machine) || is_invalid p.scenario
    then (s_ok, some no_tile, p)
    else (let (result, outputs, p) = count_armed expected p.users p.tile p in
        (result, some outputs, p))

unfoldable pub tile_at : Bool → ℕ → LabProvider → HResult × Option LabCredential
tile_at false index p = (e_pointer, none)
tile_at true index p =
    if (index == 0) && is_some p.tile then (s_ok, p.tile) else (e_invalidarg, none)
