-- ===== src/Bridge/Single.antt =====
-- The one user of the tile of src/pin_bridge_vm.cpp.
use sovereign_windows_auth.Base.{
  ◌≡◌, refl, sym, ap, ◌∙◌, inl, inr, ℕ, zero, suc, ◌+◌, ◌≤◌, Bool, true, false, not, ◌||◌, length,
  Option, none, some, some-injective, ◌==◌, ltb, if◌then◌else◌, subst, Bool-cases, arith,
}
use sovereign_windows_auth.Core.{WideString}
use sovereign_windows_auth.Filter.Types.{HResult}
use sovereign_windows_auth.Provider.Enumerate.{UserArray}
use sovereign_windows_auth.Bridge.Tile.{LabMachine, LabCredential, lab_armed, new_lab_credential}
use sovereign_windows_auth.Bridge.Users.{
  LabProvider, has_sid, find_lab_user, no_tile, after_search, search_users, search_expected,
  count_armed, is_invalid, count_tiles,
}

-- How many of the users, from `i` on, have a SID.
abbrev pub users_with : WideString → UserArray → ℕ → ℕ → ℕ
users_with expected users zero i = 0
users_with expected users (suc rounds) i =
    (if has_sid expected (users.sid_at i) then 1 else 0) + users_with expected users rounds (suc i)

found_none_more :
    (expected : WideString) (tile other found : LabCredential) (users : UserArray) (rounds i : ℕ)
    → find_lab_user expected tile users rounds i (some other) ≡ some (some found)
    → (users_with expected users rounds i ≡ 0) × (other ≡ found)
unfolding find_lab_user
found_none_more expected tile other found users zero i h = (refl, some-injective (some-injective h))
found_none_more expected tile other found users (suc rounds) i h =
    elim (Bool-cases (has_sid expected (users.sid_at i))) [
      | inl e ↦ cc (rw (e, find_lab_user) at h)
      | inr e ↦
          let (rest, same) =
            found_none_more expected tile other found users rounds (suc i)
              (rw (e, find_lab_user) at h) in
          (rw e (omega arith), same)
    ]

found_once :
    (expected : WideString) (tile found : LabCredential) (users : UserArray) (rounds i : ℕ)
    → find_lab_user expected tile users rounds i none ≡ some (some found)
    → (users_with expected users rounds i ≡ 1) × (tile ≡ found)
unfolding find_lab_user
found_once expected tile found users zero i h = cc (some-injective h)
found_once expected tile found users (suc rounds) i h =
    elim (Bool-cases (has_sid expected (users.sid_at i))) [
      | inl e ↦
          let (rest, same) =
            found_none_more expected tile tile found users rounds (suc i)
              (rw (e, find_lab_user) at h) in
          (rw e (omega arith), same)
      | inr e ↦
          let (rest, same) =
            found_once expected tile found users rounds (suc i) (rw (e, find_lab_user) at h) in
          (rw e (omega arith), same)
    ]

-- What a new tile stands for: the SID that the key names is that of exactly one of at most 256
-- users, and the tile is made for it.
pub record IsSingle (expected : Option WideString) (p p' : LabProvider) : Type 0 where
  pub sid : WideString
  pub users : UserArray
  pub total : ℕ
  pub named : expected ≡ some sid
  pub given : p.users ≡ some users
  pub counted : users.count ≡ some total
  pub few : total ≤ 256
  pub only : users_with sid users total 0 ≡ 1
  pub made : p'.tile ≡ some (new_lab_credential (some users.pointer) sid p.scenario)

not_above : {n : ℕ} → ltb 256 n ≡ false → n ≤ 256
not_above h = ground arith

abbrev Counted : Type 0
Counted = HResult × (ℕ × ℕ × Bool) × LabProvider

-- The count that a call tells.
abbrev told : Counted → ℕ
told r = r.1.0

after_search_single :
    (found : Option (Option LabCredential)) (p : LabProvider)
    → told (after_search found p) ≡ 1
    → (tile : LabCredential) × (found ≡ some (some tile))
      × ((after_search found p).2.tile ≡ some tile)
unfolding after_search
after_search_single none p h = absurd (omega arith)
after_search_single (some none) p h = absurd (omega arith)
after_search_single (some (some tile)) p h = (tile, refl, refl)

search_single :
    (sid : WideString) (users : UserArray) (count : Option ℕ) (p : LabProvider)
    → told (search_users sid users count p) ≡ 1
    → (total : ℕ) × (count ≡ some total)
      × (total ≤ 256)
      × (users_with sid users total 0 ≡ 1)
      × ((search_users sid users count p).2.tile
          ≡ some (new_lab_credential (some users.pointer) sid p.scenario))
unfolding search_users
search_single sid users none p h = absurd (omega arith)
search_single sid users (some total) p h = elim (Bool-cases (ltb 256 total)) [
  | inl e ↦ absurd (omega (arith, rw e at h))
  | inr e ↦
      let (tile, found, kept) = after_search_single _ p (rw e at h) in
      let (only, same) = found_once sid _ tile users total 0 found in
      (total, refl, not_above e, only, rw e (kept ∙ ap some (sym same)))
]

record Search (expected : Option WideString) (users : UserArray) (p : LabProvider) : Type 0 where
  sid : WideString
  total : ℕ
  named : expected ≡ some sid
  counted : users.count ≡ some total
  few : total ≤ 256
  only : users_with sid users total 0 ≡ 1
  made :
      (search_expected expected users p).2.tile
      ≡ some (new_lab_credential (some users.pointer) sid p.scenario)

expected_single :
    (expected : Option WideString) (users : UserArray) (p : LabProvider)
    → told (search_expected expected users p) ≡ 1
    → Search expected users p
unfolding search_expected
expected_single none users p h = absurd (omega arith)
expected_single (some sid) users p h = elim (Bool-cases (length sid == 0)) [
  | inl e ↦ absurd (omega (arith, rw e at h))
  | inr e ↦
      let (total, counted, few, only, made) = search_single sid users users.count p (rw e at h) in
      record {
        sid = sid;
        total = total;
        named = refl;
        counted = counted;
        few = few;
        only = only;
        made = rw e made;
      }
]

armed_single :
    (expected : Option WideString) (users : Option UserArray) (p : LabProvider)
    → told (count_armed expected users none p) ≡ 1
    → (array : UserArray) × (users ≡ some array)
      × Search expected array p
      × (count_armed expected users none p ≡ search_expected expected array p)
unfolding count_armed
armed_single expected none p h = absurd (omega arith)
armed_single expected (some users) p h = (users, refl, expected_single expected users p h, refl)

armed_of : (a b : Bool) → (not a || b) ≡ false → a ≡ true
armed_of a b h = ground arith

first_output : Option (ℕ × ℕ × Bool) → ℕ
first_output none = 0
first_output (some outputs) = outputs.0

count_armed_tiles :
    (machine : LabMachine) (expected : Option WideString) (p : LabProvider)
    → (not (lab_armed machine) || is_invalid p.scenario) ≡ false
    → count_tiles true machine expected p ≡ (
      (count_armed expected p.users p.tile p).0,
      some (count_armed expected p.users p.tile p).1,
      (count_armed expected p.users p.tile p).2,
    )
unfolding count_tiles
count_armed_tiles machine expected p h = simp h

count_unarmed_tiles :
    (machine : LabMachine) (expected : Option WideString) (p : LabProvider)
    → (not (lab_armed machine) || is_invalid p.scenario) ≡ true
    → (count_tiles true machine expected p).1 ≡ some no_tile
unfolding count_tiles
count_unarmed_tiles machine expected p h = simp h

-- The lab's tile is one user's: where the provider of the test machine has no tile and tells that
-- there is one, the machine is armed, the key names a SID that exactly one of at most 256 users has,
-- and the new tile is for these users, that SID and the scenario that was set.
pub count_tiles-IsSingle :
    (machine : LabMachine) (expected : Option WideString) (p : LabProvider) (selected : ℕ)
    (automatic : Bool)
    → p.tile ≡ none
    → (count_tiles true machine expected p).1 ≡ some (1, selected, automatic)
    → (lab_armed machine ≡ true) × IsSingle expected p (count_tiles true machine expected p).2
unfolding first_output
count_tiles-IsSingle machine expected p selected automatic empty h =
    elim (Bool-cases (not (lab_armed machine) || is_invalid p.scenario)) [
      | inl e ↦
          let shown : some no_tile ≡ some (1, selected, automatic) =
            sym (count_unarmed_tiles machine expected p e) ∙ h in
          absurd (omega (arith, ap first_output shown))
      | inr e ↦
          let same = count_armed_tiles machine expected p e in
          let one : told (count_armed expected p.users p.tile p) ≡ 1 =
            ap first_output (rw same at h) in
          let (array, given, found, through) = armed_single expected p.users p (
            subst (λ (t : Option LabCredential). told (count_armed expected p.users t p) ≡ 1) empty
              one) in
          let here : count_armed expected p.users p.tile p ≡ search_expected expected array p =
            ap (λ (t : Option LabCredential). count_armed expected p.users t p) empty ∙ through in
          (
            armed_of _ _ e,
            record {
              sid = found.sid;
              users = array;
              total = found.total;
              named = found.named;
              given = given;
              counted = found.counted;
              few = found.few;
              only = found.only;
              made =
                  ap (λ (r : HResult × Option (ℕ × ℕ × Bool) × LabProvider). r.2.tile) same
                  ∙ ap (λ (r : Counted). r.2.tile) here
                  ∙ found.made;
            },
          )
    ]
