-- ===== src/Filter/Lab.antt =====
-- src/filter_lab.h: the decision policy of the isolated executable and the test DLL.
use sovereign_windows_auth.Base.{
  ℕ, zero, suc, Bool, false, not, ◌&&◌, ◌||◌, List, [], ◌∷◌, Option, none, some, ◌==◌, ◌=/=◌,
  if◌then◌else◌,
}
use sovereign_windows_auth.Filter.Types.{
  Guid, Scenario, HResult, s_ok, e_notimpl, is_desktop, truth, is_some, clsid_sovereign_auth,
  is_convenience,
}

-- `enum class Mode`: a cast can give it any number.
abbrev pub Mode : Type 0
Mode = ℕ

abbrev pub disabled : Mode
disabled = 0

abbrev pub diagnostic : Mode
diagnostic = 1

abbrev pub simulate_restriction : Mode
simulate_restriction = 2

pub record Preconditions : Type 0 where
  pub recovery_verified : Bool
  pub account_scope_verified : Bool
  pub inventory_reviewed : Bool

-- A loop over the first `count` entries of both arrays. Where an array is shorter than
-- `count`, the source reads out of bounds; the model stops.
unfoldable pub sovereign_available : ℕ → List Guid → List ℕ → Bool
sovereign_available zero providers allow = false
sovereign_available (suc count) [] allow = false
sovereign_available (suc count) (p ∷ providers) [] = false
sovereign_available (suc count) (p ∷ providers) (a ∷ allow) =
    (p == clsid_sovereign_auth && truth a) || sovereign_available count providers allow

unfoldable pub hide_convenience : ℕ → List Guid → List ℕ → List ℕ
hide_convenience zero providers allow = allow
hide_convenience (suc count) [] allow = allow
hide_convenience (suc count) (p ∷ providers) [] = []
hide_convenience (suc count) (p ∷ providers) (a ∷ allow) =
    (if is_convenience p then 0 else a) ∷ hide_convenience count providers allow

-- The loops of `Filter`, behind its guards.
unfoldable pub restrict : ℕ → List Guid → List ℕ → List ℕ
unfolding sovereign_available hide_convenience
restrict count providers allow =
    if sovereign_available count providers allow
    then hide_convenience count providers allow
    else allow

unfoldable pub is_passive :
    Mode → Preconditions → Scenario → ℕ → Option (List Guid) → Option (List ℕ) → Bool
is_passive mode pre scenario flags providers allow =
    mode =/= simulate_restriction
    || flags =/= 0
    || not pre.recovery_verified
    || not pre.account_scope_verified
    || not pre.inventory_reviewed
    || not (is_some providers)
    || not (is_some allow)
    || not (is_desktop scenario)

-- A null array is `none`. The result is what `Filter` returns and the decisions it leaves.
unfoldable pub filter :
    Mode
    → Preconditions
    → Scenario
    → ℕ
    → Option (List Guid)
    → Option (List ℕ)
    → ℕ
    → HResult × Option (List ℕ)
filter mode pre scenario flags (some providers) (some allow) count =
    if is_passive mode pre scenario flags (some providers) (some allow)
    then (s_ok, some allow)
    else (s_ok, some (restrict count providers allow))
filter mode pre scenario flags _ allow count = (s_ok, allow)

-- The output of `UpdateRemoteCredential` is cleared, if there is one.
unfoldable pub update_remote_credential {ℓ} : {A : Type ℓ} → A → Option A → HResult × Option A
update_remote_credential empty none = (e_notimpl, none)
update_remote_credential empty (some output) = (e_notimpl, some empty)
