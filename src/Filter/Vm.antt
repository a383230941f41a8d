-- ===== src/Filter/Vm.antt =====
-- src/filter_vm.cpp: the policy of the lab inside the test machine.
use sovereign_windows_auth.Base.{
  ℕ, zero, suc, ◌+◌, Bool, true, not, ◌&&◌, ◌||◌, List, [], ◌∷◌, Option, none, some, ◌=/=◌,
  if◌then◌else◌,
}
use sovereign_windows_auth.Filter.Types.{
  Guid, Scenario, HResult, s_ok, is_desktop, truth, is_convenience,
}
use sovereign_windows_auth.Filter.Lab
use sovereign_windows_auth.Filter.Lab.{Preconditions, simulate_restriction}
use sovereign_windows_auth.Filter.Desktop.{sovereign_present}

-- What the process reads: whether the manufacturer is QEMU, and the value `Mode`.
pub record Host : Type 0 where
  pub is_lab_vm : Bool
  pub mode : Option ℕ
  pub process_id : ℕ
  pub report_opens : Bool

unfoldable pub configured_mode : Option ℕ → ℕ
configured_mode none = 0
configured_mode (some mode) = mode

unfoldable pub excluded : ℕ → List Guid → List ℕ → ℕ
excluded zero providers allow = 0
excluded (suc count) [] allow = 0
excluded (suc count) (p ∷ providers) [] = 0
excluded (suc count) (p ∷ providers) (a ∷ allow) =
    (if is_convenience p && not (truth a) then 1 else 0) + excluded count providers allow

pub record Report : Type 0 where
  pub excluded_count : ℕ
  pub process : ℕ
  pub flags : ℕ
  pub provider_count : ℕ
  pub sovereign : ℕ

abbrev pub proven : Preconditions
proven = record {
  recovery_verified = true;
  account_scope_verified = true;
  inventory_reviewed = true;
}

pub report : Host → Scenario → ℕ → Option (List Guid) → Option (List ℕ) → ℕ → Option Report
report host scenario flags (some providers) (some allow) count =
    if is_desktop scenario && host.report_opens
    then some (record {
      excluded_count = excluded count providers allow;
      process = host.process_id;
      flags = flags;
      provider_count = count;
      sovereign = sovereign_present count providers;
    })
    else none
report host scenario flags _ allow count = none

unfoldable pub filter :
    Host
    → Scenario
    → ℕ
    → Option (List Guid)
    → Option (List ℕ)
    → ℕ
    → HResult × Option (List ℕ) × Option Report
unfolding report configured_mode
filter host scenario flags providers allow count =
    if not host.is_lab_vm || configured_mode host.mode =/= 2
    then (s_ok, allow, none)
    else (let (result, allow') =
          Lab.filter simulate_restriction proven scenario flags providers allow count in
        (result, allow', report host scenario flags providers allow' count))
