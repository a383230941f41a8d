-- ===== src/Filter/Policy/Machine.antt =====
-- What the filter of the test machine does, as a whole, src/filter_vm.cpp, and how the policy of
-- src/filter_lab.h and that of src/desktop_filter_policy.h agree.
use sovereign_windows_auth.Base.{
  ◌≡◌, ℕ, ◌≤◌, Bool, true, false, not, ◌&&◌, ◌||◌, List, Option, none, some, ◌==◌, ◌=/=◌,
  if◌then◌else◌, get_elem?, Bool-cases, arith,
}
use sovereign_windows_auth.Base.{inl, inr}
use sovereign_windows_auth.Filter.Types.{Guid, Scenario, s_ok}
use sovereign_windows_auth.Filter.Lab
use sovereign_windows_auth.Filter.Lab.{
  Preconditions, hide_convenience, sovereign_available, restrict, is_passive,
}
use sovereign_windows_auth.Filter.Desktop.{apply, is_inapplicable, require_key}
use sovereign_windows_auth.Filter.Policy.Counts.{decisions}
use sovereign_windows_auth.Filter.Vm
use sovereign_windows_auth.Filter.Pointwise.{hidden}
use sovereign_windows_auth.Filter.Policy.Restricts.{restricts, filter_eq, lab_filter-get}
use sovereign_windows_auth.Filter.Policy.Forces.{apply_eq, start}

guarded_off : (v : Bool) (m : ℕ) (r : Bool) → (not v || m =/= 2) ≡ true → (v && m == 2 && r) ≡ false
guarded_off v m r h = ground arith

guarded_on : (v : Bool) (m : ℕ) (r : Bool) → (not v || m =/= 2) ≡ false → (v && m == 2 && r) ≡ r
guarded_on v m r h = ground arith

-- The filter of the test machine, entry by entry: the result is S_OK, and an entry keeps its
-- decision unless the machine is the lab's, the mode is configured as 2 and the lab's filter,
-- with every precondition set, restricts; then a convenience provider below the count gets 0.
pub vm_filter-get :
    (host : Vm.Host) (scenario : Scenario) (flags count : ℕ) (providers : List Guid)
    (allow : List ℕ) (i : ℕ) (p : Guid) (a : ℕ)
    → get_elem? providers i ≡ some p
    → get_elem? allow i ≡ some a
    → (allow' : List ℕ) × (r : Option Vm.Report) × (Vm.filter host scenario flags
          (some providers)
          (some allow)
          count
        ≡ (s_ok, some allow', r))
      × (get_elem? allow' i
          ≡ some (
              if host.is_lab_vm
                && Vm.configured_mode host.mode == 2
                && restricts Lab.simulate_restriction Vm.proven scenario flags count providers allow
              then hidden count i p a
              else a))
unfolding Vm.filter
vm_filter-get host scenario flags count providers allow i p a hp ha =
    elim (Bool-cases (not host.is_lab_vm || Vm.configured_mode host.mode =/= 2)) [
      | inl e ↦ (
        allow,
        none,
        rw e,
        rw
            (guarded_off host.is_lab_vm (Vm.configured_mode host.mode)
              (restricts Lab.simulate_restriction Vm.proven scenario flags count providers allow) e)
            ha,
      )
      | inr e ↦
          let (allow', f, l, g) =
            lab_filter-get Lab.simulate_restriction Vm.proven scenario flags count providers allow i
              p a hp ha in
          (
            allow',
            Vm.report host scenario flags (some providers) (some allow') count,
            rw e (rw f),
            rw
                (guarded_on host.is_lab_vm (Vm.configured_mode host.mode)
                  (restricts Lab.simulate_restriction Vm.proven scenario flags count providers
                    allow)
                  e)
                g,
          )
    ]

applicable :
    (mode : Lab.Mode) (pre : Preconditions) (scenario : Scenario) (flags count : ℕ)
    (providers : List Guid) (allow : List ℕ)
    → count ≤ 256
    → restricts mode pre scenario flags count providers allow ≡ true
    → is_inapplicable require_key scenario flags (some providers) (some allow) count ≡ false
unfolding is_passive is_inapplicable
applicable mode pre scenario flags count providers allow hc h = ground arith

-- Where `count` is at most 256 and the lab's filter restricts, it leaves the decisions that the
-- installed policy leaves in the mode RequireKey.
pub filters_agree :
    (mode : Lab.Mode) (pre : Preconditions) (scenario : Scenario) (flags count : ℕ)
    (providers : List Guid) (allow : List ℕ)
    → count ≤ 256
    → restricts mode pre scenario flags count providers allow ≡ true
    → (Lab.filter mode pre scenario flags (some providers) (some allow) count).1
      ≡ (apply require_key scenario flags (some providers) (some allow) count).1
filters_agree mode pre scenario flags count providers allow hc h =
    rw (filter_eq mode pre scenario flags count providers allow) (
      rw h (
        rw
          (apply_eq require_key scenario flags count providers allow
            (applicable mode pre scenario flags count providers allow hc h))
          (rw (decisions require_key count providers allow start))))
