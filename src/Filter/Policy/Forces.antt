-- ===== src/Filter/Policy/Forces.antt =====
-- What the installed filter does, as a whole: src/desktop_filter_policy.h and
-- src/desktop_filter.cpp.
use sovereign_windows_auth.Base.{
  ◌≡◌, refl, ap, ℕ, ◌+◌, Bool, true, false, not, ◌&&◌, List, Option, none, some, ◌==◌,
  if◌then◌else◌, length, get_elem?, Bool-cases, arith,
}
use sovereign_windows_auth.Base.{inl, inr}
use sovereign_windows_auth.Filter.Types.{Guid, Scenario, HResult, s_ok, is_convenience}
use sovereign_windows_auth.Filter.Desktop
use sovereign_windows_auth.Filter.Desktop.{
  Decision, no_decision, configured_mode, Mode, off, apply, apply_loop, is_inapplicable,
  require_key, observe,
}
use sovereign_windows_auth.Filter.Policy.Counts.{tally, is_key, tallies, decisions, counts}
use sovereign_windows_auth.Filter.Vm
use sovereign_windows_auth.Filter.Pointwise.{hidden, get_elem?-hide_convenience}

abbrev pub start : Decision
start = record no_decision { applicable = true }

pub apply_eq :
    (mode : Desktop.Mode) (scenario : Scenario) (flags count : ℕ) (providers : List Guid)
    (allow : List ℕ)
    → is_inapplicable mode scenario flags (some providers) (some allow) count ≡ false
    → apply mode scenario flags (some providers) (some allow) count ≡ (
      (apply_loop mode count providers allow start).0,
      some (apply_loop mode count providers allow start).1,
    )
unfolding apply
apply_eq mode scenario flags count providers allow h = rw h

apply_passive :
    (mode : Desktop.Mode) (scenario : Scenario) (flags count : ℕ) (providers : List Guid)
    (allow : List ℕ)
    → is_inapplicable mode scenario flags (some providers) (some allow) count ≡ true
    → apply mode scenario flags (some providers) (some allow) count ≡ (no_decision, some allow)
unfolding apply
apply_passive mode scenario flags count providers allow h = rw h

if_get :
    (m : Bool) (xs ys : List ℕ) (i : ℕ) {x y : ℕ}
    → get_elem? xs i ≡ some x
    → get_elem? ys i ≡ some y
    → get_elem? (if m then xs else ys) i ≡ some (if m then x else y)
if_get true xs ys i hx hy = hx
if_get false xs ys i hx hy = hy

-- The installed policy forces decisions in the mode RequireKey, where the guards pass.
abbrev pub forces : Desktop.Mode → Scenario → ℕ → ℕ → List Guid → List ℕ → Bool
forces mode scenario flags count providers allow =
    not (is_inapplicable mode scenario flags (some providers) (some allow) count)
    && mode == require_key

-- The decisions of the installed policy. An entry is set to 0 when the guards of `apply` pass,
-- the mode is RequireKey, the entry is below the count and it names a convenience provider,
-- with or without an allowed key provider in the list; it is kept otherwise.
pub apply-get :
    (mode : Desktop.Mode) (scenario : Scenario) (flags count : ℕ) (providers : List Guid)
    (allow : List ℕ) (i : ℕ) (p : Guid) (a : ℕ)
    → get_elem? providers i ≡ some p
    → get_elem? allow i ≡ some a
    → (d : Decision) × (allow' : List ℕ) × (apply mode scenario flags
          (some providers)
          (some allow)
          count
        ≡ (d, some allow'))
      × (get_elem? allow' i
          ≡ some
              (if forces mode scenario flags count providers allow then hidden count i p a else a))
apply-get mode scenario flags count providers allow i p a hp ha =
    elim (Bool-cases (is_inapplicable mode scenario flags (some providers) (some allow) count)) [
      | inl e ↦
          (no_decision, allow, apply_passive mode scenario flags count providers allow e, rw e ha)
      | inr e ↦ (
        (apply_loop mode count providers allow start).0,
        (apply_loop mode count providers allow start).1,
        apply_eq mode scenario flags count providers allow e,
        rw e (
            rw (decisions mode count providers allow start) (
              if_get (mode == require_key) _ _ i
                (get_elem?-hide_convenience count providers allow i hp ha) ha)),
      )
    ]

-- The configured version is 1.
abbrev pub is_one : Option ℕ → Bool
is_one none = false
is_one (some version) = version == 1

-- A mode that cannot be read is Off.
abbrev pub mode_of : Option ℕ → ℕ
mode_of none = off
mode_of (some mode) = mode

remote_is_passive :
    (host : Desktop.Host) (scenario : Scenario) (flags count : ℕ) (providers : List Guid)
    (allow : List ℕ)
    → host.remote_session ≡ true
    → Desktop.filter host scenario flags (some providers) (some allow) count
      ≡ (s_ok, some allow, none)
unfolding Desktop.filter
remote_is_passive host scenario flags count providers allow h = rw h

either_report :
    {x : Option (List ℕ)} {y : List ℕ} (b : Bool) (r r' : Option Desktop.Report)
    → x ≡ some y
    → (r'' : Option Desktop.Report) × (◌≡◌ {A = HResult × Option (List ℕ) × Option Desktop.Report}
        (if b then (s_ok, x, r) else (s_ok, x, r'))
        (s_ok, some y, r''))
either_report true r r' h = (r, rw h)
either_report false r r' h = (r', rw h)

local_result :
    (host : Desktop.Host) (scenario : Scenario) (flags count : ℕ) (providers : List Guid)
    (allow allow' : List ℕ)
    → host.remote_session ≡ false
    → (apply
        (configured_mode host.configuration)
        scenario
        flags
        (some providers)
        (some allow)
        count).1
      ≡ some allow'
    → (r : Option Desktop.Report) × (Desktop.filter host scenario flags
          (some providers)
          (some allow)
          count
        ≡ (s_ok, some allow', r))
unfolding Desktop.filter
local_result host scenario flags count providers allow allow' h e = rw h (either_report _ _ _ e)

forces_values :
    (version mode : Option ℕ) (scenario : Scenario) (flags count : ℕ) (providers : List Guid)
    (allow : List ℕ)
    → forces
        (configured_mode (record { version = version; mode = mode }))
        scenario
        flags
        count
        providers
        allow
      ≡ (is_one version && forces (mode_of mode) scenario flags count providers allow)
unfolding configured_mode is_inapplicable
forces_values none mode scenario flags count providers allow = refl
forces_values (some v) none scenario flags count providers allow = ground arith
forces_values (some v) (some m) scenario flags count providers allow = ground arith

forces_configured :
    (c : Desktop.Configuration) (scenario : Scenario) (flags count : ℕ) (providers : List Guid)
    (allow : List ℕ)
    → forces (configured_mode c) scenario flags count providers allow
      ≡ (is_one c.version && forces (mode_of c.mode) scenario flags count providers allow)
forces_configured c scenario flags count providers allow =
    forces_values c.version c.mode scenario flags count providers allow

-- The installed filter, entry by entry: the result is S_OK, and an entry keeps its decision
-- unless the session is local, the configured version is 1, the configured mode is RequireKey,
-- the guards of `apply` pass, the entry is below the count and it names a convenience provider;
-- then it becomes 0.
pub desktop_filter-get :
    (host : Desktop.Host) (scenario : Scenario) (flags count : ℕ) (providers : List Guid)
    (allow : List ℕ) (i : ℕ) (p : Guid) (a : ℕ)
    → get_elem? providers i ≡ some p
    → get_elem? allow i ≡ some a
    → (allow' : List ℕ) × (report : Option Desktop.Report) × (Desktop.filter host scenario flags
          (some providers)
          (some allow)
          count
        ≡ (s_ok, some allow', report))
      × (get_elem? allow' i
          ≡ some (
              if not host.remote_session
                && is_one host.configuration.version
                && forces (mode_of host.configuration.mode) scenario flags count providers allow
              then hidden count i p a
              else a))
desktop_filter-get host scenario flags count providers allow i p a hp ha =
    elim (Bool-cases host.remote_session) [
      | inl e ↦
          (allow, none, remote_is_passive host scenario flags count providers allow e, rw e ha)
      | inr e ↦
          let (d, allow', q, g) =
            apply-get (configured_mode host.configuration) scenario flags count providers allow i p
              a hp ha in
          let (r, f) =
            local_result host scenario flags count providers allow allow' e (ap (λ x. x.1) q) in
          (
            allow',
            r,
            f,
            rw e (
                rw (← forces_configured host.configuration scenario flags count providers allow) g),
          )
    ]

-- The counters of the installed policy, where the guards of `apply` pass and the arrays have
-- `count` entries: `known` counts the convenience providers, `excluded` the ones of them that
-- are not allowed afterwards, and `known`, `other` and the entries of the key provider add up
-- to `count`.
pub apply-counts :
    (mode : Desktop.Mode) (scenario : Scenario) (flags count : ℕ) (providers : List Guid)
    (allow : List ℕ)
    → is_inapplicable mode scenario flags (some providers) (some allow) count ≡ false
    → length providers ≡ count
    → length allow ≡ count
    → (d : Decision) × (allow' : List ℕ) × (apply mode scenario flags
          (some providers)
          (some allow)
          count
        ≡ (d, some allow'))
      × (d.applicable ≡ true)
      × (d.known ≡ tally is_convenience count providers)
      × (d.excluded ≡ Vm.excluded count providers allow')
      × (d.known + d.other + tally is_key count providers ≡ count)
apply-counts mode scenario flags count providers allow h hp ha =
    let (k, o, e, t) = counts mode count providers allow start hp ha in
    (
      (apply_loop mode count providers allow start).0,
      (apply_loop mode count providers allow start).1,
      apply_eq mode scenario flags count providers allow h,
      t,
      omega arith,
      omega arith,
      omega (arith, tallies count providers hp),
    )
