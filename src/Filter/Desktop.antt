-- ===== src/Filter/Desktop.antt =====
-- src/desktop_filter_policy.h and src/desktop_filter.cpp: the policy of the installed filter.
use sovereign_windows_auth.Base.{
  ℕ, zero, suc, ◌+◌, Bool, true, false, not, ◌&&◌, ◌||◌, List, [], ◌∷◌, Option, none, some, ◌==◌,
  ◌=/=◌, ltb, if◌then◌else◌,
}
use sovereign_windows_auth.Filter.Types.{
  Guid, Scenario, HResult, s_ok, is_desktop, truth, is_some, clsid_sovereign_auth, is_convenience,
}

abbrev pub Mode : Type 0
Mode = ℕ

abbrev pub off : Mode
off = 0

abbrev pub observe : Mode
observe = 1

abbrev pub require_key : Mode
require_key = 2

-- The counters are DWORDs; `count` is at most 256, so they do not wrap.
pub record Decision : Type 0 where
  pub known : ℕ
  pub excluded : ℕ
  pub other : ℕ
  pub applicable : Bool

abbrev pub no_decision : Decision
no_decision = record { known = 0; excluded = 0; other = 0; applicable = false }

-- One entry: its new decision, and the counters.
unfoldable pub visit : Mode → Guid → ℕ → Decision → Decision × ℕ
visit mode p a d =
    if is_convenience p
    then (let a' = if mode == require_key then 0 else a in
        (
          record d {
            known = d.known + 1;
            excluded = if truth a' then d.excluded else d.excluded + 1;
          },
          a',
        ))
    else if p =/= clsid_sovereign_auth
    then (record d { other = d.other + 1 }, a)
    else (d, a)

unfoldable pub apply_loop : Mode → ℕ → List Guid → List ℕ → Decision → Decision × List ℕ
unfolding visit
apply_loop mode zero providers allow d = (d, allow)
apply_loop mode (suc count) [] allow d = (d, allow)
apply_loop mode (suc count) (p ∷ providers) [] d = (d, [])
apply_loop mode (suc count) (p ∷ providers) (a ∷ allow) d =
    let (d, a') = visit mode p a d in
    let (d, allow') = apply_loop mode count providers allow d in (d, a' ∷ allow')

unfoldable pub is_inapplicable :
    Mode → Scenario → ℕ → Option (List Guid) → Option (List ℕ) → ℕ → Bool
is_inapplicable mode scenario flags providers allow count =
    (mode =/= observe && mode =/= require_key)
    || flags =/= 0
    || not (is_some providers)
    || not (is_some allow)
    || ltb 256 count
    || not (is_desktop scenario)

unfoldable pub apply :
    Mode → Scenario → ℕ → Option (List Guid) → Option (List ℕ) → ℕ → Decision × Option (List ℕ)
apply mode scenario flags (some providers) (some allow) count =
    if is_inapplicable mode scenario flags (some providers) (some allow) count
    then (no_decision, some allow)
    else (let (d, allow') =
          apply_loop mode count providers allow (record no_decision { applicable = true }) in
        (d, some allow'))
apply mode scenario flags _ allow count = (no_decision, allow)

-- What the registry answers for `Version` and `Mode` (none: the value cannot be read as a DWORD).
pub record Configuration : Type 0 where
  pub version : Option ℕ
  pub mode : Option ℕ

unfoldable pub configured_mode : Configuration → Mode
configured_mode c = elim c.version [
  | none ↦ off
  | some version ↦ if version =/= 1 then off else (elim c.mode [ none ↦ off | some mode ↦ mode ])
]

unfoldable pub sovereign_present : ℕ → List Guid → ℕ
sovereign_present zero providers = 0
sovereign_present (suc count) [] = 0
sovereign_present (suc count) (p ∷ providers) =
    if p == clsid_sovereign_auth then 1 else sovereign_present count providers

-- The values that `Filter` writes to the registry, with the text of their names left out.
pub record Report : Type 0 where
  pub process : ℕ
  pub scenario : Scenario
  pub mode : Mode
  pub provider_count : ℕ
  pub decision : Decision
  pub sovereign : ℕ
  pub flags : ℕ

-- `Filter` in a process: whether the session is remote, the configuration, and whether the
-- key for the report can be opened.
pub record Host : Type 0 where
  pub remote_session : Bool
  pub configuration : Configuration
  pub process_id : ℕ
  pub report_opens : Bool

unfoldable pub filter :
    Host
    → Scenario
    → ℕ
    → Option (List Guid)
    → Option (List ℕ)
    → ℕ
    → HResult × Option (List ℕ) × Option Report
filter host scenario flags providers allow count =
    if host.remote_session
    then (s_ok, allow, none)
    else (let mode = configured_mode host.configuration in
        let (d, allow') = apply mode scenario flags providers allow count in
        if d.applicable && host.report_opens
        then (
          s_ok,
          allow',
          some (record {
            process = host.process_id;
            scenario = scenario;
            mode = mode;
            provider_count = count;
            decision = d;
            sovereign = elim providers [ none ↦ 0 | some ps ↦ sovereign_present count ps ];
            flags = flags;
          }),
        )
        else (s_ok, allow', none))
