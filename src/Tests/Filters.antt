-- ===== src/Tests/Filters.antt =====
-- A list of providers with a password, the key provider and an unknown one, for the filters.
use sovereign_windows_auth.Base.{
  ◌≡◌, refl, ℕ, true, false, not, ◌&&◌, if◌then◌else◌, List, [], ◌∷◌, Option, some, get_elem?,
}
use sovereign_windows_auth.Filter.Types.{Guid, s_ok, cpus_logon, clsid_sovereign_auth}
use sovereign_windows_auth.Filter.Lab
use sovereign_windows_auth.Filter.Lab.{is_passive, sovereign_available}
use sovereign_windows_auth.Filter.Desktop
use sovereign_windows_auth.Filter.Desktop.{Decision, apply, is_inapplicable, require_key}
use sovereign_windows_auth.Filter.Vm
use sovereign_windows_auth.Filter.Pointwise.{hidden}
use sovereign_windows_auth.Filter.Policy.Restricts.{restricts}
use sovereign_windows_auth.Filter.Policy.Forces.{forces, is_one, mode_of, desktop_filter-get}

abbrev password_provider : Guid
password_provider = 0x60b78e88ead8445c9cfd0b87f74ea6cd

abbrev three : List Guid
three = password_provider ∷ clsid_sovereign_auth ∷ 77 ∷ []

abbrev allowed : List ℕ
allowed = 1 ∷ 1 ∷ 1 ∷ []

abbrev lab : Vm.Host
lab = record { is_lab_vm = true; mode = some 2; process_id = 4; report_opens = true }

abbrev desk : Desktop.Host
desk = record {
  remote_session = false;
  configuration = record { version = some 1; mode = some 2 };
  process_id = 4;
  report_opens = true;
}

applies : is_inapplicable require_key cpus_logon 0 (some three) (some allowed) 3 ≡ false
unfolding is_inapplicable
applies = refl

restricting : restricts Lab.simulate_restriction Vm.proven cpus_logon 0 3 three allowed ≡ true
unfolding is_passive sovereign_available
restricting = refl

desktop_filter-get_example :
    (allow' : List ℕ) × (report : Option Desktop.Report) × (Desktop.filter desk cpus_logon 0
        (some three)
        (some allowed)
        3
      ≡ (s_ok, some allow', report))
    × (get_elem? allow' 0
        ≡ some (
            if not desk.remote_session
              && is_one desk.configuration.version
              && forces (mode_of desk.configuration.mode) cpus_logon 0 3 three allowed
            then hidden 3 0 password_provider 1
            else 1))
desktop_filter-get_example =
    desktop_filter-get desk cpus_logon 0 3 three allowed 0 password_provider 1 refl refl
