-- ===== src/Screen/Trusts.antt =====
-- What the window of src/recovery_screen.cpp keeps to when it starts the recovery program.
use sovereign_windows_auth.Base.{
  ◌≡◌, refl, sym, ap, ◌∙◌, subst, ◌⊎◌, inl, inr, ℕ, zero, suc, Bool, true, false, not, ◌&&◌, List,
  [], ◌∷◌, length, All, need-eq-ok, get_elem?, Option, none, some, Result, ok, err, bind_elim,
  ok-injective, Bool-cases, &&-elim, String, arith,
}
use sovereign_windows_auth.Core.{WideString}
use sovereign_windows_auth.Profile.Wide.{wide_eq}
use sovereign_windows_auth.Profile.Files.{wide_eq-eq}
use sovereign_windows_auth.Screen.{
  Run, Screen, Presence, enable, running_text, chosen_run, chosen_target, listed_at, key_path,
  run_chosen, started_thread, start_failed,
}
use sovereign_windows_auth.Screen.Window.{Entry, began, done}

-- The last entry of the log is the end of a successful check of this installation with this key.
abbrev pub IsChecked : Option Entry → WideString → WideString → Type 0
IsChecked none windows key = ⊥
IsChecked (some (began run)) windows key = ⊥
IsChecked (some (done r)) windows key =
    (r.exit ≡ 0) × (r.restoration ≡ false) × (r.windows ≡ windows) × (r.key ≡ key)

-- What the window remembers is true while it is not busy, and no installation of its list is empty.
pub record Trusts (last : Option Entry) (s : Screen) : Type 0 where
  pub verified_true :
      s.busy ≡ false
      → (length s.verified_windows ≡ 0) ⊎ IsChecked last s.verified_windows s.verified_key
  pub named : All (λ (t : WideString). (length t ≡ 0) → ⊥) s.targets

-- A run that may be started now: a restoration only after its check.
abbrev pub MayRun : Option Entry → Option Run → Type 0
MayRun last none = Unit {0}
MayRun last (some run) = run.restoration ≡ true → IsChecked last run.windows run.key

entry_named :
    (targets : List WideString) (i : ℕ) (t : WideString)
    → All (λ (t : WideString). (length t ≡ 0) → ⊥) targets
    → get_elem? targets i ≡ some t
    → (length t ≡ 0)
    → ⊥
entry_named [] i t all h = cc
entry_named (x ∷ targets) zero t all h =
    let same : x ≡ t = cc in subst (λ (t : WideString). (length t ≡ 0) → ⊥) same all.0
entry_named (x ∷ targets) (suc i) t all h = entry_named targets i t all.1 h

target_of_entry : (o : Option WideString) (t : WideString) → chosen_target o ≡ ok t → o ≡ some t
unfolding chosen_target
target_of_entry none t h = cc
target_of_entry (some x) t h = cc

target_named :
    (targets : List WideString) (selected : Option ℕ) (t : WideString)
    → All (λ (t : WideString). (length t ≡ 0) → ⊥) targets
    → listed_at targets selected ≡ some t
    → (length t ≡ 0)
    → ⊥
target_named targets none t all h = cc
target_named targets (some i) t all h = entry_named targets i t all h

both_same :
    (s : Screen) (windows key : WideString)
    → not (not (wide_eq windows s.verified_windows && wide_eq key s.verified_key)) ≡ true
    → (s.verified_windows ≡ windows) × (s.verified_key ≡ key)
both_same s windows key h =
    let both : (wide_eq windows s.verified_windows && wide_eq key s.verified_key) ≡ true =
      ground arith in
    let (p, q) = &&-elim _ _ both in (sym (wide_eq-eq _ _ p), sym (wide_eq-eq _ _ q))

IsChecked-as :
    (last : Option Entry) (s : Screen) (windows key : WideString)
    → ((length windows ≡ 0) → ⊥)
    → (length s.verified_windows ≡ 0) ⊎ IsChecked last s.verified_windows s.verified_key
    → (s.verified_windows ≡ windows) × (s.verified_key ≡ key)
    → IsChecked last windows key
IsChecked-as last s windows key named (inl empty) (p, q) =
    absurd (named (ap length (sym p) ∙ empty))
IsChecked-as last s windows key named (inr checked) (p, q) =
    subst (λ (k : WideString). IsChecked last windows k) q
      (subst (λ (w : WideString). IsChecked last w s.verified_key) p checked)

tested-MayRun :
    (restoration : Bool) (s : Screen) (last : Option Entry) (windows key : WideString)
    → s.busy ≡ false
    → Trusts last s
    → ((length windows ≡ 0) → ⊥)
    → not (restoration && not (wide_eq windows s.verified_windows && wide_eq key s.verified_key))
      ≡ true
    → MayRun last (some (record { windows = windows; key = key; restoration = restoration }))
tested-MayRun false s last windows key free trusts named t restores = cc
tested-MayRun true s last windows key free trusts named t restores =
    IsChecked-as last s windows key named (trusts.verified_true free) (both_same s windows key t)

pub chosen_run-MayRun :
    (presence : Presence) (restoration : Bool) (s : Screen) (last : Option Entry) (run : Run)
    → s.busy ≡ false
    → Trusts last s
    → chosen_run presence restoration s ≡ ok run
    → MayRun last (some run)
unfolding chosen_run
chosen_run-MayRun presence restoration s last run free trusts h =
    bind_elim (chosen_target (listed_at s.targets presence.selected)) _ h λ windows p h.
      bind_elim (key_path presence.drives) _ h λ key q h.
        let (t, made) = need-eq-ok _ _ _ h in
        subst (λ (run : Run). MayRun last (some run)) (ok-injective made)
          (tested-MayRun restoration s last windows key free trusts
            (target_named s.targets presence.selected windows trusts.named (target_of_entry _ _ p))
            t)

-- What a start leaves: a run that may be started, and a window that trusts nothing new. A window
-- that waits is busy.
pub record Started (last : Option Entry) (s : Screen) (r : Screen × Option Run) : Type 0 where
  pub may : MayRun last r.1
  pub same_targets : r.0.targets ≡ s.targets
  pub same_windows : r.0.verified_windows ≡ s.verified_windows
  pub same_key : r.0.verified_key ≡ s.verified_key
  pub waits : (r.1 ≡ none) ⊎ (r.0.busy ≡ true)

started_thread-Started :
    (presence : Presence) (error : Option String) (last : Option Entry) (run : Run) (s : Screen)
    → MayRun last (some run)
    → s.busy ≡ true
    → Started last s (started_thread presence error run s)
unfolding started_thread start_failed enable
started_thread-Started presence none last run s may busy = record {
  may = may;
  same_targets = refl;
  same_windows = refl;
  same_key = refl;
  waits = inr busy;
}
started_thread-Started presence (some message) last run s may busy = record {
  may = tt;
  same_targets = refl;
  same_windows = refl;
  same_key = refl;
  waits = inl refl;
}

pub run_chosen-Started :
    (presence : Presence) (last : Option Entry) (r : Result Run) (s : Screen)
    → ((run : Run) → r ≡ ok run → MayRun last (some run))
    → s.busy ≡ true
    → Started last s (run_chosen presence r s)
unfolding run_chosen start_failed enable
run_chosen-Started presence last (err message) s may busy = record {
  may = tt;
  same_targets = refl;
  same_windows = refl;
  same_key = refl;
  waits = inl refl;
}
run_chosen-Started presence last (ok run) s may busy =
    elim (Bool-cases (run.restoration && not presence.confirms)) [
      | inl e ↦ rw e (record {
        may = tt;
        same_targets = refl;
        same_windows = refl;
        same_key = refl;
        waits = inl refl;
      })
      | inr e ↦ rw e (
          let shown = enable false (record s { status = running_text run.restoration }) in
          let r =
            started_thread-Started presence presence.thread_error last run shown (may run refl)
              busy in
          record {
            may = r.may;
            same_targets = r.same_targets;
            same_windows = r.same_windows;
            same_key = r.same_key;
            waits = r.waits;
          })
    ]
