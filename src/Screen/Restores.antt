-- ===== src/Screen/Restores.antt =====
-- When the window of src/recovery_screen.cpp runs the program that changes an installation.
use sovereign_windows_auth.Base.{
  ◌≡◌, refl, ap, subst, inl, inr, ℕ, true, false, not, ◌&&◌, List, [], ◌∷◌, ◌++◌, length, All,
  Option, none, some, ◌==◌, ==_iff, Bool-cases, &&-elim, arith,
}
use sovereign_windows_auth.Core.{Bytes, WideString}
use sovereign_windows_auth.Screen.{
  DriveEntry, Run, ToolResult, Screen, Tool, run_tool, run_result, enable,
}
use sovereign_windows_auth.Screen.Window.{
  Event, command, ended, lost, System, Entry, began, done, running, verified, finished_run,
  after_end, happen, history, opened, create, find_targets, is_target, target_of,
}
use sovereign_windows_auth.Screen.Trusts.{IsChecked, Trusts, MayRun}
use sovereign_windows_auth.Screen.Follows.{final, IsGuarded, Follows, commanded-Follows}

finished_run-Trusts :
    (r : ToolResult) (last : Option Entry) (s : Screen)
    → Trusts last s
    → Trusts (some (done r)) (finished_run r s)
unfolding finished_run verified enable
finished_run-Trusts r last s trusts = elim (Bool-cases (r.exit == 0 && not r.restoration)) [
  | inl e ↦
      let (zero_exit, check) = &&-elim _ _ e in
      let checked : IsChecked (some (done r)) r.windows r.key =
        ((==_iff _ _).0 zero_exit, ground arith, refl, refl) in
      simp e (record { verified_true = λ _. inr checked; named = trusts.named })
  | inr e ↦ simp e (record { verified_true = λ _. inl refl; named = trusts.named })
]

after_end-Follows :
    (widen : Bytes → WideString) (tool : Tool) (last : Option Entry) (s : Screen) (run : Option Run)
    → Trusts last s
    → let r = after_end widen tool s run in Follows last r.0.screen r.1
unfolding after_end
after_end-Follows widen tool last s none trusts = record { trusts = trusts; guarded = tt }
after_end-Follows widen tool last s (some run) trusts = record {
  trusts = finished_run-Trusts (run_result widen run (run_tool tool)) last s trusts;
  guarded = tt;
}

happen-Follows :
    (event : Event) (last : Option Entry) (s : System)
    → Trusts last s.screen
    → Follows last (happen event s).0.screen (happen event s).1
unfolding happen
happen-Follows (command presence low high) last s trusts =
    commanded-Follows presence low high last s.screen trusts
happen-Follows (ended widen tool) last s trusts =
    after_end-Follows widen tool last s.screen s.run trusts
happen-Follows lost last s trusts = record { trusts = trusts; guarded = tt }

IsGuarded-append :
    (last : Option Entry) (front back : List Entry)
    → IsGuarded last front
    → IsGuarded (final last front) back
    → IsGuarded last (front ++ back)
IsGuarded-append last [] back here there = there
IsGuarded-append last (began run ∷ front) back here there =
    (here.0, IsGuarded-append (some (began run)) front back here.1 there)
IsGuarded-append last (done r ∷ front) back here there =
    IsGuarded-append (some (done r)) front back here there

history-IsGuarded :
    (events : List Event) (last : Option Entry) (s : System)
    → Trusts last s.screen
    → IsGuarded last (history events s)
unfolding history
history-IsGuarded [] last s trusts = tt
history-IsGuarded (event ∷ events) last s trusts =
    let now = happen-Follows event last s trusts in
    IsGuarded-append last (happen event s).1 (history events (happen event s).0) now.guarded
      (history-IsGuarded events (final last (happen event s).1) (happen event s).0 now.trusts)

guarded_at :
    (last : Option Entry) (before after : List Entry) (run : Run)
    → IsGuarded last (before ++ (began run ∷ after))
    → MayRun (final last before) (some run)
guarded_at last [] after run g = g.0
guarded_at last (began other ∷ before) after run g =
    guarded_at (some (began other)) before after run g.1
guarded_at last (done r ∷ before) after run g = guarded_at (some (done r)) before after run g

-- The last entry is the end of a check.
abbrev EndsChecked : List Entry → WideString → WideString → Type 0
EndsChecked before windows key =
    (front : List Entry) × (r : ToolResult) × (before ≡ front ++ (done r ∷ []))
    × (r.exit ≡ 0)
    × (r.restoration ≡ false)
    × (r.windows ≡ windows)
    × (r.key ≡ key)

ends_checked :
    (entry : Entry) (before : List Entry) (windows key : WideString)
    → IsChecked (final (some entry) before) windows key
    → EndsChecked (entry ∷ before) windows key
ends_checked (began run) [] windows key h = absurd h
ends_checked (done r) [] windows key (a, b, c, d) = ([], r, refl, a, b, c, d)
ends_checked entry (next ∷ before) windows key h =
    let (front, r, e, a, b, c, d) = ends_checked next before windows key h in
    (entry ∷ front, r, ap (λ t. entry ∷ t) e, a, b, c, d)

ends_somewhere :
    (before : List Entry) (windows key : WideString)
    → IsChecked (final none before) windows key
    → EndsChecked before windows key
ends_somewhere [] windows key h = absurd h
ends_somewhere (entry ∷ before) windows key h = ends_checked entry before windows key h

length-windows : (drive : WideString) → (length (target_of drive) ≡ 0) → ⊥
length-windows [] h = cc
length-windows (c ∷ drive) h = cc

targets_named :
    (to_upper : ℕ → ℕ) (running : WideString) (drives : List DriveEntry)
    → All (λ (t : WideString). (length t ≡ 0) → ⊥) (find_targets to_upper running drives)
unfolding find_targets
targets_named to_upper running [] = tt
targets_named to_upper running (d ∷ drives) = elim (Bool-cases (is_target to_upper running d)) [
  | inl e ↦ rw e (length-windows d.path, targets_named to_upper running drives)
  | inr e ↦ rw e (targets_named to_upper running drives)
]

create-Trusts :
    (to_upper : ℕ → ℕ) (running : WideString) (drives : List DriveEntry)
    → Trusts none (create to_upper running drives)
unfolding create
create-Trusts to_upper running drives = record {
  verified_true = λ _. inl refl;
  named = targets_named to_upper running drives;
}

-- Nothing is restored unchecked: whatever buttons are pressed, drives are changed and programs end
-- after the window was made, when the program is started to restore an installation, what was last
-- seen of it before is the result of a run that only checked, of the same installation with the
-- same credential, and its exit code was 0.
pub restoration-checked :
    (to_upper : ℕ → ℕ) (directory : WideString) (drives : List DriveEntry) (events : List Event)
    (before after : List Entry) (run : Run)
    → history events (opened (create to_upper directory drives)) ≡ before ++ (began run ∷ after)
    → run.restoration ≡ true
    → (front : List Entry) × (r : ToolResult) × (before ≡ front ++ (done r ∷ []))
      × (r.exit ≡ 0)
      × (r.restoration ≡ false)
      × (r.windows ≡ run.windows)
      × (r.key ≡ run.key)
restoration-checked to_upper directory drives events before after run h restores =
    let all =
      history-IsGuarded events none (opened (create to_upper directory drives))
        (create-Trusts to_upper directory drives) in
    ends_somewhere before run.windows run.key
      (guarded_at none before after run (subst (IsGuarded none) h all) restores)
