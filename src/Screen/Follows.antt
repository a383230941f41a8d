-- ===== src/Screen/Follows.antt =====
-- What an event does to the window of src/recovery_screen.cpp: what it starts is allowed.
use sovereign_windows_auth.Base.{
  ◌≡◌, refl, sym, ap, ◌∙◌, subst, ◌⊎◌, inl, inr, ℕ, Bool, true, false, not, ◌&&◌, List, [], ◌∷◌,
  length, All, Option, none, some, ◌==◌, ok, Bool-cases,
}
use sovereign_windows_auth.Core.{WideString}
use sovereign_windows_auth.Screen.{Run, Screen, Presence, start, chosen_run, run_chosen}
use sovereign_windows_auth.Screen.Window.{
  Entry, began, done, begun, commanded, check_button, restore_button, restart_button, close_button,
  target_list, selection_changed,
}
use sovereign_windows_auth.Screen.Trusts.{
  IsChecked, Trusts, MayRun, Started, chosen_run-MayRun, run_chosen-Started,
}

-- The last entry, after those of a list.
abbrev pub final : Option Entry → List Entry → Option Entry
final last [] = last
final last (e ∷ entries) = final (some e) entries

abbrev pub IsGuarded : Option Entry → List Entry → Type 0
IsGuarded last [] = Unit {0}
IsGuarded last (began run ∷ entries) = MayRun last (some run) × IsGuarded (some (began run)) entries
IsGuarded last (done r ∷ entries) = IsGuarded (some (done r)) entries

-- What an event does to the window, from a last entry on: the entries are allowed, and what is left
-- is trusted after them.
pub record Follows (last : Option Entry) (s : Screen) (entries : List Entry) : Type 0 where
  pub trusts : Trusts (final last entries) s
  pub guarded : IsGuarded last entries

pub kept_true :
    (last : Option Entry) (s t : Screen)
    → t.verified_windows ≡ s.verified_windows
    → t.verified_key ≡ s.verified_key
    → (length s.verified_windows ≡ 0) ⊎ IsChecked last s.verified_windows s.verified_key
    → (length t.verified_windows ≡ 0) ⊎ IsChecked last t.verified_windows t.verified_key
kept_true last s t p q (inl empty) = inl (ap length p ∙ empty)
kept_true last s t p q (inr checked) = inr (
    subst (λ (k : WideString). IsChecked last t.verified_windows k) (sym q)
      (subst (λ (w : WideString). IsChecked last w s.verified_key) (sym p) checked))

pub Follows-Started :
    (last : Option Entry) (s t : Screen) (run : Option Run)
    → s.busy ≡ false
    → Trusts last s
    → Started last s (t, run)
    → Follows last t (begun run)
Follows-Started last s t none free trusts started = record {
  trusts = record {
    verified_true =
        λ _. kept_true last s t started.same_windows started.same_key (trusts.verified_true free);
    named =
        subst (All (λ (t : WideString). (length t ≡ 0) → ⊥)) (sym started.same_targets)
          trusts.named;
  };
  guarded = tt;
}
Follows-Started last s t (some run) free trusts started = record {
  trusts = record {
    verified_true = λ idle. elim started.waits [ inl e ↦ cc | inr e ↦ cc ];
    named =
        subst (All (λ (t : WideString). (length t ≡ 0) → ⊥)) (sym started.same_targets)
          trusts.named;
  };
  guarded = (started.may, tt);
}

pub start_busy :
    (presence : Presence) (restoration : Bool) (s : Screen)
    → s.busy ≡ true
    → start presence restoration s ≡ (s, none)
unfolding start
start_busy presence restoration s h = simp h

pub start_free :
    (presence : Presence) (restoration : Bool) (s : Screen)
    → s.busy ≡ false
    → start presence restoration s
      ≡ run_chosen presence (chosen_run presence restoration s) (record s { busy = true })
unfolding start
start_free presence restoration s h = simp h

pub free-Follows :
    (presence : Presence) (restoration : Bool) (last : Option Entry) (s : Screen)
    → s.busy ≡ false
    → Trusts last s
    → let r = run_chosen presence (chosen_run presence restoration s) (record s { busy = true }) in
      Follows last r.0 (begun r.1)
free-Follows presence restoration last s free trusts =
    let chosen = chosen_run presence restoration s in
    let may : (run : Run) → chosen ≡ ok run → MayRun last (some run) =
      λ run h. chosen_run-MayRun presence restoration s last run free trusts h in
    let r = run_chosen-Started presence last chosen (record s { busy = true }) may refl in
    Follows-Started last s (run_chosen presence chosen (record s { busy = true })).0
      (run_chosen presence chosen (record s { busy = true })).1 free trusts
      (record {
        may = r.may;
        same_targets = r.same_targets;
        same_windows = r.same_windows;
        same_key = r.same_key;
        waits = r.waits;
      })

pub start-Follows :
    (presence : Presence) (restoration : Bool) (last : Option Entry) (s : Screen)
    → Trusts last s
    → Follows last (start presence restoration s).0 (begun (start presence restoration s).1)
start-Follows presence restoration last s trusts = elim (Bool-cases s.busy) [
  | inl e ↦
      subst (λ (r : Screen × Option Run). Follows last r.0 (begun r.1))
        (sym (start_busy presence restoration s e)) (record { trusts = trusts; guarded = tt })
  | inr e ↦
      subst (λ (r : Screen × Option Run). Follows last r.0 (begun r.1))
        (sym (start_free presence restoration s e))
        (free-Follows presence restoration last s e trusts)
]

pub forgotten :
    (last : Option Entry) (s t : Screen)
    → t.verified_windows ≡ []
    → t.targets ≡ s.targets
    → Trusts last s
    → Trusts last t
forgotten last s t p q trusts = record {
  verified_true = λ _. inl (ap length p);
  named = subst (All (λ (t : WideString). (length t ≡ 0) → ⊥)) (sym q) trusts.named;
}

-- The part of `commanded` that neither forgets nor starts anything.
pub commanded-Follows :
    (presence : Presence) (low high : ℕ) (last : Option Entry) (s : Screen)
    → Trusts last s
    → Follows last (commanded presence low high s).0 (begun (commanded presence low high s).1)
unfolding commanded
commanded-Follows presence low high last s trusts =
    elim (Bool-cases (low == target_list && high == selection_changed)) [
      | inl e ↦ simp e (record { trusts = forgotten last s _ refl refl trusts; guarded = tt })
      | inr e ↦ elim (Bool-cases (low == check_button)) [
        | inl c ↦
            simp (e, c)
              (start-Follows presence false last (record s { verified_windows = [] })
                (forgotten last s _ refl refl trusts))
        | inr c ↦ elim (Bool-cases (low == restore_button)) [
          | inl r ↦ simp (e, c, r) (start-Follows presence true last s trusts)
          | inr r ↦ elim (Bool-cases (not s.busy && low == restart_button)) [
            | inl t ↦ simp (e, c, r, t) (record { trusts = trusts; guarded = tt })
            | inr t ↦ elim (Bool-cases (not s.busy && low == close_button)) [
              | inl k ↦ simp (e, c, r, t, k) (record { trusts = trusts; guarded = tt })
              | inr k ↦ simp (e, c, r, t, k) (record { trusts = trusts; guarded = tt })
            ]
          ]
        ]
      ]
    ]
