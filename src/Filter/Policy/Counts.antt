-- ===== src/Filter/Policy/Counts.antt =====
-- The loop of `apply` in src/desktop_filter_policy.h: its decisions and its counters.
use sovereign_windows_auth.Base.{
  ◌≡◌, refl, ◌∙◌, ℕ, zero, suc, ◌+◌, Bool, true, false, not, ◌&&◌, List, [], ◌∷◌, ◌==◌, ◌=/=◌,
  if◌then◌else◌, length, arith,
}
use sovereign_windows_auth.Filter.Types.{Guid, truth, is_convenience, clsid_sovereign_auth}
use sovereign_windows_auth.Filter.Lab.{hide_convenience}
use sovereign_windows_auth.Filter.Desktop.{Mode, Decision, visit, apply_loop, require_key}
use sovereign_windows_auth.Filter.Vm.{excluded}

-- How many entries below the count pass a test.
abbrev pub tally : (Guid → Bool) → ℕ → List Guid → ℕ
tally t zero ps = 0
tally t (suc count) [] = 0
tally t (suc count) (p ∷ ps) = (if t p then 1 else 0) + tally t count ps

abbrev pub is_other : Guid → Bool
is_other p = not (is_convenience p) && p =/= clsid_sovereign_auth

abbrev pub is_key : Guid → Bool
is_key p = not (is_convenience p) && p == clsid_sovereign_auth

pub tallies :
    (count : ℕ) (ps : List Guid)
    → length ps ≡ count
    → tally is_convenience count ps + tally is_other count ps + tally is_key count ps ≡ count
tallies zero ps h = refl
tallies (suc count) [] h = omega arith
tallies (suc count) (p ∷ ps) h = ground (arith, tallies count ps (omega arith))

visited :
    (mode : Mode) (p : Guid) (a : ℕ) (d : Decision)
    → (visit mode p a d).1
      ≡ (if is_convenience p then (if mode == require_key then 0 else a) else a)
unfolding visit
visited mode p a d = ground arith

cons_if :
    (m c : Bool) (a : ℕ) (xs ys : List ℕ)
    → ((if c then (if m then 0 else a) else a) ∷ (if m then xs else ys))
      ≡ (if m then (if c then 0 else a) ∷ xs else a ∷ ys)
cons_if true c a xs ys = refl
cons_if false true a xs ys = refl
cons_if false false a xs ys = refl

pub decisions :
    (mode : Mode) (count : ℕ) (ps : List Guid) (allow : List ℕ) (d : Decision)
    → (apply_loop mode count ps allow d).1
      ≡ (if mode == require_key then hide_convenience count ps allow else allow)
unfolding apply_loop hide_convenience
decisions mode zero ps allow d = ground arith
decisions mode (suc count) [] allow d = ground arith
decisions mode (suc count) (p ∷ ps) [] d = ground arith
decisions mode (suc count) (p ∷ ps) (a ∷ allow) d = rw (visited mode p a d) (
    rw (decisions mode count ps allow (visit mode p a d).0)
      (cons_if (mode == require_key) (is_convenience p) _ _ _))

visit_counts :
    (mode : Mode) (p : Guid) (a : ℕ) (d : Decision)
    → let (d', a') = visit mode p a d in
      (d'.known ≡ d.known + (if is_convenience p then 1 else 0))
      × (d'.other ≡ d.other + (if is_other p then 1 else 0))
      × (d'.excluded ≡ d.excluded + (if is_convenience p && not (truth a') then 1 else 0))
      × (d'.applicable ≡ d.applicable)
unfolding visit
visit_counts mode p a d = (ground arith, ground arith, ground arith, ground arith)

-- The counters, from any start.
pub counts :
    (mode : Mode) (count : ℕ) (ps : List Guid) (allow : List ℕ) (d : Decision)
    → length ps ≡ count
    → length allow ≡ count
    → let (d', allow') = apply_loop mode count ps allow d in
      (d'.known ≡ d.known + tally is_convenience count ps)
      × (d'.other ≡ d.other + tally is_other count ps)
      × (d'.excluded ≡ d.excluded + excluded count ps allow')
      × (d'.applicable ≡ d.applicable)
unfolding apply_loop excluded
counts mode zero ps allow d hp ha = (omega arith, omega arith, omega arith, refl)
counts mode (suc count) [] allow d hp ha = absurd (omega arith)
counts mode (suc count) (p ∷ ps) [] d hp ha = absurd (omega arith)
counts mode (suc count) (p ∷ ps) (a ∷ allow) d hp ha =
    let (k, o, e, t) = visit_counts mode p a d in
    let (k', o', e', t') =
      counts mode count ps allow (visit mode p a d).0 (omega arith) (omega arith) in
    (omega arith, omega arith, omega arith, t' ∙ t)
