-- ===== src/Filter/Policy/Restricts.antt =====
-- What the filter of src/filter_lab.h does, as a whole.
use sovereign_windows_auth.Base.{
  ◌≡◌, refl, ◌∙◌, ℕ, Bool, not, ◌&&◌, List, some, if◌then◌else◌, length, get_elem?, Bool-cases,
}
use sovereign_windows_auth.Base.{inl, inr}
use sovereign_windows_auth.Filter.Types.{Guid, Scenario, s_ok}
use sovereign_windows_auth.Filter.Lab
use sovereign_windows_auth.Filter.Lab.{
  Preconditions, hide_convenience, sovereign_available, restrict, is_passive,
}
use sovereign_windows_auth.Filter.Pointwise.{
  hidden, get_elem?-hide_convenience, length-hide_convenience, hide_convenience_idem,
  sovereign_available-hide_convenience,
}

-- The lab's filter restricts when every guard passes and an allowed key provider is present.
abbrev pub restricts : Lab.Mode → Preconditions → Scenario → ℕ → ℕ → List Guid → List ℕ → Bool
restricts mode pre scenario flags count providers allow =
    not (is_passive mode pre scenario flags (some providers) (some allow))
    && sovereign_available count providers allow

pub filter_eq :
    (mode : Lab.Mode) (pre : Preconditions) (scenario : Scenario) (flags count : ℕ)
    (providers : List Guid) (allow : List ℕ)
    → Lab.filter mode pre scenario flags (some providers) (some allow) count ≡ (
      s_ok,
      some (
          if restricts mode pre scenario flags count providers allow
          then hide_convenience count providers allow
          else allow),
    )
unfolding Lab.filter restrict
filter_eq mode pre scenario flags count providers allow =
    elim (Bool-cases (is_passive mode pre scenario flags (some providers) (some allow))) [
      | inl e ↦ rw e
      | inr e ↦ elim (Bool-cases (sovereign_available count providers allow)) [
        | inl h ↦ rw e (rw h)
        | inr h ↦ rw e (rw h)
      ]
    ]

-- The filter of the lab, entry by entry: the result is S_OK, and an entry keeps its decision
-- unless every guard passes, an allowed key provider is among the first `count` entries, the
-- entry is one of them and names a convenience provider; then it becomes 0.
pub lab_filter-get :
    (mode : Lab.Mode) (pre : Preconditions) (scenario : Scenario) (flags count : ℕ)
    (providers : List Guid) (allow : List ℕ) (i : ℕ) (p : Guid) (a : ℕ)
    → get_elem? providers i ≡ some p
    → get_elem? allow i ≡ some a
    → (allow' : List ℕ) × (Lab.filter mode pre scenario flags (some providers) (some allow) count
        ≡ (s_ok, some allow'))
      × (length allow' ≡ length allow)
      × (get_elem? allow' i
          ≡ some (
              if restricts mode pre scenario flags count providers allow
              then hidden count i p a
              else a))
lab_filter-get mode pre scenario flags count providers allow i p a hp ha =
    elim (Bool-cases (restricts mode pre scenario flags count providers allow)) [
      | inl e ↦ (
        hide_convenience count providers allow,
        filter_eq mode pre scenario flags count providers allow ∙ rw e,
        length-hide_convenience count providers allow,
        rw e (get_elem?-hide_convenience count providers allow i hp ha),
      )
      | inr e ↦
          (allow, filter_eq mode pre scenario flags count providers allow ∙ rw e, refl, rw e ha)
    ]

restricts_stable :
    (mode : Lab.Mode) (pre : Preconditions) (scenario : Scenario) (flags count : ℕ)
    (providers : List Guid) (allow : List ℕ)
    → restricts mode pre scenario flags count providers (hide_convenience count providers allow)
      ≡ restricts mode pre scenario flags count providers allow
unfolding is_passive
restricts_stable mode pre scenario flags count providers allow =
    rw (sovereign_available-hide_convenience count providers allow)

-- Filtering twice is filtering once.
pub lab_filter_idem :
    (mode : Lab.Mode) (pre : Preconditions) (scenario : Scenario) (flags count : ℕ)
    (providers : List Guid) (allow : List ℕ)
    → Lab.filter mode pre scenario flags
        (some providers)
        (Lab.filter mode pre scenario flags (some providers) (some allow) count).1
        count
      ≡ Lab.filter mode pre scenario flags (some providers) (some allow) count
lab_filter_idem mode pre scenario flags count providers allow =
    elim (Bool-cases (restricts mode pre scenario flags count providers allow)) [
      | inl e ↦ rw (filter_eq mode pre scenario flags count providers allow) (
          rw e (
            filter_eq mode pre scenario flags count providers
              (hide_convenience count providers allow)
            ∙ rw (restricts_stable mode pre scenario flags count providers allow)
                (rw e (rw (hide_convenience_idem count providers allow)))))
      | inr e ↦
          rw (filter_eq mode pre scenario flags count providers allow)
            (rw e (filter_eq mode pre scenario flags count providers allow ∙ rw e))
    ]
