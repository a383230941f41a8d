-- ===== src/Recovery/Registry/Removal.antt =====
-- What the removal of the registration changes: src/filter_recovery.cpp.
use sovereign_windows_auth.Base.{
  ℕ, ◌≡◌, ◌≢◌, refl, arith, Bool, true, false, Bool-cases, inl, inr, ◌==◌, ==_iff, ok, need-eq-ok,
}
use sovereign_windows_auth.Core.{WideString}
use sovereign_windows_auth.Recovery.Registry.{
  Registry, IsLawful, is_missing, filter_registration, require_status, after_delete,
  remove_registration,
}

missing_not_zero : (code : ℕ) → is_missing code ≡ true → code ≢ 0
unfolding is_missing
missing_not_zero code h e = ground arith

module _ (registry : Registry) (lawful : IsLawful registry) (hive : registry.Hive) where
  -- A removal changes one key: whatever it returns, every path that leads to another key of the
  -- hive, or to none, does so as before, with the same values.
  pub remove_registration_scope :
      (other name : WideString)
      → registry.key_of other ≢ registry.key_of filter_registration
      → (registry.open_key (remove_registration registry hive).0 other
          ≡ registry.open_key hive other)
        × (registry.get_binary (remove_registration registry hive).0 other name
            ≡ registry.get_binary hive other name)
  unfolding remove_registration after_delete
  remove_registration_scope other name apart = (
    lawful.delete_keeps_keys hive filter_registration other apart,
    lawful.delete_keeps_values hive filter_registration other name apart,
  )

  -- A hive without the registration.
  again_nothing :
      is_missing (registry.open_key hive filter_registration) ≡ true
      → remove_registration registry hive ≡ (hive, ok false)
  unfolding remove_registration after_delete
  again_nothing gone =
      let missing = lawful.delete_missing hive filter_registration gone in
      let kept = lawful.delete_fails hive filter_registration (missing_not_zero _ missing) in
      rw (missing, kept) refl

  -- The two ways to return: the registration was missing, or it was deleted.
  pub removed-cases :
      (b : Bool)
      → (remove_registration registry hive).1 ≡ ok b
      → is_missing (registry.open_key (remove_registration registry hive).0 filter_registration)
        ≡ true
  unfolding remove_registration after_delete require_status
  removed-cases b h =
      let deleted = registry.delete_key hive filter_registration in
      elim (Bool-cases (is_missing deleted.0)) [
        | inl missing ↦
            rw (lawful.delete_fails hive filter_registration (missing_not_zero _ missing))
              (lawful.missing_deletion hive filter_registration missing)
        | inr other ↦
            let (zero_code, _) = need-eq-ok (deleted.0 == 0) _ _ (rw other at h) in
            lawful.deleted_is_missing hive filter_registration ((==_iff _ _).0 zero_code)
      ]

-- A removal that returned took the registration away, and a second one finds nothing and changes
-- nothing: the registration's key is missing in the hive that is left, and removing it from that
-- hive returns false and leaves it as it is.
pub remove_registration_again :
    (registry : Registry) (hive : registry.Hive) (b : Bool)
    → IsLawful registry
    → (remove_registration registry hive).1 ≡ ok b
    → remove_registration registry (remove_registration registry hive).0
      ≡ ((remove_registration registry hive).0, ok false)
remove_registration_again registry hive b lawful h =
    again_nothing registry lawful (remove_registration registry hive).0
      (removed-cases registry lawful hive b h)
