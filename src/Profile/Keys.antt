-- ===== src/Profile/Keys.antt =====
-- src/profile.cpp: `profileForKey`, the view of a profile through one of its keys.
use sovereign_windows_auth.Base.{ℕ, zero, suc}
use sovereign_windows_auth.Base.{[], length, get_elem?}
use sovereign_windows_auth.Base.{none, some, leb}
use sovereign_windows_auth.Base.{Result, ok, err, ◌>>◌, need}
use sovereign_windows_auth.Core.{AccountProfile}

-- Reading past the vector is undefined in the source, and the guard rules it out.
unfoldable pub profile_for_key : AccountProfile → ℕ → Result AccountProfile
profile_for_key profile zero = ok (record profile { additional = [] })
profile_for_key profile (suc index) = do
  need (leb (suc index) (length profile.additional)) "Invalid enrolled key index"
  elim (get_elem? profile.additional index) [
    | none ↦ err "Invalid enrolled key index"
    | some extra ↦
        ok (record profile { key = extra.key; password = extra.password; additional = [] })
  ]
