-- ===== src/Filter/Pointwise.antt =====
-- The loops of the filters entry by entry: src/filter_lab.h and src/desktop_filter_policy.h.
use sovereign_windows_auth.Base.{
  ◌≡◌, refl, ap, ℕ, zero, suc, Bool, false, ◌&&◌, ◌||◌, List, [], ◌∷◌, some, ◌==◌, ltb,
  if◌then◌else◌, length, get_elem?, Bool-cases, ==_iff, arith,
}
use sovereign_windows_auth.Base.{inl, inr}
use sovereign_windows_auth.Filter.Types.{
  Guid, truth, is_convenience, clsid_sovereign_auth, sovereign_not_convenience,
}
use sovereign_windows_auth.Filter.Lab.{hide_convenience, sovereign_available}

-- What a hiding filter makes of an entry: a convenience provider below the count is hidden.
abbrev pub hidden : ℕ → ℕ → Guid → ℕ → ℕ
hidden count i p a = if ltb i count && is_convenience p then 0 else a

not-ltb-zero : (i : ℕ) → ltb i 0 ≡ false
not-ltb-zero i = ground arith

ltb-suc : (i n : ℕ) → ltb (suc i) (suc n) ≡ ltb i n
ltb-suc i n = ground arith

head_of : {x y : ℕ} → some x ≡ some y → x ≡ y
head_of h = cc

pub get_elem?-hide_convenience :
    (count : ℕ) (ps : List Guid) (allow : List ℕ) (i : ℕ) {p : Guid} {a : ℕ}
    → get_elem? ps i ≡ some p
    → get_elem? allow i ≡ some a
    → get_elem? (hide_convenience count ps allow) i ≡ some (hidden count i p a)
unfolding hide_convenience
get_elem?-hide_convenience zero ps allow i hp ha = rw (not-ltb-zero i) ha
get_elem?-hide_convenience (suc count) [] allow i hp ha = cc
get_elem?-hide_convenience (suc count) (p ∷ ps) [] i hp ha = cc
get_elem?-hide_convenience (suc count) (p ∷ ps) (a ∷ allow) zero hp ha =
    ground (arith, head_of hp, head_of ha)
get_elem?-hide_convenience (suc count) (p ∷ ps) (a ∷ allow) (suc i) hp ha =
    rw (ltb-suc i count) (get_elem?-hide_convenience count ps allow i hp ha)

pub length-hide_convenience :
    (count : ℕ) (ps : List Guid) (allow : List ℕ)
    → length (hide_convenience count ps allow) ≡ length allow
unfolding hide_convenience
length-hide_convenience zero ps allow = refl
length-hide_convenience (suc count) [] allow = refl
length-hide_convenience (suc count) (p ∷ ps) [] = refl
length-hide_convenience (suc count) (p ∷ ps) (a ∷ allow) =
    ap suc (length-hide_convenience count ps allow)

visible :
    (p : Guid) (a : ℕ) (r : Bool)
    → ((p == clsid_sovereign_auth && truth (if is_convenience p then 0 else a)) || r)
      ≡ ((p == clsid_sovereign_auth && truth a) || r)
visible p a r = elim (Bool-cases (p == clsid_sovereign_auth)) [
  | inl e ↦ rw ((==_iff p clsid_sovereign_auth).0 e) (simp sovereign_not_convenience)
  | inr e ↦ rw e
]

hide_twice :
    (p : Guid) (a : ℕ) (r : List ℕ)
    → ((if is_convenience p then 0 else (if is_convenience p then 0 else a)) ∷ r)
      ≡ ((if is_convenience p then 0 else a) ∷ r)
hide_twice p a r = ground arith

-- Hiding is idempotent, and leaves the key provider's decision alone.
pub sovereign_available-hide_convenience :
    (count : ℕ) (ps : List Guid) (allow : List ℕ)
    → sovereign_available count ps (hide_convenience count ps allow)
      ≡ sovereign_available count ps allow
unfolding hide_convenience sovereign_available
sovereign_available-hide_convenience zero ps allow = refl
sovereign_available-hide_convenience (suc count) [] allow = refl
sovereign_available-hide_convenience (suc count) (p ∷ ps) [] = refl
sovereign_available-hide_convenience (suc count) (p ∷ ps) (a ∷ allow) =
    rw (sovereign_available-hide_convenience count ps allow)
      (visible p a (sovereign_available count ps allow))

pub hide_convenience_idem :
    (count : ℕ) (ps : List Guid) (allow : List ℕ)
    → hide_convenience count ps (hide_convenience count ps allow) ≡ hide_convenience count ps allow
unfolding hide_convenience
hide_convenience_idem zero ps allow = refl
hide_convenience_idem (suc count) [] allow = refl
hide_convenience_idem (suc count) (p ∷ ps) [] = refl
hide_convenience_idem (suc count) (p ∷ ps) (a ∷ allow) =
    rw (hide_convenience_idem count ps allow) (hide_twice p a (hide_convenience count ps allow))
