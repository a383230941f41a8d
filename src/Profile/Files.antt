-- ===== src/Profile/Files.antt =====
-- The files that src/profile.cpp reads and writes: a path has at most one entry, with what
-- Windows reports of its protection.
use sovereign_windows_auth.Base.{
  ◌<◌, ◌≡◌, refl, ap, arith, Bool, true, false, Bool-cases, inl, inr, List, [], ◌∷◌, length, Option,
  none, some, ◌==◌, &&-elim, ==_iff, if◌then◌else◌,
}
use sovereign_windows_auth.Core.{Bytes, WideString}
use sovereign_windows_auth.Profile.Wide.{wide_eq, wide_eq_self}

pub data Principal : Type 0 where
  administrators : Principal
  local_system : Principal
  another : Principal

-- An entry of an access list: whether it can be read, whether it allows, and whom.
pub record Ace : Type 0 where
  pub readable : Bool
  pub allows : Bool
  pub principal : Principal

-- The attribute of a redirection, and the security descriptor: whether it can be read, its owner,
-- whether its control can be read and is protected from inheritance, and its access list.
pub record Inspection : Type 0 where
  pub redirected : Bool
  pub readable : Bool
  pub owner : Option Principal
  pub control_protected : Bool
  pub acl : Option (List Ace)

-- A directory has no content.
pub record Entry : Type 0 where
  pub content : Option Bytes
  pub inspection : Inspection

abbrev pub Disk : Type 0
Disk = WideString → Option Entry

unfoldable pub put : Disk → WideString → Entry → Disk
put disk path entry = λ other. if wide_eq other path then some entry else disk other

unfoldable pub remove : Disk → WideString → Disk
remove disk path = λ other. if wide_eq other path then none else disk other

-- `MoveFileExW` without replacing, where the target is free.
unfoldable pub move : Disk → WideString → WideString → Option Entry → Disk
unfolding put remove
move disk from to none = disk
move disk from to (some entry) = put (remove disk from) to entry

pub wide_eq-eq : (a b : WideString) → wide_eq a b ≡ true → a ≡ b
wide_eq-eq [] [] h = refl
wide_eq-eq [] (y ∷ b) h = cc
wide_eq-eq (x ∷ a) [] h = cc
wide_eq-eq (x ∷ a) (y ∷ b) h =
    let (here, there) = &&-elim (x == y) (wide_eq a b) h in
    let same : a ≡ b = wide_eq-eq a b there in let first : x ≡ y = (==_iff x y).0 here in cc

-- Paths of different lengths are different.
pub wide_eq-shorter : (a b : WideString) → length a < length b → wide_eq a b ≡ false
wide_eq-shorter a b h = elim (Bool-cases (wide_eq a b)) [
  | inl same ↦ absurd (omega (arith, ap (λ (t : WideString). length t) (wide_eq-eq a b same)))
  | inr different ↦ different
]

pub wide_eq_sym : (a b : WideString) → wide_eq a b ≡ false → wide_eq b a ≡ false
wide_eq_sym a b h = elim (Bool-cases (wide_eq b a)) [
  | inl same ↦ cc (rw (wide_eq-eq b a same) at h, wide_eq_self a)
  | inr different ↦ different
]

module _ (disk : Disk) (path : WideString) where
  pub get-put : (entry : Entry) → put disk path entry path ≡ some entry
  unfolding put
  get-put entry = rw (wide_eq_self path)

  pub get-put_other :
      (entry : Entry) (other : WideString)
      → wide_eq other path ≡ false
      → put disk path entry other ≡ disk other
  unfolding put
  get-put_other entry other h = rw h

  pub get-remove_other :
      (other : WideString) → wide_eq other path ≡ false → remove disk path other ≡ disk other
  unfolding remove
  get-remove_other other h = rw h

  -- A path with an entry is not one without.
  pub taken_differs :
      (other : WideString) {entry : Entry}
      → disk path ≡ none
      → disk other ≡ some entry
      → wide_eq other path ≡ false
  taken_differs other free taken = elim (Bool-cases (wide_eq other path)) [
    | inl same ↦ let e = ap disk (wide_eq-eq other path same) in cc
    | inr h ↦ h
  ]
