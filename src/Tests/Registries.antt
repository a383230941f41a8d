-- ===== src/Tests/Registries.antt =====
-- A registry that meets the laws of src/filter_recovery.cpp's and src/recovery_usb.cpp's calls.
use sovereign_windows_auth.Base.{
  ◌≡◌, ◌≢◌, refl, ap, ℕ, ◌-◌, ◌&&◌, leb, ◌∷◌, true, [], Option, none, some, if◌then◌else◌,
  Bool-cases, inl, inr,
}
use sovereign_windows_auth.Core.{Bytes, WideString}
use sovereign_windows_auth.Profile.Wide.{wide_eq, wide_eq_self}
use sovereign_windows_auth.Profile.Files.{wide_eq-eq}
use sovereign_windows_auth.Recovery.Registry.{Registry, IsLawful, is_missing}
use sovereign_windows_auth.Recovery.Usb.Pair.Paired.{StoresValues}

-- A registry as a function from a key and a name to a value: a key is there where its default
-- value, the one without a name, is.
abbrev pub Values : Type 0
Values = WideString → WideString → Option Bytes

-- Upper case for the letters of ASCII.
abbrev pub upper : WideString → WideString
upper [] = []
upper (c ∷ path) = (if leb 97 c && leb c 122 then c - 32 else c) ∷ upper path

abbrev pub code_of : Option Bytes → ℕ
code_of none = 2
code_of (some value) = 0

abbrev pub without : Values → WideString → Values
without hive path = λ other name. if wide_eq other path then none else hive other name

abbrev pub with_value : Values → WideString → WideString → Bytes → Values
with_value hive path name value = λ other label.
    if wide_eq other path
    then (if wide_eq label name then some value else hive other label)
    else hive other label

abbrev pub deletion : Values → WideString → Option Bytes → ℕ × Values
deletion hive path none = (2, hive)
deletion hive path (some value) = (0, without hive path)

abbrev pub registry : Registry
registry = record {
  Hive = Values;
  key_of = upper;
  open_key = λ hive path. code_of (hive (upper path) []);
  get_binary = λ hive path name. hive (upper path) name;
  delete_key = λ hive path. deletion hive (upper path) (hive (upper path) []);
  flush_key = λ hive. 0;
  create_key = λ hive path. (0, true, with_value hive (upper path) [] []);
  set_binary = λ hive path name value. (0, with_value hive (upper path) name value);
}

without_other :
    (hive : Values) (path other name : WideString)
    → other ≢ path
    → without hive path other name ≡ hive other name
without_other hive path other name h = elim (Bool-cases (wide_eq other path)) [
  | inl same ↦ absurd (h (wide_eq-eq other path same))
  | inr differs ↦ rw differs refl
]

deletion_other :
    (hive : Values) (path other name : WideString) (o : Option Bytes)
    → other ≢ path
    → (deletion hive path o).1 other name ≡ hive other name
deletion_other hive path other name none h = refl
deletion_other hive path other name (some value) h = without_other hive path other name h

deletion_failed :
    (hive : Values) (path : WideString) (o : Option Bytes)
    → (deletion hive path o).0 ≢ 0
    → (deletion hive path o).1 ≡ hive
deletion_failed hive path none h = refl
deletion_failed hive path (some value) h = absurd (h refl)

deletion_done :
    (hive : Values) (path : WideString) (o : Option Bytes)
    → (deletion hive path o).0 ≡ 0
    → is_missing (code_of ((deletion hive path o).1 path [])) ≡ true
unfolding is_missing
deletion_done hive path none h = cc
deletion_done hive path (some value) h = rw (wide_eq_self path) refl

deletion_missing :
    (hive : Values) (path : WideString) (o : Option Bytes)
    → is_missing (code_of o) ≡ true
    → is_missing (deletion hive path o).0 ≡ true
unfolding is_missing
deletion_missing hive path none h = refl
deletion_missing hive path (some value) h = cc

missing_deleted :
    (hive : Values) (path : WideString) (o : Option Bytes)
    → is_missing (deletion hive path o).0 ≡ true
    → is_missing (code_of o) ≡ true
unfolding is_missing
missing_deleted hive path none h = refl
missing_deleted hive path (some value) h = cc

pub registry-IsLawful : IsLawful registry
registry-IsLawful = record {
  delete_fails = λ hive path. deletion_failed hive (upper path) (hive (upper path) []);
  delete_keeps_keys = λ hive path other apart.
      ap code_of (deletion_other hive (upper path) (upper other) [] (hive (upper path) []) apart);
  delete_keeps_values = λ hive path other name apart.
      deletion_other hive (upper path) (upper other) name (hive (upper path) []) apart;
  deleted_is_missing = λ hive path. deletion_done hive (upper path) (hive (upper path) []);
  delete_missing = λ hive path. deletion_missing hive (upper path) (hive (upper path) []);
  missing_deletion = λ hive path. missing_deleted hive (upper path) (hive (upper path) []);
}

pub registry-StoresValues : StoresValues registry
registry-StoresValues hive path name value h =
    rw (wide_eq_self (upper path)) (rw (wide_eq_self name) refl)
