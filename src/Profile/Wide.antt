-- ===== src/Profile/Wide.antt =====
-- The operations of `std::wstring` that src/profile.cpp uses, on lists of code units.
use sovereign_windows_auth.Base.{◌+◌, ◌*◌, ◌/◌, ◌%◌, Bool, true, false, not}
use sovereign_windows_auth.Base.{◌&&◌, [], ◌∷◌}
use sovereign_windows_auth.Base.{if◌then◌else◌, ◌==◌, ◌≡◌, refl, eq→==}
use sovereign_windows_auth.Core.{Bytes, WideString}

-- `==` on `std::wstring`.
abbrev pub wide_eq : WideString → WideString → Bool
wide_eq [] [] = true
wide_eq [] (y ∷ ys) = false
wide_eq (x ∷ xs) [] = false
wide_eq (x ∷ xs) (y ∷ ys) = x == y && wide_eq xs ys

-- `text.rfind(prefix, 0) == 0`.
abbrev pub begins_with : WideString → WideString → Bool
begins_with text [] = true
begins_with [] (p ∷ prefix) = false
begins_with (c ∷ text) (p ∷ prefix) = c == p && begins_with text prefix

-- `text.find(L'\0') == npos`.
abbrev pub no_nul : WideString → Bool
no_nul [] = true
no_nul (c ∷ text) = not (c == 0) && no_nul text

-- The text that a C function reads: up to the first terminator.
abbrev pub c_str : WideString → WideString
c_str [] = []
c_str (c ∷ text) = if c == 0 then [] else (c ∷ c_str text)

-- The memory of a wide string, two bytes a unit.
abbrev pub wide_bytes : WideString → Bytes
wide_bytes [] = []
wide_bytes (c ∷ text) = c % 256 ∷ c / 256 % 256 ∷ wide_bytes text

-- `memcpy` into a wide string.
abbrev pub wide_of : Bytes → WideString
wide_of [] = []
wide_of (a ∷ []) = []
wide_of (a ∷ b ∷ bytes) = (a + b * 256) ∷ wide_of bytes

pub wide_eq_self : (a : WideString) → wide_eq a a ≡ true
wide_eq_self [] = refl
wide_eq_self (x ∷ a) = rw (eq→== x x refl) (wide_eq_self a)
