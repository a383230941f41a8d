-- ===== src/Core.antt =====
-- The types of src/core.h, and the functions of src/core.cpp that compute on bytes alone:
-- the comparison without early exit, and the parser of the public test profile.
pub mod Equal
pub mod Number
pub mod TestProfile
pub mod Secret
use sovereign_windows_auth.Base.{
  ℕ, ◌+◌, ◌*◌, ◌%◌, ◌^◌, ◌≤◌, ◌<◌, ◌≡◌, bit_or, bit_xor, Bool, true, false,
}
use sovereign_windows_auth.Base.{List, [], ◌∷◌, length, take, drop, All, ◌&&◌, ◌==◌, leb}
use sovereign_windows_auth.Base.{Result, ok, err, ◌>>=◌, ◌>>◌, need}

-- A byte buffer; `std::vector<unsigned char>`, `std::array` and spans are all lists of bytes.
abbrev pub Bytes : Type 0
Bytes = List ℕ

-- A `std::wstring`: UTF-16 code units.
abbrev pub WideString : Type 0
WideString = List ℕ

abbrev pub IsByte : ℕ → Type 0
IsByte b = b < 256

abbrev pub IsBytes : Bytes → Type 0
IsBytes = All IsByte

pub record KeyProfile : Type 0 where
  pub credential : Bytes
  pub public_key : Bytes  -- 64 bytes
  pub salt : Bytes  -- 32 bytes

pub record Sealed : Type 0 where
  pub nonce : Bytes  -- 12 bytes
  pub tag : Bytes  -- 16 bytes
  pub ciphertext : Bytes

pub record AdditionalKey : Type 0 where
  pub key : KeyProfile
  pub password : Sealed

-- The enumeration is its underlying byte: a cast can give it any value.
abbrev pub CredentialKind : Type 0
CredentialKind = ℕ

abbrev pub microsoft_password : CredentialKind
microsoft_password = 1

abbrev pub windows_pin : CredentialKind
windows_pin = 2

pub record AccountProfile : Type 0 where
  pub kind : CredentialKind
  pub key : KeyProfile
  pub sid : WideString
  pub account : WideString
  pub password : Sealed
  pub additional : List AdditionalKey

-- The loop of `equal`: every byte is looked at, and the differences are gathered.
unfoldable pub gather : ℕ → Bytes → Bytes → ℕ
gather difference [] b = difference
gather difference (x ∷ a) [] = difference
gather difference (x ∷ a) (y ∷ b) = gather (bit_or difference (bit_xor x y) % 256) a b

unfoldable pub equal : Bytes → Bytes → Bool
unfolding gather
equal a b = (length a == length b) && (gather 0 a b == 0)

-- The loop that reads a little-endian number: `result |= uint32_t(bytes[i]) << (8*i)`, from `i` on.
unfoldable pub read_from : ℕ → ℕ → Bytes → ℕ
read_from i result [] = result
read_from i result (b ∷ bytes) = read_from (i + 1) (bit_or result (b * 2 ^ (8 * i) % 2 ^ 32)) bytes

-- The four bytes of a `uint32_t`.
unfoldable pub read32 : Bytes → ℕ
unfolding read_from
read32 bytes = read_from 0 0 (take 4 bytes)
