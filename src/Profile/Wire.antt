-- ===== src/Profile/Wire.antt =====
-- src/profile.cpp: the writers `put32` and `putString`, and the bounded `Reader`.
pub mod Writes
pub mod Moves
pub mod Reads
use sovereign_windows_auth.Base.{
  ℕ, zero, suc, ◌+◌, ◌-◌, ◌*◌, ◌/◌, ◌%◌, String, Bool, true, false, not,
}
use sovereign_windows_auth.Base.{◌&&◌, ◌||◌, List, [], ◌∷◌, ◌++◌, length, take, drop, get_elem?}
use sovereign_windows_auth.Base.{Option, none, some, if◌then◌else◌, ltb, leb, ◌==◌, codes}
use sovereign_windows_auth.Base.{Result, ok, err, ◌>>=◌, ◌>>◌, need}
use sovereign_windows_auth.Core.{
  Bytes, WideString, KeyProfile, Sealed, AccountProfile, AdditionalKey,
}
use sovereign_windows_auth.Core.{microsoft_password, windows_pin, equal, read32}
use sovereign_windows_auth.Core.Number.{le32}
use sovereign_windows_auth.Profile.Wide.{wide_eq, begins_with, no_nul, c_str, wide_bytes, wide_of}

unfoldable pub put32 : Bytes → ℕ → Result Bytes
put32 out number = do
  need (leb number 65536) "Length exceeds profile limit"
  ok (out ++ le32 number)

unfoldable pub put_string : Bytes → WideString → Result Bytes
unfolding put32
put_string out value = do
  need (ltb 0 (length value) && leb (length value) 512 && no_nul value) "Invalid identity string"
  out ← put32 out (length value)
  ok (out ++ wide_bytes value)

pub record Reader : Type 0 where
  pub buffer : Bytes
  pub position : ℕ

unfoldable pub take_bytes : Reader → ℕ → Result (Bytes × Reader)
take_bytes r n = do
  need (leb r.position (length r.buffer) && leb n (length r.buffer - r.position))
      "Truncated account profile"
  ok (take n (drop r.position r.buffer), record r { position = r.position + n })

unfoldable pub read_number : Reader → Result (ℕ × Reader)
unfolding take_bytes
read_number r = do (bytes, r) ← take_bytes r 4; ok (read32 bytes, r)

unfoldable pub read_string : Reader → Result (WideString × Reader)
unfolding read_number
read_string r = do
  (n, r) ← read_number r
  need (ltb 0 n && leb n 512) "Invalid identity length"
  (bytes, r) ← take_bytes r (n * 2)
  need (no_nul (wide_of bytes)) "Embedded identity terminator"
  ok (wide_of bytes, r)
