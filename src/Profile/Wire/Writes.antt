-- ===== src/Profile/Wire/Writes.antt =====
-- What the writers of src/profile.cpp append, and back from what they appended.
use sovereign_windows_auth.Base.{
  ℕ, ◌≤◌, ◌<◌, ◌≡◌, arith, true, ◌&&◌, ◌++◌, append_assoc, length, ltb, leb, leb→le, lt→ltb, le→leb,
  ok, need-eq-ok, >>=-eq-ok,
}
use sovereign_windows_auth.Core.{Bytes, WideString}
use sovereign_windows_auth.Core.Number.{le32}
use sovereign_windows_auth.Profile.Wide.{no_nul, wide_bytes}
use sovereign_windows_auth.Profile.Wire.{put32, put_string}

abbrev pub IsUnit : ℕ → Type 0
IsUnit u = u < 65536

-- An identity string that the format can hold.
pub record IsIdentity (s : WideString) : Type 0 where
  pub nonempty : 0 < length s
  pub short : length s ≤ 512
  pub unterminated : no_nul s ≡ true

-- The bytes of an identity string: its length, then its units.
abbrev pub string_bytes : WideString → Bytes
string_bytes s = le32 (length s) ++ wide_bytes s

pub put32_appends : (out : Bytes) (n : ℕ) → n ≤ 65536 → put32 out n ≡ ok (out ++ le32 n)
unfolding put32
put32_appends out n h = rw (le→leb _ _ h)

pub put32_inv :
    (out : Bytes) (n : ℕ) {b : Bytes} → put32 out n ≡ ok b → (n ≤ 65536) × (b ≡ out ++ le32 n)
unfolding put32
put32_inv out n h = let (t, e) = need-eq-ok (leb n 65536) _ _ h in (leb→le _ _ t, cc)

pub put_string_appends :
    (out : Bytes) (s : WideString) → IsIdentity s → put_string out s ≡ ok (out ++ string_bytes s)
unfolding put_string
put_string_appends out s h = rw (
  lt→ltb _ _ h.nonempty,
  le→leb _ _ h.short,
  h.unterminated,
  put32_appends out (length s) (omega (arith, h.short)),
  append_assoc out (le32 (length s)) (wide_bytes s),
)

pub put_string_inv :
    (out : Bytes) (s : WideString) {b : Bytes}
    → put_string out s ≡ ok b
    → IsIdentity s × (b ≡ out ++ string_bytes s)
unfolding put_string
put_string_inv out s h =
    let (t, e) = need-eq-ok (ltb 0 (length s) && leb (length s) 512 && no_nul s) _ _ h in
    let (b, p, q) = >>=-eq-ok (put32 out (length s)) _ e in
    let (fits, eq) = put32_inv out (length s) p in
    (
      record { nonempty = ground arith; short = ground arith; unterminated = ground arith },
      cc (append_assoc out (le32 (length s)) (wide_bytes s)),
    )
