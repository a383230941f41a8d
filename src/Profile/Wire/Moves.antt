-- ===== src/Profile/Wire/Moves.antt =====
-- How the reader of src/profile.cpp moves: a reader between a part that was read and the part
-- that is left.
use sovereign_windows_auth.Base.{
  ℕ, ◌*◌, ◌^◌, ◌<◌, ◌≡◌, refl, arith, [], ◌∷◌, ◌++◌, append_assoc, append-nil, All, length, subst,
  length-append, take-append, drop-append, lt→ltb, le→leb, ok,
}
use sovereign_windows_auth.Core.{Bytes, WideString}
use sovereign_windows_auth.Core.Number.{le32, length-le32, read32-le32}
use sovereign_windows_auth.Profile.Wide.{wide_bytes, wide_of}
use sovereign_windows_auth.Profile.Wire.{Reader, take_bytes, read_number, read_string}
use sovereign_windows_auth.Profile.Wire.Writes.{IsUnit, IsIdentity, string_bytes}

abbrev pub at : Bytes → Bytes → Reader
at done left = record { buffer = done ++ left; position = length done }

-- A reader takes exactly the bytes that stand before it, and stops behind them.
pub take_moves :
    (done bs left : Bytes)
    → take_bytes (at done (bs ++ left)) (length bs) ≡ ok (bs, at (done ++ bs) left)
unfolding take_bytes
take_moves done bs left = ground (
  arith,
  length-append done (bs ++ left),
  length-append bs left,
  length-append done bs,
  drop-append done (bs ++ left),
  take-append bs left,
  append_assoc done bs left,
)

pub number_moves :
    (done : Bytes) (n : ℕ) (left : Bytes)
    → n < 2 ^ 32
    → read_number (at done (le32 n ++ left)) ≡ ok (n, at (done ++ le32 n) left)
unfolding read_number
number_moves done n left h =
    rw (← length-le32 n) (rw (take_moves done (le32 n) left) (rw (read32-le32 n h)))

pub wide_of-wide_bytes : (s : WideString) → All IsUnit s → wide_of (wide_bytes s) ≡ s
wide_of-wide_bytes [] h = refl
wide_of-wide_bytes (c ∷ s) h = ground (arith, wide_of-wide_bytes s h.1)

pub length-wide_bytes : (s : WideString) → length (wide_bytes s) ≡ length s * 2
length-wide_bytes [] = refl
length-wide_bytes (c ∷ s) = omega (arith, length-wide_bytes s)

pub string_moves :
    (done : Bytes) (s : WideString) (left : Bytes)
    → IsIdentity s
    → All IsUnit s
    → read_string (at done (string_bytes s ++ left)) ≡ ok (s, at (done ++ string_bytes s) left)
unfolding read_string
string_moves done s left h u = rw (append_assoc (le32 (length s)) (wide_bytes s) left) (
    rw (number_moves done (length s) (wide_bytes s ++ left) (omega (arith, h.short))) (
      rw (lt→ltb _ _ h.nonempty, le→leb _ _ h.short, ← length-wide_bytes s)
        (rw (take_moves (done ++ le32 (length s)) (wide_bytes s) left) (
          rw (wide_of-wide_bytes s u, h.unterminated)
            (rw (append_assoc done (le32 (length s)) (wide_bytes s)))))))

-- The move by a number that is the length of the bytes before the reader.
pub take_at :
    (done bs left : Bytes) (n : ℕ)
    → length bs ≡ n
    → take_bytes (at done (bs ++ left)) n ≡ ok (bs, at (done ++ bs) left)
take_at done bs left n e = rw (← e) (take_moves done bs left)

pub take_last :
    (done bs : Bytes) (n : ℕ)
    → length bs ≡ n
    → take_bytes (at done bs) n ≡ ok (bs, at (done ++ bs) [])
take_last done bs n e =
    subst (λ b. take_bytes (at done b) n ≡ ok (bs, at (done ++ bs) [])) (append-nil bs)
      (take_at done bs [] n e)
