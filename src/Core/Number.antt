-- ===== src/Core/Number.antt =====
-- Little-endian numbers as arithmetic.
use sovereign_windows_auth.Base.{ℕ, ◌+◌, ◌*◌, ◌/◌, ◌%◌, ◌<◌, ◌≡◌, refl, ◌^◌, length, [], ◌∷◌, arith}
use sovereign_windows_auth.Base.Bits.{bit_or_high}
use sovereign_windows_auth.Core.{Bytes, IsBytes, read32}

-- The four bytes of a number, lowest first.
unfoldable pub le32 : ℕ → Bytes
le32 n = n % 256 ∷ n / 256 % 256 ∷ n / 65536 % 256 ∷ n / 16777216 % 256 ∷ []

pub read32_sum :
    (a b c d : ℕ)
    → a < 256
    → b < 256
    → c < 256
    → d < 256
    → read32 (a ∷ b ∷ c ∷ d ∷ []) ≡ a + b * 256 + c * 65536 + d * 16777216
unfolding read32
read32_sum a b c d ha hb hc hd = ground (
  arith,
  bit_or_high 0 0 a,
  bit_or_high 8 a b,
  bit_or_high 16 (a + b * 256) c,
  bit_or_high 24 (a + b * 256 + c * 65536) d,
)

pub length-le32 : (n : ℕ) → length (le32 n) ≡ 4
unfolding le32
length-le32 n = refl

pub le32-IsBytes : (n : ℕ) → IsBytes (le32 n)
unfolding le32
le32-IsBytes n = omega arith

pub read32-le32 : (n : ℕ) → n < 2 ^ 32 → read32 (le32 n) ≡ n
unfolding le32
read32-le32 n h =
    omega (arith, read32_sum (n % 256) (n / 256 % 256) (n / 65536 % 256) (n / 16777216 % 256))

pub le32-read32 : (bs : Bytes) → IsBytes bs → length bs ≡ 4 → le32 (read32 bs) ≡ bs
unfolding le32
le32-read32 (a ∷ b ∷ c ∷ d ∷ []) h e = ground (arith, read32_sum a b c d)
le32-read32 _ h e = absurd (omega arith)

pub read32-lt : (bs : Bytes) → IsBytes bs → length bs ≡ 4 → read32 bs < 2 ^ 32
read32-lt (a ∷ b ∷ c ∷ d ∷ []) h e = omega (arith, read32_sum a b c d)
read32-lt _ h e = absurd (omega arith)
