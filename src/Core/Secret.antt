-- ===== src/Core/Secret.antt =====
-- src/core.cpp: the constructor of Secret, `randomBytes`, `seal` and `unseal`, over what Windows
-- answers.
pub mod RoundTrip
use sovereign_windows_auth.Base.{
  ℕ, ◌≤◌, ◌<◌, ◌≡◌, Bool, true, false, ◌&&◌, ◌||◌, Option, none, some, ◌==◌, ltb, leb,
  if◌then◌else◌, length, Result, ok, err, ◌>>=◌, ◌>>◌, need,
}
use sovereign_windows_auth.Core.{Bytes, Sealed}

-- What Windows answers when a secret is made: whether the pages can be had, and locked.
pub record Memory : Type 0 where
  pub allocates : Bool
  pub locks : Bool

-- The size that the new secret has.
unfoldable pub new_secret : Memory → ℕ → Result ℕ
new_secret memory size = do
  need (ltb 0 size && leb size 65536) "Invalid secret size"
  need memory.allocates "bad allocation"
  need memory.locks "Cannot lock secret memory"
  ok size

-- AES-256 in GCM as Windows offers it: the steps that open it with a key (each can fail), the
-- random bytes, and the two operations. A result holds the bytes, with the tag where there is
-- one, and the length that is reported.
pub record Cipher : Type 0 where
  pub opens : Bool
  pub takes_key : Bytes → Bool
  pub random : ℕ → Option Bytes
  pub encrypt : Bytes → Bytes → Bytes → Bytes → Option (Bytes × Bytes × ℕ)
  pub decrypt : Bytes → Bytes → Bytes → Bytes → Bytes → Option (Bytes × ℕ)

abbrev pub crypto_failed : Result Bytes
crypto_failed = err "Windows cryptography operation failed"

unfoldable pub random_bytes : (ℕ → Option Bytes) → ℕ → Result Bytes
random_bytes random count = do
  need (ltb 0 count && leb count 65536) "Invalid random data size"
  elim (random count) [ none ↦ crypto_failed | some bytes ↦ ok bytes ]

-- The constructors of Algorithm and AesKey.
unfoldable pub open_cipher : Cipher → Bytes → Result (Unit {0})
open_cipher cipher key = do
  need cipher.opens "Windows cryptography operation failed"
  need (length key == 32) "AES-256 requires a 32-byte key"
  need (cipher.takes_key key) "Windows cryptography operation failed"

-- The parts of a result that is checked for its length.
unfoldable pub sealed_box : Bytes → Bytes → Option (Bytes × Bytes × ℕ) → Result Sealed
sealed_box plaintext nonce none = err "Windows cryptography operation failed"
sealed_box plaintext nonce (some (ciphertext, tag, written)) = do
  need (written == length plaintext) "Unexpected encryption length"
  ok (record { nonce = nonce; tag = tag; ciphertext = ciphertext })

unfoldable pub opened_text : ℕ → Option (Bytes × ℕ) → Result Bytes
opened_text size none = crypto_failed
opened_text size (some (plaintext, written)) = do
  need (written == size) "Unexpected decryption length"
  ok plaintext

unfoldable pub seal : Cipher → Bytes → Bytes → Bytes → Result Sealed
seal cipher key plaintext binding = do
  need (ltb 0 (length plaintext) && (leb (length plaintext) 32768 && leb (length binding) 32768))
      "Invalid encryption input length"
  open_cipher cipher key
  nonce ← random_bytes cipher.random 12
  sealed_box plaintext nonce (cipher.encrypt key nonce binding plaintext)

unfoldable pub unseal : Cipher → Memory → Bytes → Sealed → Bytes → Result Bytes
unseal cipher memory key box binding = do
  need
      (ltb 0 (length box.ciphertext)
        && (leb (length box.ciphertext) 32768 && leb (length binding) 32768))
      "Invalid decryption input length"
  open_cipher cipher key
  size ← new_secret memory (length box.ciphertext)
  opened_text size (cipher.decrypt key box.nonce box.tag binding box.ciphertext)
