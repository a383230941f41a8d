-- ===== src/Touch/Sign.antt =====
-- src/core.cpp: `touchAnyKey` after the loop, the function whole, and `touchSecret`.
use sovereign_windows_auth.Base.{
  ℕ, ◌+◌, ◌-◌, ◌%◌, ◌^◌, bit_and, true, ◌&&◌, Bool, List, [], ◌∷◌, length, get_elem?, Option, none,
  some, ◌==◌, ltb, leb, Result, ok, err, ◌>>=◌, ◌>>◌, need,
}
use sovereign_windows_auth.Core.{Bytes, KeyProfile, equal}
use sovereign_windows_auth.Core.Secret.{Memory, new_secret, random_bytes}
use sovereign_windows_auth.Touch.Device.{Request, Assertion, Signer, Hardware}
use sovereign_windows_auth.Touch.Seek.{seek, relying_party_name}

pub record KeyProof : Type 0 where
  pub index : ℕ
  pub secret : Bytes

-- The request that asks for a touch.
unfoldable pub touch_request : Bytes → KeyProfile → Request
touch_request challenge profile = record {
  challenge = challenge;
  relying_party = relying_party_name;
  allowed = profile.credential ∷ [];
  presence = true;
  salt = some profile.salt;
}

-- The checks of the signed assertion, and the secret.
unfoldable pub accept : Bool → Memory → KeyProfile → Assertion → Result Bytes
accept allocates_key memory profile assertion = do
  need (assertion.count == 1) "Unexpected assertion count"
  need (bit_and assertion.flags 0x05 == 0x01) "Touch-only signed flags required"
  need (equal assertion.identifier profile.credential) "Wrong credential response"
  need allocates_key "Cannot allocate public key"
  assertion.takes_public_key profile.public_key
  assertion.verifies profile.public_key
  need (length assertion.hmac_secret == 32) "No 32-byte hardware secret"
  size ← new_secret memory 32
  ok assertion.hmac_secret

unfoldable pub sign : Signer → ℕ → KeyProfile → Result Bytes
unfolding accept touch_request
sign signer deadline profile = do
  need (ltb signer.reading deadline) "Hardware selection timed out"
  signer.takes_timeout (deadline - signer.reading)
  need signer.allocates "Cannot allocate assertion"
  challenge ← random_bytes signer.random 32
  signer.takes (touch_request challenge profile)
  assertion ← signer.asks (touch_request challenge profile)
  accept signer.allocates_key signer.memory profile assertion

-- The profile at a place; the loop selects no other place than one of the list.
unfoldable pub sign_at : Signer → ℕ → ℕ → Option KeyProfile → Result KeyProof
unfolding sign
sign_at signer deadline index none =
    err "The expected enrolled YubiKey did not become available before the timeout"
sign_at signer deadline index (some profile) = do
  secret ← sign signer deadline profile
  ok (record { index = index; secret = secret })

unfoldable pub sign_selected : Signer → ℕ → List KeyProfile → Option ℕ → Result KeyProof
unfolding sign_at
sign_selected signer deadline profiles none =
    err "The expected enrolled YubiKey did not become available before the timeout"
sign_selected signer deadline profiles (some index) =
    sign_at signer deadline index (get_elem? profiles index)

unfoldable pub has_valid_size : KeyProfile → Bool
has_valid_size profile = leb 16 (length profile.credential) && leb (length profile.credential) 2048

unfoldable pub check_credentials : List KeyProfile → Result (Unit {0})
unfolding has_valid_size
check_credentials [] = ok tt
check_credentials (profile ∷ profiles) = do
  need (has_valid_size profile) "Invalid credential"
  check_credentials profiles

unfoldable pub check_input : List KeyProfile → ℕ → Result (Unit {0})
unfolding check_credentials
check_input profiles timeout = do
  need (ltb 0 timeout && leb timeout 45000) "Invalid hardware timeout"
  need (ltb 0 (length profiles) && leb (length profiles) 8) "Invalid enrolled key count"
  check_credentials profiles

-- The clock counts milliseconds in 64 bits.
unfoldable pub deadline_of : Hardware → ℕ → ℕ
deadline_of hardware timeout = (hardware.start + timeout) % 2 ^ 64

-- What follows the loop; none when its fuel ran out.
unfoldable pub after_seek :
    Signer → ℕ → List KeyProfile → Option (Result (Option ℕ)) → Option (Result KeyProof)
unfolding sign_selected
after_seek signer deadline profiles none = none
after_seek signer deadline profiles (some found) =
    some (found >>= sign_selected signer deadline profiles)

-- A call, once its checks of the arguments are behind it.
unfoldable pub touch_checked :
    Hardware → ℕ → List KeyProfile → ℕ → Result (Unit {0}) → Option (Result KeyProof)
unfolding after_seek deadline_of
touch_checked hardware fuel profiles timeout (err message) = some (err message)
touch_checked hardware fuel profiles timeout (ok _) =
    after_seek hardware.signer (deadline_of hardware timeout) profiles
      (seek hardware (deadline_of hardware timeout) profiles fuel 0)

-- A `timeoutMs` below 0 fails as 0 does. The rounds are bounded by fuel: none when it ran out.
unfoldable pub touch_any_key : Hardware → ℕ → List KeyProfile → ℕ → Option (Result KeyProof)
unfolding touch_checked check_input
touch_any_key hardware fuel profiles timeout =
    touch_checked hardware fuel profiles timeout
      do check_input profiles timeout; need hardware.allocates "Cannot allocate authenticator"

unfoldable pub secret_of : Option (Result KeyProof) → Option (Result Bytes)
secret_of none = none
secret_of (some (err message)) = some (err message)
secret_of (some (ok proof)) = some (ok proof.secret)

unfoldable pub touch_secret : Hardware → ℕ → KeyProfile → ℕ → Option (Result Bytes)
unfolding touch_any_key secret_of
touch_secret hardware fuel profile timeout =
    secret_of (touch_any_key hardware fuel (profile ∷ []) timeout)
