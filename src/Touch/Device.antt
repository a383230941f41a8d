-- ===== src/Touch/Device.antt =====
-- What the hardware answers in `touchAnyKey` of src/core.cpp: the calls of libfido2, the clock
-- and the random bytes. A call of libfido2 that fails throws the library's text for its error.
use sovereign_windows_auth.Base.{ℕ, Bool, List, Option, Result, String}
use sovereign_windows_auth.Core.{Bytes}
use sovereign_windows_auth.Core.Secret.{Memory}

abbrev pub Status : Type 0
Status = Result (Unit {0})

-- What an assertion is asked with: the hash of the client data, the relying party, the
-- credentials allowed, whether the user must be present, and the salt of the secret.
pub record Request : Type 0 where
  pub challenge : Bytes
  pub relying_party : Bytes
  pub allowed : List Bytes
  pub presence : Bool
  pub salt : Option Bytes

-- The answer to a request without presence: FIDO_ERR_NO_CREDENTIALS, another error with its
-- text, or the number of assertions and the credential of the first one.
pub data Discovery : Type 0 where
  no_credentials : Discovery
  refused : String → Discovery
  answered : ℕ → Bytes → Discovery

-- A device of a list, with the reading of the clock before it is asked.
pub record Attached : Type 0 where
  pub vendor : ℕ
  pub reading : ℕ
  pub takes_timeout : ℕ → Status
  pub opens : Bool
  pub is_fido2 : Bool
  pub allocates : Bool
  pub random : ℕ → Option Bytes
  pub takes : Request → Status
  pub asks : Request → Discovery

-- A round of the outer loop: the clock at its test, the list of devices (which is allocated
-- and then filled), and the clock at its end.
pub record Scan : Type 0 where
  pub tested : ℕ
  pub allocates : Bool
  pub manifest : Result (List Attached)
  pub finished : ℕ

-- The assertion that the key signed, as libfido2 reads it: the verification takes a public key.
pub record Assertion : Type 0 where
  pub count : ℕ
  pub flags : ℕ
  pub identifier : Bytes
  pub takes_public_key : Bytes → Status
  pub verifies : Bytes → Status
  pub hmac_secret : Bytes

-- The device that was chosen, asked for a signature.
pub record Signer : Type 0 where
  pub reading : ℕ
  pub takes_timeout : ℕ → Status
  pub allocates : Bool
  pub random : ℕ → Option Bytes
  pub takes : Request → Status
  pub asks : Request → Result Assertion
  pub allocates_key : Bool
  pub memory : Memory

-- Everything that one call meets: the clock at its start, whether a device can be made, and
-- the rounds.
pub record Hardware : Type 0 where
  pub start : ℕ
  pub allocates : Bool
  pub scan : ℕ → Scan
  pub signer : Signer
