-- ===== src/Touch/Unlock.antt =====
-- src/profile.cpp: `unlockAccount`, which opens the password of the key that was touched.
use sovereign_windows_auth.Base.{ℕ, List, ◌∷◌, map, Option, none, some, Result, ◌>>=◌}
use sovereign_windows_auth.Core.{Bytes, KeyProfile, AccountProfile, AdditionalKey}
use sovereign_windows_auth.Core.Secret.{Cipher, Memory, unseal}
use sovereign_windows_auth.Profile.Sid.{SidApi}
use sovereign_windows_auth.Profile.Keys.{profile_for_key}
use sovereign_windows_auth.Profile.Codec.{profile_binding}
use sovereign_windows_auth.Touch.Device.{Hardware}
use sovereign_windows_auth.Touch.Sign.{KeyProof, touch_any_key}

unfoldable pub enrolled_keys : AccountProfile → List KeyProfile
enrolled_keys profile = profile.key ∷ map (λ (extra : AdditionalKey). extra.key) profile.additional

unfoldable pub open_password : SidApi → Cipher → Memory → AccountProfile → KeyProof → Result Bytes
open_password api cipher memory profile proof = do
  found ← profile_for_key profile proof.index
  binding ← profile_binding api found
  unseal cipher memory proof.secret found.password binding

unfoldable pub after_touch :
    SidApi → Cipher → Memory → AccountProfile → Option (Result KeyProof) → Option (Result Bytes)
unfolding open_password
after_touch api cipher memory profile none = none
after_touch api cipher memory profile (some touched) =
    some (touched >>= open_password api cipher memory profile)

unfoldable pub unlock_account :
    SidApi → Cipher → Memory → Hardware → ℕ → AccountProfile → ℕ → Option (Result Bytes)
unfolding after_touch enrolled_keys
unlock_account api cipher memory hardware fuel profile timeout =
    after_touch api cipher memory profile
      (touch_any_key hardware fuel (enrolled_keys profile) timeout)
