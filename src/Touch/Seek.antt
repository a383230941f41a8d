-- ===== src/Touch/Seek.antt =====
-- src/core.cpp: the loop of `touchAnyKey` that waits for a device with an enrolled key.
use sovereign_windows_auth.Base.{
  ℕ, zero, suc, ◌+◌, ◌-◌, false, not, ◌||◌, List, [], ◌∷◌, map, Option, none, some, ◌==◌, ◌=/=◌,
  ltb, leb, if◌then◌else◌, codes, Result, ok, err, ◌>>=◌, ◌>>◌, need,
}
use sovereign_windows_auth.Core.{Bytes, KeyProfile, equal}
use sovereign_windows_auth.Core.Secret.{random_bytes}
use sovereign_windows_auth.Touch.Device.{
  Request, Discovery, no_credentials, refused, answered, Attached, Scan, Hardware,
}

abbrev pub relying_party_name : Bytes
relying_party_name = codes "sovereign-windows-auth.local"

abbrev pub yubico : ℕ
yubico = 0x1050

abbrev pub min : ℕ → ℕ → ℕ
min a b = if leb a b then a else b

-- The place of the first profile with a credential, from `k` on.
unfoldable pub find_key : Bytes → ℕ → List KeyProfile → Option ℕ
find_key identifier k [] = none
find_key identifier k (profile ∷ profiles) =
    let rest = find_key identifier (k + 1) profiles in
    if equal identifier profile.credential then some k else rest

unfoldable pub discovery_request : Bytes → List KeyProfile → Request
discovery_request challenge profiles = record {
  challenge = challenge;
  relying_party = relying_party_name;
  allowed = map (λ (p : KeyProfile). p.credential) profiles;
  presence = false;
  salt = none;
}

-- What an opened device says: the place of its key, or none to go on with the next device.
unfoldable pub discovered : List KeyProfile → Discovery → Result (Option ℕ)
unfolding find_key
discovered profiles no_credentials = ok none
discovered profiles (refused message) = err message
discovered profiles (answered count identifier) = do
  need (count == 1) "Unexpected credential discovery response"
  ok (find_key identifier 0 profiles)

unfoldable pub discover : List KeyProfile → Attached → Result (Option ℕ)
unfolding discovered
discover profiles device = do
  need device.allocates "Cannot allocate assertion"
  challenge ← random_bytes device.random 32
  device.takes (discovery_request challenge profiles)
  discovered profiles (device.asks (discovery_request challenge profiles))

-- One device of the right vendor, before the deadline.
unfoldable pub ask : ℕ → List KeyProfile → Attached → Result (Option ℕ)
unfolding discover
ask deadline profiles device = do
  device.takes_timeout (min 1000 (deadline - device.reading))
  if not device.opens || not device.is_fido2 then ok none else discover profiles device

-- `selected`, or what the rest of the loop gives.
unfoldable pub or_else : Result (Option ℕ) → Result (Option ℕ) → Result (Option ℕ)
or_else (err message) rest = err message
or_else (ok none) rest = rest
or_else (ok (some k)) rest = ok (some k)

-- The loop over the devices of one round.
unfoldable pub scan_devices : ℕ → List KeyProfile → List Attached → Result (Option ℕ)
unfolding ask or_else
scan_devices deadline profiles [] = ok none
scan_devices deadline profiles (device ∷ devices) =
    let rest = scan_devices deadline profiles devices in
    if device.vendor =/= yubico
    then rest
    else if leb deadline device.reading
    then ok none
    else or_else (ask deadline profiles device) rest

unfoldable pub scan_round : ℕ → List KeyProfile → Scan → Result (Option ℕ)
unfolding scan_devices
scan_round deadline profiles scan = do
  need scan.allocates "Cannot allocate device list"
  devices ← scan.manifest
  scan_devices deadline profiles devices

-- How long the loop sleeps when a round found nothing before the deadline.
unfoldable pub pause : ℕ → Scan → ℕ
pause deadline scan = if ltb scan.finished deadline then min 250 (deadline - scan.finished) else 0

-- What is left after a round: `rest` is the loop from the next round on.
unfoldable pub after_round :
    Result (Option ℕ) → Option (Result (Option ℕ)) → Option (Result (Option ℕ))
after_round (err message) rest = some (err message)
after_round (ok (some k)) rest = some (ok (some k))
after_round (ok none) rest = rest

-- The outer loop from a round on, with fuel; none when the fuel ran out.
unfoldable pub seek : Hardware → ℕ → List KeyProfile → ℕ → ℕ → Option (Result (Option ℕ))
unfolding scan_round after_round
seek hardware deadline profiles zero pass = none
seek hardware deadline profiles (suc fuel) pass =
    let rest = seek hardware deadline profiles fuel (pass + 1) in
    let scan = hardware.scan pass in
    if ltb scan.tested deadline
    then after_round (scan_round deadline profiles scan) rest
    else some (ok none)
