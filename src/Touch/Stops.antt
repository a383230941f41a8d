-- ===== src/Touch/Stops.antt =====
-- The loop of `touchAnyKey` ends: src/core.cpp.
use sovereign_windows_auth.Base.{
  ℕ, zero, suc, ◌+◌, ◌-◌, ◌*◌, ◌≤◌, ◌≡◌, refl, arith, Bool, true, false, ◌&&◌, List, Option, none,
  some, ltb, leb, ltb→lt, positive_le, if◌then◌else◌, Result, ok, err, need_elim, >>=-eq-ok,
}
use sovereign_windows_auth.Core.{KeyProfile}
use sovereign_windows_auth.Touch.Device.{Signer, Hardware}
use sovereign_windows_auth.Touch.Seek.{seek, scan_round, after_round, pause, min}
use sovereign_windows_auth.Touch.Sign.{
  KeyProof, check_input, deadline_of, after_seek, touch_checked, touch_any_key,
}

-- What Windows documents of its clock: it does not go back, and a sleep lasts as long as was
-- asked.
pub record IsTimely (hardware : Hardware) (deadline : ℕ) : Type 0 where
  pub starts : hardware.start ≤ (hardware.scan 0).tested
  pub advances : (pass : ℕ) → (hardware.scan pass).tested ≤ (hardware.scan pass).finished
  pub sleeps :
      (pass : ℕ)
      → (hardware.scan pass).finished + pause deadline (hardware.scan pass)
        ≤ (hardware.scan (pass + 1)).tested

abbrev pub Returns {ℓ} : {A : Type ℓ} → Option A → Type ℓ
Returns {A} o = (a : A) × (o ≡ some a)

-- A round and the sleep after it take a quarter of a second, or reach the deadline.
quarter :
    (deadline fuel tested finished next : ℕ)
    → tested ≤ finished
    → finished + (if ltb finished deadline then min 250 (deadline - finished) else 0) ≤ next
    → deadline ≤ tested + 250 * suc fuel
    → deadline ≤ next + 250 * fuel
quarter deadline fuel tested finished next a s h = ground arith

after_round-Returns :
    (found : Result (Option ℕ)) (rest : Option (Result (Option ℕ)))
    → Returns rest
    → Returns (after_round found rest)
unfolding after_round
after_round-Returns (err message) rest h = (_, refl)
after_round-Returns (ok (some k)) rest h = (_, refl)
after_round-Returns (ok none) rest h = h

round-Returns :
    (c : Bool) (found : Result (Option ℕ)) (rest : Option (Result (Option ℕ)))
    → (c ≡ true → Returns rest)
    → Returns (if c then after_round found rest else some (ok none))
round-Returns true found rest h = after_round-Returns found rest (h refl)
round-Returns false found rest h = (_, refl)

seek-Returns :
    (hardware : Hardware) (deadline : ℕ) (profiles : List KeyProfile) (fuel pass : ℕ)
    → IsTimely hardware deadline
    → deadline ≤ (hardware.scan pass).tested + 250 * fuel
    → Returns (seek hardware deadline profiles (suc fuel) pass)
unfolding seek pause
seek-Returns hardware deadline profiles zero pass timely h =
    round-Returns (ltb (hardware.scan pass).tested deadline)
      (scan_round deadline profiles (hardware.scan pass)) none
      λ early. absurd (omega (arith, ltb→lt (hardware.scan pass).tested deadline early))
seek-Returns hardware deadline profiles (suc fuel) pass timely h =
    round-Returns (ltb (hardware.scan pass).tested deadline)
      (scan_round deadline profiles (hardware.scan pass))
      (seek hardware deadline profiles (suc fuel) (pass + 1))
      λ early. seek-Returns hardware deadline profiles fuel (pass + 1) timely (
        quarter deadline fuel (hardware.scan pass).tested (hardware.scan pass).finished
          (hardware.scan (pass + 1)).tested (timely.advances pass) (timely.sleeps pass) h)

check_input_timeout :
    (profiles : List KeyProfile) (timeout : ℕ)
    → check_input profiles timeout ≡ ok tt
    → timeout ≤ 45000
unfolding check_input
check_input_timeout profiles timeout h =
    need_elim (ltb 0 timeout && leb timeout 45000) _ _ h λ sizes _. (positive_le _ _ sizes).1

after_seek-Returns :
    (signer : Signer) (deadline : ℕ) (profiles : List KeyProfile)
    (found : Option (Result (Option ℕ)))
    → Returns found
    → Returns (after_seek signer deadline profiles found)
unfolding after_seek
after_seek-Returns signer deadline profiles none h = cc
after_seek-Returns signer deadline profiles (some r) h = (_, refl)

touch_checked-Returns :
    (hardware : Hardware) (profiles : List KeyProfile) (timeout : ℕ) (r : Result (Unit {0}))
    → IsTimely hardware (deadline_of hardware timeout)
    → (r ≡ ok tt → deadline_of hardware timeout ≤ hardware.start + 45000)
    → Returns (touch_checked hardware 181 profiles timeout r)
unfolding touch_checked
touch_checked-Returns hardware profiles timeout (err message) timely h = (_, refl)
touch_checked-Returns hardware profiles timeout (ok _) timely h =
    after_seek-Returns hardware.signer (deadline_of hardware timeout) profiles _
      (seek-Returns hardware _ profiles 180 0 timely (omega (arith, h refl, timely.starts)))

deadline_bound :
    (hardware : Hardware) (timeout : ℕ)
    → timeout ≤ 45000
    → deadline_of hardware timeout ≤ hardware.start + 45000
unfolding deadline_of
deadline_bound hardware timeout h = omega arith

-- The wait for a key ends: whatever the devices answer, a call of `touchAnyKey` goes through its
-- outer loop at most 181 times (the last test included) and then returns a proof or an error, if
-- the clock does not go back and a sleep lasts as long as was asked.
pub touch_any_key_returns :
    (hardware : Hardware) (profiles : List KeyProfile) (timeout : ℕ)
    → IsTimely hardware (deadline_of hardware timeout)
    → (r : Result KeyProof) × (touch_any_key hardware 181 profiles timeout ≡ some r)
unfolding touch_any_key
touch_any_key_returns hardware profiles timeout timely =
    touch_checked-Returns hardware profiles timeout _ timely λ h.
      let (unit, checked, _) = >>=-eq-ok (check_input profiles timeout) _ h in
      deadline_bound hardware timeout (check_input_timeout profiles timeout checked)
