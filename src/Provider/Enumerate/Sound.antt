-- ===== src/Provider/Enumerate/Sound.antt =====
-- What the list of credentials of src/provider.cpp's class Provider keeps to.
use sovereign_windows_auth.Base.{
  ◌≡◌, refl, ap, ◌∙◌, sym, subst, inl, inr, ℕ, zero, suc, ◌+◌, ◌≤◌, Bool, true, false, not, ◌&&◌,
  ◌||◌, List, [], ◌∷◌, map, Option, none, some, ltb, length, length-append, get_elem?, Result, ok,
  err, Bool-cases, arith,
}
use sovereign_windows_auth.Core.{WideString, AccountProfile}
use sovereign_windows_auth.Filter.Types.{HResult, is_some}
use sovereign_windows_auth.Provider.Credential.{Credential, ready, set_provider_events}
use sovereign_windows_auth.Provider.Enumerate.{
  UserArray, Provider, enumerate, enumerate_users, enumerate_counted, release_all,
  set_usage_scenario, advise, provider_un_advise, set_user_array, first_ready, selection,
  get_credential_count, new_credential, join_profile, join_user, new_provider, Call, scenario_set,
  advised, un_advised, users_set, counted, after_call, after_calls,
}

join_profile_bound :
    (p : Provider) (users : UserArray) (r : Result AccountProfile) (l : List Credential)
    → length (join_profile p users r l) ≤ suc (length l)
unfolding join_profile
join_profile_bound p users (err e) l = omega arith
join_profile_bound p users (ok profile) l =
    omega (arith, length-append l (new_credential p users profile ∷ []))

join_user_bound :
    (load : WideString → Result AccountProfile) (p : Provider) (users : UserArray)
    (sid : Option WideString) (l : List Credential)
    → length (join_user load p users sid l) ≤ suc (length l)
unfolding join_user
join_user_bound load p users none l = omega arith
join_user_bound load p users (some sid) l = join_profile_bound p users (load sid) l

enumerate_users_bound :
    (load : WideString → Result AccountProfile) (p : Provider) (users : UserArray) (rounds i : ℕ)
    (l : List Credential)
    → length (enumerate_users load p users rounds i l) ≤ length l + rounds
unfolding enumerate_users
enumerate_users_bound load p users zero i l = omega arith
enumerate_users_bound load p users (suc rounds) i l = omega (
  arith,
  enumerate_users_bound load p users rounds (suc i) (join_user load p users (users.sid_at i) l),
  join_user_bound load p users (users.sid_at i) l,
)

length-first_ready : (now i : ℕ) (l : List Credential) → length (first_ready now i l).1 ≡ length l
unfolding first_ready
length-first_ready now i [] = refl
length-first_ready now i (c ∷ l) = elim (Bool-cases (ready now c).0) [
  | inl e ↦ rw e
  | inr e ↦ rw e (ap suc (length-first_ready now (suc i) l))
]

ready-is_some :
    (now : ℕ) (c : Credential)
    → (ready now c).0 ≡ true
    → is_some (ready now c).1.ready_password ≡ true
unfolding ready
ready-is_some now c h = ground arith

-- The invariant of the provider: at most 256 credentials, and none unless they were enumerated
-- for a supported scenario.
pub record IsSound (p : Provider) : Type 0 where
  pub few : length p.credentials ≤ 256
  pub none_before : (p.enumerated && p.supported) ≡ false → length p.credentials ≡ 0

not_above : {n : ℕ} → ltb 256 n ≡ false → n ≤ 256
not_above h = ground arith

enumerate_counted-IsSound :
    (load : WideString → Result AccountProfile) (p : Provider) (users : UserArray)
    (count : Option ℕ)
    → length p.credentials ≡ 0
    → p.supported ≡ true
    → IsSound (enumerate_counted load p users count)
unfolding enumerate_counted
enumerate_counted-IsSound load p users none e t = record { few = omega arith; none_before = λ h. e }
enumerate_counted-IsSound load p users (some count) e t = elim (Bool-cases (ltb 256 count)) [
  | inl h ↦ rw h (record { few = omega arith; none_before = λ k. e })
  | inr h ↦ rw h (record {
    few = omega (arith, enumerate_users_bound load p users count 0 p.credentials, not_above h);
    none_before = λ k. cc;
  })
]

by_users :
    (load : WideString → Result AccountProfile) (p : Provider) (users : Option UserArray)
    → IsSound p
    → p.enumerated ≡ false
    → p.supported ≡ true
    → IsSound (elim users [ none ↦ p | some array ↦ enumerate_counted load p array array.count ])
by_users load p none s e t = s
by_users load p (some array) s e t =
    enumerate_counted-IsSound load p array array.count (s.none_before (ground arith)) t

enumerate-IsSound :
    (load : WideString → Result AccountProfile) (p : Provider)
    → IsSound p
    → IsSound (enumerate load p)
unfolding enumerate
enumerate-IsSound load p s = elim (Bool-cases (p.enumerated || not p.supported)) [
  | inl e ↦ rw e s
  | inr e ↦ rw e (by_users load p p.users s (ground arith) (ground arith))
]

length-map : (f : Credential → Credential) (l : List Credential) → length (map f l) ≡ length l
length-map f [] = refl
length-map f (c ∷ l) = ap suc (length-map f l)

call-IsSound :
    (load : WideString → Result AccountProfile) (call : Call) (p : Provider)
    → IsSound p
    → IsSound (after_call load call p)
unfolding after_call set_usage_scenario provider_un_advise set_user_array release_all advise
    get_credential_count
call-IsSound load (scenario_set remote scenario) p s = record {
  few = omega arith;
  none_before = λ h. refl;
}
call-IsSound load (advised none context) p s = s
call-IsSound load (advised (some events) context) p s =
    let n = length-map (set_provider_events (some events) context) p.credentials in
    record { few = omega (arith, s.few); none_before = λ h. n ∙ s.none_before h }
call-IsSound load un_advised p s = record { few = omega arith; none_before = λ h. refl }
call-IsSound load (users_set none) p s = s
call-IsSound load (users_set (some users)) p s = record {
  few = omega arith;
  none_before = λ h. refl;
}
call-IsSound load (counted false now) p s = s
call-IsSound load (counted true now) p s =
    let e = enumerate-IsSound load p s in
    let n = length-first_ready now 0 (enumerate load p).credentials in
    record { few = omega (arith, e.few); none_before = λ h. n ∙ e.none_before h }

calls-IsSound :
    (load : WideString → Result AccountProfile) (calls : List Call) (p : Provider)
    → IsSound p
    → IsSound (after_calls load calls p)
unfolding after_calls
calls-IsSound load [] p s = s
calls-IsSound load (call ∷ calls) p s =
    calls-IsSound load calls (after_call load call p) (call-IsSound load call p s)

new_provider-IsSound : IsSound new_provider
unfolding new_provider
new_provider-IsSound = record { few = omega arith; none_before = λ h. refl }

-- The list of credentials stays within bounds: after any calls on a new provider there are at
-- most 256 credentials, and none unless the users were enumerated for a supported scenario.
pub after_calls-IsSound :
    (load : WideString → Result AccountProfile) (calls : List Call)
    → IsSound (after_calls load calls new_provider)
after_calls-IsSound load calls = calls-IsSound load calls new_provider new_provider-IsSound

found_ready :
    (now i j : ℕ) (l : List Credential)
    → (first_ready now i l).0 ≡ some j
    → (k : ℕ) × (c : Credential) × (j ≡ i + k)
      × (get_elem? (first_ready now i l).1 k ≡ some c)
      × (is_some c.ready_password ≡ true)
unfolding first_ready
found_ready now i j [] h = cc
found_ready now i j (c ∷ l) h = elim (Bool-cases (ready now c).0) [
  | inl e ↦
      let first : some i ≡ some j = rw e at h in
      let same : i ≡ j = cc in (0, (ready now c).1, omega arith, rw e, ready-is_some now c e)
  | inr e ↦
      let (k, d, a, b, r) = found_ready now (suc i) j l (rw e at h) in
      (suc k, d, omega arith, rw e b, r)
]

shown_of : Option (ℕ × ℕ × Bool) → ℕ × ℕ × Bool
shown_of none = (0, 0, false)
shown_of (some t) = t

selection-automatic :
    (n : ℕ) (found : Option ℕ) (selected : ℕ)
    → selection n found ≡ (selected, true)
    → found ≡ some selected
selection-automatic n (some i) selected h = ap (λ (t : ℕ × Bool). some t.0) h
selection-automatic n none selected h =
    let impossible : false ≡ true = ap (λ (t : ℕ × Bool). t.1) h in cc

-- Automatic sign-in needs a proof: when `GetCredentialCount` of a provider asks for automatic
-- sign-in, the selected index is that of one of its credentials, and this one has a password
-- ready. The count is then the number of its credentials.
pub get_credential_count-is_ready :
    (load : WideString → Result AccountProfile) (now : ℕ) (p p' : Provider) (result : HResult)
    (count selected : ℕ)
    → get_credential_count true load now p ≡ (result, some (count, selected, true), p')
    → (c : Credential) × (get_elem? p'.credentials selected ≡ some c)
      × (is_some c.ready_password ≡ true)
      × (count ≡ length p'.credentials)
unfolding get_credential_count shown_of
get_credential_count-is_ready load now p p' result count selected h =
    let now_credentials = (enumerate load p).credentials in
    let n = length now_credentials in
    let found = first_ready now 0 now_credentials in
    let shown : ◌≡◌ {A = ℕ × ℕ × Bool} (n, (selection n found.0).0, (selection n found.0).1)
        (count, selected, true) =
      ap (λ (t : HResult × Option (ℕ × ℕ × Bool) × Provider). shown_of t.1) h in
    let left : found.1 ≡ p'.credentials =
      ap (λ (t : HResult × Option (ℕ × ℕ × Bool) × Provider). t.2.credentials) h in
    let at = selection-automatic n found.0 selected (ap (λ (t : ℕ × ℕ × Bool). (t.1, t.2)) shown) in
    let (k, c, a, b, r) = found_ready now 0 selected now_credentials at in
    let here : selected ≡ k = omega arith in
    (
      c,
      subst (λ (l : List Credential). get_elem? l selected ≡ some c) left
          (subst (λ (i : ℕ). get_elem? found.1 i ≡ some c) (sym here) b),
      r,
      sym (ap (λ (t : ℕ × ℕ × Bool). t.0) shown)
          ∙ sym (length-first_ready now 0 now_credentials)
          ∙ ap length left,
    )
