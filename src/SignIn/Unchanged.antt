-- ===== src/SignIn/Unchanged.antt =====
-- What the operations on a Credential of src/provider.cpp leave alone.
use sovereign_windows_auth.Base.{
  ◌≡◌, refl, ◌∙◌, inl, inr, ℕ, ◌&&◌, List, [], ◌∷◌, Option, none, some, ltb, if◌then◌else◌, ◌==◌,
  Bool-cases,
}
use sovereign_windows_auth.Core.{Bytes}
use sovereign_windows_auth.Filter.Types.{HResult, is_some, e_unexpected}
use sovereign_windows_auth.Provider.Credential.{
  Credential, Worker, Platform, begin, launch, finish, ready, take_password, set_deselected,
  set_provider_events, elapsed, succeeded, from_win32,
}
use sovereign_windows_auth.Provider.Protocol.{
  Event, began, ended, asked, taken, deselected, listened, System, step, end_worker,
}
use sovereign_windows_auth.SignIn.{after}

-- What an operation leaves alone: the account, the users and the scenario.
pub record Same (c d : Credential) : Type 0 where
  pub profile : c.profile ≡ d.profile
  pub users : c.users ≡ d.users
  pub scenario : c.scenario ≡ d.scenario

pub Same-trans : {c d e : Credential} → Same c d → Same d e → Same c e
Same-trans p q = record {
  profile = p.profile ∙ q.profile;
  users = p.users ∙ q.users;
  scenario = p.scenario ∙ q.scenario;
}

pub unchanged :
    (c d : Credential)
    → c.profile ≡ d.profile
    → c.users ≡ d.users
    → c.scenario ≡ d.scenario
    → Same c d
unchanged c d p u s = record { profile = p; users = u; scenario = s }

pub launch-Same : (platform : Platform) (c : Credential) → Same (launch platform c).1 c
unfolding launch
launch-Same platform c = elim (Bool-cases platform.thread_starts) [
  | inl e ↦ simp e (unchanged _ c refl refl refl)
  | inr e ↦ simp e (unchanged _ c refl refl refl)
]

pub cleared-Same :
    (platform : Platform) (c : Credential) (events pin : Option ℕ)
    → Same
        (elim events as (λ _. HResult × Credential × Option Worker) [
          | none ↦ (e_unexpected, c, none)
          | some listener ↦ elim pin as (λ _. HResult × Credential × Option Worker) [
            | some code ↦ (from_win32 code, c, none)
            | none ↦
                if succeeded platform.marshal
                then launch platform c
                else (platform.marshal, c, none)
          ]
        ]).1
        c
cleared-Same platform c none pin = unchanged c c refl refl refl
cleared-Same platform c (some e) (some code) = unchanged c c refl refl refl
cleared-Same platform c (some e) none = elim (Bool-cases (succeeded platform.marshal)) [
  | inl e ↦ rw e (launch-Same platform c)
  | inr e ↦ rw e (unchanged c c refl refl refl)
]

pub begin-Same : (platform : Platform) (c : Credential) → Same (begin platform c).1 c
unfolding begin
begin-Same platform c = elim (Bool-cases c.working) [
  | inl e ↦ simp e (unchanged c c refl refl refl)
  | inr e ↦
      let cleared : Credential = record c { ready_password = none } in
      let r = cleared-Same platform cleared c.provider_events platform.pin_error in
      simp e (unchanged _ c r.profile r.users r.scenario)
]

pub finish-Same :
    (now : ℕ) (w : Worker) (p : Option Bytes) (c : Credential) → Same (finish now w p c) c
unfolding finish
finish-Same now w none c = elim (Bool-cases (w.attempt == c.generation)) [
  | inl e ↦ simp e (unchanged _ c refl refl refl)
  | inr e ↦ simp e (unchanged _ c refl refl refl)
]
finish-Same now w (some b) c = elim (Bool-cases (w.attempt == c.generation)) [
  | inl e ↦ simp e (unchanged _ c refl refl refl)
  | inr e ↦ simp e (unchanged _ c refl refl refl)
]

pub ready-Same : (now : ℕ) (c : Credential) → Same (ready now c).1 c
unfolding ready
ready-Same now c =
    elim (Bool-cases (is_some c.ready_password && ltb 30000 (elapsed now c.ready_at))) [
      | inl e ↦ simp e (unchanged _ c refl refl refl)
      | inr e ↦ simp e (unchanged _ c refl refl refl)
    ]

pub end_worker-Same :
    (now : ℕ) (p : Option Bytes) (c : Credential) (w : Option Worker)
    → Same (end_worker now p c w).0 c
end_worker-Same now p c none = unchanged c c refl refl refl
end_worker-Same now p c (some w) = finish-Same now w p c

pub step-Same : (e : Event) (s : System) → Same (step e s).0.credential s.credential
unfolding step take_password set_deselected set_provider_events
step-Same (began platform) s = begin-Same platform s.credential
step-Same (ended now p) s = end_worker-Same now p s.credential s.worker
step-Same (asked now) s = ready-Same now s.credential
step-Same (taken now) s = unchanged _ s.credential refl refl refl
step-Same deselected s = unchanged _ s.credential refl refl refl
step-Same (listened events context) s = unchanged _ s.credential refl refl refl

pub after-Same : (es : List Event) (s : System) → Same (after es s).credential s.credential
unfolding after
after-Same [] s = unchanged s.credential s.credential refl refl refl
after-Same (e ∷ es) s = Same-trans (after-Same es (step e s).0) (step-Same e s)
