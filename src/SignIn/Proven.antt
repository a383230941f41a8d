-- ===== src/SignIn/Proven.antt =====
-- What a sign-in with src/provider.cpp's Credential went through.
use sovereign_windows_auth.Base.{
  ◌≡◌, refl, sym, ap, ◌∙◌, ◌⊎◌, inl, inr, ℕ, ◌+◌, ◌^◌, ◌≤◌, ◌<◌, Bool, false, ◌&&◌, List, [], ◌∷◌,
  ◌++◌, length, drop, Option, none, some, some-injective, le→leb, Result, ok, err, Bool-cases,
}
use sovereign_windows_auth.Core.{Bytes, AccountProfile}
use sovereign_windows_auth.Touch.Device.{Hardware}
use sovereign_windows_auth.Touch.Account.{IsOpened, unlock_account-IsOpened}
use sovereign_windows_auth.Provider.Credential.{
  Credential, Platform, ready, take_password, worker_password, is_password, elapsed,
}
use sovereign_windows_auth.Provider.Serialize.{
  Auth, Reply, authenticate, return_credential_finished,
}
use sovereign_windows_auth.Provider.Protocol.{Event, ended, taken, password, System, step, run}
use sovereign_windows_auth.Provider.Safety.{alone}
use sovereign_windows_auth.Provider.Cancel.{IsAmong, taken-is_fresh}
use sovereign_windows_auth.Provider.Produced.{finished, get_serialization-is_proven}
use sovereign_windows_auth.SignIn.{
  Desktop, Opener, desktop_packing, worker_timeout, worker_rounds, returned, worker_end, Operation,
  begin_proof, key_answered, readiness_asked, password_taken, deselection, events_set, event_of,
  events_of, after, sign_in,
}
use sovereign_windows_auth.SignIn.Carried.{IsCarried, authenticate-IsCarried}
use sovereign_windows_auth.Profile.Wide.{wide_of, c_str}
use sovereign_windows_auth.SignIn.Unchanged.{Same, Same-trans, unchanged, after-Same}

drop-run :
    (before es : List Event) (s : System)
    → drop (length before) (run (before ++ es) s) ≡ run es (after before s)
unfolding run after
drop-run [] es s = refl
drop-run (e ∷ before) es s = drop-run before es (step e s).0

-- A password that could be taken is the last that a run shows.
taken_last :
    (before : List Event) (now : ℕ) (s : System) (b : Bytes)
    → (after before s).credential.ready_password ≡ some b
    → elapsed now (after before s).credential.ready_at ≤ 30000
    → drop (length before) (run (before ++ (taken now ∷ [])) s) ≡ password (some b) ∷ []
unfolding run step take_password
taken_last before now s b ready fresh =
    drop-run before (taken now ∷ []) s ∙ simp (le→leb _ _ fresh, ready)

-- An operation is among the operations.
abbrev pub IsDone : Operation → List Operation → Type 0
IsDone o [] = ⊥
IsDone o (x ∷ operations) = (x ≡ o) ⊎ IsDone o operations

-- The answer of the hardware behind a worker that ended with a password.
record Answered (opener : Opener) (profile : AccountProfile) (at : ℕ) (b : Bytes)
    (operations : List Operation) : Type 0 where
  initialized : Bool
  unmarshaled : Bool
  hardware : Hardware
  done : IsDone (key_answered at initialized unmarshaled hardware) operations
  ends : worker_end opener profile initialized unmarshaled hardware ≡ some b

abbrev ending : Event → ℕ × Option Bytes
ending (ended at p) = (at, p)
ending _ = (0, none)

event_ended :
    (opener : Opener) (profile : AccountProfile) (o : Operation) (at : ℕ) (b : Bytes)
    → event_of opener profile o ≡ ended at (some b)
    → Answered opener profile at b (o ∷ [])
unfolding event_of
event_ended opener profile (begin_proof platform) at b h = cc
event_ended opener profile (key_answered now i u hardware) at b h =
    let same : now ≡ at = ap (λ e. (ending e).0) h in
    record {
      initialized = i;
      unmarshaled = u;
      hardware = hardware;
      done = inl (ap (λ n. key_answered n i u hardware) same);
      ends = ap (λ e. (ending e).1) h;
    }
event_ended opener profile (readiness_asked now) at b h = cc
event_ended opener profile (password_taken now) at b h = cc
event_ended opener profile deselection at b h = cc
event_ended opener profile (events_set events context) at b h = cc

alone-IsDone :
    {o x : Operation} (operations : List Operation) → IsDone o (x ∷ []) → IsDone o (x ∷ operations)
alone-IsDone operations (inl e) = inl e
alone-IsDone operations (inr e) = absurd e

Answered-among :
    (opener : Opener) (profile : AccountProfile) (operations : List Operation) (at : ℕ) (b : Bytes)
    → IsAmong (ended at (some b)) (events_of opener profile operations)
    → Answered opener profile at b operations
unfolding events_of
Answered-among opener profile [] at b h = absurd h
Answered-among opener profile (o ∷ operations) at b (inl e) =
    let a = event_ended opener profile o at b e in
    record {
      initialized = a.initialized;
      unmarshaled = a.unmarshaled;
      hardware = a.hardware;
      done = alone-IsDone operations a.done;
      ends = a.ends;
    }
Answered-among opener profile (o ∷ operations) at b (inr later) =
    let a = Answered-among opener profile operations at b later in
    record {
      initialized = a.initialized;
      unmarshaled = a.unmarshaled;
      hardware = a.hardware;
      done = inr a.done;
      ends = a.ends;
    }

worker_password_of :
    (i u : Bool) (r : Result Bytes) {b : Bytes} → worker_password i u r ≡ some b → r ≡ ok b
unfolding worker_password
worker_password_of i u (err e) h = cc
worker_password_of i u (ok bytes) h = elim (Bool-cases (i && u && is_password bytes)) [
  | inl e ↦ ap ok (some-injective (simp e at h))
  | inr e ↦ cc (simp e at h)
]

returned_of :
    (i u : Bool) (r : Option (Result Bytes)) {b : Bytes} → returned i u r ≡ some b → r ≡ some (ok b)
unfolding returned
returned_of i u none h = cc
returned_of i u (some r) h = ap some (worker_password_of i u r h)

worker_end-IsOpened :
    (opener : Opener) (profile : AccountProfile) (i u : Bool) (hardware : Hardware) (b : Bytes)
    → worker_end opener profile i u hardware ≡ some b
    → IsOpened opener.api opener.cipher opener.memory hardware worker_timeout profile b
unfolding worker_end
worker_end-IsOpened opener profile i u hardware b h =
    unlock_account-IsOpened opener.api opener.cipher opener.memory hardware worker_rounds profile
      worker_timeout b (returned_of i u _ h)

authenticate-Same :
    (desktop : Desktop) (c d : Credential) (b : Bytes)
    → Same c d
    → authenticate (desktop_packing desktop) c b ≡ authenticate (desktop_packing desktop) d b
unfolding authenticate
authenticate-Same desktop c d b same = λ i.
    authenticate (desktop_packing desktop)
      (record c { profile = same.profile i; users = same.users i; scenario = same.scenario i }) b

-- What a sign-in went through: a worker's key was touched at most 30000 milliseconds before, as
-- `IsOpened` says, and the reply carries what Windows made of the text that it opened: as a PIN, set in
-- the one input of the one credential with the profile's SID, or as the password of its account.
pub record IsSignIn (opener : Opener) (desktop : Desktop) (c : Credential) (before : List Operation)
    (now : ℕ) (reply : Reply) : Type 0 where
  pub at : ℕ
  pub initialized : Bool
  pub unmarshaled : Bool
  pub hardware : Hardware
  pub opened_password : Bytes
  pub auth : Auth
  pub answered : IsDone (key_answered at initialized unmarshaled hardware) before
  pub recent : elapsed now at ≤ 30000
  pub opened :
      IsOpened opener.api opener.cipher opener.memory hardware worker_timeout c.profile
        opened_password
  pub carried : IsCarried desktop c (c_str (wide_of opened_password)) auth
  pub replied : reply ≡ finished auth

-- Signing in takes a touch: whatever operations a new credential went through, and whatever other
-- threads do meanwhile, when `GetSerialization` answers that the credential is finished, then a
-- worker's hardware answered at most 30000 milliseconds before, a key of the account was touched in
-- that answer with a verified signature, and the reply carries what Windows made of the text of the
-- very password that this key's record opens: what the user's own credential of the PIN provider
-- produced after exactly that text was set in its PIN field, or that text packed with the account,
-- while the generation does not wrap around.
pub sign_in-IsSignIn :
    (opener : Opener) (desktop : Desktop) (c : Credential) (before others : List Operation)
    (now : ℕ) (platform : Platform) (allocates : Bool) (reply : Reply)
    → c.working ≡ false
    → c.ready_password ≡ none
    → c.generation + length (events_of opener c.profile before ++ (taken now ∷ [])) < 2 ^ 64
    → (sign_in opener desktop c before others now platform allocates).1 ≡ some reply
    → reply.response ≡ return_credential_finished
    → IsSignIn opener desktop c before now reply
unfolding sign_in
sign_in-IsSignIn opener desktop c before others now platform allocates reply free cleared small h
      f =
    let events = events_of opener c.profile before in
    let s = after events (alone c) in
    let elsewhere : Credential → Credential = λ d.
      (after (events_of opener c.profile others)
        (record { credential = d; worker = s.worker })).credential in
    let (b, auth, ready, fresh, same, packed, made) =
      get_serialization-is_proven now platform (desktop_packing desktop) elsewhere allocates
        s.credential reply h f in
    let (at, among, recent) =
      taken-is_fresh events now b c free cleared small
        (taken_last events now (alone c) b ready fresh) in
    let a = Answered-among opener c.profile before at b among in
    let taken_from : Credential = record s.credential { ready_password = none } in
    let first = after-Same events (alone c) in
    let later : Same (elsewhere taken_from) c =
      Same-trans
        (after-Same (events_of opener c.profile others)
          (record { credential = taken_from; worker = s.worker }))
        (unchanged taken_from c first.profile first.users first.scenario) in
    record {
      at = at;
      initialized = a.initialized;
      unmarshaled = a.unmarshaled;
      hardware = a.hardware;
      opened_password = b;
      auth = auth;
      answered = a.done;
      recent = recent;
      opened = worker_end-IsOpened opener c.profile a.initialized a.unmarshaled a.hardware b a.ends;
      carried =
          authenticate-IsCarried desktop c b
            (sym (authenticate-Same desktop (elsewhere taken_from) c b later) ∙ packed);
      replied = made;
    }
