-- ===== src/Provider/Discarded.antt =====
-- A tile of src/provider.cpp that is submitted again while a canceled worker is still under way.
use sovereign_windows_auth.Base.{
  ◌≡◌, inl, inr, ◌≢◌, ℕ, Bool, true, Option, none, some, ◌==◌, leb, Bool-cases, arith,
}
use sovereign_windows_auth.Core.{Bytes}
use sovereign_windows_auth.Filter.Types.{s_ok}
use sovereign_windows_auth.Provider.Credential.{
  Credential, Worker, Platform, begin, finish, take_password, elapsed,
}
use sovereign_windows_auth.Provider.Serialize.{
  Packing, Reply, no_reply, answer, start_proof, get_serialization,
}

-- What the call tells where it starts or keeps a worker.
abbrev pub touch_asked : Reply
touch_asked = record no_reply { text = some "Touch your key to sign in." }

nothing_taken :
    (now : ℕ) (c : Credential) → c.ready_password ≡ none → (take_password now c).1 ≡ none
unfolding take_password
nothing_taken now c h = elim (Bool-cases (leb (elapsed now c.ready_at) 30000)) [
  | inl e ↦ simp (e, h)
  | inr e ↦ simp e
]

busy_asks :
    (platform : Platform) (packing : Packing) (allocates : Bool) (attempt : ℕ)
    (password : Option Bytes) (c : Credential)
    → password ≡ none
    → c.working ≡ true
    → answer platform packing allocates attempt password c ≡ (s_ok, some touch_asked, c, none)
unfolding answer start_proof begin
busy_asks platform packing allocates attempt password c e busy = simp (e, busy)

stale_end :
    (later : ℕ) (w : Worker) (password : Option Bytes) (c : Credential)
    → w.attempt ≢ c.generation
    → (finish later w password c).ready_password ≡ c.ready_password
unfolding finish
stale_end later w password c h = elim (Bool-cases (w.attempt == c.generation)) [
  | inl e ↦ absurd (h (ground arith))
  | inr e ↦ simp e
]

-- A touch is asked for and thrown away: while a worker is under way that a deselection has canceled
-- (its attempt is not the generation), `GetSerialization` without a ready password answers S_OK with
-- the text that asks for a touch and no error icon, but starts no worker, and whatever password the
-- worker then ends with, none is ready.
pub get_serialization-discards :
    (now later : ℕ) (platform : Platform) (packing : Packing) (allocates : Bool) (c : Credential)
    (w : Worker) (password : Option Bytes)
    → c.working ≡ true
    → c.ready_password ≡ none
    → w.attempt ≢ c.generation
    → (c' : Credential) × (get_serialization true now platform packing (λ d. d) allocates c
        ≡ (s_ok, some touch_asked, c', none))
      × ((finish later w password c').ready_password ≡ none)
unfolding get_serialization take_password
get_serialization-discards now later platform packing allocates c w password busy empty stale =
    let c' : Credential = record c { ready_password = none } in
    (
      c',
      busy_asks platform packing allocates c.generation _ c' (nothing_taken now c empty) busy,
      stale_end later w password c' stale,
    )
