-- ===== src/Provider/Produced.antt =====
-- When `GetSerialization` of src/provider.cpp hands a credential to Windows.
use sovereign_windows_auth.Base.{
  ◌≡◌, refl, ap, ◌∙◌, sym, inl, inr, ℕ, ◌%◌, ◌^◌, ◌≤◌, Bool, true, false, Option, none, some, ◌=/=◌,
  leb, leb→le, le→leb, if◌then◌else◌, length, take, Result, ok, err, Bool-cases, arith,
}
use sovereign_windows_auth.Core.{Bytes}
use sovereign_windows_auth.Filter.Types.{s_ok, clsid_sovereign_auth}
use sovereign_windows_auth.Provider.Credential.{Credential, Platform, take_password, elapsed}
use sovereign_windows_auth.Provider.Serialize.{
  Auth, Packing, Reply, Response, no_reply, return_credential_finished, no_credential_not_finished,
  authenticate, complete, deliver, start_proof, answer, get_serialization,
}

-- What the other threads leave of a credential whose password was taken.
abbrev pub meanwhile : (Credential → Credential) → Credential → Credential
meanwhile elsewhere c = elsewhere (record c { ready_password = none })

-- The reply that carries a serialization.
abbrev pub finished : Auth → Reply
finished auth =
    let size = length auth.buffer % 2 ^ 32 in
    record no_reply {
      response = return_credential_finished;
      serialized = some (record {
        authentication_package = auth.auth_package;
        provider = clsid_sovereign_auth;
        size = size;
        bytes = take size auth.buffer;
      });
    }

complete-finished :
    (attempt : ℕ) (auth : Auth) (allocates : Bool) (d : Credential)
    → (complete attempt auth allocates d).1.response ≡ return_credential_finished
    → (d.generation ≡ attempt) × ((complete attempt auth allocates d).1 ≡ finished auth)
unfolding complete
complete-finished attempt auth true d h = elim (Bool-cases (d.generation =/= attempt)) [
  | inl e ↦ cc (rw e at h)
  | inr e ↦ (ground arith, rw e)
]
complete-finished attempt auth false d h = elim (Bool-cases (d.generation =/= attempt)) [
  | inl e ↦ cc (rw e at h)
  | inr e ↦ cc (rw e at h)
]

response_of : Option Reply → Response
response_of none = no_credential_not_finished
response_of (some reply) = reply.response

deliver-finished :
    (r : Result Auth) (allocates : Bool) (attempt : ℕ) (d : Credential) (reply : Reply)
    → (deliver r allocates attempt d).1 ≡ some reply
    → reply.response ≡ return_credential_finished
    → (auth : Auth) × (r ≡ ok auth) × (d.generation ≡ attempt) × (reply ≡ finished auth)
unfolding deliver response_of
deliver-finished (err e) allocates attempt d reply h f = cc (ap response_of h ∙ f)
deliver-finished (ok auth) allocates attempt d reply h f =
    let same : (complete attempt auth allocates d).1 ≡ reply = cc in
    let (g, e) =
      complete-finished attempt auth allocates d (ap (λ (r : Reply). r.response) same ∙ f) in
    (auth, refl, g, sym same ∙ e)

start_unfinished :
    (platform : Platform) (d : Credential) (reply : Reply)
    → (start_proof platform d).1 ≡ some reply
    → reply.response ≡ return_credential_finished
    → ⊥
unfolding start_proof response_of
start_unfinished platform d reply h f = cc (ap response_of h ∙ f)

by_password :
    (platform : Platform) (packing : Packing) (allocates : Bool) (attempt : ℕ) (reply : Reply)
    (password : Option Bytes) (d : Credential)
    → (answer platform packing allocates attempt password d).1 ≡ some reply
    → reply.response ≡ return_credential_finished
    → (b : Bytes) × (auth : Auth) × (password ≡ some b)
      × (d.generation ≡ attempt)
      × (authenticate packing d b ≡ ok auth)
      × (reply ≡ finished auth)
unfolding answer
by_password platform packing allocates attempt reply none d h f =
    absurd (start_unfinished platform d reply h f)
by_password platform packing allocates attempt reply (some b) d h f =
    let (auth, packed, same, made) =
      deliver-finished (authenticate packing d b) allocates attempt d reply h f in
    (b, auth, refl, same, packed, made)

if_some :
    (c : Bool) (o : Option Bytes) {b : Bytes}
    → (if c then o else none) ≡ some b
    → (c ≡ true) × (o ≡ some b)
if_some true o h = (refl, h)
if_some false o h = cc

not_changed : {n m : ℕ} → n ≡ m → (n =/= m) ≡ false
not_changed h = ground arith

-- A credential is produced only from a proof: when `GetSerialization` answers that the
-- credential is finished, a password was ready, it was at most 30000 milliseconds old, no other
-- thread changed the generation since it was taken, and the reply carries, for this provider,
-- what the packing made of that password.
pub get_serialization-is_proven :
    (now : ℕ) (platform : Platform) (packing : Packing) (elsewhere : Credential → Credential)
    (allocates : Bool) (c : Credential) (reply : Reply)
    → (get_serialization true now platform packing elsewhere allocates c).1 ≡ some reply
    → reply.response ≡ return_credential_finished
    → (b : Bytes) × (auth : Auth) × (c.ready_password ≡ some b)
      × (elapsed now c.ready_at ≤ 30000)
      × ((meanwhile elsewhere c).generation ≡ c.generation)
      × (authenticate packing (meanwhile elsewhere c) b ≡ ok auth)
      × (reply ≡ finished auth)
unfolding get_serialization take_password
get_serialization-is_proven now platform packing elsewhere allocates c reply h f =
    let (b, auth, taken, same, packed, made) =
      by_password platform packing allocates c.generation reply
        (if leb (elapsed now c.ready_at) 30000 then c.ready_password else none)
        (meanwhile elsewhere c) h f in
    let (fresh, ready) = if_some _ _ taken in (b, auth, ready, leb→le _ _ fresh, same, packed, made)

delivered :
    (platform : Platform) (packing : Packing) (elsewhere : Credential → Credential) (c : Credential)
    {o : Option Bytes} (b : Bytes) (auth : Auth)
    → o ≡ some b
    → (meanwhile elsewhere c).generation ≡ c.generation
    → authenticate packing (meanwhile elsewhere c) b ≡ ok auth
    → answer platform packing true c.generation o (meanwhile elsewhere c) ≡ (
      s_ok,
      some (finished auth),
      (complete c.generation auth true (meanwhile elsewhere c)).2,
      none,
    )
unfolding answer deliver complete
delivered platform packing elsewhere c b auth ready same packed =
    rw ready (rw packed (rw (not_changed same)))

-- A proof is enough: when a password is ready and at most 30000 milliseconds old, no other
-- thread changes the generation, the packing returns and there is memory, `GetSerialization`
-- answers S_OK with the finished credential and starts no worker.
pub get_serialization_delivers :
    (now : ℕ) (platform : Platform) (packing : Packing) (elsewhere : Credential → Credential)
    (c : Credential) (b : Bytes) (auth : Auth)
    → c.ready_password ≡ some b
    → elapsed now c.ready_at ≤ 30000
    → (meanwhile elsewhere c).generation ≡ c.generation
    → authenticate packing (meanwhile elsewhere c) b ≡ ok auth
    → (c' : Credential) × (get_serialization true now platform packing elsewhere true c
        ≡ (s_ok, some (finished auth), c', none))
unfolding get_serialization take_password
get_serialization_delivers now platform packing elsewhere c b auth ready fresh same packed = (
  (complete c.generation auth true (meanwhile elsewhere c)).2,
  delivered platform packing elsewhere c b auth (rw (le→leb _ _ fresh) ready) same packed,
)
