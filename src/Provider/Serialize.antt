-- ===== src/Provider/Serialize.antt =====
-- src/provider.cpp: `GetSerialization` and `ReportResult`.
use sovereign_windows_auth.Base.{
  ℕ, ◌%◌, ◌^◌, Bool, true, false, not, Option, none, some, String, ◌==◌, ◌=/=◌, leb, if◌then◌else◌,
  length, take, Result, ok, err,
}
use sovereign_windows_auth.Core.{Bytes, WideString, windows_pin}
use sovereign_windows_auth.Profile.Wide.{wide_of, c_str}
use sovereign_windows_auth.Filter.Types.{
  Guid, Scenario, HResult, s_ok, e_pointer, e_fail, e_outofmemory, clsid_sovereign_auth,
}
use sovereign_windows_auth.Provider.Credential.{
  Credential, Worker, Platform, begin, succeeded, take_password, set_deselected,
}

-- WindowsCredentialBuffer.
pub record Auth : Type 0 where
  pub auth_package : ℕ
  pub buffer : Bytes

-- The serialization of a password, by the PIN bridge made of the users, the SID and the
-- scenario, or by packing it with the account's name. Both call Windows; they can throw.
pub record Packing : Type 0 where
  pub pin_serialize : Option ℕ → WideString → Scenario → WideString → Result Auth
  pub pack_credential : WideString → WideString → Result Auth

pub record Serialization : Type 0 where
  pub authentication_package : ℕ
  pub provider : Guid
  pub size : ℕ
  pub bytes : Bytes

pub data Response : Type 0 where
  no_credential_not_finished return_credential_finished : Response

-- What the call stores: the response, the serialization (none: zeroed), the text, and whether
-- the icon is that of an error.
pub record Reply : Type 0 where
  pub response : Response
  pub serialized : Option Serialization
  pub text : Option String
  pub icon_error : Bool

abbrev pub no_reply : Reply
no_reply = record {
  response = no_credential_not_finished;
  serialized = none;
  text = none;
  icon_error = false;
}

abbrev pub rejected : String
rejected =
    "Windows rejected the enrolled credential. Use your usual Windows sign-in. If your PIN changed, re-enroll the keys."

unfoldable pub authenticate : Packing → Credential → Bytes → Result Auth
authenticate packing c password =
    let text = c_str (wide_of password) in
    if c.profile.kind == windows_pin
    then packing.pin_serialize c.users c.profile.sid c.scenario text
    else packing.pack_credential c.profile.account text

-- The second critical section: `allocates` is whether CoTaskMemAlloc gives memory.
unfoldable pub complete : ℕ → Auth → Bool → Credential → HResult × Reply × Credential
complete attempt auth allocates c =
    if c.generation =/= attempt
    then (s_ok, no_reply, c)
    else (let c = record c { pin_bridge = c.profile.kind == windows_pin } in
        let size = length auth.buffer % 2 ^ 32 in
        if allocates
        then (
          s_ok,
          record no_reply {
            response = return_credential_finished;
            serialized = some (record {
              authentication_package = auth.auth_package;
              provider = clsid_sovereign_auth;
              size = size;
              bytes = take size auth.buffer;
            });
          },
          c,
        )
        else (e_outofmemory, no_reply, c))

-- From what the packing returns or throws, in the `try` block.
unfoldable pub deliver :
    Result Auth → Bool → ℕ → Credential → HResult × Option Reply × Credential × Option Worker
deliver (err e) allocates attempt c =
    (e_fail, some (record no_reply { icon_error = true }), c, none)
deliver (ok auth) allocates attempt c =
    let (result, reply, c) = complete attempt auth allocates c in (result, some reply, c, none)

-- Without a password the call starts a worker. Whether the text could be copied is not looked at:
-- the model copies it.
unfoldable pub start_proof :
    Platform → Credential → HResult × Option Reply × Credential × Option Worker
start_proof platform c =
    let (started, c, worker) = begin platform c in
    (
      s_ok,
      some (record no_reply {
        text = some (
            if succeeded started
            then "Touch your key to sign in."
            else "Key authentication could not start.");
        icon_error = not (succeeded started);
      }),
      c,
      worker,
    )

-- Below the first critical section.
unfoldable pub answer :
    Platform
    → Packing
    → Bool
    → ℕ
    → Option Bytes
    → Credential
    → HResult × Option Reply × Credential × Option Worker
answer platform packing allocates attempt none c = start_proof platform c
answer platform packing allocates attempt (some bytes) c =
    deliver (authenticate packing c bytes) allocates attempt c

-- `elsewhere` is what other threads do to the credential between the critical sections. The
-- first argument is whether no output pointer is null.
unfoldable pub get_serialization :
    Bool
    → ℕ
    → Platform
    → Packing
    → (Credential → Credential)
    → Bool
    → Credential
    → HResult × Option Reply × Credential × Option Worker
get_serialization false now platform packing elsewhere allocates c = (e_pointer, none, c, none)
get_serialization true now platform packing elsewhere allocates c =
    let (attempt, password, c) = take_password now c in
    let c = elsewhere c in answer platform packing allocates attempt password c

-- `present`: neither output pointer is null. A status is its 32 bits. The result holds the text
-- and whether the icon is that of an error; `copies` is whether the text could be copied.
unfoldable pub report_result :
    Bool → Bool → ℕ → Credential → HResult × Option (Option String × Bool) × Credential
report_result false copies status c = (e_pointer, none, c)
report_result true copies status c =
    if leb (2 ^ 31) status
    then (
      if copies then s_ok else e_outofmemory,
      some (if copies then some rejected else none, true),
      set_deselected c,
    )
    else (s_ok, some (none, false), set_deselected c)
