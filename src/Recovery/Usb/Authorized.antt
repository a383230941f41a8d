-- ===== src/Recovery/Usb/Authorized.antt =====
-- What an authorization by a USB drive stands for: src/recovery_usb.cpp.
use sovereign_windows_auth.Base.{
  ◌≡◌, refl, sym, ap, ◌∙◌, arith, Bool, true, false, not, ◌&&◌, &&-elim, ◌++◌, length,
  All-append_right, take, drop, take-append-drop, Option, none, some, ◌==◌, ==_iff, eq→==, ltb, ok,
  need-ok, need-eq-ok, >>=-eq-ok, ok-injective,
}
use sovereign_windows_auth.Core.{Bytes, WideString, IsByte, IsBytes, equal}
use sovereign_windows_auth.Core.Equal.{equal_iff}
use sovereign_windows_auth.Profile.Wide.{wide_eq}
use sovereign_windows_auth.Profile.Files.{Entry, Disk, wide_eq-eq}
use sovereign_windows_auth.Recovery.Path.{usb_path}
use sovereign_windows_auth.Recovery.Registry.{Registry}
use sovereign_windows_auth.Recovery.Usb.{
  magic, key_size, pairing_path, pairing_name, FileReading, Hashing, Drive, material_of, key_at,
  read_key, pairing_digest, expected, hashed, key_digest, digest_equal, given_path, authorize,
}

-- What Windows documents of SHA-256: a digest has 32 bytes.
abbrev pub HasDigests : Hashing → Type 0
HasDigests hashing =
    (key digest : Bytes) → hashing.sha256 key ≡ some digest → IsBytes digest × (length digest ≡ 32)

-- A file of the drive that is a recovery credential.
pub record IsCredential (drive : Drive) (disk : Disk) (path : WideString) (bytes : Bytes)
    : Type 0 where
  pub full : WideString
  pub entry : Entry
  pub full_path : usb_path drive.paths path false ≡ ok full
  pub on_disk : disk full ≡ some entry
  pub content : entry.content ≡ some bytes
  pub not_redirected : entry.inspection.redirected ≡ false
  pub size : length bytes ≡ 56
  pub format : bytes ≡ magic ++ drop 8 bytes

-- That the file at a path carries the credential whose digest the hive holds.
pub record IsAuthorized (registry : Registry) (drive : Drive) (disk : Disk)
    (software : registry.Hive) (key_file : Option WideString) : Type 0 where
  pub path : WideString
  pub bytes : Bytes
  pub digest : Bytes
  pub given : key_file ≡ some path
  pub credential : IsCredential drive disk path bytes
  pub hashes : drive.hashing.sha256 bytes ≡ some digest
  pub recorded : registry.get_binary software pairing_path pairing_name ≡ some (magic ++ digest)

not-true : (b : Bool) → not b ≡ true → b ≡ false
not-true true h = cc
not-true false h = refl

begins : (bytes : Bytes) → wide_eq magic (take 8 bytes) ≡ true → bytes ≡ magic ++ drop 8 bytes
begins bytes h =
    sym (take-append-drop 8 bytes)
    ∙ ap (λ (t : Bytes). t ++ drop 8 bytes) (sym (wide_eq-eq magic _ h))

pairing_digest-some :
    (o : Option Bytes) {digest : Bytes}
    → pairing_digest o ≡ ok digest
    → (o ≡ some (magic ++ digest)) × (length (magic ++ digest) ≡ 40)
unfolding pairing_digest
pairing_digest-some none h = cc
pairing_digest-some (some bytes) h =
    let (form, h) = need-eq-ok ((length bytes == 40) && wide_eq magic (take 8 bytes)) _ _ h in
    let (size, start) = &&-elim _ _ form in
    let whole : bytes ≡ magic ++ _ =
      begins bytes start ∙ ap (λ (t : Bytes). magic ++ t) (ok-injective h) in
    (ap some whole, ap (λ (t : Bytes). length t) (sym whole) ∙ (==_iff _ _).0 size)

material_of-some :
    (reading : FileReading) (redirected : Bool) (o : Option Bytes) {bytes : Bytes}
    → material_of reading redirected o ≡ ok bytes
    → (o ≡ some bytes) × (redirected ≡ false)
unfolding material_of
material_of-some reading redirected none h = cc
material_of-some reading redirected (some b) h =
    let (opens, h) = need-eq-ok reading.opens _ _ h in
    let (regular, h) =
      need-eq-ok (reading.informs && ((length b == key_size) && not redirected)) _ _ h in
    let (reads, h) = need-eq-ok reading.reads _ _ h in
    let (_, form) = &&-elim _ _ regular in
    (ap some (ok-injective h), not-true redirected (&&-elim _ _ form).1)

key_at-some :
    (reading : FileReading) (o : Option Entry) {bytes : Bytes}
    → key_at reading o ≡ ok bytes
    → (entry : Entry) × (o ≡ some entry)
      × (entry.content ≡ some bytes)
      × (entry.inspection.redirected ≡ false)
unfolding key_at
key_at-some reading none h = cc
key_at-some reading (some entry) h =
    let (content, plain) = material_of-some reading entry.inspection.redirected entry.content h in
    (entry, refl, content, plain)

given_path-some :
    (o : Option WideString) {path : WideString} → given_path o ≡ ok path → o ≡ some path
unfolding given_path
given_path-some none h = cc
given_path-some (some p) h =
    let (long, h) = need-eq-ok (ltb 0 (length p)) _ _ h in ap some (ok-injective h)

hashed-some : (o : Option Bytes) {digest : Bytes} → hashed o ≡ ok digest → o ≡ some digest
unfolding hashed
hashed-some none h = cc
hashed-some (some d) h = ap some (ok-injective h)

pub key_digest-some :
    (hashing : Hashing) (bytes : Bytes) {digest : Bytes}
    → key_digest hashing bytes ≡ ok digest
    → (length bytes ≡ 56) × (bytes ≡ magic ++ drop 8 bytes) × (hashing.sha256 bytes ≡ some digest)
unfolding key_digest
key_digest-some hashing bytes h =
    let (form, h) = need-eq-ok ((length bytes == key_size) && wide_eq magic (take 8 bytes)) _ _ h in
    let (opens, h) = need-eq-ok hashing.opens _ _ h in
    let (size, start) = &&-elim _ _ form in
    ((==_iff _ _).0 size, begins bytes start, hashed-some _ h)

-- The comparison of two digests.
digest_equal-eq :
    (a b : Bytes) → IsBytes a → IsBytes b → length a ≡ length b → digest_equal a b ≡ true → a ≡ b
unfolding digest_equal equal
digest_equal-eq a b ha hb size h = (equal_iff a b ha hb).0 (rw (eq→== (length a) (length b) size) h)

-- Only the paired drive authorizes: where `authorize` returns, a path was given, and it names, on
-- a removable drive, a regular file of 56 bytes that starts as a credential does, whose SHA-256
-- digest is, byte for byte, the one that the pairing record of the hive holds.
pub authorize-IsAuthorized :
    (registry : Registry) (drive : Drive) (disk : Disk) (software : registry.Hive)
    (key_file : Option WideString)
    → HasDigests drive.hashing
    → ((path name : WideString) (value : Bytes)
        → registry.get_binary software path name ≡ some value
        → IsBytes value)
    → authorize registry drive disk software key_file ≡ ok tt
    → IsAuthorized registry drive disk software key_file
unfolding authorize expected read_key
authorize-IsAuthorized registry drive disk software key_file digests values h =
    let (verifier, there, h) =
      >>=-eq-ok (pairing_digest (registry.get_binary software pairing_path pairing_name)) _ h in
    let (path, given, h) = >>=-eq-ok (given_path key_file) _ h in
    let (bytes, key, h) = >>=-eq-ok (read_key drive.paths drive.reading disk path) _ h in
    let (digest, summed, h) = >>=-eq-ok (key_digest drive.hashing bytes) _ h in
    let same = need-ok (digest_equal digest verifier) _ h in
    let (full, placed, at) = >>=-eq-ok (usb_path drive.paths path false) _ key in
    let (entry, found, content, plain) = key_at-some drive.reading (disk full) at in
    let (size, format, hashes) = key_digest-some drive.hashing bytes summed in
    let (recorded, whole) = pairing_digest-some _ there in
    let (digest_bytes, digest_size) = digests bytes digest hashes in
    let verifier_bytes : IsBytes verifier =
      All-append_right IsByte magic verifier (values pairing_path pairing_name _ recorded) in
    let equal_digests =
      digest_equal-eq digest verifier digest_bytes verifier_bytes (omega arith) same in
    record {
      path = path;
      bytes = bytes;
      digest = digest;
      given = given_path-some key_file given;
      credential = record {
        full = full;
        entry = entry;
        full_path = placed;
        on_disk = found;
        content = content;
        not_redirected = plain;
        size = size;
        format = format;
      };
      hashes = hashes;
      recorded = recorded ∙ ap (λ (t : Bytes). some (magic ++ t)) (sym equal_digests);
    }
