-- ===== src/Recovery/Usb/Pair/Paired.antt =====
-- What a pairing of a USB drive does, and does not do: src/recovery_usb.cpp.
use sovereign_windows_auth.Base.{
  ℕ, ◌≡◌, refl, sym, ap, ◌∙◌, arith, Bool, true, false, not, Bool-cases, inl, inr, ◌&&◌, &&-elim,
  ◌++◌, length, length-append, none, some, ◌==◌, ==_iff, eq→==, ltb, lt→ltb, codes, String, Result,
  ok, err, ◌>>◌, need, need-ok, need-eq-ok, >>=-eq-ok, ok-injective,
}
use sovereign_windows_auth.Core.{Bytes, WideString}
use sovereign_windows_auth.Profile.Files.{Entry, Disk, put, get-put_other, taken_differs}
use sovereign_windows_auth.Profile.Store.{is_free}
use sovereign_windows_auth.Profile.Store.Keeps.{is_free-none}
use sovereign_windows_auth.Recovery.Path.{usb_path}
use sovereign_windows_auth.Recovery.Registry.{Registry}
use sovereign_windows_auth.Recovery.Usb.{
  magic, key_size, pairing_path, pairing_name, Drive, read_key, pairing_digest, expected,
  key_digest, digest_equal, given_path, paired, authorize,
}
use sovereign_windows_auth.Recovery.Usb.Authorized.{HasDigests, key_digest-some}
use sovereign_windows_auth.Recovery.Usb.Pair.{
  Host, Plan, plan, key_file_in, read_back, key_entry, generated, after_set, after_create,
  record_pairing, after_read_back, confirm, write_key, pair_usb,
}

-- What Windows documents of a value that was set: it is the value that is read.
abbrev pub StoresValues : Registry → Type 0
StoresValues registry =
    (hive : registry.Hive) (path name : WideString) (value : Bytes)
    → (registry.set_binary hive path name value).0 ≡ 0
    → registry.get_binary (registry.set_binary hive path name value).1 path name ≡ some value

module _ (registry : Registry) (stores : StoresValues registry) where
  created-get :
      (digest : Bytes) (made : ℕ × Bool × registry.Hive)
      → (after_create registry digest made).1 ≡ ok tt
      → registry.get_binary (after_create registry digest made).0 pairing_path pairing_name
        ≡ some (magic ++ digest)
  unfolding after_create after_set
  created-get digest (code, new, hive) h = elim (Bool-cases (code == 0 && new)) [
    | inl success ↦
        let set = registry.set_binary hive pairing_path pairing_name (magic ++ digest) in
        let saved = need-ok (set.0 == 0 && registry.flush_key set.1 == 0) _ (rw success at h) in
        rw success (
          stores hive pairing_path pairing_name (magic ++ digest)
            ((==_iff _ _).0 (&&-elim _ _ saved).0))
    | inr failed ↦ cc (rw failed at h)
  ]

  record_pairing-get :
      (descriptor : Bool) (digest : Bytes) (software : registry.Hive)
      → (record_pairing registry descriptor digest software).1 ≡ ok tt
      → registry.get_binary
          (record_pairing registry descriptor digest software).0
          pairing_path
          pairing_name
        ≡ some (magic ++ digest)
  unfolding record_pairing
  record_pairing-get false digest software h = cc
  record_pairing-get true digest software h =
      created-get digest (registry.create_key software pairing_path) h

-- The plan's parts that an authorization meets again.
plan_target :
    (registry : Registry) (drive : Drive) (host : Host) (directory : WideString)
    (software : registry.Hive) {planned : Plan} {folder : WideString}
    → plan registry drive host directory software ≡ ok planned
    → usb_path drive.paths directory true ≡ ok folder
    → (planned.target ≡ key_file_in folder)
      × ((material : Bytes) × (drive.hashing.sha256 material ≡ some planned.digest))
unfolding plan
plan_target registry drive host directory software {planned} {folder} h placed =
    let (admin, h) = need-eq-ok host.is_admin _ _ h in
    let (desktop, h) = need-eq-ok (host.mini_nt == 2) _ _ h in
    let (opened, h) = need-eq-ok (host.software == 0) _ _ h in
    let (already, known, h) = >>=-eq-ok (paired registry software) _ h in
    let (fresh, h) = need-eq-ok (not already) _ _ h in
    let (found, there, h) = >>=-eq-ok (usb_path drive.paths directory true) _ h in
    let (material, drawn, h) = >>=-eq-ok (generated (host.random key_size)) _ h in
    let (digest, summed, h) = >>=-eq-ok (key_digest drive.hashing material) _ h in
    let same = ok-injective h in
    let (_, _, hashes) = key_digest-some drive.hashing material summed in
    let at : found ≡ folder = ok-injective (sym there ∙ placed) in
    (
      ap (λ (p : Plan). p.target) (sym same) ∙ ap key_file_in at,
      (material, hashes ∙ ap (λ (p : Plan). some p.digest) same),
    )

longer_some : (directory : WideString) → ltb 0 (length (key_file_in directory)) ≡ true
unfolding key_file_in
longer_some directory = lt→ltb _ _ (omega (arith, length-append directory (codes "\\recovery.key")))

recorded_digest :
    (registry : Registry) (software : registry.Hive) (digest : Bytes)
    → length digest ≡ 32
    → registry.get_binary software pairing_path pairing_name ≡ some (magic ++ digest)
    → expected registry software ≡ ok digest
unfolding expected pairing_digest
recorded_digest registry software digest size h =
    rw h (rw (eq→== (length (magic ++ digest)) 40 (omega arith)) refl)

-- A drive whose read-back passed is authorized by the digest that was read back.
authorize-read_back :
    (registry : Registry) (drive : Drive) (host : Host) (planned : Plan) (disk : Disk)
    (software : registry.Hive)
    → ltb 0 (length planned.target) ≡ true
    → expected registry software ≡ ok planned.digest
    → read_back drive host planned disk ≡ ok tt
    → authorize registry drive disk software (some planned.target) ≡ ok tt
unfolding authorize given_path read_back
authorize-read_back registry drive host planned disk software named recorded h =
    let (written, h) =
      need-eq-ok (host.writes && (host.written == key_size && host.flushes)) _ _ h in
    let (checked, read, h) =
      >>=-eq-ok (read_key drive.paths drive.reading disk planned.target) _ h in
    let (digest, summed, h) = >>=-eq-ok (key_digest drive.hashing checked) _ h in
    let same = need-ok (digest_equal digest planned.digest) _ h in
    rw recorded (rw named (rw read (rw summed (rw same refl))))

-- A pairing that was saved is complete: where `pairUsb` has planned a new credential, the drive
-- takes the file, the file reads back, and the record is saved in the registry, the last check of
-- `pairUsb` does not fail, so it returns, and the registry and the disk that it leaves authorize the
-- file recovery.key of the directory that was paired, if a digest has 32 bytes and a value that was
-- set is the value that is read.
pub pair_usb_completes :
    (registry : Registry) (drive : Drive) (host : Host) (directory folder : WideString)
    (disk : Disk) (software : registry.Hive) (planned : Plan)
    → StoresValues registry
    → HasDigests drive.hashing
    → usb_path drive.paths directory true ≡ ok folder
    → plan registry drive host directory software ≡ ok planned
    → host.creates ≡ true
    → disk planned.target ≡ none
    → read_back drive host planned (put disk planned.target (key_entry host planned.material))
      ≡ ok tt
    → (record_pairing registry host.descriptor planned.digest software).1 ≡ ok tt
    → ((pair_usb registry drive host directory disk software).2 ≡ ok tt)
      × (authorize registry drive
            (pair_usb registry drive host directory disk software).0
            (pair_usb registry drive host directory disk software).1
            (some (key_file_in folder))
          ≡ ok tt)
unfolding pair_usb write_key is_free after_read_back confirm
pair_usb_completes registry drive host directory folder disk software planned stores digests placed
      made creates free read saved =
    let (target, (material, hashes)) =
      plan_target registry drive host directory software made placed in
    let (_, size) = digests material planned.digest hashes in
    let after = (record_pairing registry host.descriptor planned.digest software).0 in
    let recorded =
      recorded_digest registry after planned.digest size
        (record_pairing-get registry stores host.descriptor planned.digest software saved) in
    let named : ltb 0 (length planned.target) ≡ true = rw target (longer_some folder) in
    let accepted =
      authorize-read_back registry drive host planned
        (put disk planned.target (key_entry host planned.material)) after named recorded read in
    rw made (rw creates (rw free (rw read (rw saved (accepted, rw (← target) accepted)))))

-- A failure behind a check is a failure.
abbrev Fails {ℓ} : {A : Type ℓ} → Result A → Type ℓ
Fails {A} r = (message : String) × (r ≡ err message)

need-Fails {ℓ} :
    {A : Type ℓ} (c : Bool) (e : String) (k : Result A) → Fails k → Fails (need c e >> k)
need-Fails true e k h = h
need-Fails false e k h = (e, refl)

plan-Fails :
    (registry : Registry) (drive : Drive) (host : Host) (directory : WideString)
    (software : registry.Hive)
    → paired registry software ≡ ok true
    → Fails (plan registry drive host directory software)
unfolding plan
plan-Fails registry drive host directory software h =
    need-Fails host.is_admin _ _
      (need-Fails (host.mini_nt == 2) _ _ (need-Fails (host.software == 0) _ _ (rw h (_, refl))))

-- A pairing is never replaced: where the registry holds a pairing key already, `pairUsb` fails, and
-- leaves the disk and the registry as they are.
pub pair_usb-paired :
    (registry : Registry) (drive : Drive) (host : Host) (directory : WideString) (disk : Disk)
    (software : registry.Hive)
    → paired registry software ≡ ok true
    → (message : String) × (pair_usb registry drive host directory disk software
        ≡ (disk, software, err message))
unfolding pair_usb write_key
pair_usb-paired registry drive host directory disk software h =
    let (message, failed) = plan-Fails registry drive host directory software h in
    (message, rw failed refl)

disk_after :
    (registry : Registry) (host : Host) (digest : Bytes) (disk : Disk) (software : registry.Hive)
    (r : Result (Unit {0}))
    → (after_read_back registry host digest disk software r).0 ≡ disk
unfolding after_read_back
disk_after registry host digest disk software (ok _) = refl
disk_after registry host digest disk software (err m) = refl

disk_confirmed :
    (registry : Registry) (drive : Drive) (target : WideString)
    (r : Disk × registry.Hive × Result (Unit {0}))
    → (confirm registry drive target r).0 ≡ r.0
unfolding confirm
disk_confirmed registry drive target (disk, software, ok _) = refl
disk_confirmed registry drive target (disk, software, err m) = refl

write_key_keeps :
    (registry : Registry) (drive : Drive) (host : Host) (disk : Disk) (software : registry.Hive)
    (path : WideString) (entry : Entry) (r : Result Plan)
    → disk path ≡ some entry
    → (write_key registry drive host disk software r).0 path ≡ some entry
unfolding write_key
write_key_keeps registry drive host disk software path entry (err m) there = there
write_key_keeps registry drive host disk software path entry (ok planned) there =
    elim (Bool-cases (host.creates && is_free (disk planned.target))) [
      | inl created ↦
          let free = is_free-none (disk planned.target) (&&-elim _ _ created).1 in
          let made = key_entry host planned.material in
          rw created (
            ap (λ (d : Disk). d path)
              (disk_confirmed registry drive planned.target _
                ∙ disk_after registry host planned.digest (put disk planned.target made) software
                    (read_back drive host planned (put disk planned.target made)))
            ∙ (get-put_other disk planned.target made path
                  (taken_differs disk planned.target path free there)
                ∙ there))
      | inr refused ↦ rw refused there
    ]

-- A pairing overwrites no file: whatever `pairUsb` returns, every entry that the disk had is there
-- afterwards, as it was.
pub pair_usb_keeps :
    (registry : Registry) (drive : Drive) (host : Host) (directory : WideString) (disk : Disk)
    (software : registry.Hive) (path : WideString) (entry : Entry)
    → disk path ≡ some entry
    → (pair_usb registry drive host directory disk software).0 path ≡ some entry
unfolding pair_usb
pair_usb_keeps registry drive host directory disk software path entry there =
    write_key_keeps registry drive host disk software path entry _ there
