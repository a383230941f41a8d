-- ===== src/Tests/Recoveries.antt =====
-- A drive that is paired, for src/recovery_usb.cpp.
use sovereign_windows_auth.Base.{
  ◌≡◌, refl, zero, ◌%◌, ap, subst, ℕ, suc, Bool, true, false, not, List, [], ◌∷◌, ◌++◌, none, some,
  some-injective, ok, codes, length, replicate, if◌then◌else◌, arith,
}
use sovereign_windows_auth.Core.{Bytes, WideString, IsBytes, gather}
use sovereign_windows_auth.Profile.Wide.{wide_eq}
use sovereign_windows_auth.Profile.Files.{Disk, put}
use sovereign_windows_auth.Recovery.Path.{
  PathApi, is_letter, lacks, is_local, strip, trim, is_plain, walk, full, usb_path,
}
use sovereign_windows_auth.Recovery.Registry.{is_missing}
use sovereign_windows_auth.Recovery.Usb.{
  magic, Hashing, Drive, material_of, key_at, read_key, hashed, key_digest, digest_equal, paired,
  authorize,
}
use sovereign_windows_auth.Recovery.Usb.Authorized.{HasDigests}
use sovereign_windows_auth.Recovery.Usb.Pair.{
  Host, Plan, generated, key_file_in, plan, read_back, key_entry, after_set, after_create,
  record_pairing, pair_usb,
}
use sovereign_windows_auth.Recovery.Usb.Pair.Paired.{pair_usb_completes}
use sovereign_windows_auth.Tests.Stores.{restricted}
use sovereign_windows_auth.Tests.Registries.{Values, registry, registry-StoresValues}

-- A hash that keeps 32 bytes.
abbrev pub pad : ℕ → Bytes → Bytes
pad zero key = []
pad (suc n) [] = 0 ∷ pad n []
pad (suc n) (x ∷ key) = x % 256 ∷ pad n key

pub pad-IsBytes : (n : ℕ) (key : Bytes) → IsBytes (pad n key)
pad-IsBytes zero key = tt
pad-IsBytes (suc n) [] = (omega arith, pad-IsBytes n [])
pad-IsBytes (suc n) (x ∷ key) = (omega arith, pad-IsBytes n key)

length-pad : (n : ℕ) (key : Bytes) → length (pad n key) ≡ n
length-pad zero key = refl
length-pad (suc n) [] = ap suc (length-pad n [])
length-pad (suc n) (x ∷ key) = ap suc (length-pad n key)

abbrev pub hashing : Hashing
hashing = record { opens = true; sha256 = λ key. some (pad 32 key) }

pub hashing-HasDigests : HasDigests hashing
hashing-HasDigests key digest h =
    let same : pad 32 key ≡ digest = some-injective h in
    subst (λ (d : Bytes). IsBytes d × (length d ≡ 32)) same (pad-IsBytes 32 key, length-pad 32 key)

abbrev pub among : WideString → List WideString → Bool
among path [] = false
among path (file ∷ files) = if wide_eq path file then true else among path files

abbrev pub files : List WideString
files =
    codes "D:\\Windows\\System32\\config\\SOFTWARE"
    ∷ codes "D:\\Windows\\System32\\config\\SOFTWARE.LOG1"
    ∷ codes "D:\\Windows\\System32\\config\\SOFTWARE.LOG2"
    ∷ codes "D:\\Windows\\System32\\ntoskrnl.exe"
    ∷ []

abbrev pub paths : PathApi
paths = record {
  full_path = λ path. some path;
  is_removable = λ drive. true;
  attributes =
      λ path. some (record { is_directory = not (among path files); is_reparse_point = false });
  windows_directory = some (codes "X:\\windows");
  to_upper = λ c. c;
}

abbrev pub drive : Drive
drive = record {
  paths = paths;
  reading = record { opens = true; informs = true; reads = true };
  hashing = hashing;
}

abbrev pub host : Host
host = record {
  is_admin = true;
  mini_nt = 2;
  software = 0;
  random = λ n. some (replicate n 77);
  creates = true;
  file_inspection = restricted;
  writes = true;
  written = 56;
  flushes = true;
  descriptor = true;
}

abbrev pub no_files : Disk
no_files = λ path. none

abbrev pub no_values : Values
no_values = λ path name. none

abbrev pub folder : WideString
folder = codes "E:\\keys"

folder_path : usb_path paths folder true ≡ ok folder
unfolding usb_path is_local is_letter lacks full trim strip walk is_plain
folder_path = refl

abbrev material : Bytes
material = magic ++ replicate 48 77

abbrev planned : Plan
planned = record {
  target = codes "E:\\keys\\recovery.key";
  material = material;
  digest = pad 32 material;
}

plans : plan registry drive host folder no_values ≡ ok planned
unfolding plan paired is_missing usb_path is_local is_letter lacks full trim strip walk is_plain
    generated key_file_in key_digest hashed
plans = refl

reads_back :
    read_back drive host planned (put no_files planned.target (key_entry host material)) ≡ ok tt
unfolding read_back read_key key_at material_of usb_path is_local is_letter lacks full trim strip
    walk is_plain key_digest hashed digest_equal gather key_entry put
reads_back = refl

saves : (record_pairing registry true (pad 32 material) no_values).1 ≡ ok tt
unfolding record_pairing after_create after_set
saves = refl

pair_usb_completes_example :
    ((pair_usb registry drive host folder no_files no_values).2 ≡ ok tt)
    × (authorize registry drive
          (pair_usb registry drive host folder no_files no_values).0
          (pair_usb registry drive host folder no_files no_values).1
          (some (key_file_in folder))
        ≡ ok tt)
pair_usb_completes_example =
    pair_usb_completes registry drive host folder folder no_files no_values planned
      registry-StoresValues hashing-HasDigests folder_path plans refl refl reads_back saves
