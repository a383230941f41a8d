-- ===== src/Recovery/Registry.antt =====
-- src/filter_recovery.cpp: `keyExists` and `removeRegistration`, over the registry of Windows.
pub mod Removal
use sovereign_windows_auth.Base.{
  ℕ, ◌≡◌, ◌≢◌, Bool, true, false, ◌||◌, Option, ◌==◌, if◌then◌else◌, codes, String, Result, ok, err,
  ◌>>=◌, ◌>>◌, need,
}
use sovereign_windows_auth.Core.{Bytes, WideString}

-- The calls on a loaded hive; a number is the code that Windows returns, 0 for success. The
-- creation of a key tells whether the key is new. Names of keys are not case sensitive, so that
-- different paths lead to the same key: `key_of` is one spelling for each key.
pub record Registry : Type 1 where
  pub Hive : Type 0
  pub key_of : WideString → WideString
  pub open_key : Hive → WideString → ℕ
  pub get_binary : Hive → WideString → WideString → Option Bytes
  pub delete_key : Hive → WideString → ℕ × Hive
  pub flush_key : Hive → ℕ
  pub create_key : Hive → WideString → ℕ × Bool × Hive
  pub set_binary : Hive → WideString → WideString → Bytes → ℕ × Hive

-- ERROR_FILE_NOT_FOUND and ERROR_PATH_NOT_FOUND.
unfoldable pub is_missing : ℕ → Bool
is_missing code = code == 2 || code == 3

-- What Windows documents of a deletion: it takes away one key, and a deletion that fails (of a
-- missing key, or of a key with children) changes nothing.
pub record IsLawful (registry : Registry) : Type 0 where
  pub delete_fails :
      (hive : registry.Hive) (path : WideString)
      → (registry.delete_key hive path).0 ≢ 0
      → (registry.delete_key hive path).1 ≡ hive
  pub delete_keeps_keys :
      (hive : registry.Hive) (path other : WideString)
      → registry.key_of other ≢ registry.key_of path
      → registry.open_key (registry.delete_key hive path).1 other ≡ registry.open_key hive other
  pub delete_keeps_values :
      (hive : registry.Hive) (path other name : WideString)
      → registry.key_of other ≢ registry.key_of path
      → registry.get_binary (registry.delete_key hive path).1 other name
        ≡ registry.get_binary hive other name
  pub deleted_is_missing :
      (hive : registry.Hive) (path : WideString)
      → (registry.delete_key hive path).0 ≡ 0
      → is_missing (registry.open_key (registry.delete_key hive path).1 path) ≡ true
  pub delete_missing :
      (hive : registry.Hive) (path : WideString)
      → is_missing (registry.open_key hive path) ≡ true
      → is_missing (registry.delete_key hive path).0 ≡ true
  pub missing_deletion :
      (hive : registry.Hive) (path : WideString)
      → is_missing (registry.delete_key hive path).0 ≡ true
      → is_missing (registry.open_key hive path) ≡ true

abbrev pub filter_registration : WideString
filter_registration =
    codes
      "Microsoft\\Windows\\CurrentVersion\\Authentication\\Credential Provider Filters\\{51583B4D-1D80-4692-B4EF-1C385FBCF22D}"

-- The `require` of this file: the text of the error goes on with the number of the code, which is
-- left out here.
unfoldable pub require_status : ℕ → String → Result (Unit {0})
require_status code operation = need (code == 0) operation

unfoldable pub key_exists : ℕ → Result Bool
unfolding is_missing require_status
key_exists code =
    if is_missing code then ok false else (require_status code "Inspect registry key" >> ok true)

module _ (registry : Registry) where
  -- What follows the deletion.
  unfoldable pub after_delete : ℕ × registry.Hive → registry.Hive × Result Bool
  unfolding is_missing require_status
  after_delete (code, hive) = (
    hive,
    if is_missing code
        then ok false
        else (require_status code "Remove only Sovereign filter registration"
            >> (require_status (registry.flush_key hive) "Persist filter removal" >> ok true)),
  )

  unfoldable pub remove_registration : registry.Hive → registry.Hive × Result Bool
  unfolding after_delete
  remove_registration hive = after_delete (registry.delete_key hive filter_registration)
