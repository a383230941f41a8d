-- ===== src/Recovery/Copy.antt =====
-- src/filter_recovery.cpp: `uniqueName`, `protectedCopy` and `enablePrivilege`.
use sovereign_windows_auth.Base.{
  ℕ, Bool, false, ◌&&◌, List, [], ◌∷◌, ◌++◌, Option, none, some, ◌==◌, if◌then◌else◌, codes, Result,
  ok, err, ◌>>=◌, ◌>>◌, need,
}
use sovereign_windows_auth.Core.{WideString}
use sovereign_windows_auth.Recovery.Path.{Attributes, PathApi, require_regular_file}

-- A new GUID, and its text.
pub record Guid : Type 0 where
  pub created : Bool
  pub text : Option WideString

unfoldable pub guid_text : Option WideString → Result WideString
guid_text none = err "Cannot format recovery identifier"
guid_text (some text) = ok text

unfoldable pub unique_name : Guid → Result WideString
unfolding guid_text
unique_name guid = do need guid.created "Cannot create recovery identifier"; guid_text guid.text

-- What Windows answers to the calls of a copy: the name, the descriptor, the new directory, whether
-- a file without attributes was not found, and whether a file is copied.
pub record Copying : Type 0 where
  pub guid : Guid
  pub descriptor : Bool
  pub makes_directory : Bool
  pub not_found : WideString → Bool
  pub copies : WideString → Bool

abbrev pub suffixes : List WideString
suffixes = [] ∷ codes ".LOG1" ∷ codes ".LOG2" ∷ []

unfoldable pub is_absent : Copying → Option Attributes → WideString → WideString → Bool
is_absent copying (some a) source suffix = false
is_absent copying none source [] = false
is_absent copying none source (c ∷ suffix) = copying.not_found source

-- The loop over the hive and its logs.
unfoldable pub copy_files : PathApi → Copying → WideString → List WideString → Result (Unit {0})
unfolding is_absent require_regular_file
copy_files api copying hive [] = ok tt
copy_files api copying hive (suffix ∷ rest) =
    let later = copy_files api copying hive rest in
    if is_absent copying (api.attributes (hive ++ suffix)) (hive ++ suffix) suffix
    then later
    else (require_regular_file api (hive ++ suffix)
        >> (need (copying.copies (hive ++ suffix))
              "Registry copy failed; the original hive was not loaded or changed"
            >> later))

-- The directories of the copies that are on the disk.
abbrev pub Copies : Type 0
Copies = List WideString

unfoldable pub backup_in : WideString → WideString → WideString
backup_in directory name = directory ++ (codes "\\SovereignFilterRecovery-" ++ name)

unfoldable pub copied :
    PathApi
    → Copying
    → WideString
    → WideString
    → Result WideString
    → Copies
    → Copies × Result WideString
unfolding copy_files backup_in
copied api copying directory hive (err message) copies = (copies, err message)
copied api copying directory hive (ok name) copies =
    if copying.makes_directory
    then (
      backup_in directory name ∷ copies,
      copy_files api copying hive suffixes >> ok (backup_in directory name),
    )
    else (copies, err "Cannot create a fresh protected recovery directory")

unfoldable pub protected_copy :
    PathApi → Copying → WideString → WideString → Copies → Copies × Result WideString
unfolding copied unique_name
protected_copy api copying directory hive copies =
    copied api copying directory hive
      (do
        name ← unique_name copying.guid
        need copying.descriptor "Cannot construct protected backup permissions"
        ok name)
      copies

-- The token of the process, asked for a privilege: the adjustment can report success with an error.
pub record Token : Type 0 where
  pub opens : Bool
  pub finds : Bool
  pub adjusts : Bool
  pub last_error : ℕ

unfoldable pub enable_privilege : Token → Result (Unit {0})
enable_privilege token = do
  need token.opens "Cannot open recovery process token"
  need token.finds "Cannot identify recovery privilege"
  need (token.adjusts && token.last_error == 0)
      "Recovery requires backup and restore privileges in WinRE/WinPE"
