-- ===== src/Recovery/Path.antt =====
-- src/recovery_usb.cpp: `usbPath`, and src/filter_recovery.cpp: `absoluteWindowsRoot` and
-- `requireRegularFile`.
pub mod Plain
use sovereign_windows_auth.Base.{
  ℕ, Bool, true, false, not, ◌&&◌, ◌||◌, List, [], ◌∷◌, ◌++◌, length, take, drop, get_or, Option,
  none, some, ◌==◌, ltb, leb, if◌then◌else◌, String, Result, ok, err, ◌>>=◌, ◌>>◌, need,
}
use sovereign_windows_auth.Core.{WideString}

pub record Attributes : Type 0 where
  pub is_directory : Bool
  pub is_reparse_point : Bool

-- What Windows answers about paths: `GetFullPathNameW` (none: it failed, or the path does not fit),
-- whether a drive is removable, `GetFileAttributesW`, and `GetWindowsDirectoryW`; and `towupper`.
pub record PathApi : Type 0 where
  pub full_path : WideString → Option WideString
  pub is_removable : WideString → Bool
  pub attributes : WideString → Option Attributes
  pub windows_directory : Option WideString
  pub to_upper : ℕ → ℕ

abbrev pub backslash : ℕ
backslash = 92

abbrev pub colon : ℕ
colon = 58

unfoldable pub is_letter : ℕ → Bool
is_letter c = (leb 65 c && leb c 90) || (leb 97 c && leb c 122)

unfoldable pub lacks : ℕ → WideString → Bool
lacks c [] = true
lacks c (x ∷ text) = not (x == c) && lacks c text

-- A drive letter, a colon, a backslash, and no other colon.
unfoldable pub is_local : WideString → Bool
unfolding is_letter lacks
is_local input =
    (leb 3 (length input) && get_or input 1 0 == colon)
    && (get_or input 2 0 == backslash
        && (is_letter (get_or input 0 0) && lacks colon (drop 2 input)))

-- The backslashes at the end of a text are left out.
unfoldable pub strip : WideString → WideString
strip [] = []
strip (c ∷ text) = elim (strip text) [
  | [] ↦ if c == backslash then [] else c ∷ []
  | d ∷ rest ↦ c ∷ d ∷ rest
]

-- The loop that takes backslashes from the end of a path, not those of its first three units.
unfoldable pub trim : WideString → WideString
unfolding strip
trim path = take 3 path ++ strip (drop 3 path)

unfoldable pub is_plain : Option Attributes → Bool
is_plain none = false
is_plain (some a) = a.is_directory && not a.is_reparse_point

-- The loop over the ends of a path's components: `front` is `substr(0, end)`. Whether the
-- whole path is one of them depends on `directory`.
unfoldable pub walk :
    (WideString → Option Attributes) → Bool → String → WideString → WideString → Result (Unit {0})
unfolding is_plain
walk attributes directory message front [] =
    if directory then need (is_plain (attributes front)) message else ok tt
walk attributes directory message front (c ∷ rest) =
    let later = walk attributes directory message (front ++ (c ∷ [])) rest in
    if c == backslash then (need (is_plain (attributes front)) message >> later) else later

unfoldable pub full : Option WideString → String → Result WideString
full none message = err message
full (some path) message = ok (trim path)

unfoldable pub usb_path : PathApi → WideString → Bool → Result WideString
unfolding is_local full walk
usb_path api input directory = do
  need (is_local input) "Supply a local USB drive path."
  result ← full (api.full_path input) "Invalid USB path."
  need (api.is_removable (take 3 result))
      "The recovery credential must be on a removable USB drive."
  walk api.attributes directory "USB path is missing or traverses a reparse point." (take 3 result)
      (drop 3 result)
  ok result

unfoldable pub running_volume : Option WideString → Result ℕ
running_volume none = err "Cannot identify the running recovery environment"
running_volume (some running) = ok (get_or running 0 0)

unfoldable pub absolute_windows_root : PathApi → WideString → Result WideString
unfolding is_local full walk running_volume
absolute_windows_root api input = do
  need (is_local input)
      "Supply the offline Windows directory as a local absolute path, for example C:\\Windows"
  root ← full (api.full_path input) "Invalid offline Windows path"
  walk api.attributes true "Offline Windows path is missing or traverses a reparse point"
      (take 3 root) (drop 3 root)
  running ← running_volume api.windows_directory
  need (not (api.to_upper (get_or root 0 0) == api.to_upper running))
      "Refusing the running Windows volume"
  ok root

unfoldable pub is_regular : Option Attributes → Bool
is_regular none = false
is_regular (some a) = not (a.is_directory || a.is_reparse_point)

unfoldable pub require_regular_file : PathApi → WideString → Result (Unit {0})
unfolding is_regular
require_regular_file api path =
    need (is_regular (api.attributes path)) "Required offline file is missing or is a reparse point"
