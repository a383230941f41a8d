-- ===== src/Screen.antt =====
-- src/recovery_screen.cpp: the window of the recovery medium, which runs the recovery program, first
-- to check a USB drive and then to restore the sign-in.
pub mod Window
pub mod Output
pub mod Trusts
pub mod Follows
pub mod Restores
use sovereign_windows_auth.Base.{
  ℕ, Bool, true, false, not, ◌&&◌, List, [], ◌∷◌, ◌++◌, length, take, get_elem?, Option, none, some,
  ◌-◌, ◌==◌, ltb, if◌then◌else◌, codes, String, Result, ok, err, ◌>>=◌, ◌>>◌, need,
}
use sovereign_windows_auth.Core.{Bytes, WideString}
use sovereign_windows_auth.Profile.Wide.{wide_eq}

-- What Windows tells of a drive: its root path, its type, and which files it has.
pub record DriveEntry : Type 0 where
  pub path : WideString
  pub is_fixed : Bool
  pub is_removable : Bool
  pub has_key : Bool
  pub has_hive : Bool
  pub has_kernel : Bool

-- A run of the recovery program, which a thread waits for.
pub record Run : Type 0 where
  pub windows : WideString
  pub key : WideString
  pub restoration : Bool

-- The struct Result.
pub record ToolResult : Type 0 where
  pub exit : ℕ
  pub text : WideString
  pub windows : WideString
  pub key : WideString
  pub restoration : Bool

-- The state of the window: what the source keeps, the installations in the list, whether the
-- buttons can be used, and the text that is shown. An empty text is no verified installation.
pub record Screen : Type 0 where
  pub busy : Bool
  pub verified_windows : WideString
  pub verified_key : WideString
  pub targets : List WideString
  pub available : Bool
  pub can_restore : Bool
  pub status : WideString

-- What is there when a button is pressed: the selected place in the list, the drives, the answer to
-- the question, the error of a thread that does not start, and the widening of a text. While the
-- question is shown the window takes no command.
pub record Presence : Type 0 where
  pub selected : Option ℕ
  pub drives : List DriveEntry
  pub confirms : Bool
  pub thread_error : Option String
  pub widen : String → WideString

abbrev pub credential_file : WideString → WideString
credential_file drive = drive ++ codes "SovereignRecovery\\recovery.key"

unfoldable pub one_key : Option WideString → DriveEntry → Result (Option WideString)
one_key none d = ok (if d.is_removable && d.has_key then some (credential_file d.path) else none)
one_key (some found) d = do
  need (not (d.is_removable && d.has_key))
      "More than one recovery credential is connected. Leave only the recovery USB you want to use."
  ok (some found)

unfoldable pub connected_keys : Option WideString → List DriveEntry → Result (Option WideString)
unfolding one_key
connected_keys found [] = ok found
connected_keys found (d ∷ drives) = do next ← one_key found d; connected_keys next drives

unfoldable pub inserted_key : Option WideString → Result WideString
inserted_key none = err "Insert your paired recovery USB, then select Check recovery USB."
inserted_key (some found) = ok found

unfoldable pub key_path : List DriveEntry → Result WideString
unfolding connected_keys inserted_key
key_path drives = do found ← connected_keys none drives; inserted_key found

-- What a run of the program gives: whether the pipe opens and can be protected, whether the process
-- starts, the blocks that the pipe gives, and the exit code, if it can be got.
pub record Tool : Type 0 where
  pub piped : Bool
  pub is_protected : Bool
  pub started : Bool
  pub blocks : List Bytes
  pub exit_code : Option ℕ

abbrev pub output_limit : ℕ
output_limit = 16384

-- What is kept of a block: what is above the limit is dropped.
unfoldable pub kept : ℕ → Bytes → Bytes → Bytes
kept limit output block =
    if ltb (length output) limit then output ++ take (limit - length output) block else output

-- The loop that reads the pipe: an empty block ends it.
unfoldable pub read_output : Bytes → List Bytes → Bytes
unfolding kept
read_output output [] = output
read_output output ([] ∷ blocks) = output
read_output output ((b ∷ block) ∷ blocks) =
    read_output (kept output_limit output (b ∷ block)) blocks

abbrev pub exit_of : Option ℕ → ℕ
exit_of none = 1
exit_of (some code) = code

-- The exit code and the output, which `widen` of the source then converts.
unfoldable pub run_tool : Tool → Result (ℕ × Bytes)
unfolding read_output
run_tool tool = do
  need tool.piped "Cannot open the recovery output channel."
  need tool.is_protected "Cannot protect the recovery output channel."
  need tool.started "The recovery program could not start. Check the recovery media."
  ok (exit_of tool.exit_code, read_output [] tool.blocks)

unfoldable pub tool_arguments : Run → WideString
tool_arguments run =
    (if run.restoration then codes "--remove-filter" else codes "--inspect-usb")
    ++ (codes " \"" ++ (run.windows ++ (codes "\" \"" ++ (run.key ++ codes "\""))))

abbrev pub result_of : Run → ℕ → WideString → ToolResult
result_of run exit text = record {
  exit = exit;
  text = text;
  windows = run.windows;
  key = run.key;
  restoration = run.restoration;
}

-- The thread of a run, up to the message that it posts.
unfoldable pub run_result : (Bytes → WideString) → Run → Result (ℕ × Bytes) → ToolResult
run_result widen run (ok (exit, output)) = result_of run exit (widen output)
run_result widen run (err message) = result_of run 1 (codes message)

unfoldable pub enable : Bool → Screen → Screen
enable available s = record s {
  available = available;
  can_restore = available && not (length s.verified_windows == 0);
}

-- A place outside the list is no selection.
abbrev pub listed_at : List WideString → Option ℕ → Option WideString
listed_at targets none = none
listed_at targets (some i) = get_elem? targets i

unfoldable pub chosen_target : Option WideString → Result WideString
chosen_target none =
    err
      "Choose a Windows installation. If none is listed, its drive may be locked or need a storage driver."
chosen_target (some target) = ok target

unfoldable pub chosen_run : Presence → Bool → Screen → Result Run
unfolding chosen_target key_path
chosen_run presence restoration s = do
  windows ← chosen_target (listed_at s.targets presence.selected)
  key ← key_path presence.drives
  need (not (restoration && not (wide_eq windows s.verified_windows && wide_eq key s.verified_key)))
      "Check this Windows installation and recovery USB first."
  ok (record { windows = windows; key = key; restoration = restoration })

-- The handler of exceptions in `start`.
unfoldable pub start_failed : Presence → String → Screen → Screen
unfolding enable
start_failed presence message s =
    enable true (record s { busy = false; status = presence.widen message })

abbrev pub running_text : Bool → WideString
running_text true = codes "Restoring sign-in. Keep the USB connected and wait for the result."
running_text false =
    codes
      "Checking the USB against this Windows installation. No sign-in settings are being changed."

unfoldable pub started_thread : Presence → Option String → Run → Screen → Screen × Option Run
unfolding start_failed
started_thread presence none run s = (s, some run)
started_thread presence (some message) run s = (start_failed presence message s, none)

-- From the choice on: the question, the controls, and the thread.
unfoldable pub run_chosen : Presence → Result Run → Screen → Screen × Option Run
unfolding start_failed started_thread enable
run_chosen presence (err message) s = (start_failed presence message s, none)
run_chosen presence (ok run) s =
    if run.restoration && not presence.confirms
    then (record s { busy = false }, none)
    else started_thread presence presence.thread_error run
        (enable false (record s { status = running_text run.restoration }))

unfoldable pub start : Presence → Bool → Screen → Screen × Option Run
unfolding chosen_run run_chosen
start presence restoration s =
    if s.busy
    then (s, none)
    else run_chosen presence (chosen_run presence restoration s) (record s { busy = true })
