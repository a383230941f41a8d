-- ===== src/Tests/Screens.antt =====
-- A window that checks a drive and then restores, for src/recovery_screen.cpp.
use sovereign_windows_auth.Base.{
  ◌≡◌, refl, ◌≤◌, true, false, List, [], ◌∷◌, ◌++◌, none, some, length, codes, ok,
}
use sovereign_windows_auth.Screen.{
  DriveEntry, Run, ToolResult, Presence, Tool, one_key, connected_keys, inserted_key, key_path,
  kept, read_output, run_tool, run_result, enable, chosen_target, chosen_run, run_chosen,
  start_failed, started_thread, start, output_limit, tool_arguments,
}
use sovereign_windows_auth.Screen.Window.{
  Event, command, ended, Entry, began, done, commanded, verified, finished_run, is_target,
  find_targets, create, after_end, happen, history, opened, preselected,
}
use sovereign_windows_auth.Screen.Output.{first_bytes, run_tool-output}
use sovereign_windows_auth.Screen.Restores.{restoration-checked}

abbrev disk : DriveEntry
disk = record {
  path = codes "D:\\";
  is_fixed = true;
  is_removable = false;
  has_key = false;
  has_hive = true;
  has_kernel = true;
}

abbrev usb : DriveEntry
usb = record {
  path = codes "E:\\";
  is_fixed = false;
  is_removable = true;
  has_key = true;
  has_hive = false;
  has_kernel = false;
}

abbrev drives : List DriveEntry
drives = disk ∷ usb ∷ []

abbrev presence : Presence
presence = record {
  selected = some 0;
  drives = drives;
  confirms = true;
  thread_error = none;
  widen = codes;
}

abbrev tool : Tool
tool = record {
  piped = true;
  is_protected = true;
  started = true;
  blocks = (79 ∷ 75 ∷ []) ∷ [] ∷ (1 ∷ []) ∷ [];
  exit_code = some 0;
}

abbrev checking : Run
checking = record {
  windows = codes "D:\\Windows";
  key = codes "E:\\SovereignRecovery\\recovery.key";
  restoration = false;
}

abbrev restoring : Run
restoring = record checking { restoration = true }

abbrev checked : ToolResult
checked = record {
  exit = 0;
  text = codes "OK";
  windows = checking.windows;
  key = checking.key;
  restoration = false;
}

abbrev events : List Event
events =
    command presence 102 0
    ∷ command presence 101 0
    ∷ command presence 102 0
    ∷ ended (λ bytes. bytes) tool
    ∷ command presence 102 0
    ∷ []

seen :
    history events (opened (create (λ c. c) (codes "C:\\Windows") drives))
    ≡ (began checking ∷ done checked ∷ []) ++ (began restoring ∷ [])
unfolding history happen commanded start chosen_run key_path connected_keys one_key inserted_key
    chosen_target run_chosen start_failed started_thread enable after_end finished_run verified
    run_result run_tool read_output kept create find_targets is_target
seen = refl

restoration-checked_example :
    (front : List Entry) × (r : ToolResult) × (began checking ∷ done checked ∷ []
      ≡ front ++ (done r ∷ []))
    × (r.exit ≡ 0)
    × (r.restoration ≡ false)
    × (r.windows ≡ restoring.windows)
    × (r.key ≡ restoring.key)
restoration-checked_example =
    restoration-checked (λ c. c) (codes "C:\\Windows") drives events
      (began checking ∷ done checked ∷ []) [] restoring seen refl

ran : run_tool tool ≡ ok (0, codes "OK")
unfolding run_tool read_output kept
ran = refl

run_tool-output_example :
    (codes "OK" ≡ first_bytes tool.blocks) × (length (codes "OK") ≤ output_limit)
run_tool-output_example = run_tool-output tool 0 (codes "OK") ran

restore_arguments :
    tool_arguments restoring
    ≡ codes "--remove-filter \"D:\\Windows\" \"E:\\SovereignRecovery\\recovery.key\""
unfolding tool_arguments
restore_arguments = refl

only_target : preselected (checking.windows ∷ []) ≡ some 0
unfolding preselected
only_target = refl
