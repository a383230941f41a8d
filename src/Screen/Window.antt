-- ===== src/Screen/Window.antt =====
-- src/recovery_screen.cpp: the messages of the window, one after another, with the thread that a
-- button starts and the message that it posts when the program has ended.
use sovereign_windows_auth.Base.{
  ℕ, Bool, true, false, not, ◌&&◌, List, [], ◌∷◌, ◌++◌, get_or, Option, none, some, ◌==◌,
  if◌then◌else◌, codes,
}
use sovereign_windows_auth.Core.{Bytes, WideString}
use sovereign_windows_auth.Screen.{
  DriveEntry, Run, ToolResult, Screen, Presence, Tool, run_tool, run_result, enable, start,
}

abbrev pub check_button : ℕ
check_button = 101

abbrev pub restore_button : ℕ
restore_button = 102

abbrev pub restart_button : ℕ
restart_button = 103

abbrev pub close_button : ℕ
close_button = 104

abbrev pub target_list : ℕ
target_list = 105

-- CBN_SELCHANGE.
abbrev pub selection_changed : ℕ
selection_changed = 1

-- The case of WM_COMMAND, on the low and the high word of its parameter. The last part is a
-- request to Windows: to shut down (true) or to restart.
unfoldable pub commanded : Presence → ℕ → ℕ → Screen → Screen × Option Run × Option Bool
commanded presence low high s =
    if low == target_list && high == selection_changed
    then (record s { verified_windows = []; can_restore = false }, none, none)
    else if low == check_button
    then (let (s, run) = start presence false (record s { verified_windows = [] }) in
        (s, run, none))
    else if low == restore_button
    then (let (s, run) = start presence true s in (s, run, none))
    else if not s.busy && low == restart_button
    then (s, none, some false)
    else if not s.busy && low == close_button
    then (s, none, some true)
    else (s, none, none)

-- What a finished run leaves verified.
unfoldable pub verified : ToolResult → Screen → Screen
verified r s =
    if r.exit == 0 && not r.restoration
    then record s { verified_windows = r.windows; verified_key = r.key }
    else record s { verified_windows = [] }

abbrev pub finished_text : ToolResult → WideString
finished_text r =
    if r.exit == 0 && r.restoration
    then codes
        "Recovery complete. Select Restart, remove the USB, and use your normal Windows PIN.\r\n\r\n"
      ++ r.text
    else r.text

-- The case of the message Finished.
unfoldable pub finished_run : ToolResult → Screen → Screen
unfolding verified enable
finished_run r s =
    enable true (record (verified r (record s { busy = false })) { status = finished_text r })

-- The case of WM_CLOSE.
abbrev pub closed : Screen → Option Bool
closed s = if s.busy then none else some true

-- The case of WM_CREATE: `to_upper` is towupper, `running` the directory of the running Windows. The
-- second part is the place that is selected from the start.
abbrev pub target_of : WideString → WideString
target_of drive = drive ++ codes "Windows"

unfoldable pub is_target : (ℕ → ℕ) → WideString → DriveEntry → Bool
is_target to_upper running d =
    (d.is_fixed && not (to_upper (get_or d.path 0 0) == to_upper (get_or running 0 0)))
    && (d.has_hive && d.has_kernel)

unfoldable pub find_targets : (ℕ → ℕ) → WideString → List DriveEntry → List WideString
unfolding is_target
find_targets to_upper running [] = []
find_targets to_upper running (d ∷ drives) =
    if is_target to_upper running d
    then target_of d.path ∷ find_targets to_upper running drives
    else find_targets to_upper running drives

unfoldable pub create : (ℕ → ℕ) → WideString → List DriveEntry → Screen
create to_upper running drives = record {
  busy = false;
  verified_windows = [];
  verified_key = [];
  targets = find_targets to_upper running drives;
  available = true;
  can_restore = false;
  status = codes "Select Check recovery USB. Recovery does not reset or reveal your PIN.";
}

unfoldable pub preselected : List WideString → Option ℕ
preselected (target ∷ []) = some 0
preselected _ = none

-- What happens to the window: a command, the end of the program of the run that is waited for, with
-- what it gave, and such an end whose message cannot be posted.
pub data Event : Type 0 where
  command : Presence → ℕ → ℕ → Event
  ended : (Bytes → WideString) → Tool → Event
  lost : Event

pub record System : Type 0 where
  pub screen : Screen
  pub run : Option Run

-- What is seen from outside: the recovery program is started, and its result is taken in.
pub data Entry : Type 0 where
  began : Run → Entry
  done : ToolResult → Entry

abbrev pub begun : Option Run → List Entry
begun none = []
begun (some run) = began run ∷ []

-- The run that an operation started, or the old one.
abbrev pub running : Option Run → Option Run → Option Run
running none old = old
running (some run) old = some run

unfoldable pub after_end : (Bytes → WideString) → Tool → Screen → Option Run → System × List Entry
unfolding finished_run
after_end widen tool s none = (record { screen = s; run = none }, [])
after_end widen tool s (some run) =
    let r = run_result widen run (run_tool tool) in
    (record { screen = finished_run r s; run = none }, done r ∷ [])

unfoldable pub happen : Event → System → System × List Entry
unfolding commanded after_end
happen (command presence low high) s =
    let (screen, run, power) = commanded presence low high s.screen in
    (record { screen = screen; run = running run s.run }, begun run)
happen (ended widen tool) s = after_end widen tool s.screen s.run
happen lost s = (record s { run = none }, [])

-- The log of a sequence of events.
unfoldable pub history : List Event → System → List Entry
history [] s = []
history (event ∷ events) s = let (s, entries) = happen event s in entries ++ history events s

abbrev pub opened : Screen → System
opened screen = record { screen = screen; run = none }
