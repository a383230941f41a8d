-- ===== src/Lib.antt =====
-- A model of sovereign-windows-auth: sign-in to Windows with a security key.
--
-- The program is a credential provider that unlocks an enrolled account after the touch of a
-- key, the encoding and the store of the account profile it reads, filters that can hide the
-- ordinary sign-in options, and a recovery tool, with a paired USB drive, that takes the filter
-- away from a Windows that no longer lets its user in.
--
-- Base holds the shared names: native numbers, Boolean tests, lists, exceptions as values
-- (`Result`, for the functions `need` and `require`) and the bitwise operations.
-- Core is src/core.h with the comparison `equal` and parseTestProfile of src/core.cpp; Secret has
-- the constructor of Secret, randomBytes, seal and unseal, with AES-GCM as the record Cipher.
-- Profile is src/profile.cpp: Wire has put32, putString and Reader, Sid has validateSid over the
-- answers of Windows (the record SidApi), Keys has profileForKey, and Codec has profileBinding,
-- encodeProfile and decodeProfile, one function for each of their parts. The recursion of
-- decodeProfile on a key's record is one level deep, since the record is tested first for the
-- magic of several keys; the loops are recursions on the number of rounds left.
-- Files, Trusted and Store have trustedPath, saveProfile and loadProfile: a disk has at most one
-- entry at a path, with what Windows reports of its protection, and what else Windows answers is a
-- record (Host, Reading).
-- Touch is touchAnyKey and touchSecret of src/core.cpp and unlockAccount of src/profile.cpp. The
-- record Hardware has what libfido2 and the clock answer, one Scan for each round of the outer
-- loop. Seek has that loop, on fuel: 181 rounds are enough, since a round that finds nothing sleeps
-- for 250 milliseconds, or until the deadline, of 45 seconds at most. Sign has what follows.
-- Filter has the three filters: Lab is src/filter_lab.h, Desktop is src/desktop_filter_policy.h
-- and src/desktop_filter.cpp, Vm is src/filter_vm.cpp. An array with its count is a list with a
-- number; a GUID is its number of 128 bits; what the process reads from Windows is a record Host.
-- Provider is the class Credential of src/provider.cpp. Credential has its state and the
-- operations that hold its mutex: begin, the end of the worker thread (finish), ready,
-- SetDeselected, setProviderEvents and the first critical section of GetSerialization
-- (take_password). Serialize has GetSerialization, with what other threads do between its
-- critical sections as an argument, and ReportResult. Protocol is an abstract machine of four
-- phases, and the sequences of operations of both; Refinement relates them; Safety, Cancel and
-- Produced are about the passwords that are handed out. Enumerate is the class Provider, with
-- loadProfile and the array of users as parameters, and Fields the fields of the tile. The
-- generation is 64 bits and wraps around; the theorems on sequences ask that it does not reach
-- 2^64 in the sequence. The packing of a password is the parameter Packing, what Windows answers
-- in begin the parameter Platform, and the end of unlockAccount a worker's password.
-- Windows is src/windows_auth.cpp (Auth), the WindowsPin of src/windows_pin.cpp (Pin) and tokenSid and
-- currentSid of src/profile.cpp (Token), with the answers of Windows as records. What a credential of
-- the PIN provider answers is a function of the calls that were made on it, which WindowsPin keeps.
-- Enroll is src/enroll.cpp: what is entered and answered is the record Desk; the attempts of
-- enrollKey are a list, and an enrollment that waits for a further attempt has no result yet. Its
-- sealing of the passwords is in Enroll, what comes before and after in Enroll/Command.
-- Recovery is src/recovery_usb.cpp and src/filter_recovery.cpp: Path has usbPath and
-- absoluteWindowsRoot, with what Windows answers about paths as the record PathApi; Registry has
-- keyExists and removeRegistration over an interface of the registry, whose laws IsLawful states,
-- where paths of different letters can lead to one key;
-- Usb has authorize and its parts, Usb/Pair has pairUsb and checkLiveUsb; Copy has protectedCopy and
-- enablePrivilege; Inspect has inspectCopy and Offline recover, as functions of the offline
-- SOFTWARE hive, the copies on the disk and the number of loaded hives. The loaded copy of a hive
-- is the hive that was copied. The number in the text of a Windows error is left out.
-- Screen is src/recovery_screen.cpp: the state of the window, the search for the drives and the
-- recovery program's run with its output (Screen), and the messages with the thread that a button
-- starts and the message that it posts (Window). What is chosen and connected when a button is
-- pressed is a record Presence; what the program gives is a record Tool.
-- Bridge is src/pin_bridge_vm.cpp, the provider of the test machine, over Windows.Pin: Tile is its
-- class Credential, Fields its fields, Users its class Provider.
-- Com has the reference counts, factories, locks and entry points that src/desktop_filter.cpp,
-- src/filter_vm.cpp, src/provider.cpp and src/pin_bridge_vm.cpp have alike: a module's objects stand
-- at addresses, a deleted one leaves none, and the counters are of 32 bits; Servers has the
-- functions of each module. The loop of an unlock has what its exchanges read as a list.
-- SignIn puts parts together: Provider's credential, whose workers end with what unlockAccount
-- returns after 15 seconds at most, with the packing by Windows.Pin and Windows.Auth. Its 181
-- rounds are enough, since 15000 milliseconds are 60 sleeps of 250.
-- Tests holds concrete inputs.
--
-- Bytes are numbers below 256 and wide strings are lists of 16-bit units, by hypotheses where
-- that matters. Sizes never reach the limits of size_t: the formats bound every length.
-- Not modelled: cryptography, libfido2 and the calls of Windows, which are parameters; the moves
-- and the wiping of secrets, which a value does not show; DllMain, the delayed load of a library,
-- the lookup of the current user, the command lines, the dialogs, the controls of the recovery
-- screen, the self tests, the diagnostics and the test programs.
pub mod Base
pub mod Core
pub mod Profile
pub mod Filter
pub mod Com
pub mod Touch
pub mod Windows
pub mod Enroll
pub mod Recovery
pub mod Screen
pub mod Provider
pub mod Bridge
pub mod SignIn
mod Tests
