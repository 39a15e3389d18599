-- ===== src/Devices/Adb/Manager.antt =====
-- `AdbMgr` of src/device_discovery.cc as built for Linux: the search for adb in its constructor, and
-- its forwards, over `adb_execute`. The commands are logged, the latest first; whether one succeeds
-- is a function of the commands up to it.
pub mod Runs
mod Tests
use droidcam_whip_c.Common.{
  ℕ, zero, suc, ◌+◌, ◌-◌, Bool, true, false, not, ◌||◌, List, [], ◌∷◌, Option, none, some,
  if◌then◌else◌,
}
use droidcam_whip_c.Devices.{strncmp_equal}
use droidcam_whip_c.Devices.Adb.Commands.{Command, refused, overrun, execute, adb_execute}

-- `FileExists` of a path and of "/.flatpak-info", `process_check_success`, and "tcp:%d".
pub record AdbEnv : Type 0 where
  pub file_exists : List ℕ → Bool
  pub flatpak : Bool
  pub succeeds : List Command → Bool
  pub tcp : ℕ → List ℕ

-- `exe` is the static `adb_exe`.
pub record AdbMgr : Type 0 where
  pub exe : Option (List ℕ)
  pub disabled : Bool
  pub commands : List Command

-- `"adb"`, `"version"`, `"start-server"`, `"forward"` and `"--remove"`
abbrev pub adb_text : List ℕ
adb_text = 97 ∷ 100 ∷ 98 ∷ []

abbrev pub version_text : List ℕ
version_text = 118 ∷ 101 ∷ 114 ∷ 115 ∷ 105 ∷ 111 ∷ 110 ∷ []

abbrev pub start_server_text : List ℕ
start_server_text = 115 ∷ 116 ∷ 97 ∷ 114 ∷ 116 ∷ 45 ∷ 115 ∷ 101 ∷ 114 ∷ 118 ∷ 101 ∷ 114 ∷ []

abbrev pub forward_text : List ℕ
forward_text = 102 ∷ 111 ∷ 114 ∷ 119 ∷ 97 ∷ 114 ∷ 100 ∷ []

abbrev pub remove_text : List ℕ
remove_text = 45 ∷ 45 ∷ 114 ∷ 101 ∷ 109 ∷ 111 ∷ 118 ∷ 101 ∷ []

module _ (env : AdbEnv) where
  -- `process_check_success` of what `adb_execute` returns.
  check_success : Command → List Command → Bool
  check_success refused commands = false
  check_success overrun commands = false
  check_success (execute cmd) commands = env.succeeds (execute cmd ∷ commands)

  unfoldable pub run_adb : Option (List ℕ) → List (List ℕ) → AdbMgr → Bool × AdbMgr
  unfolding check_success
  run_adb serial args m =
      let c = adb_execute m.exe env.flatpak serial args in
      (check_success c m.commands, record m { commands = c ∷ m.commands })

  -- The loop over `ADB_VARIANTS`, of which the last may be NULL.
  unfoldable pub find_adb : List (Option (List ℕ)) → AdbMgr → AdbMgr
  find_adb [] m = m
  find_adb (none ∷ variants) m = find_adb variants (record m { exe = none })
  find_adb (some exe ∷ variants) m =
      let tried = record m { exe = some exe } in
      let (found, m') = run_adb none (version_text ∷ []) tried in
      if strncmp_equal exe adb_text 3 || env.file_exists exe
      then (if found then record m' { disabled = false } else find_adb variants m')
      else find_adb variants tried

  -- The constructor.
  unfoldable pub new_adb_mgr : List (Option (List ℕ)) → AdbMgr
  new_adb_mgr variants =
      let m = find_adb variants (record { exe = none; disabled = true; commands = [] }) in
      if m.disabled then m else (run_adb none (start_server_text ∷ []) m).1

  -- `AddForward`, for the serial of a device.
  unfoldable pub add_forward : List ℕ → ℕ → ℕ → AdbMgr → Bool × AdbMgr
  add_forward serial local_port remote_port m =
      if m.disabled
      then (false, m)
      else run_adb (some serial) (forward_text ∷ env.tcp local_port ∷ env.tcp remote_port ∷ []) m

  -- The loop of `ClearForwards`, for a number of ports.
  unfoldable pub remove_forwards : ℕ → ℕ → AdbMgr → AdbMgr
  remove_forwards zero port m = m
  remove_forwards (suc n) port m =
      remove_forwards n (port + 1)
        (run_adb none (forward_text ∷ remove_text ∷ env.tcp port ∷ []) m).1

  unfoldable pub clear_forwards : ℕ → ℕ → AdbMgr → AdbMgr
  clear_forwards port_start port_last m =
      if m.disabled then m else remove_forwards (port_last + 1 - port_start) port_start m

pub data AdbCall : Type 0 where
  forward_call : List ℕ → ℕ → ℕ → AdbCall
  clear_call : ℕ → ℕ → AdbCall

unfoldable pub adb_call : AdbEnv → AdbCall → AdbMgr → AdbMgr
adb_call env (forward_call serial local_port remote_port) m =
    (add_forward env serial local_port remote_port m).1
adb_call env (clear_call port_start port_last) m = clear_forwards env port_start port_last m

unfoldable pub adb_calls : AdbEnv → List AdbCall → AdbMgr → AdbMgr
adb_calls env [] m = m
adb_calls env (c ∷ calls) m = adb_calls env calls (adb_call env c m)
