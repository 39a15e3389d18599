-- ===== src/Devices/Adb/Commands.antt =====
-- `adb_execute` of src/device_discovery.cc up to its call of `cmd_execute`: the array of arguments for
-- a command of adb.
pub mod Arrays
mod Tests
use droidcam_whip_c.Common.{
  ◌*◌, ℕ, zero, suc, ◌+◌, ◌-◌, Bool, true, false, not, ◌&&◌, ◌||◌, ◌==◌, ltb, leb, List, [], ◌∷◌,
  ◌++◌, Option, none, some, if◌then◌else◌, take, length, replicate, drop,
}
use droidcam_whip_c.Devices.{Device}
use droidcam_whip_c.Devices.Adb.{is_alpha}
use droidcam_whip_c.Devices.Mdns.{print_model}

-- The array `cmd`, with `none` for what is not written and for NULL.
abbrev pub Cmd : Type 0
Cmd = List (Option (List ℕ))

-- `cmd[i] = arg`; `none` outside of the array.
unfoldable pub put_arg : Option Cmd → ℕ → Option (List ℕ) → Option Cmd
put_arg none i arg = none
put_arg (some cmd) i arg =
    if ltb i (length cmd) then some (take i cmd ++ arg ∷ drop (i + 1) cmd) else none

-- From `cmd[i]` on; the index behind the last one is that of the next argument.
unfoldable pub put_args : Option Cmd → ℕ → List (List ℕ) → Option Cmd
put_args cmd i [] = cmd
put_args cmd i (arg ∷ args) = put_args (put_arg cmd i (some arg)) (i + 1) args

-- `"flatpak-spawn"`, `"--host"` and `"-s"`
abbrev pub flatpak_text : List ℕ
flatpak_text = 102 ∷ 108 ∷ 97 ∷ 116 ∷ 112 ∷ 97 ∷ 107 ∷ 45 ∷ 115 ∷ 112 ∷ 97 ∷ 119 ∷ 110 ∷ []

abbrev pub host_text : List ℕ
host_text = 45 ∷ 45 ∷ 104 ∷ 111 ∷ 115 ∷ 116 ∷ []

abbrev pub serial_text : List ℕ
serial_text = 45 ∷ 115 ∷ []

abbrev pub in_flatpak : Bool → List (List ℕ)
in_flatpak true = flatpak_text ∷ host_text ∷ []
in_flatpak false = []

abbrev pub for_serial : Option (List ℕ) → List (List ℕ)
for_serial none = []
for_serial (some serial) = serial_text ∷ serial ∷ []

-- What is in front of the caller's arguments.
abbrev pub front : Bool → List ℕ → Option (List ℕ) → List (List ℕ)
front flatpak exe serial = in_flatpak flatpak ++ exe ∷ for_serial serial

-- `adb_execute` up to `cmd_execute`: it gives up, it leaves its array of 32, or it runs a command.
-- The limit that it tests is in bytes: 32 pointers of 8 bytes, less 6.
pub data Command : Type 0 where
  refused overrun : Command
  execute : Cmd → Command

command_of : Option Cmd → Command
command_of none = overrun
command_of (some cmd) = execute cmd

unfoldable pub adb_execute : Option (List ℕ) → Bool → Option (List ℕ) → List (List ℕ) → Command
unfolding command_of
adb_execute exe flatpak serial adb_cmd =
    if ltb (32 * 8 - 6) (length adb_cmd) then refused else elim exe [
      | none ↦ refused
      | some adb ↦
          let i = length (front flatpak adb serial) in
          let cmd = put_args (some (replicate 32 none)) 0 (front flatpak adb serial) in
          command_of (put_arg (put_args cmd i adb_cmd) (length adb_cmd + i) none)
    ]
