-- ===== src/Devices/Adb/Commands/Tests.antt =====
-- The command that lists the devices, and one that is too long.
use droidcam_whip_c.Common.{◌≡◌, refl, List, ℕ, [], ◌∷◌, none, some, replicate, false}
use droidcam_whip_c.Devices.Adb.Commands.{
  put_arg, serial_text, put_args, adb_execute, overrun, execute,
}
use droidcam_whip_c.Devices.Adb.Commands.Arrays.{adb_execute-array}

-- `"adb"`, `"a"` and `"devices"`
abbrev adb_text : List ℕ
adb_text = 97 ∷ 100 ∷ 98 ∷ []

abbrev phone : List ℕ
phone = 97 ∷ []

abbrev devices_text : List ℕ
devices_text = 100 ∷ 101 ∷ 118 ∷ 105 ∷ 99 ∷ 101 ∷ 115 ∷ []

overrun_test : adb_execute (some adb_text) false none (replicate 31 devices_text) ≡ overrun
unfolding adb_execute put_args put_arg
overrun_test = refl

adb_execute-array_example :
    adb_execute (some adb_text) false (some phone) (devices_text ∷ [])
    ≡ execute
        (some adb_text ∷ some serial_text ∷ some phone ∷ some devices_text ∷ replicate 28 none)
adb_execute-array_example = adb_execute-array adb_text false (some phone) (devices_text ∷ [])
