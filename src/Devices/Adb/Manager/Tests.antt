-- ===== src/Devices/Adb/Manager/Tests.antt =====
-- A search for adb whose first variant fails, and a forward.
use droidcam_whip_c.Common.{
  ◌≡◌, refl, List, ℕ, Option, [], ◌∷◌, true, false, some, none, if◌then◌else◌, length, ltb,
}
use droidcam_whip_c.Devices.Adb.Manager.{
  clear_call, forward_call, run_adb, find_adb, adb_calls, AdbCall, adb_text, new_adb_mgr, AdbEnv,
}
use droidcam_whip_c.Devices.Adb.Manager.Runs.{adb_calls-AllInside, AllInside}
use droidcam_whip_c.Devices.Adb.Commands.{put_arg, put_args, adb_execute}

-- `"/a"`
abbrev path : List ℕ
path = 47 ∷ 97 ∷ []

abbrev second_works : AdbEnv
second_works = record {
  file_exists = λ name. true;
  flatpak = false;
  succeeds = λ commands. ltb 1 (length commands);
  tcp = λ port. port ∷ [];
}

abbrev variants : List (Option (List ℕ))
variants = some adb_text ∷ some path ∷ none ∷ []

abbrev some_calls : List AdbCall
some_calls = forward_call (53 ∷ []) 7300 4747 ∷ clear_call 7300 7301 ∷ []

found_test : (new_adb_mgr second_works variants).exe ≡ some path
unfolding new_adb_mgr find_adb run_adb adb_execute put_args put_arg
found_test = refl

adb_calls-AllInside_example :
    let new = new_adb_mgr second_works variants in
    let m = adb_calls second_works some_calls new in
    AllInside m.commands
    × (m.disabled ≡ new.disabled)
    × (m.commands ≡ (if new.disabled then new.commands else m.commands))
adb_calls-AllInside_example = adb_calls-AllInside second_works variants some_calls
