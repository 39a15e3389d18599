-- ===== src/Devices/Adb/Tests.antt =====
-- Tests of `AdbMgr::DoReload` of src/device_discovery.cc.
use droidcam_whip_c.Common.{[], ◌∷◌, true, false, none, ◌≡◌, refl}
use droidcam_whip_c.Devices.{device_slots}
use droidcam_whip_c.Devices.Adb.{do_reload, parse_line, contains, split_line, tokens, device}
use droidcam_whip_c.Devices.Adb.Listed.{Entry}

-- The line `?? tab no permissions` of a device that adb may not open: a space is looked for before a
-- tab, so the serial takes in the tab and the word behind it.
permissions_test :
    parse_line (63 ∷ 63 ∷ 9 ∷ 110 ∷ 111 ∷ 32 ∷ 112 ∷ 101 ∷ 114 ∷ 109 ∷ [])
    ≡ device (63 ∷ 63 ∷ 9 ∷ 110 ∷ 111 ∷ []) (112 ∷ 101 ∷ 114 ∷ 109 ∷ [])
unfolding parse_line contains split_line
permissions_test = refl

-- No text at all: the loop reads from NULL.
empty_test : do_reload false true [] device_slots ≡ none
unfolding do_reload tokens
empty_test = refl

-- `a1 tab device` and `b2 tab offline`
abbrev first : Entry
first = record { serial = 97 ∷ 49 ∷ []; state = 100 ∷ 101 ∷ 118 ∷ 105 ∷ 99 ∷ 101 ∷ [] }

abbrev second : Entry
second = record { serial = 98 ∷ 50 ∷ []; state = 111 ∷ 102 ∷ 102 ∷ 108 ∷ 105 ∷ 110 ∷ 101 ∷ [] }
