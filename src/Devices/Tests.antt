-- ===== src/Devices/Tests.antt =====
-- Tests of the device list of src/device_discovery.cc.
use droidcam_whip_c.Common.{arith, replicate, [], ◌∷◌, some, none, ◌≡◌, refl}
use droidcam_whip_c.Devices.{device_slots, new_device, add_device, Slots, next_device, get_device}
use droidcam_whip_c.Devices.Lookup.{add_device_prefix, get_device-add_device}

-- A list with one device, of the serial 1 2 3, and its other slots free.
abbrev one_device : Slots
one_device = some (new_device (1 ∷ 2 ∷ 3 ∷ []) 3) ∷ replicate 31 none

abbrev two_devices : Slots
two_devices =
    some (new_device (1 ∷ 2 ∷ 3 ∷ []) 3) ∷ some (new_device (4 ∷ []) 1) ∷ replicate 30 none

add_test : add_device device_slots (1 ∷ 2 ∷ 3 ∷ []) 3 ≡ some (0, one_device)
unfolding add_device
add_test = refl

next_test : next_device two_devices 1 ≡ (some (new_device (4 ∷ []) 1), 2)
unfolding next_device
next_test = refl

added : add_device one_device (4 ∷ []) 1 ≡ some (1, two_devices)
unfolding add_device
added = refl

get_device-add_device_example : get_device two_devices (4 ∷ []) 80 ≡ some (1, new_device (4 ∷ []) 1)
get_device-add_device_example =
    get_device-add_device one_device two_devices (4 ∷ []) 1 80 (omega arith) added

listed : get_device one_device (1 ∷ 2 ∷ 3 ∷ []) 80 ≡ some (0, new_device (1 ∷ 2 ∷ 3 ∷ []) 3)
unfolding get_device
listed = refl

refused_prefix_test : add_device one_device (1 ∷ 2 ∷ []) 2 ≡ none
refused_prefix_test =
    add_device_prefix one_device (1 ∷ 2 ∷ []) (3 ∷ []) 80 (0, new_device (1 ∷ 2 ∷ 3 ∷ []) 3)
      (omega arith) listed
