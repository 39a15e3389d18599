-- ===== src/Devices/Usb/Tests.antt =====
-- The name of a phone over USB.
use droidcam_whip_c.Common.{◌≡◌, refl, List, ℕ, [], ◌∷◌, true, some, arith}
use droidcam_whip_c.Devices.Usb.{
  usb_label, UsbEnv, adb_get_model, usb_get_model, idevice_new, lockdownd_client_new,
  get_device_name, idevice_free, lockdownd_client_free, free_name,
}
use droidcam_whip_c.Devices.{Device}
use droidcam_whip_c.Devices.Usb.Freed.{usb_get_model-IsRead, IsRead}
use droidcam_whip_c.Devices.Fits.{DeviceFits}
use droidcam_whip_c.Devices.Mdns.{print_model}

abbrev phone : List ℕ
phone = 97 ∷ []

abbrev all_there : UsbEnv
all_there = record {
  gives_device = λ calls. true;
  gives_client = λ calls. true;
  name = λ calls. some (73 ∷ 80 ∷ []);
}

abbrev listed : Device
listed = record { serial = phone; model = []; state = []; address = []; handle = 3 }

listed-DeviceFits : DeviceFits listed
listed-DeviceFits = ground arith

usb_get_model_test : usb_get_model all_there true listed [] ≡ (
  record listed { model = 73 ∷ 80 ∷ usb_label },
  idevice_free
      ∷ lockdownd_client_free
      ∷ free_name
      ∷ get_device_name true
      ∷ lockdownd_client_new true
      ∷ idevice_new true
      ∷ [],
)
unfolding usb_get_model
usb_get_model_test = refl

usb_get_model-IsRead_example : IsRead (usb_get_model all_there true listed [])
usb_get_model-IsRead_example = usb_get_model-IsRead all_there true listed listed-DeviceFits

-- The name `4a`, up to the end of the line.
adb_get_model_test :
    (adb_get_model true (52 ∷ 97 ∷ 10 ∷ 52 ∷ []) listed).model
    ≡ 52 ∷ 97 ∷ 32 ∷ 91 ∷ 85 ∷ 83 ∷ 66 ∷ 93 ∷ 32 ∷ 40 ∷ 97 ∷ 41 ∷ []
unfolding adb_get_model print_model
adb_get_model_test = refl
