-- ===== src/Devices/Usb.antt =====
-- `USBMux` of src/device_discovery.cc as built for Linux and Windows, with the devices that usbmuxd
-- lists and the name that the lockdown service gives, and `AdbMgr::GetModel`. The calls of
-- libusbmuxd and libimobiledevice are logged, the latest first, and answered by the calls before.
pub mod Freed
mod Tests
use droidcam_whip_c.Common.{
  ℕ, zero, suc, Bool, true, false, ◌||◌, ◌&&◌, ◌==◌, leb, List, [], ◌∷◌, ◌++◌, Option, none, some,
  if◌then◌else◌, take,
}
use droidcam_whip_c.Devices.{Device, Slots, add_device}
use droidcam_whip_c.Devices.Adb.{is_alpha}
use droidcam_whip_c.Devices.Mdns.{update, print_model}

-- `usbmuxd_device_info_t`
pub record DeviceInfo : Type 0 where
  pub udid : List ℕ
  pub handle : ℕ

abbrev pub with_handle : ℕ → Device → Device
with_handle handle d = record d { handle = handle }

-- The loop of `USBMux::DoReload`; `udid_size` is the size of the array `udid`.
unfoldable pub add_infos : ℕ → List DeviceInfo → Slots → Slots
add_infos udid_size [] slots = slots
add_infos udid_size (idev ∷ infos) slots =
    let rest = add_infos udid_size infos slots in
    if idev.handle == 0 then rest else elim (add_device slots idev.udid udid_size) [
      | none ↦ slots
      | some (i, slots') ↦ add_infos udid_size infos (update slots' i (with_handle idev.handle))
    ]

-- `loaded` is whether the library is there, and `none` is a negative count.
unfoldable pub usb_do_reload : Bool → ℕ → Option (List DeviceInfo) → Slots → Slots
usb_do_reload false udid_size infos slots = slots
usb_do_reload true udid_size none slots = slots
usb_do_reload true udid_size (some infos) slots = add_infos udid_size infos slots

pub data UsbCall : Type 0 where
  idevice_new lockdownd_client_new get_device_name : Bool → UsbCall
  idevice_free lockdownd_client_free free_name : UsbCall

-- Whether the calls succeed, and the name that is given, if one is.
pub record UsbEnv : Type 0 where
  pub gives_device : List UsbCall → Bool
  pub gives_client : List UsbCall → Bool
  pub name : List UsbCall → Option (List ℕ)

-- `"USB"` and, behind a space and in brackets, `" [USB]"`
abbrev pub usb_text : List ℕ
usb_text = 85 ∷ 83 ∷ 66 ∷ []

abbrev pub usb_label : List ℕ
usb_label = 32 ∷ 91 ∷ 85 ∷ 83 ∷ 66 ∷ 93 ∷ []

-- `snprintf` of `"%.*s [%s]"` with 80 - 3 - 4 bytes of the name.
abbrev pub named : List ℕ → Device → Device
named name d = record d { model = take 79 (take 73 name ++ usb_label) }

use_name : Option (List ℕ) → Device → List UsbCall → Device × List UsbCall
use_name none d calls = (d, get_device_name false ∷ calls)
use_name (some name) d calls = (named name d, free_name ∷ get_device_name true ∷ calls)

module _ (env : UsbEnv) where
  use_client : Bool → Device → List UsbCall → Device × List UsbCall
  use_client false d calls = (d, idevice_free ∷ lockdownd_client_new false ∷ calls)
  use_client true d calls =
      let (d', calls') =
        use_name (env.name (lockdownd_client_new true ∷ calls)) d
          (lockdownd_client_new true ∷ calls) in
      (d', idevice_free ∷ lockdownd_client_free ∷ calls')

  use_idevice : Bool → Device → List UsbCall → Device × List UsbCall
  use_idevice false d calls = (d, idevice_new false ∷ calls)
  use_idevice true d calls =
      use_client (env.gives_client (idevice_new true ∷ calls)) d (idevice_new true ∷ calls)

  -- `USBMux::GetModel`
  unfoldable pub usb_get_model : Bool → Device → List UsbCall → Device × List UsbCall
  unfolding use_idevice use_client use_name
  usb_get_model false d calls = (d, calls)
  usb_get_model true d calls = use_idevice (env.gives_device calls) d calls

-- The characters of a model's name.
abbrev pub is_model_char : ℕ → Bool
is_model_char c = is_alpha c || (leb 48 c && leb c 57) || c == 32 || c == 45 || c == 95

unfoldable pub model_prefix : ℕ → List ℕ → List ℕ
model_prefix zero text = []
model_prefix (suc n) [] = []
model_prefix (suc n) (c ∷ cs) =
    let rest = model_prefix n cs in if is_model_char c then c ∷ rest else []

-- `AdbMgr::GetModel`, by whether adb succeeded and what it printed.
unfoldable pub adb_get_model : Bool → List ℕ → Device → Device
unfolding model_prefix
adb_get_model false text d = d
adb_get_model true text d = record d {
  model = print_model (model_prefix 63 text) usb_text (take 40 d.serial);
}
