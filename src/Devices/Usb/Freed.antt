-- ===== src/Devices/Usb/Freed.antt =====
-- What `USBMux` of src/device_discovery.cc leaves in the list, and what it frees.
use droidcam_whip_c.Common.{
  ◌++◌, take, ℕ, ◌+◌, ◌≤◌, ◌≡◌, refl, Bool, true, false, ◌==◌, List, [], ◌∷◌, Option, none, some,
  if-cases,
}
use droidcam_whip_c.Devices.Usb.{
  usb_label, usb_text, model_prefix, adb_get_model, with_handle, use_client, use_idevice,
  DeviceInfo, usb_get_model, add_infos, use_name, UsbEnv, usb_do_reload, UsbCall, idevice_new,
  lockdownd_client_new, get_device_name, idevice_free, lockdownd_client_free, free_name,
}
use droidcam_whip_c.Devices.Fits.{
  DeviceFits, AllFit, AnswerFits, add_device-AnswerFits, length-take-le,
}
use droidcam_whip_c.Devices.Mdns.Fits.{update-AllFit, print_model-fits}
use droidcam_whip_c.Devices.{add_device, Slots, Device}
use droidcam_whip_c.Devices.Mdns.{update}

add_infos-AllFit :
    (n : ℕ) (infos : List DeviceInfo) (slots : Slots)
    → n ≤ 79
    → AllFit slots
    → AllFit (add_infos n infos slots)
unfolding add_infos
add_infos-AllFit n [] slots h a = a
add_infos-AllFit n (idev ∷ infos) slots h a =
    if-cases AllFit (idev.handle == 0) (add_infos n infos slots)
      (elim (add_device slots idev.udid n) [
        | none ↦ slots
        | some (i, slots') ↦ add_infos n infos (update slots' i (with_handle idev.handle))
      ])
      (λ e. add_infos-AllFit n infos slots h a)
      (λ e.
        go (λ s. add_infos-AllFit n infos s h) (add_device slots idev.udid n)
          (add_device-AnswerFits slots idev.udid n a h))
  where
    go :
        ((s : Slots) → AllFit s → AllFit (add_infos n infos s))
        → (o : Option (ℕ × Slots)) → AnswerFits o
        → AllFit (elim o [
          | none ↦ slots
          | some (i, slots') ↦ add_infos n infos (update slots' i (with_handle idev.handle))
        ])
    go rec none f = a
    go rec (some (i, slots')) f =
        rec (update slots' i (with_handle idev.handle))
          (update-AllFit slots' i (with_handle idev.handle) f (λ d g. g))

pub usb_do_reload-AllFit :
    (loaded : Bool) (n : ℕ) (infos : Option (List DeviceInfo)) (slots : Slots)
    → n ≤ 79
    → AllFit slots
    → AllFit (usb_do_reload loaded n infos slots)
unfolding usb_do_reload
usb_do_reload-AllFit false n infos slots h a = a
usb_do_reload-AllFit true n none slots h a = a
usb_do_reload-AllFit true n (some infos) slots h a = add_infos-AllFit n infos slots h a

-- What is held of each kind: taken and not freed.
abbrev pub idevices : List UsbCall → ℕ × ℕ
idevices [] = (0, 0)
idevices (idevice_new true ∷ calls) = ((idevices calls).0 + 1, (idevices calls).1)
idevices (idevice_free ∷ calls) = ((idevices calls).0, (idevices calls).1 + 1)
idevices (_ ∷ calls) = idevices calls

abbrev pub clients : List UsbCall → ℕ × ℕ
clients [] = (0, 0)
clients (lockdownd_client_new true ∷ calls) = ((clients calls).0 + 1, (clients calls).1)
clients (lockdownd_client_free ∷ calls) = ((clients calls).0, (clients calls).1 + 1)
clients (_ ∷ calls) = clients calls

abbrev pub names : List UsbCall → ℕ × ℕ
names [] = (0, 0)
names (get_device_name true ∷ calls) = ((names calls).0 + 1, (names calls).1)
names (free_name ∷ calls) = ((names calls).0, (names calls).1 + 1)
names (_ ∷ calls) = names calls

abbrev pub AllFreed : List UsbCall → Type 0
AllFreed calls =
    ((idevices calls).0 ≡ (idevices calls).1)
    × ((clients calls).0 ≡ (clients calls).1)
    × ((names calls).0 ≡ (names calls).1)

-- A device that fits, and all that was given is freed.
abbrev pub IsRead : Device × List UsbCall → Type 0
IsRead (d, calls) = DeviceFits d × AllFreed calls

module _ (env : UsbEnv) where
  -- Whatever the libraries answer, reading the name of a device that fits in its arrays leaves it
  -- fitting, and each device handle, client and name that was given is freed, exactly as often.
  pub usb_get_model-IsRead :
      (loaded : Bool) (d : Device) → DeviceFits d → IsRead (usb_get_model env loaded d [])
  unfolding usb_get_model use_idevice use_client use_name
  usb_get_model-IsRead false d f = (f, (refl, refl, refl))
  usb_get_model-IsRead true d f = with_idevice (env.gives_device [])
    where
      held : List UsbCall
      held = lockdownd_client_new true ∷ idevice_new true ∷ []

      with_name :
          (name : Option (List ℕ))
          → let (d', calls) = use_name name d held in
            IsRead (d', idevice_free ∷ lockdownd_client_free ∷ calls)
      with_name none = (f, (refl, refl, refl))
      with_name (some name) =
          ((f.0, length-take-le 79 (take 73 name ++ usb_label), f.2, f.3), (refl, refl, refl))

      with_client : (b : Bool) → IsRead (use_client env b d (idevice_new true ∷ []))
      with_client false = (f, (refl, refl, refl))
      with_client true = with_name (env.name held)

      with_idevice : (b : Bool) → IsRead (use_idevice env b d [])
      with_idevice false = (f, (refl, refl, refl))
      with_idevice true = with_client (env.gives_client (idevice_new true ∷ []))

pub adb_get_model-DeviceFits :
    (success : Bool) (text : List ℕ) (d : Device)
    → DeviceFits d
    → DeviceFits (adb_get_model success text d)
unfolding adb_get_model
adb_get_model-DeviceFits false text d f = f
adb_get_model-DeviceFits true text d f =
    (f.0, print_model-fits (model_prefix 63 text) usb_text (take 40 d.serial), f.2, f.3)
