-- ===== src/Devices/Discovered.antt =====
-- What the managers of src/device_discovery.cc and src/mdns_discovery.cc leave in the list.
use droidcam_whip_c.Common.{arith, Option, ◌<◌, ℕ, zero, suc, Bool, List, none, All, replicate}
use droidcam_whip_c.Devices.{device_slots}
use droidcam_whip_c.Devices.Mdns.{query_callbacks, Reply}
use droidcam_whip_c.Devices.Fits.{AllFit}
use droidcam_whip_c.Devices.Mdns.Fits.{query_callbacks-AllFit, IsLimited}
use droidcam_whip_c.Devices.Adb.Fits.{do_reload-ReadFits, ReadFits}
use droidcam_whip_c.Devices.Adb.{do_reload}
use droidcam_whip_c.Devices.Usb.{usb_do_reload, DeviceInfo}
use droidcam_whip_c.Devices.Usb.Freed.{usb_do_reload-AllFit}

pub no_device-AllFit : (n : ℕ) → AllFit (replicate n none)
no_device-AllFit zero = tt
no_device-AllFit (suc n) = (tt, no_device-AllFit n)

-- Whatever replies arrive over mDNS, as long as the reader of their names keeps to its capacity,
-- whatever text adb prints, and whatever devices usbmuxd lists, as long as its array `udid` is smaller
-- than that of the serial: from the empty list on, the serial, the model, the state and the address
-- of every listed device leave room for their NUL in the arrays of `Device`, unless the text of adb
-- has no line at all, where the loop reads from NULL.
pub discovered-AllFit :
    (replies : List Reply) (disabled success : Bool) (text : List ℕ) (loaded : Bool) (udid_size : ℕ)
    (infos : Option (List DeviceInfo))
    → All IsLimited replies
    → udid_size < 80
    → AllFit (query_callbacks device_slots replies)
      × ReadFits (do_reload disabled success text device_slots)
      × AllFit (usb_do_reload loaded udid_size infos device_slots)
discovered-AllFit replies disabled success text loaded udid_size infos k h = (
  query_callbacks-AllFit replies device_slots k (no_device-AllFit 32),
  do_reload-ReadFits disabled success text device_slots (no_device-AllFit 32),
  usb_do_reload-AllFit loaded udid_size infos device_slots (omega (arith, h)) (no_device-AllFit 32),
)
