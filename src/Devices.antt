-- ===== src/Devices.antt =====
-- `DeviceDiscovery` of src/device_discovery.cc: the list of devices and its iterator.
pub mod Lookup
pub mod Fits
pub mod Adb
pub mod Mdns
pub mod Usb
pub mod Discovered
mod Tests
use droidcam_whip_c.Common.{
  if◌then◌else◌, ◌==◌, replicate, take, get_or, ℕ, zero, suc, ◌+◌, Bool, true, false, List, [], ◌∷◌,
  Option, none, some, ◌&&◌, ◌||◌,
}

-- The strings are the bytes in front of the NUL; `handle` is that of an iOS device.
pub record Device : Type 0 where
  pub serial : List ℕ
  pub model : List ℕ
  pub state : List ℕ
  pub address : List ℕ
  pub handle : ℕ

-- `deviceList`, with `none` for NULL, as the constructor and `Clear` leave it.
abbrev pub Slots : Type 0
Slots = List (Option Device)

abbrev pub device_slots : Slots
device_slots = replicate 32 none

-- `strncmp(a, b, n) == 0` on strings without their NUL, which the end of the list stands for.
abbrev pub strncmp_equal : List ℕ → List ℕ → ℕ → Bool
strncmp_equal a b zero = true
strncmp_equal [] [] (suc n) = true
strncmp_equal [] (b ∷ t) (suc n) = false
strncmp_equal (a ∷ s) [] (suc n) = false
strncmp_equal (a ∷ s) (b ∷ t) (suc n) = a == b && strncmp_equal s t n

-- `GetDevice`: the index and the device that are found, which becomes `iter`.
unfoldable pub get_device : Slots → List ℕ → ℕ → Option (ℕ × Device)
get_device [] serial len = none
get_device (none ∷ slots) serial len = none
get_device (some d ∷ slots) serial len =
    let rest = get_device slots serial len in
    if strncmp_equal d.serial serial len
    then some (0, d)
    else elim rest [ none ↦ none | some (i, e) ↦ some (suc i, e) ]

-- `new Device()` with `length` bytes of the serial copied.
abbrev pub new_device : List ℕ → ℕ → Device
new_device serial len = record {
  serial = take len serial;
  model = [];
  state = [];
  address = [];
  handle = 0;
}

-- The loop of `AddDevice`: the index of the first free slot, and the list with the device there.
unfoldable pub put_device : Slots → Device → Option (ℕ × Slots)
put_device [] d = none
put_device (none ∷ slots) d = some (0, some d ∷ slots)
put_device (some e ∷ slots) d = elim (put_device slots d) [
  | none ↦ none
  | some (i, slots') ↦ some (suc i, some e ∷ slots')
]

-- `AddDevice`; `none` for a duplicate and for a full list.
unfoldable pub add_device : Slots → List ℕ → ℕ → Option (ℕ × Slots)
unfolding get_device put_device
add_device slots serial len = elim (get_device slots serial len) [
  | some _ ↦ none
  | none ↦ put_device slots (new_device serial len)
]

-- `NextDevice`, from the iterator: the device and the iterator behind it.
unfoldable pub next_device : Slots → ℕ → Option Device × ℕ
next_device slots iter = elim (get_or slots iter none) [
  | none ↦ (none, iter)
  | some d ↦ (some d, iter + 1)
]
