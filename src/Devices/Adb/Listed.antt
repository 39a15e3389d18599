-- ===== src/Devices/Adb/Listed.antt =====
-- A list of devices as adb prints it, and what `DoReload` of src/device_discovery.cc makes of it.
use droidcam_whip_c.Common.{
  ℕ, false, List, [], ◌∷◌, ◌++◌, Option, none, some, ◌≡◌, All, length, map, replicate,
}
use droidcam_whip_c.Devices.{Device, Slots, strncmp_equal}
use droidcam_whip_c.Devices.Adb.{tab, newline, list_text}
use droidcam_whip_c.Devices.Adb.Lines.{IsSerial, IsState}

-- A device as adb knows it.
pub record Entry : Type 0 where
  pub serial : List ℕ
  pub state : List ℕ

abbrev pub entry_line : Entry → List ℕ
entry_line e = e.serial ++ tab ∷ e.state

-- What adb prints: a line that begins with `List of`, a line for each device, and an empty line.
abbrev pub print_entries : List Entry → List ℕ
print_entries [] = newline ∷ []
print_entries (e ∷ es) = entry_line e ++ newline ∷ print_entries es

abbrev pub title : List ℕ
title = list_text ++ 32 ∷ 100 ∷ 101 ∷ 118 ∷ 105 ∷ 99 ∷ 101 ∷ 115 ∷ []

abbrev pub print_list : List Entry → List ℕ
print_list es = title ++ newline ∷ print_entries es

abbrev pub device_of : Entry → Option Device
device_of e =
    some (record { serial = e.serial; model = []; state = e.state; address = []; handle = 0 })

abbrev pub IsEntry : Entry → Type 0
IsEntry e = IsSerial e.serial × IsState e.state

-- No serial of the list begins with the given one.
abbrev pub IsFresh : List ℕ → List Entry → Type 0
IsFresh serial = All (λ e. strncmp_equal e.serial serial (length serial) ≡ false)

-- No serial is the beginning of one before it.
abbrev pub AllFresh : List Entry → List Entry → Type 0
AllFresh done [] = Unit {0}
AllFresh done (e ∷ es) = IsFresh e.serial done × AllFresh (done ++ e ∷ []) es

lines_of : List Entry → List (List ℕ)
lines_of = map entry_line

-- The list with the devices so far in front.
abbrev slots_of : List Entry → ℕ → Slots
slots_of done k = map device_of done ++ replicate k none
