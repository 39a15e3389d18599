-- ===== src/Devices/Fits.antt =====
-- The strings of a listed device and the arrays of `Device` in src/device_discovery.h.
use droidcam_whip_c.Common.{
  ℕ, suc, ◌≤◌, List, [], ◌∷◌, Option, none, some, arith, take, length, All, length-take,
}
use droidcam_whip_c.Devices.{get_device, new_device, add_device, Device, put_device, Slots}

-- Each string leaves room for its NUL.
abbrev pub DeviceFits : Device → Type 0
DeviceFits d =
    (length d.serial ≤ 79) × (length d.model ≤ 79) × (length d.state ≤ 31) × (length d.address ≤ 63)

abbrev pub SlotFits : Option Device → Type 0
SlotFits none = Unit
SlotFits (some d) = DeviceFits d

abbrev pub AllFit : Slots → Type 0
AllFit slots = All SlotFits slots

pub length-take-le : (n : ℕ) (s : List ℕ) → length (take n s) ≤ n
length-take-le n s = omega (arith, length-take n s)

-- The list that an operation gives, if it gives one.
abbrev pub AnswerFits : Option (ℕ × Slots) → Type 0
AnswerFits none = Unit
AnswerFits (some (i, slots)) = AllFit slots

put_device-AnswerFits :
    (slots : Slots) (d : Device) → AllFit slots → DeviceFits d → AnswerFits (put_device slots d)
unfolding put_device
put_device-AnswerFits [] d a f = tt
put_device-AnswerFits (none ∷ slots) d a f = (f, a.1)
put_device-AnswerFits (some c ∷ slots) d a f =
    go (put_device slots d) (put_device-AnswerFits slots d a.1 f)
  where
    go :
        (o : Option (ℕ × Slots))
        → AnswerFits o
        → AnswerFits (elim o [ none ↦ none | some (i, slots') ↦ some (suc i, some c ∷ slots') ])
    go none r = tt
    go (some (i, slots')) r = (a.0, r)

pub add_device-AnswerFits :
    (slots : Slots) (serial : List ℕ) (len : ℕ)
    → AllFit slots
    → len ≤ 79
    → AnswerFits (add_device slots serial len)
unfolding add_device
add_device-AnswerFits slots serial len a h = go (get_device slots serial len)
  where
    short : length (take len serial) ≤ 79
    short = omega (arith, length-take len serial)

    go :
        (o : Option (ℕ × Device))
        → AnswerFits (elim o [ some _ ↦ none | none ↦ put_device slots (new_device serial len) ])
    go (some x) = tt
    go none =
        put_device-AnswerFits slots (new_device serial len) a
          (short, omega arith, omega arith, omega arith)
