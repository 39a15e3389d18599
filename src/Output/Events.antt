-- ===== src/Output/Events.antt =====
-- The buffer, the scaler and the readers of a picture in src/source.cc, and the rules for them.
use droidcam_whip_c.Common.{
  ℕ, ◌+◌, ◌*◌, Bool, true, false, ◌&&◌, ◌==◌, leb, Option, none, some, List, [], ◌∷◌, if◌then◌else◌,
}

-- A scaler is for a format, by its number, a width and a height. `brealloc` and `sws_get` say
-- whether there was memory.
pub data Event : Type 0 where
  brealloc : ℕ → Bool → Event
  sws_get : ℕ → ℕ → ℕ → Bool → Event
  sws_free : Event
  sws_scale : ℕ → ℕ → ℕ → Event
  preview : ℕ → ℕ → Event
  encode : ℕ → ℕ → Event
  free_buffer : Event

-- The size of the buffer that the pointer has, what the scaler is for, and how many blocks are still
-- allocated that no pointer has.
pub record Held : Type 0 where
  pub buffer : Option ℕ
  pub scaler : Option (ℕ × ℕ × ℕ)
  pub lost : ℕ

abbrev when : Bool → Held → Option Held
when true h = some h
when false h = none

abbrev is_some {ℓ} : {A : Type ℓ} → Option A → Bool
is_some none = false
is_some (some a) = true

-- Three bytes for each point of a picture.
abbrev holds : ℕ → ℕ → Option ℕ → Bool
holds w h none = false
holds w h (some size) = leb (w * h * 3) size

abbrev scales : ℕ → ℕ → ℕ → Option (ℕ × ℕ × ℕ) → Bool
scales f w h none = false
scales f w h (some (f', w', h')) = f == f' && w == w' && h == h'

-- A scaler is freed once, none is made over a live one, and it is used only for pictures of its
-- format and size; and a picture is written to the buffer, and read from it, only where it fits.
-- A `brealloc` that fails leaves the old block as it is, and the pointer to it is overwritten.
abbrev pub step : Held → Event → Option Held
step h (brealloc n true) = some (record h { buffer = some n })
step h (brealloc n false) =
    some (record h { buffer = none; lost = if is_some h.buffer then h.lost + 1 else h.lost })
step h (sws_get f w k b) =
    if is_some h.scaler
    then none
    else some (record h { scaler = if b then some (f, w, k) else none })
step h sws_free = when (is_some h.scaler) (record h { scaler = none })
step h (sws_scale f w k) = when (scales f w k h.scaler && holds w k h.buffer) h
step h (preview w k) = when (holds w k h.buffer) h
step h (encode w k) = when (holds w k h.buffer) h
step h free_buffer = when (is_some h.buffer) (record h { buffer = none })

-- Nothing that a pointer has.
abbrev pub left_over : ℕ → Held
left_over n = record { buffer = none; scaler = none; lost = n }

abbrev pub nothing_held : Held
nothing_held = left_over 0

abbrev pub step_from : Option Held → Event → Option Held
step_from none e = none
step_from (some h) e = step h e

-- What the events, the latest first, leave held; `none` if one of them breaks a rule.
unfoldable pub held : List Event → Option Held
held [] = some nothing_held
held (e ∷ es) = step_from (held es) e

abbrev pub lost_of : Option Held → ℕ
lost_of none = 0
lost_of (some h) = h.lost

abbrev pub failed : Event → ℕ
failed (brealloc n false) = 1
failed e = 0

-- How often `brealloc` failed.
abbrev pub failures : List Event → ℕ
failures [] = 0
failures (e ∷ es) = failures es + failed e
