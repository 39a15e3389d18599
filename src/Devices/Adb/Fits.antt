-- ===== src/Devices/Adb/Fits.antt =====
-- The strings that `AdbMgr::DoReload` leaves, and the arrays of `Device`.
use droidcam_whip_c.Common.{
  take, not, ◌||◌, if-cases, ℕ, zero, suc, ◌≤◌, Bool, List, [], ◌∷◌, Option, none, some, length,
}
use droidcam_whip_c.Devices.Fits.{
  SlotFits, AllFit, AnswerFits, add_device-AnswerFits, length-take-le,
}
use droidcam_whip_c.Devices.Adb.{
  split_line, list_text, daemon_text, tokens, skip_blanks, contains, with_state, alpha_prefix,
  is_blank_start, set_state, read_lines, do_reload, parse_line, Line, read_text, split_serial, ends,
  skipped, device,
}
use droidcam_whip_c.Devices.{add_device, Slots, Device}

with_state-SlotFits :
    (state : List ℕ) (d : Option Device) → SlotFits d → SlotFits (with_state state d)
with_state-SlotFits [] d f = f
with_state-SlotFits (c ∷ cs) none f = f
with_state-SlotFits (c ∷ cs) (some d) f = (f.0, f.1, length-take-le 31 (c ∷ cs), f.3)

set_state-AllFit :
    (slots : Slots) (i : ℕ) (state : List ℕ) → AllFit slots → AllFit (set_state slots i state)
unfolding set_state
set_state-AllFit [] i state a = a
set_state-AllFit (d ∷ slots) zero state a = (with_state-SlotFits state d a.0, a.1)
set_state-AllFit (d ∷ slots) (suc i) state a = (a.0, set_state-AllFit slots i state a.1)

-- The serial that a line gives is cut.
LineFits : Line → Type 0
LineFits ends = Unit
LineFits skipped = Unit
LineFits (device serial rest) = length serial ≤ 79

split_serial-LineFits : (o : Option (List ℕ × List ℕ)) → LineFits (split_serial o)
unfolding split_serial LineFits
split_serial-LineFits none = tt
split_serial-LineFits (some ([], rest)) = tt
split_serial-LineFits (some (c ∷ cs, rest)) = length-take-le 79 (c ∷ cs)

parse_line-LineFits : (line : List ℕ) → LineFits (parse_line line)
unfolding parse_line LineFits
parse_line-LineFits line =
    if-cases LineFits (is_blank_start line || contains daemon_text line || contains list_text line)
      skipped (split_serial (split_line line)) (λ e. tt)
      (λ e. split_serial-LineFits (split_line line))

read_lines-AllFit :
    (lines : List (List ℕ)) (slots : Slots) → AllFit slots → AllFit (read_lines lines slots)
unfolding read_lines LineFits
read_lines-AllFit [] slots a = a
read_lines-AllFit (line ∷ lines) slots a =
    on_line (parse_line line) (parse_line-LineFits line) (λ slots'. read_lines-AllFit lines slots')
  where
    on_added :
        ((slots' : Slots) → AllFit slots' → AllFit (read_lines lines slots'))
        → (state : List ℕ) (o : Option (ℕ × Slots)) → AnswerFits o
        → AllFit (elim o [
          | none ↦ slots
          | some (i, slots') ↦ read_lines lines (set_state slots' i state)
        ])
    on_added rec state none f = a
    on_added rec state (some (i, slots')) f =
        rec (set_state slots' i state) (set_state-AllFit slots' i state f)

    on_line :
        (l : Line)
        → LineFits l
        → ((slots' : Slots) → AllFit slots' → AllFit (read_lines lines slots'))
        → AllFit (elim l [
          | ends ↦ slots
          | skipped ↦ read_lines lines slots
          | device serial rest ↦ elim (add_device slots serial (length serial)) [
            | none ↦ slots
            | some (i, slots') ↦
                read_lines lines (set_state slots' i (alpha_prefix (skip_blanks rest)))
          ]
        ])
    on_line ends f rec = a
    on_line skipped f rec = rec slots a
    on_line (device serial rest) f rec =
        on_added rec (alpha_prefix (skip_blanks rest)) (add_device slots serial (length serial))
          (add_device-AnswerFits slots serial (length serial) a f)

-- The list that is read, if no read of NULL comes first.
abbrev pub ReadFits : Option Slots → Type 0
ReadFits none = Unit
ReadFits (some slots) = AllFit slots

read_text-ReadFits :
    (lines : List (List ℕ)) (slots : Slots) → AllFit slots → ReadFits (read_text lines slots)
unfolding read_text
read_text-ReadFits [] slots a = tt
read_text-ReadFits (line ∷ lines) slots a = read_lines-AllFit (line ∷ lines) slots a

pub do_reload-ReadFits :
    (disabled success : Bool) (text : List ℕ) (slots : Slots)
    → AllFit slots
    → ReadFits (do_reload disabled success text slots)
unfolding do_reload
do_reload-ReadFits disabled success text slots a =
    if-cases ReadFits (disabled || not success) (some slots)
      (read_text (tokens (take 1023 text)) slots) (λ e. a)
      (λ e. read_text-ReadFits (tokens (take 1023 text)) slots a)
