-- ===== src/Devices/Adb.antt =====
-- `AdbMgr::DoReload` of src/device_discovery.cc: the text of `adb devices`, by its bytes up to the
-- NUL, and the devices that it adds to the list.
pub mod Lines
pub mod Listed
pub mod Fits
pub mod Commands
pub mod Manager
mod Tests
use droidcam_whip_c.Common.{
  ℕ, zero, suc, ◌+◌, Bool, true, false, not, ◌&&◌, ◌||◌, ◌==◌, ltb, leb, List, [], ◌∷◌, ◌++◌,
  Option, none, some, if◌then◌else◌, take, set, length, min,
}
use droidcam_whip_c.Devices.{Device, Slots, add_device}

-- `'\t'`, `'\n'`, `'\r'` and `' '`
abbrev pub tab : ℕ
tab = 9

abbrev pub newline : ℕ
newline = 10

abbrev pub carriage_return : ℕ
carriage_return = 13

abbrev pub space : ℕ
space = 32

-- `isalpha` in the C locale
abbrev pub is_alpha : ℕ → Bool
is_alpha c = (leb 65 c && leb c 90) || (leb 97 c && leb c 122)

abbrev prepend : ℕ → List (List ℕ) → List (List ℕ)
prepend c [] = (c ∷ []) ∷ []
prepend c (line ∷ lines) = (c ∷ line) ∷ lines

-- The lines of a text, the empty ones among them.
unfoldable pub segments : List ℕ → List (List ℕ)
segments [] = [] ∷ []
segments (c ∷ cs) = let rest = segments cs in if c == newline then [] ∷ rest else prepend c rest

unfoldable pub drop_empty : List (List ℕ) → List (List ℕ)
drop_empty [] = []
drop_empty ([] ∷ lines) = drop_empty lines
drop_empty ((c ∷ cs) ∷ lines) = (c ∷ cs) ∷ drop_empty lines

-- What the calls of `strtok_r` with `"\n"` give one by one.
unfoldable pub tokens : List ℕ → List (List ℕ)
unfolding segments drop_empty
tokens text = drop_empty (segments text)

-- `strchr`: what is in front of the first such byte, and what is behind it.
unfoldable pub split_at : ℕ → List ℕ → Option (List ℕ × List ℕ)
split_at c [] = none
split_at c (d ∷ ds) =
    let rest = split_at c ds in
    if d == c then some ([], ds) else elim rest [ none ↦ none | some (a, b) ↦ some (d ∷ a, b) ]

unfoldable pub starts_with : List ℕ → List ℕ → Bool
starts_with [] ds = true
starts_with (c ∷ cs) [] = false
starts_with (c ∷ cs) (d ∷ ds) = c == d && starts_with cs ds

-- `strstr(text, needle) != NULL`
unfoldable pub contains : List ℕ → List ℕ → Bool
unfolding starts_with
contains needle [] = starts_with needle []
contains needle (d ∷ ds) = starts_with needle (d ∷ ds) || contains needle ds

-- `"* daemon"` and `"List of"`
abbrev pub daemon_text : List ℕ
daemon_text = 42 ∷ 32 ∷ 100 ∷ 97 ∷ 101 ∷ 109 ∷ 111 ∷ 110 ∷ []

abbrev pub list_text : List ℕ
list_text = 76 ∷ 105 ∷ 115 ∷ 116 ∷ 32 ∷ 111 ∷ 102 ∷ []

unfoldable pub skip_blanks : List ℕ → List ℕ
skip_blanks [] = []
skip_blanks (c ∷ cs) = let rest = skip_blanks cs in if c == space || c == tab then rest else c ∷ cs

unfoldable pub alpha_prefix : List ℕ → List ℕ
alpha_prefix [] = []
alpha_prefix (c ∷ cs) = let rest = alpha_prefix cs in if is_alpha c then c ∷ rest else []

-- The first space of a line, or else its first tab.
unfoldable pub split_line : List ℕ → Option (List ℕ × List ℕ)
unfolding split_at
split_line line = elim (split_at space line) [ none ↦ split_at tab line | some s ↦ some s ]

-- What the loop does with a line: it ends, it goes on, or it adds a device.
pub data Line : Type 0 where
  ends skipped : Line
  device : List ℕ → List ℕ → Line

abbrev is_blank_start : List ℕ → Bool
is_blank_start [] = false
is_blank_start (c ∷ cs) = c == carriage_return || c == newline || c == space

-- A serial is cut to 79 bytes, which leave room for its NUL in `Device`.
split_serial : Option (List ℕ × List ℕ) → Line
split_serial none = ends
split_serial (some ([], rest)) = skipped
split_serial (some (c ∷ cs, rest)) = device (take 79 (c ∷ cs)) rest

unfoldable pub parse_line : List ℕ → Line
unfolding split_serial
parse_line line =
    if is_blank_start line || contains daemon_text line || contains list_text line
    then skipped
    else split_serial (split_line line)

abbrev with_state : List ℕ → Option Device → Option Device
with_state [] d = d
with_state (c ∷ cs) none = none
with_state (c ∷ cs) (some d) = some (record d { state = take 31 (c ∷ cs) })

-- The state of the device at an index, cut to 31 bytes, unless it is empty.
unfoldable pub set_state : Slots → ℕ → List ℕ → Slots
set_state [] i state = []
set_state (d ∷ slots) zero state = with_state state d ∷ slots
set_state (d ∷ slots) (suc i) state = d ∷ set_state slots i state

-- The loop of `DoReload`.
unfoldable pub read_lines : List (List ℕ) → Slots → Slots
read_lines [] slots = slots
read_lines (line ∷ lines) slots = elim (parse_line line) [
  | ends ↦ slots
  | skipped ↦ read_lines lines slots
  | device serial rest ↦ elim (add_device slots serial (length serial)) [
    | none ↦ slots
    | some (i, slots') ↦ read_lines lines (set_state slots' i (alpha_prefix (skip_blanks rest)))
  ]
]

-- A text without any line makes the first `strtok_r` return NULL, which the loop reads from:
-- nothing comes of that.
read_text : List (List ℕ) → Slots → Option Slots
read_text [] slots = none
read_text (line ∷ lines) slots = some (read_lines (line ∷ lines) slots)

-- `disabled` is whether adb was not found, `success` that of `process_check_success`, `text` what
-- adb has printed when its pipe is read; `buf` takes 1023 bytes of it and a NUL.
unfoldable pub do_reload : Bool → Bool → List ℕ → Slots → Option Slots
unfolding read_text
do_reload disabled success text slots =
    if disabled || not success then some slots else read_text (tokens (take 1023 text)) slots
