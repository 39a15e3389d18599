-- ===== src/Command.antt =====
-- src/device_discovery.cc: `argv_to_string`, which prints a command into a buffer for the log, and
-- the check of a process's result.
pub mod Bounds
mod Tests
use droidcam_whip_c.Common.{
  ◌%◌, ◌^◌, take, ◌+◌, ◌-◌, leb, if◌then◌else◌, length, ℕ, Bool, true, false, List, [], ◌∷◌, Option,
  none, some,
}
use droidcam_whip_c.Frame.{write_at}

-- `memcpy(&buf[idx], arg, len)`; `none` if it reads past the string or writes past the buffer.
abbrev pub copy : List ℕ → ℕ → List ℕ → ℕ → Option (List ℕ)
copy buf idx arg len = if leb len (length arg) then write_at buf idx (take len arg) else none

-- The length that is copied of an argument, a `size_t`.
abbrev pub copied : ℕ → ℕ → ℕ → ℕ
copied bufsize idx len =
    if leb bufsize (idx + len + 1) then (bufsize + 2 ^ 64 - idx - 2) % 2 ^ 64 else len

abbrev pub space : ℕ
space = 32

-- The loop, from an argument and an index on: the buffer, the index behind the last space, and
-- whether the text was cut off.
unfoldable pub argv_loop : List (List ℕ) → List ℕ → ℕ → Option (List ℕ × ℕ × Bool)
argv_loop [] buf idx = some (buf, idx, false)
argv_loop (arg ∷ args) buf idx =
    let len = copied (length buf) idx (length arg) in
    elim (copy buf idx arg len) [
      | none ↦ none
      | some buf' ↦ elim (write_at buf' (idx + len) (space ∷ [])) [
        | none ↦ none
        | some buf'' ↦ elim (leb (length buf) (idx + length arg + 1)) [
          | true ↦ some (buf'', idx + len + 1, true)
          | false ↦ argv_loop args buf'' (idx + len + 1)
        ]
      ]
    ]

-- The NUL over the last space.
terminate : List ℕ × ℕ × Bool → Option (List ℕ × Bool)
terminate (buf, idx, truncated) = elim (write_at buf (idx - 1) (0 ∷ [])) [
  | none ↦ none
  | some buf' ↦ some (buf', truncated)
]

unfoldable pub argv_to_string : List (List ℕ) → List ℕ → Option (List ℕ × Bool)
unfolding argv_loop terminate
argv_to_string argv buf = elim (argv_loop argv buf 0) [ none ↦ none | some r ↦ terminate r ]
