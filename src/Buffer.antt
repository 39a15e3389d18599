-- ===== src/Buffer.antt =====
-- src/buffer_util.h: big-endian reads and writes of 16, 32 and 64 bits. A buffer is the list of
-- its bytes, and `buf[i]` past its end reads 0 here; the callers hand over enough bytes.
pub mod RoundTrip
mod Tests
use droidcam_whip_c.Common.{ℕ, ◌*◌, ◌/◌, ◌%◌, ◌^◌, ◌<◌, List, bit_or, get_or, set, drop, All}

abbrev pub IsByte : ℕ → Type 0
IsByte b = b < 256

abbrev pub IsBytes : List ℕ → Type 0
IsBytes = All IsByte

-- The byte at an index.
abbrev pub byte : List ℕ → ℕ → ℕ
byte buf i = get_or buf i 0

abbrev pub shl : ℕ → ℕ → ℕ
shl x k = x * 2 ^ k

abbrev pub shr : ℕ → ℕ → ℕ
shr x k = x / 2 ^ k

unfoldable pub buffer_write16be : List ℕ → ℕ → List ℕ
buffer_write16be buf value = set (set buf 0 (shr value 8 % 256)) 1 (value % 256)

unfoldable pub buffer_write32be : List ℕ → ℕ → List ℕ
buffer_write32be buf value =
    set (set (set (set buf 0 (shr value 24 % 256)) 1 (shr value 16 % 256)) 2 (shr value 8 % 256)) 3
      (value % 256)

-- The `int` that the shifts make is converted to `uint16_t`.
unfoldable pub buffer_read16be : List ℕ → ℕ
buffer_read16be buf = bit_or (shl (byte buf 0) 8) (byte buf 1) % 2 ^ 16

unfoldable pub buffer_read32be : List ℕ → ℕ
buffer_read32be buf =
    bit_or (bit_or (bit_or (shl (byte buf 0) 24) (shl (byte buf 1) 16)) (shl (byte buf 2) 8))
      (byte buf 3)
    % 2 ^ 32

-- `&buf[4]` is the list without its first four bytes.
unfoldable pub buffer_read64be : List ℕ → ℕ
unfolding buffer_read32be
buffer_read64be buf = bit_or (shl (buffer_read32be buf) 32) (buffer_read32be (drop 4 buf)) % 2 ^ 64
