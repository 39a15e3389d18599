-- ===== src/Frame.antt =====
-- `read_frame` of src/source.cc: the framing of the phone's stream. A frame is a header of twelve
-- bytes (a 64-bit time stamp and a 32-bit length, big-endian) and its body; the time stamp NO_PTS
-- marks a codec configuration, which is put in front of the body of the frame that follows.
pub mod Safety
pub mod Stream
mod Tests
use droidcam_whip_c.Common.{
  ℕ, zero, suc, ◌+◌, ◌*◌, ◌-◌, ◌^◌, List, [], ◌++◌, Bool, true, false, ◌||◌, not, Option, none,
  some, ltb, leb, ◌==◌, if◌then◌else◌, length, take, drop,
}
use droidcam_whip_c.Buffer.{buffer_read32be, buffer_read64be}
use droidcam_whip_c.Net.{Recv, Received, received, received_bytes, net_recv_all}
use droidcam_whip_c.Decoder.{Decoder, Realloc, store, pull_empty_packet, push_empty_packet}

abbrev pub header_size : ℕ
header_size = 12

abbrev pub no_pts : ℕ
no_pts = 2 ^ 64 - 1

abbrev pub max_config : ℕ
max_config = 1024

abbrev pub max_packet : ℕ
max_packet = 1024 * 1024 * 16

-- The returns of NULL, and two outcomes that the C code has no value for: a write past the end of
-- the packet's block, and fuel for too few passes of the label AGAIN.
pub data Error : Type 0 where
  header_short stop bad_length double_config config_too_large config_short body_short : Error
  overflow out_of_fuel : Error

-- What one pass from AGAIN leads to; `frame` goes on behind the loop.
pub data Pass (Sock : Type 0) : Type 0 where
  fail : Error → Sock → Pass Sock
  again : List ℕ → ℕ → Sock → Pass Sock
  frame : ℕ → ℕ → Sock → Pass Sock

pub data FrameResult : Type 0 where
  packet : ℕ → FrameResult
  null : Error → FrameResult

pub record Outcome (Sock : Type 0) : Type 0 where
  pub result : FrameResult
  pub has_config : Bool
  pub decoder : Decoder
  pub sock : Sock

-- Bytes written into a block from an index on; `none` if they do not fit.
unfoldable pub write_at : List ℕ → ℕ → List ℕ → Option (List ℕ)
write_at block i bytes =
    if leb (i + length bytes) (length block)
    then some (take i block ++ (bytes ++ drop (i + length bytes) block))
    else none

module _ {Sock : Type 0} (recv : Recv Sock) where
  -- A configuration of `len` bytes, with `config_len` bytes of one already read.
  read_config : Sock → ℕ → ℕ → Pass Sock
  read_config sock config_len len =
      if not (config_len == 0)
      then fail double_config sock
      else if ltb max_config len
      then fail config_too_large sock
      else (let (r, sock') = net_recv_all recv sock len in
          if received r == len then again (received_bytes r) len sock' else fail config_short sock')

  -- The header's fields, in the order of the tests.
  read_header : Sock → ℕ → ℕ → ℕ → Pass Sock
  read_header sock config_len pts len =
      if len == no_pts
      then fail stop sock
      else if len == 0 || ltb max_packet len
      then fail bad_length sock
      else if pts == no_pts
      then read_config sock config_len len
      else frame pts len sock

  unfoldable pub pass : Sock → ℕ → Pass Sock
  unfolding read_config read_header
  pass sock config_len =
      let (r, sock') = net_recv_all recv sock header_size in
      let header = received_bytes r in
      if received r == header_size
      then read_header sock' config_len (buffer_read64be header) (buffer_read32be (drop 8 header))
      else fail header_short sock'

  -- Behind the loop: the packet is pulled, the configuration copied, and the body read behind it.
  -- What `recv` has written of a short body stays in the packet that goes back.
  finish_frame : Decoder → ℕ → ℕ → ℕ → ℕ → Received → List ℕ → FrameResult × Decoder
  finish_frame d a config_len pts len r block =
      let p = d.heap a in
      if received r == len
      then (
        packet a,
        record d {
          heap = store d.heap a (record p { block = block; pts = pts; used = config_len + len });
        },
      )
      else (
        null body_short,
        push_empty_packet (record d { heap = store d.heap a (record p { block = block }) }) a,
      )

  -- `memcpy` of the configuration and `recv` of the body behind it, into the packet at `a`.
  fill_frame : Decoder → ℕ → Bool → List ℕ → ℕ → ℕ → ℕ → Received → Sock → Outcome Sock
  fill_frame d a has_config config config_len pts len r sock =
      elim (write_at (d.heap a).block 0 config) [
        | none ↦ record {
          result = null overflow;
          has_config = has_config;
          decoder = d;
          sock = sock;
        }
        | some block ↦ elim (write_at block config_len (received_bytes r)) [
          | none ↦ record {
            result = null overflow;
            has_config = has_config;
            decoder = d;
            sock = sock;
          }
          | some block' ↦
              let (result, d') = finish_frame d a config_len pts len r block' in
              record { result = result; has_config = has_config; decoder = d'; sock = sock }
        ]
      ]

  read_body : Realloc → Decoder → Sock → Bool → List ℕ → ℕ → ℕ → ℕ → Outcome Sock
  read_body brealloc d sock has_config config config_len pts len =
      let (a, d') = pull_empty_packet brealloc d (config_len + len) in
      let (r, sock') = net_recv_all recv sock len in
      fill_frame d' a has_config config config_len pts len r sock'

  -- The label AGAIN, with fuel for its passes.
  unfoldable pub read_passes : ℕ → Realloc → Decoder → Sock → Bool → List ℕ → ℕ → Outcome Sock
  unfolding read_body fill_frame finish_frame
  read_passes zero brealloc d sock has_config config config_len = record {
    result = null out_of_fuel;
    has_config = has_config;
    decoder = d;
    sock = sock;
  }
  read_passes (suc fuel) brealloc d sock has_config config config_len =
      elim (pass sock config_len) [
        | fail e sock' ↦ record {
          result = null e;
          has_config = has_config;
          decoder = d;
          sock = sock';
        }
        | again bytes len sock' ↦ read_passes fuel brealloc d sock' true bytes len
        | frame pts len sock' ↦ read_body brealloc d sock' has_config config config_len pts len
      ]

  unfoldable pub read_frame : Realloc → Decoder → Sock → Outcome Sock
  unfolding read_passes
  read_frame brealloc d sock = read_passes 2 brealloc d sock false [] 0
