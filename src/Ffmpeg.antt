-- ===== src/Ffmpeg.antt =====
-- src/ffmpeg_decode.cc, the packet side: `FfMpegDecoder::pull_empty_packet` and
-- `push_ready_packet` with its catch-up mode.
pub mod Queue
pub mod Calls
pub mod Header
pub mod Frames
pub mod Decode
mod Tests
use droidcam_whip_c.Common.{
  ℕ, ◌+◌, ◌/◌, Bool, true, false, List, ◌==◌, ltb, if◌then◌else◌, bit_and, length, replicate, drop,
  ◌++◌, ◌&&◌,
}
use droidcam_whip_c.Buffer.{byte, shr}
use droidcam_whip_c.Decoder.{
  DataPacket, Decoder, Realloc, add_item, store, pull_empty_packet, push_empty_packet,
}

-- The values of `enum AVCodecID` that the code tells apart.
pub data CodecId : Type 0 where
  h264 h265 aac other : CodecId

pub record FfMpegDecoder : Type 0 where
  pub base : Decoder
  pub open base use *
  pub codec_id : CodecId
  pub catchup : Bool

-- `AV_INPUT_BUFFER_PADDING_SIZE` of libavcodec is a parameter.
-- `memset` writes the first `new_size` bytes of the block; nothing past its end exists here.
unfoldable pub pull_empty_packet_padded : ℕ → Realloc → FfMpegDecoder → ℕ → ℕ × FfMpegDecoder
pull_empty_packet_padded padding brealloc d size =
    let new_size = size + padding in
    let (packet, base) = pull_empty_packet brealloc d.base new_size in
    let p = base.heap packet in
    (
      packet,
      record d {
        base = record base {
          heap =
              store base.heap packet
                (record p { block = replicate new_size 0 ++ drop new_size p.block });
        };
      },
    )

-- `packet->data[2] == 1 ? packet->data[3] : packet->data[4]`
abbrev pub nal_byte : List ℕ → ℕ
nal_byte block = if byte block 2 == 1 then byte block 3 else byte block 4

-- `... & 0x1f` and `(... >> 1) & 0x3f`
abbrev pub nal_type_avc : List ℕ → ℕ
nal_type_avc block = bit_and (nal_byte block) 0x1f

abbrev pub nal_type_hevc : List ℕ → ℕ
nal_type_hevc block = bit_and (shr (nal_byte block) 1) 0x3f

-- A packet that the catch-up mode throws away although the queue is drained.
unfoldable pub is_discarded : CodecId → List ℕ → Bool
is_discarded CodecId.h264 block = ltb (nal_type_avc block) 5
is_discarded CodecId.h265 block = ltb (nal_type_hevc block) 10
is_discarded CodecId.aac block = false
is_discarded CodecId.other block = false

abbrev pub is_aac : CodecId → Bool
is_aac CodecId.aac = true
is_aac CodecId.h264 = false
is_aac CodecId.h265 = false
is_aac CodecId.other = false

-- From `decodeQueue.add_item(packet)` to the end of `push_ready_packet`.
enqueue_ready : FfMpegDecoder → ℕ → FfMpegDecoder
enqueue_ready d packet =
    let items = add_item d.decode_queue packet in
    record d {
      base = record d.base { decode_queue = items };
      catchup =
          if is_aac d.codec_id && ltb (1000 / 23) (length items)
          then true
          else if ltb 30 (length items)
          then true
          else d.catchup;
    }

discard : FfMpegDecoder → ℕ → FfMpegDecoder
discard d packet = record d { base = push_empty_packet d.base packet }

unfoldable pub push_ready_packet : FfMpegDecoder → ℕ → FfMpegDecoder
unfolding enqueue_ready discard is_discarded
push_ready_packet d packet =
    if d.catchup
    then if ltb 1 (length d.decode_queue)
      then discard d packet
      else if is_discarded d.codec_id (d.heap packet).block
      then discard d packet
      else enqueue_ready (record d { catchup = false }) packet
    else enqueue_ready d packet
