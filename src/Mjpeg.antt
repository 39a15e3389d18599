-- ===== src/Mjpeg.antt =====
-- src/mjpeg_decode.cc: the queue side of `MJpegDecoder`.
pub mod Decode
use droidcam_whip_c.Common.{ℕ, ltb, if◌then◌else◌, length}
use droidcam_whip_c.Decoder.{Decoder, add_item, push_empty_packet}

-- `MJpegDecoder::push_ready_packet`: with two frames waiting the new one is dropped.
unfoldable pub push_ready_packet : Decoder → ℕ → Decoder
push_ready_packet d packet =
    if ltb 1 (length d.decode_queue)
    then push_empty_packet d packet
    else record d { decode_queue = add_item d.decode_queue packet }
