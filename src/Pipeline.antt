-- ===== src/Pipeline.antt =====
-- The life of a packet in src/source.cc: the network thread pulls an empty packet in `read_frame`,
-- fills it, and hands it over or gives it up in `recv_video_frame`; the decode thread takes it in
-- `video_decode_thread` and gives it back. An interleaving of the threads is a list of such steps.
pub mod Ownership
pub mod Release
pub mod Bounded
pub mod Spec
pub mod Refine
mod Tests
use droidcam_whip_c.Common.{
  ℕ, ◌+◌, ◌≤◌, ◌<◌, ◌%◌, ◌^◌, ◌≡◌, Bool, true, false, not, ◌&&◌, List, [], ◌∷◌, Option, none, some,
  ltb, ◌==◌, if◌then◌else◌, length, count,
}
use droidcam_whip_c.Decoder.{
  DataPacket, Decoder, Realloc, store, pull_empty_packet, push_empty_packet, pull_ready_packet,
}
use droidcam_whip_c.Ffmpeg
use droidcam_whip_c.Ffmpeg.{FfMpegDecoder}
use droidcam_whip_c.Mjpeg

-- `Decoder *`: the classes that implement it.
pub data AnyDecoder : Type 0 where
  ffmpeg : FfMpegDecoder → AnyDecoder
  mjpeg : Decoder → AnyDecoder

abbrev pub base_of : AnyDecoder → Decoder
base_of (ffmpeg d) = d.base
base_of (mjpeg d) = d

abbrev pub with_base : AnyDecoder → Decoder → AnyDecoder
with_base (ffmpeg d) b = ffmpeg (record d { base = b })
with_base (mjpeg d) b = mjpeg b

-- The virtual call `decoder->push_ready_packet(packet)`.
unfoldable pub push_ready_packet : AnyDecoder → ℕ → AnyDecoder
unfolding Ffmpeg.push_ready_packet Mjpeg.push_ready_packet
push_ready_packet (ffmpeg d) packet = ffmpeg (Ffmpeg.push_ready_packet d packet)
push_ready_packet (mjpeg d) packet = mjpeg (Mjpeg.push_ready_packet d packet)

-- `receiving` is the packet that the network thread holds, `decoding` that of the decode thread.
pub record Pipeline : Type 0 where
  pub decoder : AnyDecoder
  pub receiving : Option ℕ
  pub decoding : Option ℕ

pub data Step : Type 0 where
  pull_empty : Realloc → ℕ → Step
  fill : DataPacket → Step
  give_up hand_over pull_ready give_back : Step

-- A step of the network thread that needs a packet in hand, or an empty hand.
network_idle : Pipeline → Step → Pipeline
network_idle p (pull_empty brealloc size) =
    let (packet, d) = pull_empty_packet brealloc (base_of p.decoder) size in
    record p { decoder = with_base p.decoder d; receiving = some packet }
network_idle p _ = p

network_busy : Pipeline → ℕ → Step → Pipeline
network_busy p packet (fill contents) =
    let d = base_of p.decoder in
    record p { decoder = with_base p.decoder (record d { heap = store d.heap packet contents }) }
network_busy p packet give_up = record p {
  decoder = with_base p.decoder (push_empty_packet (base_of p.decoder) packet);
  receiving = none;
}
network_busy p packet hand_over = record p {
  decoder = push_ready_packet p.decoder packet;
  receiving = none;
}
network_busy p packet _ = p

unfoldable pub network_step : Pipeline → Step → Pipeline
unfolding network_idle network_busy
network_step p s = elim p.receiving [
  | none ↦ network_idle p s
  | some packet ↦ network_busy p packet s
]

-- The loop of `video_decode_thread` pulls only with an empty hand, and gives back what it holds.
unfoldable pub decode_pull : Pipeline → Pipeline
decode_pull p = elim p.decoding [
  | none ↦
      let (packet, d) = pull_ready_packet (base_of p.decoder) in
      record p { decoder = with_base p.decoder d; decoding = packet }
  | some packet ↦ p
]

unfoldable pub decode_give_back : Pipeline → Pipeline
decode_give_back p = elim p.decoding [
  | none ↦ p
  | some packet ↦ record p {
    decoder = with_base p.decoder (push_empty_packet (base_of p.decoder) packet);
    decoding = none;
  }
]

unfoldable pub step : Pipeline → Step → Pipeline
unfolding network_step decode_pull decode_give_back
step p pull_ready = decode_pull p
step p give_back = decode_give_back p
step p (pull_empty brealloc size) = network_step p (pull_empty brealloc size)
step p (fill contents) = network_step p (fill contents)
step p give_up = network_step p give_up
step p hand_over = network_step p hand_over

unfoldable pub run : Pipeline → List Step → Pipeline
run p [] = p
run p (s ∷ steps) = run (step p s) steps

-- The condition under which the loop of `release_decoder` waits on.
unfoldable pub release_waits : Bool → Decoder → Bool
release_waits stop_requested d = ltb (length d.recieve_queue) d.alloc_count && not stop_requested
