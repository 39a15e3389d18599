-- ===== src/Ffmpeg/Tests.antt =====
-- The catch-up mode at concrete packets.
use droidcam_whip_c.Ffmpeg.Queue.{catchup_starts, catchup_ends}
use droidcam_whip_c.Common.{
  ◌++◌, ◌==◌, not, refl, ◌&&◌, if◌then◌else◌, true, ltb, ◌∷◌, false, length, ◌≡◌, [], leb, ℕ,
}
use droidcam_whip_c.Ffmpeg.{is_discarded, CodecId, FfMpegDecoder, push_ready_packet}
use droidcam_whip_c.Decoder.{DataPacket, push_empty_packet}

-- Address 0 holds an IDR slice (NAL type 5), address 1 a delta frame (NAL type 1).
abbrev two_packets : ℕ → DataPacket
two_packets a = record {
  block = 0 ∷ 0 ∷ 0 ∷ 1 ∷ (if a == 0 then 0x65 else 0x41) ∷ [];
  size = 5;
  used = 5;
  pts = 0;
}

abbrev behind : FfMpegDecoder
behind = record {
  base = record {
    recieve_queue = [];
    decode_queue = 7 ∷ [];
    alloc_count = 3;
    ready = true;
    failed = false;
    heap = two_packets;
    fresh = 3;
  };
  codec_id = CodecId.h264;
  catchup = true;
}

keyframe_test : (push_ready_packet behind 0).decode_queue ≡ 7 ∷ 0 ∷ []
unfolding push_ready_packet
keyframe_test = refl

delta_test : (push_ready_packet behind 1).decode_queue ≡ 7 ∷ []
unfolding push_ready_packet push_empty_packet
delta_test = refl

catchup_ends_test :
    let d' = push_ready_packet behind 1 in
    let resumes =
      leb (length behind.decode_queue) 1
      && not (is_discarded behind.codec_id (behind.heap 1).block) in
    (d'.catchup ≡ not resumes)
    × (d'.decode_queue ≡ (if resumes then behind.decode_queue ++ 1 ∷ [] else behind.decode_queue))
    × (d'.recieve_queue
        ≡ (if resumes then behind.recieve_queue else behind.recieve_queue ++ 1 ∷ []))
catchup_ends_test = catchup_ends behind 1 refl

abbrev level : FfMpegDecoder
level = record behind { codec_id = CodecId.aac; catchup = false }

catchup_starts_test :
    let d' = push_ready_packet level 1 in
    (d'.decode_queue ≡ 7 ∷ 1 ∷ []) × (d'.recieve_queue ≡ []) × (d'.catchup ≡ ltb 30 2)
catchup_starts_test = catchup_starts level 1 refl
