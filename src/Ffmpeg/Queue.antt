-- ===== src/Ffmpeg/Queue.antt =====
-- The catch-up mode of `FfMpegDecoder::push_ready_packet`.
use droidcam_whip_c.Common.{
  not, ◌&&◌, ◌++◌, leb, ℕ, ◌+◌, ◌≤◌, ◌≡◌, true, false, length, length-append, [], ◌∷◌, arith, ltb,
  if◌then◌else◌,
}
use droidcam_whip_c.Decoder.{push_empty_packet}
use droidcam_whip_c.Ffmpeg.{FfMpegDecoder, push_ready_packet, is_discarded}

-- The backlog has at most 31 packets, and more than 30 only while packets are thrown away.
pub record IsBounded (d : FfMpegDecoder) : Type 0 where
  pub backlog : length d.decode_queue ≤ 31
  pub catching : d.catchup ≡ false → length d.decode_queue ≤ 30

pub push_ready_packet-IsBounded :
    (d : FfMpegDecoder) (packet : ℕ) → IsBounded d → IsBounded (push_ready_packet d packet)
unfolding push_ready_packet push_empty_packet
push_ready_packet-IsBounded d packet v = ground (arith, length-append d.decode_queue (packet ∷ []))

-- For every codec, outside of the catch-up mode the packet is queued, and the mode starts exactly
-- when more than 30 packets then wait: the limit for AAC of 1000/23 packets plays no part.
pub catchup_starts :
    (d : FfMpegDecoder) (packet : ℕ)
    → d.catchup ≡ false
    → let d' = push_ready_packet d packet in
      (d'.decode_queue ≡ d.decode_queue ++ packet ∷ [])
      × (d'.recieve_queue ≡ d.recieve_queue)
      × (d'.catchup ≡ ltb 30 (length d.decode_queue + 1))
unfolding push_ready_packet
catchup_starts d packet off = ground (arith, length-append d.decode_queue (packet ∷ []))

-- In the catch-up mode a packet is queued, and the mode ends, exactly when at most one packet waits
-- and the packet's NAL type is no delta frame; otherwise it goes back to the empty packets and the
-- mode goes on.
pub catchup_ends :
    (d : FfMpegDecoder) (packet : ℕ)
    → d.catchup ≡ true
    → let d' = push_ready_packet d packet in
      let resumes =
        leb (length d.decode_queue) 1 && not (is_discarded d.codec_id (d.heap packet).block) in
      (d'.catchup ≡ not resumes)
      × (d'.decode_queue ≡ (if resumes then d.decode_queue ++ packet ∷ [] else d.decode_queue))
      × (d'.recieve_queue ≡ (if resumes then d.recieve_queue else d.recieve_queue ++ packet ∷ []))
unfolding push_ready_packet push_empty_packet
catchup_ends d packet on = ground (arith, length-append d.decode_queue (packet ∷ []))
