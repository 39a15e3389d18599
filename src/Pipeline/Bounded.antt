-- ===== src/Pipeline/Bounded.antt =====
-- The backlog of decoded video under every interleaving.
use droidcam_whip_c.Ffmpeg.Queue.{IsBounded, push_ready_packet-IsBounded}
use droidcam_whip_c.Pipeline.{
  hand_over, give_back, give_up, pull_ready, decode_give_back, decode_pull, network_step, with_base,
  base_of, fill, pull_empty, mjpeg, Step, network_busy, ffmpeg, network_idle, Pipeline, AnyDecoder,
  push_ready_packet, step, run,
}
use droidcam_whip_c.Decoder.{
  Decoder, Realloc, push_empty_packet, pull_ready_packet, pull_empty_packet,
}
use droidcam_whip_c.Common.{
  ℕ, length, List, ◌∷◌, inr, [], ap, length-append, inl, ◌≡◌, arith, ◌≤◌, Option-cases,
}

-- At most 31 packets wait for FFmpeg, at most two for TurboJPEG.
abbrev pub HasBoundedBacklog : AnyDecoder → Type 0
HasBoundedBacklog (ffmpeg d) = IsBounded d
HasBoundedBacklog (mjpeg d) = length d.decode_queue ≤ 2

push_ready_packet-HasBoundedBacklog :
    (d : AnyDecoder) (packet : ℕ)
    → HasBoundedBacklog d
    → HasBoundedBacklog (push_ready_packet d packet)
unfolding push_ready_packet push_empty_packet
push_ready_packet-HasBoundedBacklog (ffmpeg d) packet b = push_ready_packet-IsBounded d packet b
push_ready_packet-HasBoundedBacklog (mjpeg d) packet b =
    ground (arith, length-append d.decode_queue (packet ∷ []))

-- A base whose backlog is no longer than before.
with_base-HasBoundedBacklog :
    (d : AnyDecoder) (b : Decoder)
    → length b.decode_queue ≤ length (base_of d).decode_queue
    → HasBoundedBacklog d
    → HasBoundedBacklog (with_base d b)
with_base-HasBoundedBacklog (ffmpeg d) b le h = record {
  backlog = omega (arith, h.backlog);
  catching = λ e. omega (arith, h.catching e);
}
with_base-HasBoundedBacklog (mjpeg d) b le h = omega arith

pull_empty_packet-backlog :
    (r : Realloc) (d : Decoder) (size : ℕ)
    → (pull_empty_packet r d size).1.decode_queue ≡ d.decode_queue
unfolding pull_empty_packet
pull_empty_packet-backlog r d size = ground arith

pull_ready_packet-backlog :
    (d : Decoder) → length (pull_ready_packet d).1.decode_queue ≤ length d.decode_queue
unfolding pull_ready_packet
pull_ready_packet-backlog d = ground arith

network_idle-HasBoundedBacklog :
    (p : Pipeline) (s : Step)
    → HasBoundedBacklog p.decoder
    → HasBoundedBacklog (network_idle p s).decoder
unfolding network_idle
network_idle-HasBoundedBacklog p (pull_empty r size) h =
    with_base-HasBoundedBacklog p.decoder (pull_empty_packet r (base_of p.decoder) size).1
      (omega (arith, ap length (pull_empty_packet-backlog r (base_of p.decoder) size))) h
network_idle-HasBoundedBacklog p _ h = h

network_busy-HasBoundedBacklog :
    (p : Pipeline) (packet : ℕ) (s : Step)
    → HasBoundedBacklog p.decoder
    → HasBoundedBacklog (network_busy p packet s).decoder
unfolding network_busy push_empty_packet
network_busy-HasBoundedBacklog p packet (fill contents) h =
    with_base-HasBoundedBacklog p.decoder _ (omega arith) h
network_busy-HasBoundedBacklog p packet give_up h =
    with_base-HasBoundedBacklog p.decoder _ (omega arith) h
network_busy-HasBoundedBacklog p packet hand_over h =
    push_ready_packet-HasBoundedBacklog p.decoder packet h
network_busy-HasBoundedBacklog p packet _ h = h

decode_pull-HasBoundedBacklog :
    (p : Pipeline) → HasBoundedBacklog p.decoder → HasBoundedBacklog (decode_pull p).decoder
unfolding decode_pull
decode_pull-HasBoundedBacklog p h = elim (Option-cases p.decoding) [
  | inl e ↦
      rw (e, decode_pull)
        (with_base-HasBoundedBacklog p.decoder _ (pull_ready_packet-backlog (base_of p.decoder)) h)
  | inr (packet, e) ↦ rw (e, decode_pull) h
]

decode_give_back-HasBoundedBacklog :
    (p : Pipeline) → HasBoundedBacklog p.decoder → HasBoundedBacklog (decode_give_back p).decoder
unfolding decode_give_back push_empty_packet
decode_give_back-HasBoundedBacklog p h = elim (Option-cases p.decoding) [
  | inl e ↦ rw (e, decode_give_back) h
  | inr (packet, e) ↦
      rw (e, decode_give_back) (with_base-HasBoundedBacklog p.decoder _ (omega arith) h)
]

step-HasBoundedBacklog :
    (p : Pipeline) (s : Step) → HasBoundedBacklog p.decoder → HasBoundedBacklog (step p s).decoder
unfolding step
step-HasBoundedBacklog p pull_ready h = decode_pull-HasBoundedBacklog p h
step-HasBoundedBacklog p give_back h = decode_give_back-HasBoundedBacklog p h
step-HasBoundedBacklog p s h = elim (Option-cases p.receiving) [
  | inl e ↦ rw (e, network_step) (network_idle-HasBoundedBacklog p s h)
  | inr (packet, e) ↦ rw (e, network_step) (network_busy-HasBoundedBacklog p packet s h)
]

-- Under every interleaving the backlog stays bounded: at most 31 packets wait for the FFmpeg
-- decoder (at most 30 outside of its catch-up mode), and at most two for the MJPEG decoder.
pub run-HasBoundedBacklog :
    (steps : List Step) (p : Pipeline)
    → HasBoundedBacklog p.decoder
    → HasBoundedBacklog (run p steps).decoder
unfolding run
run-HasBoundedBacklog [] p h = h
run-HasBoundedBacklog (s ∷ steps) p h =
    run-HasBoundedBacklog steps (step p s) (step-HasBoundedBacklog p s h)
