-- ===== src/Encoder/Session/Steps.antt =====
-- The step of a packet of src/encoder_rtsp.c out of the codec and into the output.
use droidcam_whip_c.Common.{arith, ◌∙◌, ◌-◌, ℕ, true, some, ◌≡◌}
use droidcam_whip_c.Encoder.Calls.{Call, owed, Libav}
use droidcam_whip_c.Encoder.{write_packet, receive, unref, EncoderRtspCtx}
use droidcam_whip_c.Encoder.Protocol.{SameCodec, log-IsConsistent, IsConsistent}
use droidcam_whip_c.Encoder.Session.{IsLive}
use droidcam_whip_c.Encoder.Protocol.Writes.{write_packet-Keeps}

module _ (av : Libav) where
  pub same-IsLive :
      (c d : EncoderRtspCtx) → IsConsistent av.nofile c → SameCodec c d → IsLive av d → IsLive av c
  same-IsLive c d w s v = record {
    consistent = w;
    codec = s.0 ∙ v.codec;
    frame = s.1 ∙ v.frame;
    packet = s.2 ∙ v.packet;
    sws = s.3 ∙ v.sws;
    order = rw (s.4, s.6) v.order;
  }

  -- A packet comes out of the codec, is written, and its reference is dropped.
  abbrev pub passed : ℕ → EncoderRtspCtx → EncoderRtspCtx
  passed n ctx = unref av (write_packet av (receive av (some n) ctx)).1

  pub receive-IsConsistent :
      (n : ℕ) (ctx : EncoderRtspCtx)
      → IsConsistent av.nofile ctx
      → ctx.codec_ctx ≡ true
      → ctx.packet ≡ true
      → IsConsistent av.nofile (receive av (some n) ctx)
  receive-IsConsistent n ctx v k p =
      let w = log-IsConsistent av.nofile ctx Call.receive_packet true (ground arith) v in
      record { holds = w.holds; closed = w.closed; headed = w.headed; fileless = w.fileless }

  pub unref-IsConsistent :
      (ctx : EncoderRtspCtx)
      → IsConsistent av.nofile ctx
      → ctx.packet ≡ true
      → IsConsistent av.nofile (unref av ctx)
  unref-IsConsistent ctx v p =
      let w = log-IsConsistent av.nofile ctx Call.packet_unref true (ground arith) v in
      record { holds = w.holds; closed = w.closed; headed = w.headed; fileless = w.fileless }

  pub passed-IsLive :
      (n : ℕ) (ctx : EncoderRtspCtx)
      → IsLive av ctx
      → IsLive av (passed n ctx) × owed (passed n ctx).calls ≡ owed ctx.calls - 1
  passed-IsLive n ctx v =
      let c = receive av (some n) ctx in
      let w = receive-IsConsistent n ctx v.consistent v.codec v.packet in
      let (x, s) = write_packet-Keeps av c w v.codec v.packet in
      let y = unref-IsConsistent (write_packet av c).1 x (s.2 ∙ v.packet) in
      (
        record {
          consistent = y;
          codec = s.0 ∙ v.codec;
          frame = s.1 ∙ v.frame;
          packet = s.2 ∙ v.packet;
          sws = s.3 ∙ v.sws;
          order = rw (s.4, s.6) v.order;
        },
        s.5,
      )
