-- ===== src/Encoder/Session/Close.antt =====
-- `encoder_rtsp_close` of src/encoder_rtsp.c ends, keeps the rules, and frees what is held.
use droidcam_whip_c.Common.{
  zero, not, if-cases, ◌∙◌, if◌then◌else◌, suc, ◌-◌, ◌<◌, arith, List, ℕ, true, false, Option, some,
  none, ◌≡◌, refl,
}
use droidcam_whip_c.Encoder.{
  write_packet, run, close_output, unref, receive, encoder_rtsp_close, free_all, flush_loop,
  EncoderRtspCtx, flush, free_objects,
}
use droidcam_whip_c.Encoder.Calls.{Received, Call, nothing_held, Event, sent, owed, held, Libav}
use droidcam_whip_c.Encoder.Session.{OnePerPicture}
use droidcam_whip_c.Encoder.Protocol.{
  SameCodec, close_output-IsConsistent, log-IsConsistent, close_output-SameCodec,
  close_output_closes, held_of, IsConsistent,
}
use droidcam_whip_c.Encoder.Session.Steps.{unref-IsConsistent, receive-IsConsistent}
use droidcam_whip_c.Encoder.Protocol.Writes.{write_packet-Keeps}

module _ (av : Libav) where
  -- One packet of the loop of `encoder_rtsp_close`.
  abbrev flushed : ℕ → EncoderRtspCtx → EncoderRtspCtx
  flushed n ctx =
      let c = receive av (some n) ctx in
      unref av (if c.output_open then (write_packet av c).1 else c)

  flushed-IsConsistent :
      (n : ℕ) (ctx : EncoderRtspCtx)
      → IsConsistent av.nofile ctx
      → ctx.codec_ctx ≡ true
      → ctx.packet ≡ true
      → IsConsistent av.nofile (flushed n ctx)
        × (flushed n ctx).codec_ctx ≡ true
        × (flushed n ctx).packet ≡ true
        × owed (flushed n ctx).calls ≡ owed ctx.calls - 1
        × sent (flushed n ctx).calls ≡ sent ctx.calls
  flushed-IsConsistent n ctx v k p =
      let c = receive av (some n) ctx in
      let w = receive-IsConsistent av n ctx v k p in
      let d = if c.output_open then (write_packet av c).1 else c in
      let (x, s) : IsConsistent av.nofile d × SameCodec d c =
        if-cases (λ d. IsConsistent av.nofile d × SameCodec d c) c.output_open (write_packet av c).1
          c (λ _. write_packet-Keeps av c w k p)
          (λ _. (w, (refl, refl, refl, refl, refl, refl, refl))) in
      (unref-IsConsistent av d x (s.2 ∙ p), s.0 ∙ k, s.2 ∙ p, s.5, s.6)

  -- What the loop leads to, with enough fuel.
  abbrev Flushes : EncoderRtspCtx → Option EncoderRtspCtx → Type 0
  Flushes ctx r =
      (c : EncoderRtspCtx) × (r ≡ some c) × IsConsistent av.nofile c × sent c.calls ≡ sent ctx.calls

  flush_loop-Flushes :
      OnePerPicture av
      → (fuel : ℕ) (ctx : EncoderRtspCtx) → owed ctx.calls < fuel
      → IsConsistent av.nofile ctx
      → ctx.codec_ctx ≡ true
      → ctx.packet ≡ true
      → Flushes ctx (flush_loop av fuel ctx)
  unfolding flush_loop
  flush_loop-Flushes one zero ctx h v k p = absurd (omega arith)
  flush_loop-Flushes one (suc fuel) ctx h v k p =
      go (flush_loop-Flushes one fuel) (av.receives ctx.calls) refl
    where
      done : IsConsistent av.nofile (receive av none ctx)
      done = log-IsConsistent av.nofile ctx Call.receive_packet false (ground arith) v

      go :
          ((ctx : EncoderRtspCtx)
            → owed ctx.calls < fuel
            → IsConsistent av.nofile ctx
            → ctx.codec_ctx ≡ true
            → ctx.packet ≡ true
            → Flushes ctx (flush_loop av fuel ctx))
          → (x : Received) → av.receives ctx.calls ≡ x
          → Flushes ctx (flush_loop av (suc fuel) ctx)
      go rec Received.again e = rw (flush_loop, e) (receive av none ctx, refl, done, refl)
      go rec Received.eof e = rw (flush_loop, e) (receive av none ctx, refl, done, refl)
      go rec (Received.failed n) e = rw (flush_loop, e) (receive av none ctx, refl, done, refl)
      go rec (Received.got n) e =
          let (w, k', p', o, s) = flushed-IsConsistent n ctx v k p in
          let big = one ctx.calls n e in
          let (c, q, x, t) = rec (flushed n ctx) (omega arith) w k' p' in
          rw (flush_loop, e) (c, q, x, t ∙ s)

  flush-Flushes :
      OnePerPicture av
      → (fuel : ℕ) (ctx : EncoderRtspCtx) → owed ctx.calls < fuel
      → IsConsistent av.nofile ctx
      → Flushes ctx (flush av fuel ctx)
  unfolding flush
  flush-Flushes one fuel ctx h v =
      let d = run Call.send_eof ctx in
      if-cases (Flushes ctx) (not ctx.codec_ctx) (some ctx)
        (if not ctx.packet then some d else flush_loop av fuel d) (λ _. (ctx, refl, v, refl))
        (λ k.
          let w = log-IsConsistent av.nofile ctx Call.send_eof true (ground arith) v in
          if-cases (Flushes ctx) (not ctx.packet) (some d) (flush_loop av fuel d)
            (λ _. (d, refl, w, refl))
            (λ p. flush_loop-Flushes one fuel d h w (ground arith) (ground arith)))

  free_objects-Held :
      (ctx : EncoderRtspCtx)
      → held ctx.calls ≡ some (held_of ctx)
      → ctx.fmt_ctx ≡ false
      → ctx.pb ≡ false
      → ctx.stream ≡ false
      → held (free_objects ctx) ≡ some nothing_held
  unfolding free_objects held
  free_objects-Held ctx h f p s = ground arith

  sent-free_objects : (ctx : EncoderRtspCtx) → sent (free_objects ctx) ≡ sent ctx.calls
  unfolding free_objects
  sent-free_objects ctx = ground arith

  -- What `encoder_rtsp_close` leads to, with enough fuel.
  abbrev pub Closes : EncoderRtspCtx → Option (List Event) → Type 0
  Closes ctx r =
      (calls : List Event) × (r ≡ some calls)
      × (held calls ≡ some nothing_held)
      × sent calls ≡ sent ctx.calls

  free_all-Closes :
      (ctx : EncoderRtspCtx) → IsConsistent av.nofile ctx → Closes ctx (some (free_all av ctx))
  unfolding free_all
  free_all-Closes ctx v =
      let d = close_output av.nofile ctx in
      let c = close_output_closes av.nofile ctx v in
      let s = close_output-SameCodec av.nofile ctx in
      (
        free_all av ctx,
        refl,
        free_objects-Held d (close_output-IsConsistent av.nofile ctx v).holds c.0 c.1 c.2,
        sent-free_objects d ∙ s.6,
      )

  pub encoder_rtsp_close-Closes :
      OnePerPicture av
      → (fuel : ℕ) (ctx : EncoderRtspCtx) → owed ctx.calls < fuel
      → IsConsistent av.nofile ctx
      → Closes ctx (encoder_rtsp_close av fuel ctx)
  unfolding encoder_rtsp_close
  encoder_rtsp_close-Closes one fuel ctx h v =
      let (c, e, w, s) = flush-Flushes one fuel ctx h v in
      let (calls, f, g, t) = free_all-Closes c w in rw (encoder_rtsp_close, e) (calls, f, g, t ∙ s)
