-- ===== src/Encoder/Protocol/Writes.antt =====
-- `write_packet` of src/encoder_rtsp.c keeps the rules, over a failed write and a new connection.
use droidcam_whip_c.Common.{zero, if◌then◌else◌, suc, ◌∙◌, arith, if-cases, not, true, ◌≡◌, refl}
use droidcam_whip_c.Encoder.{
  close_output, log, open_output, write_packet, EncoderRtspCtx, write_open, try_write, retry_write,
}
use droidcam_whip_c.Encoder.Calls.{Call, Libav}
use droidcam_whip_c.Common.Int.{negsuc, is_neg, pos, ℤ}
use droidcam_whip_c.Encoder.Protocol.{
  close_output-IsConsistent, close_output-SameCodec, log-IsConsistent, SameCodec, IsConsistent,
}
use droidcam_whip_c.Encoder.Protocol.Output.{open_output-Opens, Opens}

module _ (av : Libav) where
  -- What `write_packet` and its parts lead to.
  abbrev pub Keeps : EncoderRtspCtx → ℤ × EncoderRtspCtx → Type 0
  Keeps ctx r = IsConsistent av.nofile r.1 × SameCodec r.1 ctx

  try_write-Keeps :
      (ctx : EncoderRtspCtx)
      → IsConsistent av.nofile ctx
      → ctx.packet ≡ true
      → ctx.output_open ≡ true
      → Keeps ctx (try_write av ctx)
  unfolding try_write
  try_write-Keeps ctx v p o =
      let c = v.closed in
      let ok = not (is_neg (av.returns ctx.calls (Call.write_frame ctx.content))) in
      let w = log-IsConsistent av.nofile ctx (Call.write_frame ctx.content) ok (ground arith) v in
      (
        record { holds = w.holds; closed = w.closed; headed = w.headed; fileless = w.fileless },
        (refl, refl, refl, refl, refl, refl, refl),
      )

  retry_write-Keeps :
      (ctx : EncoderRtspCtx) (ret : ℤ) (r : ℤ × EncoderRtspCtx)
      → ctx.packet ≡ true
      → Opens av ctx r
      → Keeps ctx (retry_write av ret r)
  unfolding retry_write
  retry_write-Keeps ctx ret (pos zero, c) p (v, s, o) =
      let (w, t) = try_write-Keeps c v (s.2 ∙ p) (o refl) in
      (w, (t.0 ∙ s.0, t.1 ∙ s.1, t.2 ∙ s.2, t.3 ∙ s.3, t.4 ∙ s.4, t.5 ∙ s.5, t.6 ∙ s.6))
  retry_write-Keeps ctx ret (pos (suc n), c) p (v, s, o) = (v, s)
  retry_write-Keeps ctx ret (negsuc n, c) p (v, s, o) = (v, s)

  write_open-Keeps :
      (ctx : EncoderRtspCtx)
      → IsConsistent av.nofile ctx
      → ctx.codec_ctx ≡ true
      → ctx.packet ≡ true
      → ctx.output_open ≡ true
      → Keeps ctx (write_open av ctx)
  unfolding write_open
  write_open-Keeps ctx v k p o =
      let c = v.closed in
      let g = v.headed o in
      let w = log-IsConsistent av.nofile ctx Call.rescale_ts true (ground arith) v in
      let r = try_write av (log Call.rescale_ts true ctx) in
      let (x, s) = try_write-Keeps (log Call.rescale_ts true ctx) w p o in
      let d = close_output av.nofile r.1 in
      let s' = close_output-SameCodec av.nofile r.1 in
      let z = open_output-Opens av d (close_output-IsConsistent av.nofile r.1 x) (s'.0 ∙ s.0 ∙ k) in
      let t = z.1 in
      let back : SameCodec (open_output av d).1 ctx = (
        t.0 ∙ s'.0 ∙ s.0,
        t.1 ∙ s'.1 ∙ s.1,
        t.2 ∙ s'.2 ∙ s.2,
        t.3 ∙ s'.3 ∙ s.3,
        t.4 ∙ s'.4 ∙ s.4,
        t.5 ∙ s'.5 ∙ s.5,
        t.6 ∙ s'.6 ∙ s.6,
      ) in
      if-cases (Keeps ctx) (is_neg r.0) (retry_write av r.0 (open_output av d)) r
        (λ _. retry_write-Keeps ctx r.0 (open_output av d) p (z.0, back, z.2)) (λ _. (x, s))

  pub write_packet-Keeps :
      (ctx : EncoderRtspCtx)
      → IsConsistent av.nofile ctx
      → ctx.codec_ctx ≡ true
      → ctx.packet ≡ true
      → Keeps ctx (write_packet av ctx)
  unfolding write_packet
  write_packet-Keeps ctx v k p =
      let r = open_output av ctx in
      let (w, s, o) = open_output-Opens av ctx v k in
      if-cases (Keeps ctx) ctx.output_open (write_open av ctx)
        (if is_neg r.0 then (negsuc 0, r.1) else write_open av r.1)
        (λ o'. write_open-Keeps ctx v k p o')
        (λ _.
          if-cases (Keeps ctx) (is_neg r.0) (negsuc 0, r.1) (write_open av r.1) (λ _. (w, s))
            (λ n.
              let (x, t) = write_open-Keeps r.1 w (s.0 ∙ k) (s.2 ∙ p) (o n) in
              (x, (t.0 ∙ s.0, t.1 ∙ s.1, t.2 ∙ s.2, t.3 ∙ s.3, t.4 ∙ s.4, t.5 ∙ s.5, t.6 ∙ s.6))))
