-- ===== src/Encoder/Protocol/Output.antt =====
-- `open_output` of src/encoder_rtsp.c keeps the rules, and has an output open when it returns 0.
use droidcam_whip_c.Common.{
  if◌then◌else◌, ◌∙◌, ◌&&◌, inr, inl, not, arith, Bool-cases, if-cases, Bool, true, false, ◌≡◌,
  refl,
}
use droidcam_whip_c.Encoder.{
  close_output, log, EncoderRtspCtx, open_output, start_output, open_io, open_file, copy_parameters,
  alloc_output, open_stream,
}
use droidcam_whip_c.Encoder.Calls.{Call, held, Libav}
use droidcam_whip_c.Common.Int.{negsuc, is_neg, ℤ}
use droidcam_whip_c.Encoder.Protocol.{
  close_output_closes, close_output-IsConsistent, log-IsConsistent, close_output-SameCodec,
  SameCodec, IsConsistent,
}

module _ (av : Libav) where
  -- What `open_output` and its parts lead to.
  abbrev pub Opens : EncoderRtspCtx → ℤ × EncoderRtspCtx → Type 0
  Opens ctx r =
      IsConsistent av.nofile r.1 × SameCodec r.1 ctx × (is_neg r.0 ≡ false → r.1.output_open ≡ true)

  header_logged :
      (ctx : EncoderRtspCtx)
      → IsConsistent av.nofile ctx
      → ctx.fmt_ctx ≡ true
      → ctx.stream ≡ true
      → ctx.output_open ≡ false
      → IsConsistent av.nofile (record (log Call.write_header true ctx) { output_open = true })
  unfolding held
  header_logged ctx v e f o =
      let h = v.holds in
      record {
        holds = ground arith;
        closed = λ n. absurd (ground arith);
        headed = λ _. f;
        fileless = v.fileless;
      }

  failed-Opens :
      (ctx c : EncoderRtspCtx) (ret : ℤ)
      → IsConsistent av.nofile c
      → SameCodec c ctx
      → is_neg ret ≡ true
      → Opens ctx (ret, c)
  failed-Opens ctx c ret v s n = (v, s, λ m. absurd (ground arith))

  closed-Opens :
      (ctx c : EncoderRtspCtx) (ret : ℤ)
      → IsConsistent av.nofile c
      → SameCodec c ctx
      → is_neg ret ≡ true
      → Opens ctx (ret, close_output av.nofile c)
  closed-Opens ctx c ret v s n =
      let t = close_output-SameCodec av.nofile c in
      failed-Opens ctx (close_output av.nofile c) ret (close_output-IsConsistent av.nofile c v)
        (t.0 ∙ s.0, t.1 ∙ s.1, t.2 ∙ s.2, t.3 ∙ s.3, t.4 ∙ s.4, t.5 ∙ s.5, t.6 ∙ s.6) n

  start_output-Opens :
      (ctx : EncoderRtspCtx)
      → IsConsistent av.nofile ctx
      → ctx.fmt_ctx ≡ true
      → ctx.stream ≡ true
      → ctx.output_open ≡ false
      → Opens ctx (start_output av ctx)
  unfolding start_output
  start_output-Opens ctx v e f o =
      let ret = av.returns ctx.calls Call.write_header in
      elim (Bool-cases (is_neg ret)) [
        | inl n ↦
            let w = log-IsConsistent av.nofile ctx Call.write_header false (ground arith) v in
            rw n (
              closed-Opens ctx (log Call.write_header false ctx) ret w
                (refl, refl, refl, refl, refl, refl, refl) n)
        | inr n ↦
            rw n (header_logged ctx v e f o, (refl, refl, refl, refl, refl, refl, refl), λ _. refl)
      ]

  io_logged :
      (ctx : EncoderRtspCtx) (ok : Bool)
      → IsConsistent av.nofile ctx
      → ctx.fmt_ctx ≡ true
      → ctx.output_open ≡ false
      → ctx.pb ≡ false
      → av.nofile ≡ false
      → IsConsistent av.nofile (record (log Call.avio_open ok ctx) { pb = ok })
  unfolding held
  io_logged ctx ok v e o p y =
      let h = v.holds in
      record {
        holds = ground arith;
        closed = λ n. absurd (ground arith);
        headed = v.headed;
        fileless = λ n. absurd (ground arith);
      }

  open_file-Opens :
      (ctx : EncoderRtspCtx)
      → IsConsistent av.nofile ctx
      → ctx.fmt_ctx ≡ true
      → ctx.stream ≡ true
      → ctx.output_open ≡ false
      → ctx.pb ≡ false
      → av.nofile ≡ false
      → Opens ctx (open_file av ctx)
  unfolding open_file
  open_file-Opens ctx v e f o p y =
      let ret = av.returns ctx.calls Call.avio_open in
      let c = λ (ok : Bool). record (log Call.avio_open ok ctx) { pb = ok } in
      elim (Bool-cases (is_neg ret)) [
        | inl n ↦
            let w = io_logged ctx false v e o p y in
            rw n (closed-Opens ctx (c false) ret w (refl, refl, refl, refl, refl, refl, refl) n)
        | inr n ↦ rw n (start_output-Opens (c true) (io_logged ctx true v e o p y) e f o)
      ]

  open_io-Opens :
      (ctx : EncoderRtspCtx)
      → IsConsistent av.nofile ctx
      → ctx.fmt_ctx ≡ true
      → ctx.stream ≡ true
      → ctx.output_open ≡ false
      → ctx.pb ≡ false
      → Opens ctx (open_io av ctx)
  unfolding open_io
  open_io-Opens ctx v e f o p =
      if-cases (Opens ctx) av.nofile (start_output av ctx) (open_file av ctx)
        (λ _. start_output-Opens ctx v e f o) (λ y. open_file-Opens ctx v e f o p y)

  stream_logged :
      (ctx : EncoderRtspCtx) (ok : Bool)
      → IsConsistent av.nofile ctx
      → ctx.fmt_ctx ≡ true
      → ctx.output_open ≡ false
      → ctx.stream ≡ false
      → IsConsistent av.nofile (record (log Call.new_stream ok ctx) { stream = ok })
  unfolding held
  stream_logged ctx ok v e o f =
      let h = v.holds in
      record {
        holds = ground arith;
        closed = λ n. absurd (ground arith);
        headed = λ n. absurd (ground arith);
        fileless = v.fileless;
      }

  parameters-Opens :
      (ctx : EncoderRtspCtx)
      → IsConsistent av.nofile ctx
      → ctx.fmt_ctx ≡ true
      → ctx.stream ≡ true
      → ctx.output_open ≡ false
      → ctx.pb ≡ false
      → ctx.codec_ctx ≡ true
      → Opens ctx (copy_parameters av ctx)
  unfolding copy_parameters
  parameters-Opens ctx v e f o p k =
      let ret = av.returns ctx.calls Call.copy_parameters in
      let w =
        λ (ok : Bool). log-IsConsistent av.nofile ctx Call.copy_parameters ok (ground arith) v in
      elim (Bool-cases (is_neg ret)) [
        | inl n ↦ rw n (
            failed-Opens ctx (log Call.copy_parameters false ctx) ret (w false)
              (refl, refl, refl, refl, refl, refl, refl) n)
        | inr n ↦ rw n (open_io-Opens (log Call.copy_parameters true ctx) (w true) e f o p)
      ]

  open_stream-Opens :
      (ctx : EncoderRtspCtx)
      → IsConsistent av.nofile ctx
      → ctx.fmt_ctx ≡ true
      → ctx.stream ≡ false
      → ctx.output_open ≡ false
      → ctx.pb ≡ false
      → ctx.codec_ctx ≡ true
      → Opens ctx (open_stream av ctx)
  unfolding open_stream
  open_stream-Opens ctx v e f o p k =
      let c = λ (ok : Bool). record (log Call.new_stream ok ctx) { stream = ok } in
      elim (Bool-cases (av.gives ctx.calls Call.new_stream)) [
        | inl n ↦ rw n (parameters-Opens (c true) (stream_logged ctx true v e o f) e refl o p k)
        | inr n ↦ rw n (
            failed-Opens ctx (c false) (negsuc 0) (stream_logged ctx false v e o f)
              (refl, refl, refl, refl, refl, refl, refl) refl)
      ]

  output_logged :
      (ctx : EncoderRtspCtx) (ok : Bool)
      → IsConsistent av.nofile ctx
      → ctx.fmt_ctx ≡ false
      → IsConsistent av.nofile (record (log Call.alloc_output ok ctx) { fmt_ctx = ok })
  unfolding held
  output_logged ctx ok v e =
      let h = v.holds in
      let c = v.closed in
      record {
        holds = ground arith;
        closed = λ n. v.closed e;
        headed = v.headed;
        fileless = v.fileless;
      }

  alloc_output-Opens :
      (ctx : EncoderRtspCtx)
      → IsConsistent av.nofile ctx
      → ctx.fmt_ctx ≡ false
      → ctx.codec_ctx ≡ true
      → Opens ctx (alloc_output av ctx)
  unfolding alloc_output
  alloc_output-Opens ctx v e k =
      let ret = av.returns ctx.calls Call.alloc_output in
      let c = λ (ok : Bool). record (log Call.alloc_output ok ctx) { fmt_ctx = ok } in
      let (f, p, o) = v.closed e in
      elim (Bool-cases (not (is_neg ret) && av.gives ctx.calls Call.alloc_output)) [
        | inl n ↦ rw n (open_stream-Opens (c true) (output_logged ctx true v e) refl f o p k)
        | inr n ↦ rw n (
            failed-Opens ctx (c false) (if is_neg ret then ret else negsuc 0)
              (output_logged ctx false v e) (refl, refl, refl, refl, refl, refl, refl)
              (if-cases (λ r. is_neg r ≡ true) (is_neg ret) ret (negsuc 0) (λ q. q) (λ _. refl)))
      ]

  pub open_output-Opens :
      (ctx : EncoderRtspCtx)
      → IsConsistent av.nofile ctx
      → ctx.codec_ctx ≡ true
      → Opens ctx (open_output av ctx)
  unfolding open_output
  open_output-Opens ctx v k =
      let c = close_output av.nofile ctx in
      let s = close_output-SameCodec av.nofile ctx in
      let (w, t, o) =
        alloc_output-Opens c (close_output-IsConsistent av.nofile ctx v)
          (close_output_closes av.nofile ctx v).0 (s.0 ∙ k) in
      (w, (t.0 ∙ s.0, t.1 ∙ s.1, t.2 ∙ s.2, t.3 ∙ s.3, t.4 ∙ s.4, t.5 ∙ s.5, t.6 ∙ s.6), o)
