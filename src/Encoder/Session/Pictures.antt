-- ===== src/Encoder/Session/Pictures.antt =====
-- `encoder_rtsp_encode_frame` of src/encoder_rtsp.c ends, keeps the rules, and its time stamps rise.
use droidcam_whip_c.Common.{
  zero, inr, if◌then◌else◌, inl, ◌*◌, Bool-cases, if-cases, [], not, ◌∷◌, length, ◌<◌, ◌+◌, arith,
  ◌≤◌, suc, List, ℕ, Bool, true, false, Option, some, none, ◌≡◌, refl,
}
use droidcam_whip_c.Encoder.{
  run, write_packet, frame_pts, log, receive, encoder_rtsp_encode_frame, EncoderRtspCtx,
  encode_loop, send_picture,
}
use droidcam_whip_c.Encoder.Calls.{sent, Call, Received, owed, Libav}
use droidcam_whip_c.Encoder.Session.{Below, IsLive, encode_all, OnePerPicture}
use droidcam_whip_c.Common.Int.{is_neg, pos, negsuc, ℤ}
use droidcam_whip_c.Encoder.Session.Steps.{passed, passed-IsLive, same-IsLive}
use droidcam_whip_c.Encoder.Protocol.{log-IsConsistent}

module _ (av : Libav) where
  -- What a call of `encoder_rtsp_encode_frame` and its parts lead to, with enough fuel.
  abbrev pub Goes : EncoderRtspCtx → ℕ → Option (ℤ × EncoderRtspCtx) → Type 0
  Goes ctx bound r =
      (ret : ℤ) × (c : EncoderRtspCtx) × (r ≡ some (ret, c)) × IsLive av c × owed c.calls ≤ bound

  Goes-bound :
      (ctx ctx' : EncoderRtspCtx) (a b : ℕ) (r : Option (ℤ × EncoderRtspCtx))
      → a ≤ b
      → Goes ctx' a r
      → Goes ctx b r
  Goes-bound ctx ctx' a b r h (ret, c, e, v, o) = (ret, c, e, v, omega arith)

  stop-IsLive : (ctx : EncoderRtspCtx) → IsLive av ctx → IsLive av (receive av none ctx)
  stop-IsLive ctx v =
      let w = v.consistent in
      let k = v.codec in
      let p = v.packet in
      same-IsLive av (receive av none ctx) ctx
        (log-IsConsistent av.nofile ctx Call.receive_packet false (ground arith) w)
        (refl, refl, refl, refl, refl, refl, refl) v

  encode_loop-Goes :
      OnePerPicture av
      → (fuel : ℕ) (ctx : EncoderRtspCtx) → owed ctx.calls < fuel
      → IsLive av ctx
      → Goes ctx (owed ctx.calls) (encode_loop av fuel ctx)
  unfolding encode_loop
  encode_loop-Goes one zero ctx h v = absurd (omega arith)
  encode_loop-Goes one (suc fuel) ctx h v =
      go (encode_loop-Goes one fuel) (av.receives ctx.calls) refl
    where
      go :
          ((ctx : EncoderRtspCtx)
            → owed ctx.calls < fuel
            → IsLive av ctx
            → Goes ctx (owed ctx.calls) (encode_loop av fuel ctx))
          → (x : Received) → av.receives ctx.calls ≡ x
          → Goes ctx (owed ctx.calls) (encode_loop av (suc fuel) ctx)
      go rec Received.again e =
          rw (encode_loop, e) (pos 0, receive av none ctx, refl, stop-IsLive ctx v, omega arith)
      go rec Received.eof e =
          rw (encode_loop, e) (pos 0, receive av none ctx, refl, stop-IsLive ctx v, omega arith)
      go rec (Received.failed n) e =
          rw (encode_loop, e) (negsuc n, receive av none ctx, refl, stop-IsLive ctx v, omega arith)
      go rec (Received.got n) e =
          let r = write_packet av (receive av (some n) ctx) in
          let (w, o) = passed-IsLive av n ctx v in
          let big = one ctx.calls n e in
          elim (Bool-cases (is_neg r.0)) [
            | inl q ↦ rw (encode_loop, e, q) (r.0, passed av n ctx, refl, w, omega arith)
            | inr q ↦
                rw (encode_loop, e, q)
                  (Goes-bound ctx (passed av n ctx) (owed (passed av n ctx).calls) (owed ctx.calls)
                    (encode_loop av fuel (passed av n ctx)) (omega arith)
                    (rec (passed av n ctx) (omega arith) w))
          ]

  Below-mono : (a b : ℕ) (ps : List ℕ) → a ≤ b → Below a ps → Below b ps
  Below-mono a b [] h w = w
  Below-mono a b (p ∷ ps) h (l, w) = (omega arith, w)

  frame_pts-bound : (ctx : EncoderRtspCtx) (pts : ℤ) → ctx.next_pts ≤ frame_pts av ctx pts
  frame_pts-bound ctx (negsuc n) = omega arith
  frame_pts-bound ctx (pos n) = ground arith

  sent-IsLive :
      (ctx : EncoderRtspCtx) (p : ℕ) (ok : Bool)
      → ctx.next_pts ≤ p
      → IsLive av ctx
      → IsLive av (record (log (Call.send_frame p) ok ctx) { next_pts = p + 1 })
  sent-IsLive ctx p ok h v =
      let k = v.codec in
      let f = v.frame in
      let w = log-IsConsistent av.nofile ctx (Call.send_frame p) ok (ground arith) v.consistent in
      record {
        consistent = record {
          holds = w.holds;
          closed = w.closed;
          headed = w.headed;
          fileless = w.fileless;
        };
        codec = v.codec;
        frame = v.frame;
        packet = v.packet;
        sws = v.sws;
        order = (omega arith, Below-mono ctx.next_pts p (sent ctx.calls) h v.order);
      }

  send_picture-Goes :
      OnePerPicture av
      → (fuel : ℕ) (ctx : EncoderRtspCtx) (p : ℕ) → suc (owed ctx.calls) < fuel
      → ctx.next_pts ≤ p
      → IsLive av ctx
      → Goes ctx (suc (owed ctx.calls)) (send_picture av fuel ctx p)
  unfolding send_picture
  send_picture-Goes one fuel ctx p h l v =
      let ret = av.returns ctx.calls (Call.send_frame p) in
      let c = record (log (Call.send_frame p) (not (is_neg ret)) ctx) { next_pts = p + 1 } in
      let w = sent-IsLive ctx p (not (is_neg ret)) l v in
      if-cases (Goes ctx (suc (owed ctx.calls))) (is_neg ret) (some (ret, c))
        (encode_loop av fuel c) (λ _. (ret, c, refl, w, omega arith))
        (λ _. encode_loop-Goes one fuel c h w)

  pub encode_frame-Goes :
      OnePerPicture av
      → (fuel : ℕ) (ctx : EncoderRtspCtx) (bgr_data : Bool) (pts : ℤ) → suc (owed ctx.calls) < fuel
      → IsLive av ctx
      → Goes ctx (suc (owed ctx.calls)) (encoder_rtsp_encode_frame av fuel ctx bgr_data pts)
  unfolding encoder_rtsp_encode_frame
  encode_frame-Goes one fuel ctx bgr_data pts h v =
      let ret = av.returns ctx.calls Call.make_writable in
      let f = v.frame in
      let g = v.sws in
      let c = log Call.make_writable (not (is_neg ret)) ctx in
      let w =
        log-IsConsistent av.nofile ctx Call.make_writable (not (is_neg ret)) (ground arith)
          v.consistent in
      let d = run (Call.sws_scale (ctx.width * 3) ctx.height) c in
      let x =
        log-IsConsistent av.nofile c (Call.sws_scale (ctx.width * 3) ctx.height) true (ground arith)
          w in
      let p = frame_pts av ctx pts in
      if-cases (Goes ctx (suc (owed ctx.calls))) (not bgr_data) (some (negsuc 0, ctx))
        (if is_neg ret then some (ret, c) else send_picture av fuel d p)
        (λ _. (negsuc 0, ctx, refl, v, omega arith))
        (λ _.
          if-cases (Goes ctx (suc (owed ctx.calls))) (is_neg ret) (some (ret, c))
            (send_picture av fuel d p)
            (λ _. (
              ret,
              c,
              refl,
              same-IsLive av c ctx w (refl, refl, refl, refl, refl, refl, refl) v,
              omega arith,
            ))
            (λ _.
              send_picture-Goes one fuel d p h (frame_pts-bound ctx pts)
                (same-IsLive av d ctx x (refl, refl, refl, refl, refl, refl, refl) v)))

  pub encode_all-Goes :
      OnePerPicture av
      → (fuel : ℕ) (ctx : EncoderRtspCtx) (pictures : List (Bool × ℤ))
      → owed ctx.calls + length pictures < fuel
      → IsLive av ctx
      → (c : EncoderRtspCtx) × (encode_all av fuel ctx pictures ≡ some c)
        × IsLive av c
        × owed c.calls < fuel
  unfolding encode_all
  encode_all-Goes one fuel ctx [] h v = (ctx, refl, v, omega arith)
  encode_all-Goes one fuel ctx ((bgr_data, pts) ∷ pictures) h v =
      let (ret, c, e, w, o) = encode_frame-Goes one fuel ctx bgr_data pts (omega arith) v in
      rw (encode_all, e) (encode_all-Goes one fuel c pictures (omega arith) w)
