-- ===== src/Encoder/Session/Life.antt =====
-- The start of the encoder of src/encoder_rtsp.c, and what its whole life leaves.
use droidcam_whip_c.Common.{
  ◌∙◌, if◌then◌else◌, [], if-cases, not, length, ◌<◌, arith, List, ℕ, Bool, true, false, Option,
  some, none, ◌≡◌, refl,
}
use droidcam_whip_c.Encoder.{
  null, open_output, started, init_encoder, Started, EncoderRtspCtx, encoder_rtsp_init, fail,
  init_codec, init_frame, init_ctx,
}
use droidcam_whip_c.Encoder.Calls.{nothing_held, sent, owed, Name, Event, held, Libav}
use droidcam_whip_c.Encoder.Session.{IsLive, Below, session, OnePerPicture}
use droidcam_whip_c.Encoder.Protocol.{held_of, IsConsistent}
use droidcam_whip_c.Common.Int.{is_neg, ℤ}
use droidcam_whip_c.Encoder.Session.Close.{encoder_rtsp_close-Closes}
use droidcam_whip_c.Encoder.Protocol.Output.{open_output-Opens}
use droidcam_whip_c.Encoder.Session.Pictures.{encode_all-Goes}
use droidcam_whip_c.Encoder.Session.Steps.{same-IsLive}

module _ (av : Libav) where
  -- A context before its output is opened first.
  abbrev IsNew : EncoderRtspCtx → Type 0
  IsNew ctx =
      (held ctx.calls ≡ some (held_of ctx))
      × ctx.fmt_ctx ≡ false
      × ctx.stream ≡ false
      × ctx.pb ≡ false
      × ctx.output_open ≡ false
      × owed ctx.calls ≡ 0
      × sent ctx.calls ≡ []

  new-IsConsistent : (ctx : EncoderRtspCtx) → IsNew ctx → IsConsistent av.nofile ctx
  new-IsConsistent ctx (h, f, s, p, o, _, _) = record {
    holds = h;
    closed = λ _. (s, p, o);
    headed = λ e. absurd (ground arith);
    fileless = λ _. p;
  }

  abbrev HasNoFrame : EncoderRtspCtx → Type 0
  HasNoFrame ctx = (ctx.frame ≡ false) × ctx.packet ≡ false × ctx.sws ≡ false

  -- What the two tries for a codec lead to: a codec is open exactly when one succeeded.
  abbrev Finds : Bool × EncoderRtspCtx → Type 0
  Finds r = IsNew r.1 × HasNoFrame r.1 × r.1.codec_ctx ≡ r.0

  init_encoder-Finds :
      (name : Name) (ctx : EncoderRtspCtx)
      → IsNew ctx
      → HasNoFrame ctx
      → ctx.codec_ctx ≡ false
      → Finds (not (is_neg (init_encoder av name ctx).0), (init_encoder av name ctx).1)
  unfolding init_encoder held
  init_encoder-Finds name ctx (h, f, s, p, o, w, t) b k = ground arith

  init_codec-Finds :
      (ctx : EncoderRtspCtx)
      → IsNew ctx
      → HasNoFrame ctx
      → ctx.codec_ctx ≡ false
      → Finds (init_codec av ctx)
  unfolding init_codec
  init_codec-Finds ctx n b k =
      let r = init_encoder av Name.h264_nvenc ctx in
      let (m, c, q) = init_encoder-Finds Name.h264_nvenc ctx n b k in
      let r' = init_encoder av Name.libx264 r.1 in
      if-cases Finds (is_neg r.0) (not (is_neg r'.0), r'.1) (true, r.1)
        (λ e. init_encoder-Finds Name.libx264 r.1 m c (ground arith)) (λ e. (m, c, ground arith))

  -- What `init_frame` leads to: on success every object is there.
  abbrev Prepares : Bool × EncoderRtspCtx → Type 0
  Prepares r =
      IsNew r.1
      × (r.0 ≡ true
          → (r.1.codec_ctx ≡ true) × r.1.frame ≡ true × r.1.packet ≡ true × r.1.sws ≡ true)

  init_frame-Prepares :
      (ctx : EncoderRtspCtx)
      → IsNew ctx
      → HasNoFrame ctx
      → ctx.codec_ctx ≡ true
      → Prepares (init_frame av ctx)
  unfolding init_frame held
  init_frame-Prepares ctx (h, f, s, p, o, w, t) b k = ground arith

  -- What `encoder_rtsp_init` leads to, with enough fuel.
  abbrev pub Starts : Option Started → Type 0
  Starts none = ⊥
  Starts (some (started ctx)) = IsLive av ctx × owed ctx.calls ≡ 0
  Starts (some (null calls)) = (held calls ≡ some nothing_held) × sent calls ≡ []

  fail-Starts :
      OnePerPicture av
      → (fuel : ℕ) (ctx : EncoderRtspCtx) → 0 < fuel
      → IsNew ctx
      → Starts (fail av fuel ctx)
  unfolding fail
  fail-Starts one fuel ctx h n =
      let (calls, e, g, s) =
        encoder_rtsp_close-Closes av one fuel ctx (rw n.5 h) (new-IsConsistent ctx n) in
      rw (Starts, fail, e) (g, s ∙ n.6)

  opened-IsLive :
      (ctx : EncoderRtspCtx)
      → IsNew ctx
      → Below ctx.next_pts (sent ctx.calls)
      → (ctx.codec_ctx ≡ true) × ctx.frame ≡ true × ctx.packet ≡ true × ctx.sws ≡ true
      → IsLive av (open_output av ctx).1 × owed (open_output av ctx).1.calls ≡ 0
  opened-IsLive ctx n b (k, f, p, s) =
      let v = new-IsConsistent ctx n in
      let (w, t, _) = open_output-Opens av ctx v k in
      (
        same-IsLive av (open_output av ctx).1 ctx w t
            (record { consistent = v; codec = k; frame = f; packet = p; sws = s; order = b }),
        t.5 ∙ n.5,
      )

  pub encoder_rtsp_init-Starts :
      OnePerPicture av
      → (fuel width height : ℕ) (fps : ℤ) → 0 < fuel
      → Starts (encoder_rtsp_init av fuel width height fps)
  unfolding encoder_rtsp_init held
  encoder_rtsp_init-Starts one fuel width height fps h =
      let new = init_ctx width height fps in
      let r = init_codec av new in
      let q = init_frame av r.1 in
      let (n, b, k) =
        init_codec-Finds new (refl, refl, refl, refl, refl, refl, refl) (refl, refl, refl) refl in
      if-cases Starts (not r.0) (fail av fuel r.1)
        (if not q.0 then fail av fuel q.1 else some (started (open_output av q.1).1))
        (λ _. fail-Starts one fuel r.1 h n)
        (λ e.
          let (m, t) = init_frame-Prepares r.1 n b (ground arith) in
          if-cases Starts (not q.0) (fail av fuel q.1) (some (started (open_output av q.1).1))
            (λ _. fail-Starts one fuel q.1 h m)
            (λ o. opened-IsLive q.1 m (rw m.6 tt) (t (ground arith))))

  -- What a life leads to.
  abbrev pub Lives : Option (List Event) → Type 0
  Lives r =
      (calls : List Event) × (r ≡ some calls)
      × (held calls ≡ some nothing_held)
      × (bound : ℕ) × Below bound (sent calls)

  -- If FFmpeg gives at most one packet for each picture that went in, then with more fuel than
  -- there are pictures a life of the encoder ends, whatever else FFmpeg returns: each FFmpeg object
  -- is made before it is used, is freed exactly once and not used behind that, the header, the
  -- packets and the trailer are written to an open output in this order, nothing is left held, and
  -- the time stamps that the codec gets rise. What a written packet holds is not followed.
  pub session-Lives :
      OnePerPicture av
      → (fuel width height : ℕ) (fps : ℤ) (pictures : List (Bool × ℤ)) → length pictures < fuel
      → Lives (session av fuel width height fps pictures)
  unfolding session
  session-Lives one fuel width height fps pictures h =
      go (encoder_rtsp_init av fuel width height fps) refl
        (encoder_rtsp_init-Starts one fuel width height fps (omega arith))
    where
      go :
          (s : Option Started)
          → encoder_rtsp_init av fuel width height fps ≡ s
          → Starts s
          → Lives (session av fuel width height fps pictures)
      go none e s = elim s [ ]
      go (some (null calls)) e (g, s) = rw (session, e) (calls, refl, g, 0, rw s tt)
      go (some (started ctx)) e (v, o) =
          let (c, f, w, b) = encode_all-Goes av one fuel ctx pictures (omega arith) v in
          let (calls, q, g, s) = encoder_rtsp_close-Closes av one fuel c b w.consistent in
          rw (session, e, f) (calls, q, g, c.next_pts, rw s w.order)
