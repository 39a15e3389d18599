-- ===== src/Output/Life.antt =====
-- The pictures of src/source.cc and the encoders of src/encoder_rtsp.c over the life of a source.
use droidcam_whip_c.Common.{
  ◌∙◌, ◌+◌, if-cases, ℕ, suc, ◌<◌, ◌≤◌, Bool, true, false, Option, none, some, List, [], ◌∷◌,
  length, All, ◌≡◌, refl, arith,
}
use droidcam_whip_c.Encoder.{
  EncoderRtspCtx, Started, encoder_rtsp_close, encoder_rtsp_init, encoder_rtsp_encode_frame,
}
use droidcam_whip_c.Encoder.Calls.{owed}
use droidcam_whip_c.Encoder.Session.{IsLive, OnePerPicture}
use droidcam_whip_c.Encoder.Session.Close.{encoder_rtsp_close-Closes}
use droidcam_whip_c.Encoder.Session.Life.{encoder_rtsp_init-Starts, Starts}
use droidcam_whip_c.Ffmpeg.Frames.{ObsFrame}
use droidcam_whip_c.Output.{
  new_publisher, free_context, free_buffers, stop, show_preview, to_int64, same_size, frame_to_bgr,
  push_video_frame, push_all, resized, encode_frame, encoded, encode_if, keep_encoder, new_encoder,
  begin, close_encoder, Publisher, Env,
}
use droidcam_whip_c.Output.Buffers.{
  lost-le, free_buffers-no_encoder, free_buffers_keeps, free_buffers-held, frame_to_bgr_keeps,
  read-IsFit, frame_to_bgr-IsFit, IsFit, IsSmall, Takes, held_of,
}
use droidcam_whip_c.Common.Int.{ℤ}
use droidcam_whip_c.Encoder.Session.Pictures.{encode_frame-Goes}
use droidcam_whip_c.Output.{log}
use droidcam_whip_c.Output.Events.{lost_of, left_over, failures, held, nothing_held, encode}

-- An encoder that is freed: its calls kept to the lifetimes and the order of Encoder/Calls, and left
-- nothing held.
abbrev pub IsEnded : List droidcam_whip_c.Encoder.Calls.Event → Type 0
IsEnded calls =
    droidcam_whip_c.Encoder.Calls.held calls ≡ some droidcam_whip_c.Encoder.Calls.nothing_held

abbrev pub AllSmall : List (ObsFrame × ℕ) → Type 0
AllSmall [] = Unit {0}
AllSmall ((f, pts) ∷ fs) = IsSmall f × AllSmall fs

-- What a stop leaves: nothing but the blocks that a failed `brealloc` lost.
abbrev pub IsStopped : Option Publisher → Type 0
IsStopped none = ⊥
IsStopped (some p) =
    (lost : ℕ) × (held p.events ≡ some (left_over lost))
    × (lost ≤ failures p.events)
    × (p.encoder ≡ none)
    × All IsEnded p.ended

module _ (env : Env) (one : (n : ℕ) → OnePerPicture (env.av n)) where
  -- The encoder, if any, has at most `n` pictures whose packets did not come out.
  abbrev pub Encodes : ℕ → ℕ → Option EncoderRtspCtx → Type 0
  Encodes k n none = Unit {0}
  Encodes k n (some ctx) = IsLive (env.av k) ctx × owed ctx.calls ≤ n

  abbrev pub IsPublishing : ℕ → Publisher → Type 0
  IsPublishing n p = IsFit p × Encodes (length p.ended) n p.encoder × All IsEnded p.ended

  abbrev pub Publishes : ℕ → Option Publisher → Type 0
  Publishes n none = ⊥
  Publishes n (some p) = IsPublishing n p

  -- What a picture leads to: with `true`, an encoder for its size.
  abbrev Prepares : ObsFrame → ℕ → Option (Bool × Publisher) → Type 0
  Prepares f n none = ⊥
  Prepares f n (some (true, p)) =
      IsPublishing n p × Takes f p × (p.video_width ≡ f.width) × p.video_height ≡ f.height
  Prepares f n (some (false, p)) = IsPublishing n p

  abbrev pub Pushes : ℕ → Option (Bool × Publisher) → Type 0
  Pushes n none = ⊥
  Pushes n (some (ok, p)) = IsPublishing n p

  Encodes-later : (k n : ℕ) (o : Option EncoderRtspCtx) → Encodes k n o → Encodes k (suc n) o
  Encodes-later k n none w = tt
  Encodes-later k n (some ctx) (v, h) = (v, omega arith)

  Encodes-same : (k n : ℕ) (o o' : Option EncoderRtspCtx) → o ≡ o' → Encodes k n o → Encodes k n o'
  Encodes-same k n o o' e w = rw⁻¹ e w

  close_encoder-Publishes :
      (fuel n : ℕ) (p : Publisher) (ctx : EncoderRtspCtx)
      → n < fuel
      → IsFit p
      → All IsEnded p.ended
      → Encodes (length p.ended) n (some ctx)
      → (q : Publisher) × (close_encoder env fuel p (some ctx) ≡ some q)
        × IsPublishing 0 q
        × (q.encoder ≡ none)
        × held_of q ≡ held_of p
        × (q.bgr_frame ≡ p.bgr_frame)
        × q.bgr_frame_size ≡ p.bgr_frame_size
  unfolding close_encoder
  close_encoder-Publishes fuel n p ctx h w a (v, o) =
      let k = length p.ended in
      let (calls, e, g, s) =
        encoder_rtsp_close-Closes (env.av k) (one k) fuel ctx (omega arith) v.consistent in
      (
        record p { encoder = none; ended = calls ∷ p.ended },
        rw (close_encoder, e) refl,
        (w, tt, (g, a)),
        refl,
        refl,
        refl,
        refl,
      )

  begin-Prepares :
      (f : ObsFrame) (n : ℕ) (p : Publisher) (s : Option Started)
      → IsFit p
      → Takes f p
      → p.encoder ≡ none
      → All IsEnded p.ended
      → (p.video_width ≡ f.width) × (p.video_height ≡ f.height)
      → Starts (env.av (length p.ended)) s
      → Prepares f n (begin env s p)
  unfolding begin
  begin-Prepares f n p none w t e a x g = elim g [ ]
  begin-Prepares f n p (some (Started.started ctx)) w t e a (x, y) (v, o) =
      ((w, (v, omega arith), a), t, x, y)
  begin-Prepares f n p (some (Started.null calls)) w t e a x (g, s) = (w, rw e tt, (g, a))

  new_encoder-Prepares :
      (fuel n : ℕ) (f : ObsFrame) (p : Publisher)
      → 0 < fuel
      → IsFit p
      → Takes f p
      → p.encoder ≡ none
      → All IsEnded p.ended
      → Prepares f n (new_encoder env fuel f (some p))
  unfolding new_encoder resized
  new_encoder-Prepares fuel n f p h w t e a =
      let k = length p.ended in
      begin-Prepares f n (resized f p) (encoder_rtsp_init (env.av k) fuel f.width f.height p.fps) w
        t e a (refl, refl)
        (encoder_rtsp_init-Starts (env.av k) (one k) fuel f.width f.height p.fps h)

  keep_encoder-Prepares :
      (fuel n : ℕ) (f : ObsFrame) (p : Publisher) (o : Option EncoderRtspCtx)
      → n < fuel
      → p.encoder ≡ o
      → IsPublishing n p
      → Takes f p
      → Prepares f n (keep_encoder env fuel f p o)
  unfolding keep_encoder
  keep_encoder-Prepares fuel n f p none h e (w, v, a) t =
      new_encoder-Prepares fuel n f p (omega arith) w t e a
  keep_encoder-Prepares fuel n f p (some ctx) h e (w, v, a) t =
      let v' : Encodes (length p.ended) n (some ctx) =
        Encodes-same (length p.ended) n p.encoder (some ctx) e v in
      let (q, r, (w', u, a'), e', x, y, z) = close_encoder-Publishes fuel n p ctx h w a v' in
      if-cases (Prepares f n) (same_size f p) (some (true, p)) _
        (λ s. ((w, v, a), t, ground arith, ground arith))
        (λ s.
          rw r (
            new_encoder-Prepares fuel n f q (omega arith) w' (y ∙ t.0, omega (arith, t.1, z)) e'
              a'))

  encoded-Pushes :
      (n : ℕ) (p : Publisher) (ctx : EncoderRtspCtx) (r : Option (ℤ × EncoderRtspCtx))
      → IsFit p
      → All IsEnded p.ended
      → (ret : ℤ) × (c : EncoderRtspCtx) × (r ≡ some (ret, c))
        × IsLive (env.av (length p.ended)) c
        × owed c.calls ≤ n
      → Pushes n (encoded env p r)
  unfolding encoded
  encoded-Pushes n p ctx r w a (ret, c, e, v, o) = rw e (w, (v, o), a)

  encode_frame-Pushes :
      (fuel n pts : ℕ) (f : ObsFrame) (p : Publisher) (o : Option EncoderRtspCtx)
      → suc n < fuel
      → p.encoder ≡ o
      → Prepares f n (some (true, p))
      → Pushes (suc n) (encode_frame env fuel pts p o)
  unfolding encode_frame
  encode_frame-Pushes fuel n pts f p none h e ((w, v, a), t, x, y) = (w, rw e tt, a)
  encode_frame-Pushes fuel n pts f p (some ctx) h e ((w, v, a), t, x, y) =
      let k = length p.ended in
      let (l, o) = Encodes-same k n p.encoder (some ctx) e v in
      let (ret, c, r, l', o') =
        encode_frame-Goes (env.av k) (one k) fuel ctx true (to_int64 pts) (omega arith) l in
      encoded-Pushes (suc n) (log (encode p.video_width p.video_height) p) ctx _
        (read-IsFit f p.video_width p.video_height p x y w t).0 a (ret, c, r, l', omega arith)

  encode_if-Pushes :
      (fuel n pts : ℕ) (f : ObsFrame) (r : Option (Bool × Publisher))
      → suc n < fuel
      → Prepares f n r
      → Pushes (suc n) (encode_if env fuel pts r)
  unfolding encode_if
  encode_if-Pushes fuel n pts f none h w = elim w [ ]
  encode_if-Pushes fuel n pts f (some (true, p)) h w =
      encode_frame-Pushes fuel n pts f p p.encoder h refl w
  encode_if-Pushes fuel n pts f (some (false, p)) h (w, v, a) =
      (w, Encodes-later (length p.ended) n p.encoder v, a)

  frame_to_bgr-IsPublishing :
      (n : ℕ) (f : ObsFrame) (p : Publisher)
      → IsSmall f
      → IsPublishing n p
      → IsPublishing n (frame_to_bgr env f p).1
  frame_to_bgr-IsPublishing n f p s (w, v, a) =
      let (e, d) = frame_to_bgr_keeps env f p in
      ((frame_to_bgr-IsFit env f p s w).0, rw (e, d) v, rw d a)

  show_preview-IsPublishing :
      (n : ℕ) (f : ObsFrame) (p : Publisher)
      → IsPublishing n p
      → Takes f p
      → IsPublishing n (show_preview f p) × Takes f (show_preview f p)
  unfolding show_preview
  show_preview-IsPublishing n f p (w, v, a) t =
      if-cases (λ q. IsPublishing n q × Takes f q) p.has_preview _ p
        (λ _. (((read-IsFit f f.width f.height p refl refl w t).1, v, a), t)) (λ _. ((w, v, a), t))

  push_video_frame-Pushes :
      (fuel n pts : ℕ) (f : ObsFrame) (p : Publisher)
      → suc n < fuel
      → IsSmall f
      → IsPublishing n p
      → Pushes (suc n) (push_video_frame env fuel f pts p)
  unfolding push_video_frame
  push_video_frame-Pushes fuel n pts f p h s w =
      let t = frame_to_bgr env f p in
      let q = show_preview f t.1 in
      let (x, y, z) = frame_to_bgr-IsPublishing n f p s w in
      if-cases (Pushes (suc n)) t.0 (encode_if env fuel pts (keep_encoder env fuel f q q.encoder))
        (some (false, t.1))
        (λ e.
          let (u, b) =
            show_preview-IsPublishing n f t.1 (x, y, z) ((frame_to_bgr-IsFit env f p s w.0).1 e) in
          encode_if-Pushes fuel n pts f (keep_encoder env fuel f q q.encoder) h
            (keep_encoder-Prepares fuel n f q q.encoder (omega arith) refl u b))
        (λ _. (x, Encodes-later (length t.1.ended) n t.1.encoder y, z))

  push_all-Publishes :
      (fs : List (ObsFrame × ℕ)) (fuel n : ℕ) (p : Publisher)
      → n + length fs < fuel
      → AllSmall fs
      → IsPublishing n p
      → (m : ℕ) × (m < fuel) × Publishes m (push_all env fuel fs p)
  unfolding push_all
  push_all-Publishes [] fuel n p h s w = (n, omega arith, w)
  push_all-Publishes ((f, pts) ∷ fs) fuel n p h (s, ss) w =
      go (push_all-Publishes fs fuel (suc n)) (push_video_frame env fuel f pts p) refl
        (push_video_frame-Pushes fuel n pts f p (omega arith) s w)
    where
      go :
          ((q : Publisher)
            → suc n + length fs < fuel
            → AllSmall fs
            → IsPublishing (suc n) q
            → (m : ℕ) × (m < fuel) × Publishes m (push_all env fuel fs q))
          → (r : Option (Bool × Publisher)) → push_video_frame env fuel f pts p ≡ r
          → Pushes (suc n) r
          → (m : ℕ) × (m < fuel) × Publishes m (push_all env fuel ((f, pts) ∷ fs) p)
      go rec none e k = elim k [ ]
      go rec (some (ok, q)) e k = rw (push_all, e) (rec q (omega arith) ss k)

  free_buffers-IsStopped :
      (p : Publisher)
      → IsFit p
      → p.encoder ≡ none
      → All IsEnded p.ended
      → IsStopped (some (free_buffers env p))
  unfolding free_buffers free_context
  free_buffers-IsStopped p w e a =
      let es = (free_buffers env p).events in
      (
        lost_of (held es),
        free_buffers-held env p w,
        lost-le es,
        free_buffers-no_encoder env p e,
        rw (free_buffers_keeps env p) a,
      )

  stop-IsStopped :
      (fuel n : ℕ) (p : Publisher) → n < fuel → IsPublishing n p → IsStopped (stop env fuel p)
  unfolding stop
  stop-IsStopped fuel n p h (w, v, a) = go p.encoder refl v
    where
      go :
          (o : Option EncoderRtspCtx)
          → p.encoder ≡ o
          → Encodes (length p.ended) n o
          → IsStopped (stop env fuel p)
      go none e v = rw (stop, e) (free_buffers-IsStopped p w e a)
      go (some ctx) e v =
          let (q, r, (w', u, a'), e', x, y, z) = close_encoder-Publishes fuel n p ctx h w a v in
          rw (stop, e, r) (free_buffers-IsStopped q w' e' a')

  source-IsStopped :
      (fuel : ℕ) (o : Option Publisher) (m : ℕ)
      → m < fuel
      → Publishes m o
      → (q : Publisher) × (o ≡ some q) × IsStopped (stop env fuel q)
  source-IsStopped fuel none m h w = elim w [ ]
  source-IsStopped fuel (some q) m h w = (q, refl, stop-IsStopped fuel m q h w)

-- Whatever pictures the decode thread pushes, of any formats and sizes that do not overflow, if
-- FFmpeg gives at most one packet for each picture that an encoder took, then with more fuel than
-- there are pictures every call returns, and the source can be stopped: each picture was scaled by
-- a scaler of its format and size and stayed inside of the buffer, for the scaler, the preview and
-- the encoder; no scaler is left, and no buffer but at most one old block for each brealloc that
-- failed; and every encoder kept the lifetimes of FFmpeg's objects and the order of its calls and
-- is freed.
pub push_all-stop :
    (env : Env)
    → ((n : ℕ) → OnePerPicture (env.av n))
    → (fs : List (ObsFrame × ℕ)) (fuel width height : ℕ) (fps : ℤ) (has_preview : Bool)
    → length fs < fuel
    → AllSmall fs
    → (q : Publisher) × (push_all env fuel fs (new_publisher width height fps has_preview) ≡ some q)
      × IsStopped (stop env fuel q)
unfolding new_publisher droidcam_whip_c.Output.Events.held
push_all-stop env one fs fuel width height fps has_preview h s =
    let p = new_publisher width height fps has_preview in
    let (m, l, w) = push_all-Publishes env one fs fuel 0 p (omega arith) s (refl, tt, tt) in
    source-IsStopped env one fuel (push_all env fuel fs p) m l w
