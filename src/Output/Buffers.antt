-- ===== src/Output/Buffers.antt =====
-- The buffer and the scaler of src/source.cc fit each picture.
use droidcam_whip_c.Common.{
  ◌+◌, ◌+◌, [], Option, ◌∷◌, List, ltb, ◌%◌, ℕ, ◌*◌, ◌^◌, ◌<◌, ◌≤◌, Bool, true, false, not, some,
  none, ◌≡◌, refl, if◌then◌else◌, if-cases, arith,
}
use droidcam_whip_c.Output.{
  free_buffers, is_current, scale, free_context, grown, grow, new_context, renew_context, Publisher,
  Env, log, frame_to_bgr, format_number,
}
use droidcam_whip_c.Output.Events.{
  step, sws_get, sws_free, free_buffer, brealloc, step_from, failed, Event, brealloc, failures,
  Event, left_over, lost_of, preview, sws_scale, Held, held, encode,
}
use droidcam_whip_c.Ffmpeg.Frames.{ObsFrame, is_no_format}

-- What the fields say is held.
abbrev pub held_of : Publisher → Held
held_of p = record {
  buffer = if p.bgr_frame then some p.bgr_frame_size else none;
  scaler = if p.to_bgr then some (p.to_bgr_format, p.to_bgr_width, p.to_bgr_height) else none;
  lost = lost_of (held p.events);
}

abbrev pub IsFit : Publisher → Type 0
IsFit p = held p.events ≡ some (held_of p)

-- A picture whose size does not overflow.
abbrev pub IsSmall : ObsFrame → Type 0
IsSmall f = f.width * f.height * 3 < 2 ^ 64

-- The buffer takes the picture.
abbrev pub Takes : ObsFrame → Publisher → Type 0
Takes f p = (p.bgr_frame ≡ true) × f.width * f.height * 3 ≤ p.bgr_frame_size

grown-IsFit : (n : ℕ) (b : Bool) (p : Publisher) → IsFit p → IsFit (grown n b p)
unfolding grown held
grown-IsFit n b p h = ground arith

free_context-IsFit :
    (p : Publisher) → IsFit p → IsFit (free_context p) × (free_context p).to_bgr ≡ false
unfolding free_context held
free_context-IsFit p h = ground arith

new_context-IsFit :
    (f : ObsFrame) (b : Bool) (p : Publisher)
    → IsFit p
    → p.to_bgr ≡ false
    → IsFit (new_context f b p)
unfolding new_context held
new_context-IsFit f b p h n = ground arith

enough : (size needed n : ℕ) → needed ≡ n → ltb size needed ≡ false → n ≤ size
enough size needed n e k = ground arith

module _ (env : Env) where
  grow-IsFit :
      (f : ObsFrame) (p : Publisher)
      → IsSmall f
      → IsFit p
      → IsFit (grow env f p) × f.width * f.height * 3 ≤ (grow env f p).bgr_frame_size
  unfolding grow grown
  grow-IsFit f p s h =
      let needed = f.width * f.height * 3 % 2 ^ 64 in
      let e : needed ≡ f.width * f.height * 3 = omega arith in
      if-cases (λ q. IsFit q × f.width * f.height * 3 ≤ q.bgr_frame_size)
        (ltb p.bgr_frame_size needed) (grown needed (env.memory p.events) p) p
        (λ _. (grown-IsFit needed (env.memory p.events) p h, omega (arith, e)))
        (λ k. (h, enough p.bgr_frame_size needed (f.width * f.height * 3) e k))

  -- The scaler is for the picture, if there is one.
  abbrev ScalesFor : ObsFrame → Publisher → Type 0
  ScalesFor f p =
      p.to_bgr ≡ true
      → (p.to_bgr_format ≡ format_number f.format)
        × (p.to_bgr_width ≡ f.width)
        × p.to_bgr_height ≡ f.height

  renew_context-IsFit :
      (f : ObsFrame) (p : Publisher)
      → IsFit p
      → Takes f p
      → IsFit (renew_context env f p)
        × Takes f (renew_context env f p)
        × ScalesFor f (renew_context env f p)
  unfolding renew_context new_context free_context
  renew_context-IsFit f p h t =
      let q = free_context p in
      let (h', n) = free_context-IsFit p h in
      let keep : Takes f (new_context f (env.contexts q.events) q) = ground arith in
      let r = new_context f (env.contexts q.events) q in
      if-cases (λ x. IsFit x × Takes f x × ScalesFor f x) (is_current f p) p r
        (λ e. (h, t, λ _. ground arith))
        (λ _. (new_context-IsFit f (env.contexts q.events) q h' n, keep, λ _. (refl, refl, refl)))

  scale-IsFit :
      (f : ObsFrame) (p : Publisher)
      → IsFit p
      → Takes f p
      → ScalesFor f p
      → IsFit (scale env f p).1 × Takes f (scale env f p).1
  unfolding scale held
  scale-IsFit f p h (a, b) s =
      if-cases (λ (x : Bool × Publisher). IsFit x.1 × Takes f x.1) p.to_bgr
        (env.scaled p.events, log (sws_scale (format_number f.format) f.width f.height) p)
        (false, p) (λ e. ((let (x, y, z) = s e in ground arith), (a, b))) (λ _. (h, (a, b)))

  -- If there is a picture, then the buffer holds it.
  pub frame_to_bgr-IsFit :
      (f : ObsFrame) (p : Publisher)
      → IsSmall f
      → IsFit p
      → IsFit (frame_to_bgr env f p).1
        × ((frame_to_bgr env f p).0 ≡ true → Takes f (frame_to_bgr env f p).1)
  unfolding frame_to_bgr
  frame_to_bgr-IsFit f p s h =
      let (h', b) = grow-IsFit f p s h in
      let q = grow env f p in
      let Q = λ (x : Bool × Publisher). IsFit x.1 × (x.0 ≡ true → Takes f x.1) in
      if-cases Q (is_no_format f.format) (false, p) _ (λ _. (h, ground arith))
        (λ _.
          if-cases Q (not q.bgr_frame) (false, q) (scale env f (renew_context env f q))
            (λ _. (h', ground arith))
            (λ e.
              let (k, t, v) = renew_context-IsFit f q h' (ground arith) in
              let (x, y) = scale-IsFit f (renew_context env f q) k t v in (x, λ _. y)))

-- A reader of the picture in the buffer.
pub read-IsFit :
    (f : ObsFrame) (w k : ℕ) (p : Publisher)
    → w ≡ f.width
    → k ≡ f.height
    → IsFit p
    → Takes f p
    → IsFit (log (encode w k) p) × IsFit (log (preview w k) p)
unfolding held
read-IsFit f w k p x y h (a, b) = ground arith

pub free_buffers-held :
    (env : Env) (p : Publisher)
    → IsFit p
    → let es = (free_buffers env p).events in held es ≡ some (left_over (lost_of (held es)))
unfolding free_buffers held
free_buffers-held env p h = let (k, n) = free_context-IsFit p h in ground arith

-- The picture leaves the encoders alone.
pub frame_to_bgr_keeps :
    (env : Env) (f : ObsFrame) (p : Publisher)
    → ((frame_to_bgr env f p).1.encoder ≡ p.encoder) × (frame_to_bgr env f p).1.ended ≡ p.ended
unfolding frame_to_bgr grow renew_context scale grown free_context new_context
frame_to_bgr_keeps env f p = (ground arith, ground arith)

pub free_buffers_keeps : (env : Env) (p : Publisher) → (free_buffers env p).ended ≡ p.ended
unfolding free_buffers free_context
free_buffers_keeps env p = ground arith

step-lost : (h : Held) (e : Event) → lost_of (step h e) ≤ h.lost + failed e
step-lost h (brealloc n true) = omega arith
step-lost h (brealloc n false) = ground arith
step-lost h (sws_get f w k b) = ground arith
step-lost h sws_free = ground arith
step-lost h (sws_scale f w k) = ground arith
step-lost h (preview w k) = ground arith
step-lost h (encode w k) = ground arith
step-lost h free_buffer = ground arith

step_from-lost : (o : Option Held) (e : Event) → lost_of (step_from o e) ≤ lost_of o + failed e
step_from-lost none e = omega arith
step_from-lost (some h) e = step-lost h e

-- A block is lost only by a `brealloc` that fails.
pub lost-le : (es : List Event) → lost_of (held es) ≤ failures es
unfolding held
lost-le [] = omega arith
lost-le (e ∷ es) = omega (arith, lost-le es, step_from-lost (held es) e)

pub free_buffers-no_encoder :
    (env : Env) (p : Publisher) → p.encoder ≡ none → (free_buffers env p).encoder ≡ none
unfolding free_buffers free_context
free_buffers-no_encoder env p e = ground arith
