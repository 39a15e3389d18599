-- ===== src/Output.antt =====
-- src/source.cc: what becomes of a decoded picture. `frame_to_bgr`, `push_video_frame`, which hands
-- the picture to the encoder of src/encoder_rtsp.c, and the end of `droidcam_source_stop`.
pub mod Events
pub mod Buffers
pub mod Life
mod Tests
use droidcam_whip_c.Common.{
  ℕ, ◌-◌, ◌*◌, ◌%◌, ◌^◌, Bool, true, false, not, ◌&&◌, ◌||◌, ◌==◌, ltb, Option, none, some, List,
  [], ◌∷◌, if◌then◌else◌, length,
}
use droidcam_whip_c.Common.Int.{ℤ, pos, negsuc, is_neg}
use droidcam_whip_c.Encoder.{
  EncoderRtspCtx, Started, started, null, encoder_rtsp_init, encoder_rtsp_encode_frame,
  encoder_rtsp_close,
}
use droidcam_whip_c.Encoder.Calls.{Libav}
use droidcam_whip_c.Formats.{VideoFormat}
use droidcam_whip_c.Ffmpeg.Frames.{ObsFrame, is_no_format}
use droidcam_whip_c.Output.Events.{
  Event, brealloc, sws_get, sws_free, sws_scale, preview, encode, free_buffer,
}

-- Whether there is memory, whether a scaler is given and whether it scales, by the events before;
-- and FFmpeg as each encoder meets it, by how many encoders were there before.
pub record Env : Type 0 where
  pub memory : List Event → Bool
  pub contexts : List Event → Bool
  pub scaled : List Event → Bool
  pub av : ℕ → Libav

-- The fields of `droidcam_obs_source` for the pictures: a pointer is told by whether it is set;
-- `ended` has the calls that each encoder made that is freed.
pub record Publisher : Type 0 where
  pub bgr_frame : Bool
  pub bgr_frame_size : ℕ
  pub to_bgr : Bool
  pub to_bgr_format : ℕ
  pub to_bgr_width : ℕ
  pub to_bgr_height : ℕ
  pub encoder : Option EncoderRtspCtx
  pub video_width : ℕ
  pub video_height : ℕ
  pub fps : ℤ
  pub has_preview : Bool
  pub ended : List (List droidcam_whip_c.Encoder.Calls.Event)
  pub events : List Event

abbrev pub log : Event → Publisher → Publisher
log e p = record p { events = e ∷ p.events }

-- The value of `enum video_format`.
abbrev pub format_number : VideoFormat → ℕ
format_number VideoFormat.none = 0
format_number VideoFormat.i420 = 1
format_number VideoFormat.nv12 = 2
format_number VideoFormat.yuy2 = 3
format_number VideoFormat.uyvy = 4
format_number VideoFormat.i422 = 5
format_number VideoFormat.i010 = 6
format_number VideoFormat.p010 = 7
format_number VideoFormat.i210 = 8

-- From a `uint64_t` to an `int64_t`.
abbrev pub to_int64 : ℕ → ℤ
to_int64 n = if ltb n (2 ^ 63) then pos n else negsuc (2 ^ 64 - 1 - n)

-- The pointer takes what `brealloc` returns, also where that is NULL and the old block is still
-- allocated.
grown : ℕ → Bool → Publisher → Publisher
grown needed b p = record (log (brealloc needed b) p) { bgr_frame = b; bgr_frame_size = needed }

free_context : Publisher → Publisher
free_context p = if p.to_bgr then record (log sws_free p) { to_bgr = false } else p

new_context : ObsFrame → Bool → Publisher → Publisher
new_context f b p = record (log (sws_get (format_number f.format) f.width f.height b) p) {
  to_bgr = b;
  to_bgr_format = format_number f.format;
  to_bgr_width = f.width;
  to_bgr_height = f.height;
}

-- The test for the scaler of the last picture.
abbrev is_current : ObsFrame → Publisher → Bool
is_current f p =
    p.to_bgr
    && p.to_bgr_format == format_number f.format
    && p.to_bgr_width == f.width
    && p.to_bgr_height == f.height

abbrev same_size : ObsFrame → Publisher → Bool
same_size f p = p.video_width == f.width && p.video_height == f.height

resized : ObsFrame → Publisher → Publisher
resized f p = record p { video_width = f.width; video_height = f.height }

show_preview : ObsFrame → Publisher → Publisher
show_preview f p = if p.has_preview then log (preview f.width f.height) p else p

module _ (env : Env) where
  grow : ObsFrame → Publisher → Publisher
  unfolding grown
  grow f p =
      let needed = f.width * f.height * 3 % 2 ^ 64 in
      if ltb p.bgr_frame_size needed then grown needed (env.memory p.events) p else p

  renew_context : ObsFrame → Publisher → Publisher
  unfolding free_context new_context
  renew_context f p =
      if is_current f p
      then p
      else (let p' = free_context p in new_context f (env.contexts p'.events) p')

  scale : ObsFrame → Publisher → Bool × Publisher
  scale f p =
      if p.to_bgr
      then (env.scaled p.events, log (sws_scale (format_number f.format) f.width f.height) p)
      else (false, p)

  -- `frame_pix_fmt` knows every format but the one that says there is none.
  unfoldable pub frame_to_bgr : ObsFrame → Publisher → Bool × Publisher
  unfolding grow renew_context scale
  frame_to_bgr f p =
      let p' = grow f p in
      if is_no_format f.format
      then (false, p)
      else if not p'.bgr_frame
      then (false, p')
      else scale f (renew_context f p')

  -- `encoder_rtsp_close`, where there is an encoder; `none` means that the fuel of one of its loops
  -- ran out.
  close_encoder : ℕ → Publisher → Option EncoderRtspCtx → Option Publisher
  close_encoder fuel p none = some p
  close_encoder fuel p (some ctx) = elim (encoder_rtsp_close (env.av (length p.ended)) fuel ctx) [
    | none ↦ none
    | some calls ↦ some (record p { encoder = none; ended = calls ∷ p.ended })
  ]

  begin : Option Started → Publisher → Option (Bool × Publisher)
  begin none p = none
  begin (some (started ctx)) p = some (true, record p { encoder = some ctx })
  begin (some (null calls)) p = some (false, record p { ended = calls ∷ p.ended })

  -- `encoder_rtsp_init`, and whether it gave an encoder.
  new_encoder : ℕ → ObsFrame → Option Publisher → Option (Bool × Publisher)
  unfolding resized begin
  new_encoder fuel f none = none
  new_encoder fuel f (some p) =
      begin (encoder_rtsp_init (env.av (length p.ended)) fuel f.width f.height p.fps) (resized f p)

  keep_encoder : ℕ → ObsFrame → Publisher → Option EncoderRtspCtx → Option (Bool × Publisher)
  unfolding new_encoder close_encoder
  keep_encoder fuel f p none = new_encoder fuel f (some p)
  keep_encoder fuel f p (some ctx) =
      if same_size f p then some (true, p) else new_encoder fuel f (close_encoder fuel p (some ctx))

  encoded : Publisher → Option (ℤ × EncoderRtspCtx) → Option (Bool × Publisher)
  encoded p none = none
  encoded p (some (ret, ctx)) = some (not (is_neg ret), record p { encoder = some ctx })

  encode_frame : ℕ → ℕ → Publisher → Option EncoderRtspCtx → Option (Bool × Publisher)
  unfolding encoded
  encode_frame fuel pts p none = some (false, p)
  encode_frame fuel pts p (some ctx) =
      encoded (log (encode p.video_width p.video_height) p)
        (encoder_rtsp_encode_frame (env.av (length p.ended)) fuel ctx true (to_int64 pts))

  encode_if : ℕ → ℕ → Option (Bool × Publisher) → Option (Bool × Publisher)
  unfolding encode_frame
  encode_if fuel pts none = none
  encode_if fuel pts (some (true, p)) = encode_frame fuel pts p p.encoder
  encode_if fuel pts (some (false, p)) = some (false, p)

  unfoldable pub push_video_frame : ℕ → ObsFrame → ℕ → Publisher → Option (Bool × Publisher)
  unfolding encode_if keep_encoder show_preview
  push_video_frame fuel f pts p =
      let (ok, p') = frame_to_bgr f p in
      let p'' = show_preview f p' in
      if ok then encode_if fuel pts (keep_encoder fuel f p'' p''.encoder) else some (false, p')

  -- The pictures one by one, as `video_decode_thread` pushes them: an error is only logged.
  unfoldable pub push_all : ℕ → List (ObsFrame × ℕ) → Publisher → Option Publisher
  push_all fuel [] p = some p
  push_all fuel ((f, pts) ∷ fs) p = elim (push_video_frame fuel f pts p) [
    | none ↦ none
    | some (ok, p') ↦ push_all fuel fs p'
  ]

  pub free_buffers : Publisher → Publisher
  unfolding free_context
  free_buffers p =
      let p' = free_context p in
      if p'.bgr_frame then record (log free_buffer p') { bgr_frame = false } else p'

  -- `droidcam_source_stop` behind the threads and the decoder.
  unfoldable pub stop : ℕ → Publisher → Option Publisher
  unfolding free_buffers close_encoder
  stop fuel p = elim (close_encoder fuel p p.encoder) [
    | none ↦ none
    | some p' ↦ some (free_buffers p')
  ]

unfoldable pub new_publisher : ℕ → ℕ → ℤ → Bool → Publisher
new_publisher width height fps has_preview = record {
  bgr_frame = false;
  bgr_frame_size = 0;
  to_bgr = false;
  to_bgr_format = 0;
  to_bgr_width = 0;
  to_bgr_height = 0;
  encoder = none;
  video_width = width;
  video_height = height;
  fps = fps;
  has_preview = has_preview;
  ended = [];
  events = [];
}
