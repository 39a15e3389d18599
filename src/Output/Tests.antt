-- ===== src/Output/Tests.antt =====
-- Tests of the pictures' way through src/source.cc.
use droidcam_whip_c.Common.{
  ◌==◌, ℕ, ◌*◌, ◌/◌, arith, List, [], ◌∷◌, true, false, Option, some, none, ◌≡◌, refl, ltb,
  if◌then◌else◌, length,
}
use droidcam_whip_c.Common.Int.{pos}
use droidcam_whip_c.Encoder.Calls.{Libav, owed, got, again}
use droidcam_whip_c.Encoder.Session.{OnePerPicture}
use droidcam_whip_c.Formats.{VideoFormat}
use droidcam_whip_c.Ffmpeg.Frames.{ObsFrame, VideoRange, VideoTrc}
use droidcam_whip_c.Encoder.{
  encoder_rtsp_init, init_encoder, encoder_rtsp_encode_frame, open_output, close_output,
  write_packet, encoder_rtsp_close,
}
use droidcam_whip_c.Output.{
  push_video_frame, Env, Publisher, frame_to_bgr, push_all, stop, new_publisher,
}
use droidcam_whip_c.Output.Events.{held, brealloc, sws_get, sws_scale}
use droidcam_whip_c.Output.Life.{push_all-stop, IsStopped}

abbrev library : Libav
library = record {
  returns = λ calls c. pos 0;
  gives = λ calls c. true;
  receives = λ calls. if ltb 0 (owed calls) then got (owed calls) else again;
  nofile = true;
  rescale = λ n fps. n * fps / 1000000;
}

library-OnePerPicture : (n : ℕ) → OnePerPicture library
library-OnePerPicture k calls n e = ground arith

abbrev env : Env
env = record { memory = λ es. true; contexts = λ es. true; scaled = λ es. true; av = λ n. library }

abbrev picture : ℕ → ℕ → ObsFrame
picture width height = record {
  planes = 1 ∷ 2 ∷ 3 ∷ [];
  linesize = width ∷ [];
  width = width;
  height = height;
  format = VideoFormat.nv12;
  range = VideoRange.partial_range;
  trc = VideoTrc.default_trc;
  flip = false;
}

abbrev pictures : List (ObsFrame × ℕ)
pictures = (picture 4 2, 0) ∷ (picture 4 2, 40000) ∷ (picture 2 2, 80000) ∷ []

abbrev publisher : Publisher
publisher = new_publisher 4 2 (pos 25) true

-- The second picture has the same size, so that it uses the buffer and the scaler of the first one.
scaler_test :
    (frame_to_bgr env (picture 4 2) (frame_to_bgr env (picture 4 2) publisher).1).1.events
    ≡ sws_scale 2 4 2 ∷ sws_scale 2 4 2 ∷ sws_get 2 4 2 true ∷ brealloc 24 true ∷ []
unfolding frame_to_bgr new_publisher
scaler_test = refl

abbrev sizes : Option Publisher → Option (List ℕ)
sizes none = none
sizes (some p) = some (p.video_width ∷ p.video_height ∷ length p.ended ∷ [])

-- The third picture has another size, and a second encoder is made for it.
encoders_test : sizes (push_all env 5 pictures publisher) ≡ some (2 ∷ 2 ∷ 1 ∷ [])
unfolding push_all new_publisher push_video_frame frame_to_bgr encoder_rtsp_init init_encoder
    encoder_rtsp_encode_frame open_output close_output write_packet encoder_rtsp_close
encoders_test = refl

push_all-stop_example :
    (q : Publisher) × (push_all env 5 pictures publisher ≡ some q) × IsStopped (stop env 5 q)
push_all-stop_example =
    push_all-stop env library-OnePerPicture pictures 5 4 2 (pos 25) true (omega arith)
      (omega arith, (omega arith, (omega arith, tt)))

-- The second buffer cannot be had: the first one is lost.
abbrev short_of_memory : Env
short_of_memory = record env { memory = λ es. length es == 0 }

lost_test :
    held
      (frame_to_bgr short_of_memory
        (picture 4 4)
        (frame_to_bgr short_of_memory (picture 4 2) publisher).1).1.events
    ≡ some (record { buffer = none; scaler = some (2, 4, 2); lost = 1 })
unfolding held frame_to_bgr new_publisher
lost_test = refl
