-- ===== src/Ffmpeg/Decode/Outcome.antt =====
-- What `decode_video` of src/ffmpeg_decode.cc leaves in the frame that it fills.
use droidcam_whip_c.Common.{sym, ◌∙◌, ◌||◌, Bool, true, false, ◌≡◌, refl, if-cases, arith}
use droidcam_whip_c.Decoder.{DataPacket}
use droidcam_whip_c.Formats.{VideoFormat, convert_pixel_format}
use droidcam_whip_c.Ffmpeg.Calls.{Picture, Libavcodec, Ret}
use droidcam_whip_c.Ffmpeg.Decode.{
  transfer, decode_packet, output_picture, output_video, Codec, decode_video,
}
use droidcam_whip_c.Ffmpeg.Frames.{ObsFrame, fill_frame, is_no_format, set_format, pixel_format}

-- The frame `g` shows the picture, where `f` was the frame before.
pub record Shows (p : Picture) (f g : ObsFrame) : Type 0 where
  pub same_planes : (g.planes ≡ p.planes) × g.linesize ≡ p.linesizes
  pub same_size : (g.width ≡ p.width) × g.height ≡ p.height
  pub known_format : is_no_format g.format ≡ false
  pub kept_format : is_no_format f.format ≡ false → g.format ≡ f.format
  pub first_format :
      is_no_format f.format ≡ true → g.format ≡ convert_pixel_format (pixel_format p.format)

-- What it leaves alone if there is no picture.
abbrev pub SameShape : ObsFrame → ObsFrame → Type 0
SameShape f g = (g.width ≡ f.width) × (g.height ≡ f.height) × (g.format ≡ f.format)

abbrev pub IsOutcome : Picture → ObsFrame → Bool → ObsFrame → Type 0
IsOutcome p f true g = Shows p f g
IsOutcome p f false g = SameShape f g

no_format_lem : (x : VideoFormat) → is_no_format x ≡ true → x ≡ VideoFormat.none
no_format_lem x h = ground arith

fill_frame-IsOutcome :
    (f : ObsFrame) (p : Picture) → IsOutcome p f (fill_frame f p).0 (fill_frame f p).1
unfolding fill_frame set_format
fill_frame-IsOutcome f p =
    go (is_no_format f.format) refl (is_no_format (convert_pixel_format (pixel_format p.format)))
      refl
  where
    go :
        (a : Bool)
        → is_no_format f.format ≡ a
        → (b : Bool) → is_no_format (convert_pixel_format (pixel_format p.format)) ≡ b
        → IsOutcome p f (fill_frame f p).0 (fill_frame f p).1
    go false e b k =
        rw (fill_frame, e)
          (record {
            same_planes = (refl, refl);
            same_size = (refl, refl);
            known_format = e;
            kept_format = λ _. refl;
            first_format = λ h. ground arith;
          })
    go true e true k =
        rw (fill_frame, e, k) (refl, refl, no_format_lem _ k ∙ sym (no_format_lem f.format e))
    go true e false k =
        rw (fill_frame, e, k)
          (record {
            same_planes = (refl, refl);
            same_size = (refl, refl);
            known_format = k;
            kept_format = λ h. ground arith;
            first_format = λ _. refl;
          })

module _ (lib : Libavcodec) where
  output_picture-IsOutcome :
      (f : ObsFrame) (d : Codec)
      → let (b, g, d') = output_picture lib f d in IsOutcome (lib.pictures d'.calls) f b g
  unfolding output_picture
  output_picture-IsOutcome f d =
      let (b, d') = transfer lib d in
      let p = lib.pictures d'.calls in
      let u = fill_frame f p in
      if-cases (λ (t : Bool × ObsFrame × Codec). IsOutcome (lib.pictures t.2.calls) f t.0 t.1) b
        (u.0, u.1, d') (false, f, d') (λ _. fill_frame-IsOutcome f p) (λ _. (refl, refl, refl))

  -- The value returned, where a picture came, says so.
  abbrev pub IsDecoded : ObsFrame → Bool × Bool × ObsFrame × Codec → Type 0
  IsDecoded f (ret, got, g, d) =
      (got ≡ true → ret ≡ true) × IsOutcome (lib.pictures d.calls) f got g

  output_video-IsDecoded : (f : ObsFrame) (t : Ret × Codec) → IsDecoded f (output_video lib f t)
  unfolding output_video
  output_video-IsDecoded f (Ret.ok, d) = ((λ h. h), output_picture-IsOutcome f d)
  output_video-IsDecoded f (Ret.again, d) = ((λ h. refl), (refl, refl, refl))
  output_video-IsDecoded f (Ret.error, d) = (ground arith, (refl, refl, refl))

  -- After decode_video, whatever FFmpeg does: if it reports a picture, then it also reports
  -- success, and the frame has the picture's planes and size and a format that the program knows,
  -- which is that of the picture if the frame had none, and otherwise the one it had before; and if
  -- it reports no picture, then the frame keeps its size and its format.
  pub decode_video-IsDecoded :
      (f : ObsFrame) (p : DataPacket) (d : Codec) → IsDecoded f (decode_video lib f p d)
  unfolding decode_video
  decode_video-IsDecoded f p d =
      let d' = record d { b_frame_check = d.b_frame_check || lib.has_b_frames d.calls } in
      output_video-IsDecoded f (decode_packet lib d'.hw p d')
