-- ===== src/Ffmpeg/Decode/Life.antt =====
-- The calls of src/ffmpeg_decode.cc over the life of a decoder keep to the lifetimes of
-- FFmpeg's objects.
use droidcam_whip_c.Common.{
  ◌&&◌, ◌||◌, if-cases, refl, [], ℕ, ◌∷◌, List, Option, Bool, true, false, some, ◌≡◌, arith,
}
use droidcam_whip_c.Ffmpeg.Calls.{Ret, Call, Libavcodec, held, nothing_held, step}
use droidcam_whip_c.Ffmpeg.Decode.{
  use_codec, decode_all, codec_life, same_format, ask, receive, output_picture, output_video,
  packet_pts, transfer, succeeds, copy_back, decode_packet, new_codec, init, decode_video, call,
  Codec, destroy_codec,
}
use droidcam_whip_c.Ffmpeg.Frames.{fill_frame, ObsFrame}
use droidcam_whip_c.Common.Int.{negsuc, pos, ℤ}
use droidcam_whip_c.Ffmpeg.{CodecId}
use droidcam_whip_c.Decoder.{DataPacket}
use droidcam_whip_c.Ffmpeg.Decode.Start.{
  objects, IsFreeable, IsUsable, IsInit, HasContext, init-IsInit,
}

module _ (lib : Libavcodec) where
  pub destroy_codec-held :
      (d : Codec) → IsFreeable d → held (destroy_codec lib d).calls ≡ some nothing_held
  unfolding destroy_codec held
  destroy_codec-held d (opened, h) = ground arith

  -- A call that leaves everything held as it was.
  call-IsUsable :
      (c : Call) (b : Bool) (d : Codec)
      → IsUsable d
      → step (objects true d) (c, b) ≡ some (objects true d)
      → IsUsable (call c b d)
  unfolding held
  call-IsUsable c b d w e = record {
    holds = let h = w.holds in rw (h, e) refl;
    has_decoder = w.has_decoder;
    has_packet = w.has_packet;
    has_frame = w.has_frame;
    has_frame_hw = w.has_frame_hw;
  }

  receive-IsUsable : (d : Codec) → IsUsable d → IsUsable (receive lib d.hw d).1
  unfolding receive held
  receive-IsUsable d w =
      call-IsUsable (Call.receive_frame d.hw)
        (succeeds (lib.decodes d.calls (Call.receive_frame d.hw))) d w
        (let c = w.has_decoder in let f = w.has_frame in let g = w.has_frame_hw in ground arith)

  pub decode_packet-IsUsable :
      (p : DataPacket) (d : Codec) → IsUsable d → IsUsable (decode_packet lib d.hw p d).1
  unfolding decode_packet
  decode_packet-IsUsable p d w =
      let c = Call.send_packet p.used (packet_pts p.pts) in
      let r = lib.decodes d.calls c in
      let d' = call c (succeeds r) d in
      let v : IsUsable d' =
        call-IsUsable c (succeeds r) d w
          (let a = w.has_decoder in let b = w.has_packet in ground arith) in
      if-cases (λ (t : Ret × Codec). IsUsable t.1) (succeeds r) (receive lib d.hw d') (r, d')
        (λ _. receive-IsUsable d' v) (λ _. v)

  copy_back-IsUsable : (d : Codec) → IsUsable d → d.hw ≡ true → IsUsable (copy_back lib d).1
  unfolding copy_back
  copy_back-IsUsable d w e =
      let g = w.has_frame_hw e in
      let b = lib.gives d.calls Call.transfer_data in
      let d' = call Call.transfer_data b d in
      let v : IsUsable d' =
        call-IsUsable Call.transfer_data b d w (let f = w.has_frame in ground arith) in
      if-cases (λ (t : Bool × Codec). IsUsable t.1) b (ask lib Call.copy_props d') (false, d')
        (λ _. call-IsUsable Call.copy_props _ d' v (let f = v.has_frame in ground arith)) (λ _. v)

  transfer-IsUsable : (d : Codec) → IsUsable d → IsUsable (transfer lib d).1
  unfolding transfer
  transfer-IsUsable d w =
      let on_device = same_format (lib.pictures d.calls).format d.hw_pix_fmt in
      if-cases (λ (t : Bool × Codec). IsUsable t.1) (d.hw && on_device) (copy_back lib d) (true, d)
        (λ e. copy_back-IsUsable d w (ground arith)) (λ _. w)

  output_picture-IsUsable :
      (f : ObsFrame) (d : Codec) → IsUsable d → IsUsable (output_picture lib f d).2
  unfolding output_picture
  output_picture-IsUsable f d w =
      let (b, d') = transfer lib d in
      let v = transfer-IsUsable d w in
      let u = fill_frame f (lib.pictures d'.calls) in
      if-cases (λ (t : Bool × ObsFrame × Codec). IsUsable t.2) b (u.0, u.1, d') (false, f, d')
        (λ _. v) (λ _. v)

  output_video-IsUsable :
      (f : ObsFrame) (t : Ret × Codec) → IsUsable t.1 → IsUsable (output_video lib f t).3
  unfolding output_video
  output_video-IsUsable f (Ret.ok, d) w = output_picture-IsUsable f d w
  output_video-IsUsable f (Ret.again, d) w = w
  output_video-IsUsable f (Ret.error, d) w = w

  decode_video-IsUsable :
      (f : ObsFrame) (p : DataPacket) (d : Codec) → IsUsable d → IsUsable (decode_video lib f p d).3
  unfolding decode_video
  decode_video-IsUsable f p d w =
      let d' = record d { b_frame_check = d.b_frame_check || lib.has_b_frames d.calls } in
      output_video-IsUsable f (decode_packet lib d'.hw p d') (
        decode_packet-IsUsable p d' (record {
          holds = w.holds;
          has_decoder = w.has_decoder;
          has_packet = w.has_packet;
          has_frame = w.has_frame;
          has_frame_hw = w.has_frame_hw;
        }))

  decode_all-IsUsable :
      (ps : List DataPacket) (f : ObsFrame) (d : Codec)
      → IsUsable d
      → IsUsable (decode_all lib ps f d)
  unfolding decode_all
  decode_all-IsUsable [] f d w = w
  decode_all-IsUsable (p ∷ ps) f d w =
      let t = decode_video lib f p d in
      let v = decode_video-IsUsable f p d w in
      if-cases IsUsable t.0 (decode_all lib ps t.2 t.3) t.3 (λ _. decode_all-IsUsable ps t.2 t.3 v)
        (λ _. v)

  use_codec-IsFreeable :
      (ps : List DataPacket) (f : ObsFrame) (t : ℤ × Codec)
      → IsInit t
      → IsFreeable (use_codec lib ps f t)
  unfolding use_codec
  use_codec-IsFreeable ps f (pos n, d) w = (true, (decode_all-IsUsable ps f d w).holds)
  use_codec-IsFreeable ps f (negsuc n, d) w = w

  -- Over the life of an FFMpegDecoder, from init over any packets to the destructor, each FFmpeg
  -- object is made before it is used, is freed exactly once and not used behind that, and nothing
  -- is left held, whatever FFmpeg returns and wherever init gives up, if a context can be
  -- allocated. What the packets hold is not followed.
  pub codec_life_frees :
      (header : Option (List ℕ)) (id : CodecId) (use_hw : Bool) (ps : List DataPacket)
      (f : ObsFrame)
      → HasContext lib
      → held (codec_life lib header id use_hw ps f).calls ≡ some nothing_held
  unfolding codec_life
  codec_life_frees header id use_hw ps f m =
      let t = init lib header id use_hw new_codec in
      destroy_codec-held (use_codec lib ps f t)
        (use_codec-IsFreeable ps f t (init-IsInit lib header id use_hw m))
