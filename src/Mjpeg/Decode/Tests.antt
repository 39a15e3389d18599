-- ===== src/Mjpeg/Decode/Tests.antt =====
-- Tests of the decoding in src/mjpeg_decode.cc.
use droidcam_whip_c.Common.{sym, none, ℕ, arith, List, [], ◌∷◌, true, false, some, ◌≡◌, refl, inl}
use droidcam_whip_c.Decoder.{DataPacket}
use droidcam_whip_c.Formats.{VideoFormat}
use droidcam_whip_c.Ffmpeg.Frames.{ObsFrame, VideoRange, VideoTrc}
use droidcam_whip_c.Mjpeg.Decode.{
  decompress, Header, TurboJpeg, MjpegDecoder, new_mjpeg, init_mjpeg, decode_mjpeg, lay_out,
  destroy_mjpeg,
}
use droidcam_whip_c.Mjpeg.Decode.Planes.{
  AllLaidOut, AllOverrun, AllSupported, decode_mjpeg-AllLaidOut, lay_out_overruns,
}
use droidcam_whip_c.Mjpeg.Decode.Geometry.{extra_lines, extra_columns, chroma_side, plane_end}

abbrev zeros : List ℕ
zeros = 0 ∷ 0 ∷ 0 ∷ 0 ∷ 0 ∷ 0 ∷ 0 ∷ 0 ∷ []

abbrev empty_frame : ObsFrame
empty_frame = record {
  planes = zeros;
  linesize = zeros;
  width = 0;
  height = 0;
  format = VideoFormat.none;
  range = VideoRange.default_range;
  trc = VideoTrc.default_trc;
  flip = false;
}

abbrev header : Header
header = record { width = 8; height = 4; subsamp = 2 }

-- Every picture has eight columns and four lines, and the buffer is at 100.
abbrev library : TurboJpeg
library = record {
  has_memory = true;
  header = λ bytes. some header;
  decompresses = λ bytes. true;
  brealloc = λ old size. 100;
}

abbrev packet : DataPacket
packet = record { block = 1 ∷ 2 ∷ []; size = 2; used = 2; pts = 7 }

abbrev ready_decoder : MjpegDecoder
ready_decoder = record {
  tj = true;
  frame_buf = 0;
  frame_buf_size = 0;
  m_subsamp = 0;
  written = none;
  ready = true;
}

init_test : init_mjpeg library new_mjpeg ≡ (true, ready_decoder)
unfolding init_mjpeg new_mjpeg
init_test = refl

picture_test :
    decode_mjpeg library empty_frame packet ready_decoder
    ≡ some (
      true,
      true,
      record empty_frame {
        planes = 100 ∷ 132 ∷ 140 ∷ 0 ∷ 0 ∷ 0 ∷ 0 ∷ 0 ∷ [];
        linesize = 8 ∷ 4 ∷ 4 ∷ 0 ∷ 0 ∷ 0 ∷ 0 ∷ 0 ∷ [];
        width = 8;
        height = 4;
        format = VideoFormat.i420;
        range = VideoRange.full_range;
      },
      record ready_decoder {
        frame_buf = 100;
        frame_buf_size = 48;
        m_subsamp = 2;
        written = some header;
      },
    )
unfolding decode_mjpeg lay_out decompress
picture_test = refl

destroy_test : destroy_mjpeg (record ready_decoder { frame_buf = 100 }) ≡ (true, true)
unfolding destroy_mjpeg
destroy_test = refl

header_lem : (h : Header) → some header ≡ some h → (8 ≡ h.width) × (4 ≡ h.height) × 2 ≡ h.subsamp
header_lem h e = ground arith

library-AllSupported : AllSupported library
library-AllSupported bytes h e =
    let (x, y, z) = header_lem h e in
    (3, 1, omega (arith, x), omega (arith, y), rw (sym x, sym y) (omega arith), sym z)

decode_mjpeg-AllLaidOut_example : AllLaidOut (decode_mjpeg library empty_frame packet ready_decoder)
decode_mjpeg-AllLaidOut_example =
    decode_mjpeg-AllLaidOut library empty_frame packet ready_decoder library-AllSupported
      (λ old size. refl) (tt, tt, inl refl) tt

lay_out_overruns_example :
    AllOverrun (lay_out library (record header { height = 5 }) empty_frame ready_decoder)
lay_out_overruns_example =
    lay_out_overruns library (record header { height = 5 }) empty_frame ready_decoder 2 2 refl refl
      (omega arith) tt tt

-- A later picture that is 4:4:4: its second plane, from 132 on, goes 12 bytes beyond the begin of the
-- third one, at 140.
later_444_test :
    plane_end 132 4 (chroma_side 0 (extra_columns 0) 8) (chroma_side 0 (extra_lines 0) 4) ≡ 152
later_444_test = refl
