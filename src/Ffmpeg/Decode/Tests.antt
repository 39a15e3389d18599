-- ===== src/Ffmpeg/Decode/Tests.antt =====
-- Tests of the decoding in src/ffmpeg_decode.cc.
use droidcam_whip_c.Common.{
  ◌%◌, arith, [], ◌∷◌, true, false, some, none, ◌≡◌, refl, ltb, ◌==◌, ◌&&◌,
}
use droidcam_whip_c.Common.Int.{pos, negsuc}
use droidcam_whip_c.Decoder.{DataPacket}
use droidcam_whip_c.Ffmpeg.{CodecId}
use droidcam_whip_c.Formats.{
  VideoFormat, AvPixelFormat, AvColorTrc, AvColorSpace, AvColorPrimaries, AvSampleFormat,
}
use droidcam_whip_c.Ffmpeg.Calls.{
  Call, HwType, software, Libavcodec, Picture, Sound, Ret, held, nothing_held,
}
use droidcam_whip_c.Ffmpeg.Header.{read_header, row_if, audio_specific_config, read_header-config}
use droidcam_whip_c.Ffmpeg.Decode.{
  has_hw_type, try_devices, init_hw_decoder, destroy_codec, Codec, new_codec, codec_life,
  decode_video, init,
}
use droidcam_whip_c.Ffmpeg.Frames.{ObsFrame, VideoRange, VideoTrc}
use droidcam_whip_c.Ffmpeg.Decode.Life.{codec_life_frees}
use droidcam_whip_c.Ffmpeg.Decode.Outcome.{decode_video-IsDecoded, IsDecoded}

abbrev picture : Picture
picture = record {
  planes = 1 ∷ 2 ∷ [];
  linesizes = 640 ∷ 640 ∷ [];
  format = software AvPixelFormat.nv12;
  width = 640;
  height = 480;
  color_trc = AvColorTrc.smpte2084;
  jpeg_range = false;
  colorspace = AvColorSpace.bt709;
  color_primaries = AvColorPrimaries.other;
}

abbrev sound : Sound
sound = record { planes = []; sample_rate = 44100; nb_samples = 1024; format = AvSampleFormat.fltp }

-- A library that does everything, with one device.
abbrev library : Libavcodec
library = record {
  hw_configs = record { device_ctx = true; device_type = HwType.vaapi; pix_fmt = 46 } ∷ [];
  gives = λ es c. true;
  opens = λ es. pos 0;
  decodes = λ es c. Ret.ok;
  has_b_frames = λ es. false;
  pictures = λ es. picture;
  sounds = λ es. sound;
}

-- The same, but its codec does not open.
abbrev closed_library : Libavcodec
closed_library = record library { opens = λ es. negsuc 21 }

abbrev packet : DataPacket
packet = record { block = 0 ∷ 0 ∷ []; size = 2; used = 2; pts = 7 }

abbrev empty_frame : ObsFrame
empty_frame = record {
  planes = [];
  linesize = [];
  width = 0;
  height = 0;
  format = VideoFormat.none;
  range = VideoRange.default_range;
  trc = VideoTrc.default_trc;
  flip = false;
}

-- AAC-LC with 44100 Hz and two channels.
header_test : read_header (0x12 ∷ 0x10 ∷ []) ≡ some (44100, 2)
unfolding read_header
header_test = refl

missing_header_test : (init library none CodecId.aac false new_codec).0 ≡ negsuc 0
unfolding init new_codec
missing_header_test = refl

life_test :
    (codec_life closed_library none CodecId.h264 true (packet ∷ []) empty_frame).calls
    ≡ (Call.free_context, true)
      ∷ (Call.unref_device, true)
      ∷ (Call.avcodec_open, false)
      ∷ (Call.buffer_ref, true)
      ∷ (Call.hwdevice_create HwType.vaapi, true)
      ∷ (Call.set_opaque, true)
      ∷ (Call.alloc_context, true)
      ∷ (Call.find_decoder, true)
      ∷ []
unfolding codec_life destroy_codec init init_hw_decoder try_devices has_hw_type new_codec
life_test = refl

read_header-config_example :
    read_header (audio_specific_config 2 4 2 0) ≡ row_if (2 % 2 == 0 && ltb 4 12) 4 2
read_header-config_example = read_header-config 2 4 2 0 (omega arith) (omega arith) (omega arith)

codec_life_frees_example :
    held (codec_life library none CodecId.h264 true (packet ∷ packet ∷ []) empty_frame).calls
    ≡ some nothing_held
codec_life_frees_example =
    codec_life_frees library none CodecId.h264 true (packet ∷ packet ∷ []) empty_frame (λ es. refl)

abbrev opened : Codec
opened = (init library none CodecId.h264 true new_codec).1

decode_video-IsDecoded_example :
    IsDecoded library empty_frame (decode_video library empty_frame packet opened)
decode_video-IsDecoded_example = decode_video-IsDecoded library empty_frame packet opened
