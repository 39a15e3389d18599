-- ===== src/Formats.antt =====
-- The tables of formats: `frame_pix_fmt` of src/source.cc, and of src/ffmpeg_decode.cc the
-- conversions of pixel, sample and speaker formats and of colour spaces. The
-- enumerations of FFmpeg have the members that the code names, and `other` for the rest.
pub mod RoundTrip
mod Tests
use droidcam_whip_c.Common.{false, ◌==◌, true, if◌then◌else◌, Bool, ℕ}

-- `enum video_format` of src/plugin.h
pub data VideoFormat : Type 0 where
  none i420 nv12 yuy2 uyvy i422 i010 p010 i210 : VideoFormat

-- `enum AVPixelFormat`
pub data AvPixelFormat : Type 0 where
  none yuv420p yuvj420p nv12 yuyv422 uyvy422 yuv422p yuvj422p : AvPixelFormat
  yuv420p10le p010le yuv422p10le other : AvPixelFormat

unfoldable pub frame_pix_fmt : VideoFormat → AvPixelFormat
frame_pix_fmt VideoFormat.i420 = AvPixelFormat.yuv420p
frame_pix_fmt VideoFormat.nv12 = AvPixelFormat.nv12
frame_pix_fmt VideoFormat.yuy2 = AvPixelFormat.yuyv422
frame_pix_fmt VideoFormat.uyvy = AvPixelFormat.uyvy422
frame_pix_fmt VideoFormat.i422 = AvPixelFormat.yuv422p
frame_pix_fmt VideoFormat.i010 = AvPixelFormat.yuv420p10le
frame_pix_fmt VideoFormat.p010 = AvPixelFormat.p010le
frame_pix_fmt VideoFormat.i210 = AvPixelFormat.yuv422p10le
frame_pix_fmt VideoFormat.none = AvPixelFormat.none

-- LIBOBS_API_MAJOR_VER is 28.
unfoldable pub convert_pixel_format : AvPixelFormat → VideoFormat
convert_pixel_format AvPixelFormat.yuv420p = VideoFormat.i420
convert_pixel_format AvPixelFormat.yuvj420p = VideoFormat.i420
convert_pixel_format AvPixelFormat.nv12 = VideoFormat.nv12
convert_pixel_format AvPixelFormat.yuyv422 = VideoFormat.yuy2
convert_pixel_format AvPixelFormat.uyvy422 = VideoFormat.uyvy
convert_pixel_format AvPixelFormat.yuv422p = VideoFormat.i422
convert_pixel_format AvPixelFormat.yuvj422p = VideoFormat.i422
convert_pixel_format AvPixelFormat.yuv420p10le = VideoFormat.i010
convert_pixel_format AvPixelFormat.p010le = VideoFormat.p010
convert_pixel_format AvPixelFormat.yuv422p10le = VideoFormat.i210
convert_pixel_format AvPixelFormat.none = VideoFormat.none
convert_pixel_format AvPixelFormat.other = VideoFormat.none

-- `enum audio_format` of src/plugin.h
pub data AudioFormat : Type 0 where
  unknown u8bit bit16 bit32 float : AudioFormat
  u8bit_planar bit16_planar bit32_planar float_planar : AudioFormat

-- `enum AVSampleFormat`
pub data AvSampleFormat : Type 0 where
  s16 s32 u8 flt u8p s16p s32p fltp other : AvSampleFormat

unfoldable pub convert_sample_format : AvSampleFormat → AudioFormat
convert_sample_format AvSampleFormat.s16 = AudioFormat.bit16
convert_sample_format AvSampleFormat.s32 = AudioFormat.bit32
convert_sample_format AvSampleFormat.u8 = AudioFormat.u8bit
convert_sample_format AvSampleFormat.flt = AudioFormat.float
convert_sample_format AvSampleFormat.u8p = AudioFormat.u8bit_planar
convert_sample_format AvSampleFormat.s16p = AudioFormat.bit16_planar
convert_sample_format AvSampleFormat.s32p = AudioFormat.bit32_planar
convert_sample_format AvSampleFormat.fltp = AudioFormat.float_planar
convert_sample_format AvSampleFormat.other = AudioFormat.unknown

-- `enum speaker_layout` of src/plugin.h
pub data SpeakerLayout : Type 0 where
  unknown mono stereo two_point_one four_point_zero : SpeakerLayout
  four_point_one five_point_one seven_point_one : SpeakerLayout

unfoldable pub convert_speaker_layout : ℕ → SpeakerLayout
convert_speaker_layout channels =
    if channels == 1
    then SpeakerLayout.mono
    else if channels == 2
    then SpeakerLayout.stereo
    else if channels == 3
    then SpeakerLayout.two_point_one
    else if channels == 4
    then SpeakerLayout.four_point_zero
    else if channels == 5
    then SpeakerLayout.four_point_one
    else if channels == 6
    then SpeakerLayout.five_point_one
    else if channels == 8
    then SpeakerLayout.seven_point_one
    else SpeakerLayout.unknown

-- `enum AVColorSpace`, `AVColorTransferCharacteristic` and `AVColorPrimaries`
pub data AvColorSpace : Type 0 where
  bt709 fcc bt470bg smpte170m smpte240m bt2020_ncl other : AvColorSpace

pub data AvColorTrc : Type 0 where
  bt709 gamma22 gamma28 smpte170m smpte240m iec61966_2_1 smpte2084 arib_std_b67 other : AvColorTrc

pub data AvColorPrimaries : Type 0 where
  bt2020 other : AvColorPrimaries

-- `enum video_colorspace` of src/plugin.h
pub data VideoColorspace : Type 0 where
  default cs_601 cs_709 srgb cs_2100_pq cs_2100_hlg : VideoColorspace

abbrev is_srgb_curve : AvColorTrc → Bool
is_srgb_curve AvColorTrc.iec61966_2_1 = true
is_srgb_curve _ = false

abbrev pub is_hlg_curve : AvColorTrc → Bool
is_hlg_curve AvColorTrc.arib_std_b67 = true
is_hlg_curve _ = false

hdr_colorspace : AvColorTrc → VideoColorspace
hdr_colorspace trc =
    if is_hlg_curve trc then VideoColorspace.cs_2100_hlg else VideoColorspace.cs_2100_pq

abbrev pub has_bt2020_primaries : AvColorPrimaries → Bool
has_bt2020_primaries AvColorPrimaries.bt2020 = true
has_bt2020_primaries AvColorPrimaries.other = false

unfoldable pub convert_color_space : AvColorSpace → AvColorTrc → AvColorPrimaries → VideoColorspace
unfolding hdr_colorspace
convert_color_space AvColorSpace.bt709 trc primaries =
    if is_srgb_curve trc then VideoColorspace.srgb else VideoColorspace.cs_709
convert_color_space AvColorSpace.fcc trc primaries = VideoColorspace.cs_601
convert_color_space AvColorSpace.bt470bg trc primaries = VideoColorspace.cs_601
convert_color_space AvColorSpace.smpte170m trc primaries = VideoColorspace.cs_601
convert_color_space AvColorSpace.smpte240m trc primaries = VideoColorspace.cs_601
convert_color_space AvColorSpace.bt2020_ncl trc primaries = hdr_colorspace trc
convert_color_space AvColorSpace.other trc primaries =
    if has_bt2020_primaries primaries then hdr_colorspace trc else VideoColorspace.default
