-- ===== src/Ffmpeg/Frames.antt =====
-- The frames that src/ffmpeg_decode.cc fills, of `obs_source_frame2` and `obs_source_audio` in
-- src/plugin.h, and what it takes over from a picture and from a sound of FFmpeg.
use droidcam_whip_c.Common.{ℕ, Bool, true, false, List, if◌then◌else◌}
use droidcam_whip_c.Formats.{
  VideoFormat, AvPixelFormat, AvColorTrc, AudioFormat, SpeakerLayout, convert_pixel_format,
  convert_sample_format, convert_speaker_layout,
}
use droidcam_whip_c.Ffmpeg.Calls.{PixelFormat, software, hardware, Picture, Sound}

abbrev pub pixel_format : PixelFormat → AvPixelFormat
pixel_format (software format) = format
pixel_format (hardware n) = AvPixelFormat.other

-- `enum video_range_type` and `enum video_trc` of src/plugin.h
pub data VideoRange : Type 0 where
  default_range partial_range full_range : VideoRange

pub data VideoTrc : Type 0 where
  default_trc srgb_trc pq_trc hlg_trc : VideoTrc

-- `obs_source_frame2` but for its colour matrix, which follows from the range alone
-- (`video_format_get_parameters` of src/plugin.h).
pub record ObsFrame : Type 0 where
  pub planes : List ℕ
  pub linesize : List ℕ
  pub width : ℕ
  pub height : ℕ
  pub format : VideoFormat
  pub range : VideoRange
  pub trc : VideoTrc
  pub flip : Bool

pub record ObsAudio : Type 0 where
  pub planes : List ℕ
  pub frames : ℕ
  pub samples_per_sec : ℕ
  pub format : AudioFormat
  pub speakers : SpeakerLayout

unfoldable pub convert_trc : AvColorTrc → VideoTrc
convert_trc AvColorTrc.bt709 = VideoTrc.srgb_trc
convert_trc AvColorTrc.gamma22 = VideoTrc.srgb_trc
convert_trc AvColorTrc.gamma28 = VideoTrc.srgb_trc
convert_trc AvColorTrc.smpte170m = VideoTrc.srgb_trc
convert_trc AvColorTrc.smpte240m = VideoTrc.srgb_trc
convert_trc AvColorTrc.iec61966_2_1 = VideoTrc.srgb_trc
convert_trc AvColorTrc.smpte2084 = VideoTrc.pq_trc
convert_trc AvColorTrc.arib_std_b67 = VideoTrc.hlg_trc
convert_trc AvColorTrc.other = VideoTrc.default_trc

abbrev pub is_no_format : VideoFormat → Bool
is_no_format VideoFormat.none = true
is_no_format format = false

-- The format and the transfer curve are taken from the first picture; nothing if it has a format
-- that the program does not know.
unfoldable pub set_format : ObsFrame → Picture → Bool × ObsFrame
unfolding convert_trc
set_format f p =
    if is_no_format f.format
    then (let format = convert_pixel_format (pixel_format p.format) in
        if is_no_format format
        then (false, record f { format = format })
        else (true, record f { format = format; trc = convert_trc p.color_trc }))
    else (true, f)

-- `range != obs_frame->range` leads to the new range, and otherwise it is the same already.
unfoldable pub fill_frame : ObsFrame → Picture → Bool × ObsFrame
unfolding set_format
fill_frame f p =
    let (known, f') = set_format (record f { planes = p.planes; linesize = p.linesizes }) p in
    if known
    then (
      true,
      record f' {
        range = if p.jpeg_range then VideoRange.full_range else VideoRange.partial_range;
        width = p.width;
        height = p.height;
        flip = false;
      },
    )
    else (false, f')

unfoldable pub fill_audio : ObsAudio → Sound → ℕ → ObsAudio
fill_audio f s count =
    let g = record f {
      planes = s.planes;
      samples_per_sec = s.sample_rate;
      frames = s.nb_samples;
    } in
    elim f.format [
      | AudioFormat.unknown ↦ record g {
        format = convert_sample_format s.format;
        speakers = convert_speaker_layout count;
      }
      | _ ↦ g
    ]
