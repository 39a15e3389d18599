-- ===== src/Ffmpeg/Calls.antt =====
-- The calls of src/ffmpeg_decode.cc into FFmpeg, what they return, and the rules that FFmpeg's
-- documentation sets for their order.
use droidcam_whip_c.Common.{
  ℕ, Bool, true, false, not, ◌&&◌, Option, none, some, List, [], ◌∷◌, if◌then◌else◌,
}
use droidcam_whip_c.Common.Int.{ℤ}
use droidcam_whip_c.Encoder.Calls.{Stage, is_absent, is_allocated, is_opened}
use droidcam_whip_c.Formats.{
  AvPixelFormat, AvSampleFormat, AvColorSpace, AvColorTrc, AvColorPrimaries,
}

-- The kinds of device that the code tries on Linux, and any other kind of FFmpeg.
pub data HwType : Type 0 where
  cuda vaapi vdpau other_device : HwType

-- A configuration of a codec, as `avcodec_get_hw_config` gives it: whether its methods have
-- AV_CODEC_HW_CONFIG_METHOD_HW_DEVICE_CTX, its device type and its pixel format, which is one of
-- hardware surfaces.
pub record HwConfig : Type 0 where
  pub device_ctx : Bool
  pub device_type : HwType
  pub pix_fmt : ℕ

-- A pixel format: one of memory, or the number of one of hardware surfaces.
pub data PixelFormat : Type 0 where
  software : AvPixelFormat → PixelFormat
  hardware : ℕ → PixelFormat

-- The fields of an `AVFrame` that the code reads; `jpeg_range` tells AVCOL_RANGE_JPEG, and the
-- planes and line sizes are eight each.
pub record Picture : Type 0 where
  pub planes : List ℕ
  pub linesizes : List ℕ
  pub format : PixelFormat
  pub width : ℕ
  pub height : ℕ
  pub color_trc : AvColorTrc
  pub jpeg_range : Bool
  pub colorspace : AvColorSpace
  pub color_primaries : AvColorPrimaries

pub record Sound : Type 0 where
  pub planes : List ℕ
  pub sample_rate : ℕ
  pub nb_samples : ℕ
  pub format : AvSampleFormat

-- The time stamp of a packet is `none` for AV_NOPTS_VALUE; `true` stands for `frame_hw`.
pub data Call : Type 0 where
  find_decoder alloc_context set_opaque : Call
  hwdevice_create : HwType → Call
  buffer_ref avcodec_open alloc_frame alloc_frame_hw alloc_packet : Call
  send_packet : ℕ → Option ℕ → Call
  receive_frame : Bool → Call
  transfer_data copy_props : Call
  free_frame_hw free_frame unref_device free_packet free_context : Call

-- A call, and whether it succeeded.
abbrev pub Event : Type 0
Event = Call × Bool

-- What `avcodec_send_packet` and `avcodec_receive_frame` return: 0, AVERROR(EAGAIN), or another
-- error.
pub data Ret : Type 0 where
  ok again error : Ret

-- The library, each answer by the calls made before it.
pub record Libavcodec : Type 0 where
  pub hw_configs : List HwConfig
  pub gives : List Event → Call → Bool
  pub opens : List Event → ℤ
  pub decodes : List Event → Call → Ret
  pub has_b_frames : List Event → Bool
  pub pictures : List Event → Picture
  pub sounds : List Event → Sound

pub record Held : Type 0 where
  pub context : Stage
  pub device : Bool
  pub frame : Bool
  pub frame_hw : Bool
  pub packet : Bool

abbrev when : Bool → Held → Option Held
when true h = some h
when false h = none

-- The rules: nothing is allocated over a live object, an object is freed once, and only used while
-- it lives; packets go only into a context that was opened, and it is opened once.
abbrev pub step : Held → Event → Option Held
step h (Call.find_decoder, b) = some h
step h (Call.alloc_context, b) =
    when (is_absent h.context) (record h { context = if b then Stage.allocated else Stage.absent })
step h (Call.set_opaque, b) = when (not (is_absent h.context)) h
step h (Call.hwdevice_create t, b) = when (not h.device) (record h { device = b })
step h (Call.buffer_ref, b) = when (h.device && is_allocated h.context) h
step h (Call.avcodec_open, b) =
    when (is_allocated h.context)
      (record h { context = if b then Stage.opened else Stage.allocated })
step h (Call.alloc_frame, b) = when (not h.frame) (record h { frame = b })
step h (Call.alloc_frame_hw, b) = when (not h.frame_hw) (record h { frame_hw = b })
step h (Call.alloc_packet, b) = when (not h.packet) (record h { packet = b })
step h (Call.send_packet n p, b) = when (is_opened h.context && h.packet) h
step h (Call.receive_frame hw, b) =
    when (is_opened h.context && (if hw then h.frame_hw else h.frame)) h
step h (Call.transfer_data, b) = when (h.frame && h.frame_hw) h
step h (Call.copy_props, b) = when (h.frame && h.frame_hw) h
step h (Call.free_frame_hw, b) = when h.frame_hw (record h { frame_hw = false })
step h (Call.free_frame, b) = when h.frame (record h { frame = false })
step h (Call.unref_device, b) = when h.device (record h { device = false })
step h (Call.free_packet, b) = when h.packet (record h { packet = false })
step h (Call.free_context, b) =
    when (not (is_absent h.context)) (record h { context = Stage.absent })

abbrev pub nothing_held : Held
nothing_held = record {
  context = Stage.absent;
  device = false;
  frame = false;
  frame_hw = false;
  packet = false;
}

abbrev step_from : Option Held → Event → Option Held
step_from none e = none
step_from (some h) e = step h e

-- What the calls, the latest first, leave held; `none` if one of them breaks a rule.
unfoldable pub held : List Event → Option Held
held [] = some nothing_held
held (e ∷ es) = step_from (held es) e
