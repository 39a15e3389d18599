-- ===== src/Ffmpeg/Decode.antt =====
-- src/ffmpeg_decode.cc: `FFMpegDecoder::init` with the search for a hardware device, its
-- destructor, `decode_video` and `decode_audio`, as built on Linux. Each call into FFmpeg is logged.
pub mod Start
pub mod Life
pub mod Outcome
mod Tests
use droidcam_whip_c.Common.{
  ℕ, ◌-◌, ◌^◌, Bool, true, false, not, ◌&&◌, ◌||◌, ◌==◌, List, [], ◌∷◌, Option, none, some,
  if◌then◌else◌,
}
use droidcam_whip_c.Common.Int.{ℤ, pos, negsuc, is_neg}
use droidcam_whip_c.Decoder.{DataPacket}
use droidcam_whip_c.Formats.{
  VideoFormat, AvPixelFormat, AvColorTrc, AudioFormat, SpeakerLayout, convert_pixel_format,
  convert_sample_format, convert_speaker_layout,
}
use droidcam_whip_c.Ffmpeg.{CodecId}
use droidcam_whip_c.Ffmpeg.Frames.{ObsFrame, ObsAudio, fill_frame, fill_audio}
use droidcam_whip_c.Ffmpeg.Header.{read_header}
use droidcam_whip_c.Ffmpeg.Calls.{
  HwType, HwConfig, PixelFormat, software, hardware, Picture, Sound, Call, Event, Ret, ok, again,
  error, Libavcodec,
}

-- The fields of `FFMpegDecoder` that these functions use: a pointer is told by whether it is set,
-- `hw_pix_fmt` is `none` for AV_PIX_FMT_NONE; `sample_rate` and `audio_channels` are those of the
-- context.
pub record Codec : Type 0 where
  pub codec : Bool
  pub decoder : Bool
  pub packet : Bool
  pub hw_ctx : Bool
  pub frame_hw : Bool
  pub frame : Bool
  pub hw_pix_fmt : Option ℕ
  pub hw : Bool
  pub b_frame_check : Bool
  pub ready : Bool
  pub sample_rate : ℕ
  pub audio_channels : ℕ
  pub calls : List Event

abbrev pub call : Call → Bool → Codec → Codec
call c b d = record d { calls = (c, b) ∷ d.calls }

unfoldable pub new_codec : Codec
new_codec = record {
  codec = false;
  decoder = false;
  packet = false;
  hw_ctx = false;
  frame_hw = false;
  frame = false;
  hw_pix_fmt = none;
  hw = false;
  b_frame_check = false;
  ready = false;
  sample_rate = 0;
  audio_channels = 0;
  calls = [];
}

abbrev is_type : HwType → HwType → Bool
is_type HwType.cuda HwType.cuda = true
is_type HwType.vaapi HwType.vaapi = true
is_type HwType.vdpau HwType.vdpau = true
is_type HwType.other_device HwType.other_device = true
is_type a b = false

-- `avcodec_get_hw_config` gives the configurations one by one.
unfoldable pub has_hw_type : List HwConfig → HwType → Option ℕ
has_hw_type [] type = none
has_hw_type (config ∷ configs) type =
    if config.device_ctx && is_type config.device_type type
    then some config.pix_fmt
    else has_hw_type configs type

abbrev pub hw_device_list : List HwType
hw_device_list = HwType.cuda ∷ HwType.vaapi ∷ HwType.vdpau ∷ []

abbrev same_format : PixelFormat → Option ℕ → Bool
same_format (hardware a) (some b) = a == b
same_format (software AvPixelFormat.none) none = true
same_format format hw_pix_fmt = false

-- NO_PTS, which an `int64_t` would hold as AV_NOPTS_VALUE, is told apart.
abbrev pub packet_pts : ℕ → Option ℕ
packet_pts pts = if pts == 2 ^ 64 - 1 then none else some pts

abbrev succeeds : Ret → Bool
succeeds ok = true
succeeds ret = false

abbrev is_again : Ret → Bool
is_again again = true
is_again ret = false

module _ (lib : Libavcodec) where
  -- A call whose answer is a pointer or a flag.
  abbrev pub ask : Call → Codec → Bool × Codec
  ask c d = let b = lib.gives d.calls c in (b, call c b d)

  -- The loop over the devices: the first one that opens, if any.
  unfoldable pub try_devices : List HwType → Codec → Bool × Codec
  try_devices [] d = (false, d)
  try_devices (type ∷ types) d = elim (has_hw_type lib.hw_configs type) [
    | none ↦ try_devices types (record d { hw_pix_fmt = none })
    | some format ↦ elim (lib.gives d.calls (Call.hwdevice_create type)) [
      | true ↦ (true, record (call (Call.hwdevice_create type) true d) { hw_pix_fmt = some format })
      | false ↦
          try_devices types
            (record (call (Call.hwdevice_create type) false d) { hw_pix_fmt = none })
    ]
  ]

  -- The reference that the context takes is freed with the context.
  use_device : Bool × Codec → Codec
  use_device (true, d) = record (call Call.buffer_ref true d) { hw_ctx = true; hw = true }
  use_device (false, d) = d

  unfoldable pub init_hw_decoder : Codec → Codec
  unfolding use_device
  init_hw_decoder d = use_device (try_devices hw_device_list d)

  -- From `packet = av_packet_alloc()`.
  init_packet : Codec → ℤ × Codec
  init_packet d =
      let (b, d') = ask Call.alloc_packet d in
      if b then (pos 0, record d' { packet = true; ready = true }) else (negsuc 0, d')

  init_frame_hw : Codec → Codec
  init_frame_hw d =
      if d.hw
      then (let (b, d') = ask Call.alloc_frame_hw d in record d' { frame_hw = b; hw = b })
      else d

  -- From `frame = av_frame_alloc()`.
  init_frame : Codec → ℤ × Codec
  unfolding init_packet init_frame_hw
  init_frame d =
      let (b, d') = ask Call.alloc_frame d in
      if b then init_packet (init_frame_hw (record d' { frame = true })) else (negsuc 0, d')

  open_result : ℤ → Codec → ℤ × Codec
  open_result (pos n) d = init_frame (call Call.avcodec_open true d)
  open_result (negsuc n) d = (negsuc n, call Call.avcodec_open false d)

  -- From the search for a device.
  open_codec : Bool → Codec → ℤ × Codec
  unfolding open_result init_frame
  open_codec use_hw d =
      let d' = if use_hw then init_hw_decoder d else d in open_result (lib.opens d'.calls) d'

  -- The values of the AAC header, or nothing if it is missing or wrong.
  aac_values : Option (List ℕ) → Option (ℕ × ℕ)
  aac_values none = none
  aac_values (some header) = read_header header

  with_header : Bool → Codec → Option (ℕ × ℕ) → ℤ × Codec
  with_header use_hw d none = (negsuc 0, d)
  with_header use_hw d (some (rate, count)) =
      open_codec use_hw (record d { sample_rate = rate; audio_channels = count })

  -- Behind the context.
  init_stream : Option (List ℕ) → CodecId → Bool → Codec → ℤ × Codec
  unfolding with_header aac_values
  init_stream header CodecId.aac use_hw d = with_header use_hw d (aac_values header)
  init_stream header id use_hw d = open_codec use_hw d

  init_context : Option (List ℕ) → CodecId → Bool → Codec → ℤ × Codec
  init_context header id use_hw d =
      let (b, d') = ask Call.alloc_context d in
      init_stream header id use_hw (call Call.set_opaque true (record d' { decoder = b }))

  init_found : Option (List ℕ) → CodecId → Bool → Codec → Bool → ℤ × Codec
  init_found header id use_hw d true =
      init_context header id use_hw (record (call Call.find_decoder true d) { codec = true })
  init_found header id use_hw d false = (negsuc 0, call Call.find_decoder false d)

  -- `FFMpegDecoder::init`, by what it returns.
  unfoldable pub init : Option (List ℕ) → CodecId → Bool → Codec → ℤ × Codec
  unfolding init_found init_context init_stream open_codec
  init header id use_hw d = init_found header id use_hw d (lib.gives d.calls Call.find_decoder)

  free_if : Bool → Call → Codec → Codec
  free_if true c d = call c true d
  free_if false c d = d

  -- The destructor.
  unfoldable pub destroy_codec : Codec → Codec
  unfolding free_if
  destroy_codec d = free_if d.decoder Call.free_context (
      free_if d.packet Call.free_packet (
        free_if d.hw_ctx Call.unref_device
          (free_if d.frame Call.free_frame (free_if d.frame_hw Call.free_frame_hw d))))

  -- `avcodec_send_packet` and, if that succeeds, `avcodec_receive_frame`.
  receive : Bool → Codec → Ret × Codec
  receive hw d =
      let r = lib.decodes d.calls (Call.receive_frame hw) in
      (r, call (Call.receive_frame hw) (succeeds r) d)

  unfoldable pub decode_packet : Bool → DataPacket → Codec → Ret × Codec
  unfolding receive
  decode_packet hw p d =
      let c = Call.send_packet p.used (packet_pts p.pts) in
      let r = lib.decodes d.calls c in
      let d' = call c (succeeds r) d in if succeeds r then receive hw d' else (r, d')

  -- The transfer of a picture from the device: whether it went well.
  copy_back : Codec → Bool × Codec
  copy_back d =
      let (b, d') = ask Call.transfer_data d in if b then ask Call.copy_props d' else (false, d')

  transfer : Codec → Bool × Codec
  unfolding copy_back
  transfer d =
      if d.hw && same_format (lib.pictures d.calls).format d.hw_pix_fmt
      then copy_back d
      else (true, d)

  -- From the label GOT_FRAME: the results are the value returned and `*got_output`, which are the
  -- same here.
  output_picture : ObsFrame → Codec → Bool × ObsFrame × Codec
  output_picture f d =
      let (b, d') = transfer d in
      if b
      then (let (known, f') = fill_frame f (lib.pictures d'.calls) in (known, f', d'))
      else (false, f, d')

  output_video : ObsFrame → Ret × Codec → Bool × Bool × ObsFrame × Codec
  output_video f (ok, d) = let (b, f', d') = output_picture f d in (b, b, f', d')
  output_video f (ret, d) = (is_again ret, false, f, d)

  -- The value returned, `*got_output`, and the two states.
  unfoldable pub decode_video : ObsFrame → DataPacket → Codec → Bool × Bool × ObsFrame × Codec
  unfolding output_video output_picture transfer
  decode_video f p d =
      let d' = record d { b_frame_check = d.b_frame_check || lib.has_b_frames d.calls } in
      output_video f (decode_packet d'.hw p d')

  -- A decoder as the two threads of src/source.cc use it: packets are decoded only if `init` went
  -- well, and none behind the first error; and the decoder is deleted in the end.
  decode_all : List DataPacket → ObsFrame → Codec → Codec
  decode_all [] f d = d
  decode_all (p ∷ ps) f d =
      let t = decode_video f p d in let rest = decode_all ps t.2 t.3 in if t.0 then rest else t.3

  use_codec : List DataPacket → ObsFrame → ℤ × Codec → Codec
  use_codec ps f (pos n, d) = decode_all ps f d
  use_codec ps f (negsuc n, d) = d

  unfoldable pub codec_life : Option (List ℕ) → CodecId → Bool → List DataPacket → ObsFrame → Codec
  unfolding use_codec decode_all
  codec_life header id use_hw ps f =
      destroy_codec (use_codec ps f (init header id use_hw new_codec))

  output_audio : ObsAudio → Ret × Codec → Bool × Bool × ObsAudio × Codec
  output_audio f (ok, d) = (true, true, fill_audio f (lib.sounds d.calls) d.audio_channels, d)
  output_audio f (ret, d) = (is_again ret, false, f, d)

  unfoldable pub decode_audio : ObsAudio → DataPacket → Codec → Bool × Bool × ObsAudio × Codec
  unfolding output_audio
  decode_audio f p d = output_audio f (decode_packet false p d)
