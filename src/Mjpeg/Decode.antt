-- ===== src/Mjpeg/Decode.antt =====
-- src/mjpeg_decode.cc: `MJpegDecoder::init`, the destructor and `decode_video`, over TurboJPEG.
mod Geometry
pub mod Planes
mod Tests
use droidcam_whip_c.Common.{
  ℕ, ◌+◌, ◌*◌, ◌/◌, ◌^◌, ◌-◌, Bool, true, false, ◌==◌, ltb, List, [], ◌∷◌, Option, none, some,
  if◌then◌else◌, set, take,
}
use droidcam_whip_c.Buffer.{shr}
use droidcam_whip_c.Decoder.{DataPacket}
use droidcam_whip_c.Formats.{VideoFormat}
use droidcam_whip_c.Ffmpeg.Frames.{ObsFrame, VideoRange}

-- What `tjDecompressHeader3` reads; `subsamp` is 2 for TJSAMP_420.
pub record Header : Type 0 where
  pub width : ℕ
  pub height : ℕ
  pub subsamp : ℕ

-- TurboJPEG and `realloc`: the header of some bytes, whether a picture could be decompressed, and
-- the address of a block for an old address and a new size, 0 for NULL.
pub record TurboJpeg : Type 0 where
  pub has_memory : Bool
  pub header : List ℕ → Option Header
  pub decompresses : List ℕ → Bool
  pub brealloc : ℕ → ℕ → ℕ

-- An address is 0 for NULL; `frame_buf_size` is the length of the block that the pointer has. The
-- program knows neither that length nor `written`, the header of the picture that TurboJPEG wrote
-- to the planes last.
pub record MjpegDecoder : Type 0 where
  pub tj : Bool
  pub frame_buf : ℕ
  pub frame_buf_size : ℕ
  pub m_subsamp : ℕ
  pub written : Option Header
  pub ready : Bool

unfoldable pub new_mjpeg : MjpegDecoder
new_mjpeg = record {
  tj = false;
  frame_buf = 0;
  frame_buf_size = 0;
  m_subsamp = 0;
  written = none;
  ready = false;
}

unfoldable pub init_mjpeg : TurboJpeg → MjpegDecoder → Bool × MjpegDecoder
init_mjpeg t d =
    if d.tj
    then (false, d)
    else (if t.has_memory then (true, record d { tj = true; ready = true }) else (false, d))

-- The blocks that the destructor frees: `frameBuf` and the handle.
unfoldable pub destroy_mjpeg : MjpegDecoder → Bool × Bool
destroy_mjpeg d = (ltb 0 d.frame_buf, d.tj)

-- The layout of a first picture; the sizes are of type `int`, and nothing comes of an overflow,
-- which C leaves undefined.
unfoldable pub lay_out :
    TurboJpeg → Header → ObsFrame → MjpegDecoder → Option (ObsFrame × MjpegDecoder)
lay_out t h f d =
    let y_size = h.width * h.height in
    let uv_size = y_size / 4 in
    let size = y_size * 3 / 2 in
    let buf = t.brealloc d.frame_buf size in
    if ltb (y_size * 3) (2 ^ 31)
    then some (
      record f {
        linesize =
            set (set (set (set f.linesize 0 h.width) 1 (shr h.width 1)) 2 (shr h.width 1)) 3 0;
        planes =
            set (set (set (set f.planes 0 buf) 1 (buf + y_size)) 2 (buf + y_size + uv_size)) 3 0;
        width = h.width;
        height = h.height;
        format = VideoFormat.i420;
      },
      record d {
        frame_buf = buf;
        frame_buf_size = if buf == 0 then 0 else size;
        m_subsamp = h.subsamp;
      },
    )
    else none

-- The value returned, `*got_output` and the two states.
abbrev pub Decoded : Type 0
Decoded = Bool × Bool × ObsFrame × MjpegDecoder

-- From the test of the range. TurboJPEG goes by the header of these bytes, which the program reads
-- only for the first picture; it may write to the planes also where it fails.
unfoldable pub decompress : TurboJpeg → List ℕ → ObsFrame × MjpegDecoder → Decoded
decompress t bytes (f, d) =
    let f' = record f { range = VideoRange.full_range } in
    let d' = record d { written = t.header bytes } in
    if t.decompresses bytes
    then (true, true, record f' { flip = false }, d')
    else (false, false, f', d')

decompress_if : TurboJpeg → List ℕ → Option (ObsFrame × MjpegDecoder) → Option Decoded
decompress_if t bytes none = none
decompress_if t bytes (some s) = some (decompress t bytes s)

first_picture : TurboJpeg → List ℕ → ObsFrame → MjpegDecoder → Option Header → Option Decoded
first_picture t bytes f d none = some (false, false, f, d)
first_picture t bytes f d (some h) =
    if h.subsamp == 2 then decompress_if t bytes (lay_out t h f d) else some (false, false, f, d)

-- `MJpegDecoder::decode_video`
unfoldable pub decode_mjpeg : TurboJpeg → ObsFrame → DataPacket → MjpegDecoder → Option Decoded
unfolding first_picture decompress_if
decode_mjpeg t f p d =
    let bytes = take p.used p.block in
    if d.m_subsamp == 0
    then first_picture t bytes f d (t.header bytes)
    else some (decompress t bytes (f, d))
