-- ===== src/Formats/RoundTrip.antt =====
-- The two pixel format tables are inverse to one another on the formats that the program shows.
use droidcam_whip_c.Formats.{
  VideoColorspace, AvColorPrimaries, AvColorTrc, AvColorSpace, frame_pix_fmt, convert_color_space,
  convert_pixel_format, VideoFormat, AvPixelFormat,
}
use droidcam_whip_c.Common.{◌≢◌, ◌⊎◌, ◌↔◌, arith, ◌≡◌}

-- The full-range variants, which are shown as the plain ones.
abbrev pub plain : AvPixelFormat → AvPixelFormat
plain AvPixelFormat.yuvj420p = AvPixelFormat.yuv420p
plain AvPixelFormat.yuvj422p = AvPixelFormat.yuv422p
plain AvPixelFormat.other = AvPixelFormat.none
plain f = f

-- Every frame format converts to a pixel format and back to itself; every pixel format converts to
-- a frame format and back to itself, but for the full-range variants, which come back as the plain
-- ones, and the formats that the program does not know, which come back as none.
pub convert_pixel_format-frame_pix_fmt :
    (v : VideoFormat) (f : AvPixelFormat)
    → (convert_pixel_format (frame_pix_fmt v) ≡ v)
      × (frame_pix_fmt (convert_pixel_format f) ≡ plain f)
unfolding convert_pixel_format frame_pix_fmt
convert_pixel_format-frame_pix_fmt v f = ground arith

-- A colour space is HDR exactly when the stream says BT.2020 (by its matrix, or by its primaries
-- beside a matrix that the code does not know), and then it is HLG or PQ by the transfer curve.
pub convert_color_space-hdr :
    (s : AvColorSpace) (trc : AvColorTrc) (p : AvColorPrimaries)
    → ((convert_color_space s trc p ≡ VideoColorspace.cs_2100_hlg)
        ↔ ((s ≡ AvColorSpace.bt2020_ncl)
            ⊎ ((s ≡ AvColorSpace.other) × (p ≡ AvColorPrimaries.bt2020)))
          × (trc ≡ AvColorTrc.arib_std_b67))
      × ((convert_color_space s trc p ≡ VideoColorspace.cs_2100_pq)
          ↔ ((s ≡ AvColorSpace.bt2020_ncl)
              ⊎ ((s ≡ AvColorSpace.other) × (p ≡ AvColorPrimaries.bt2020)))
            × (trc ≢ AvColorTrc.arib_std_b67))
unfolding convert_color_space
convert_color_space-hdr s trc p = ground arith
