-- ===== src/Formats/Tests.antt =====
-- The format tables at concrete values.
use droidcam_whip_c.Formats.RoundTrip.{convert_color_space-hdr, convert_pixel_format-frame_pix_fmt}
use droidcam_whip_c.Formats.{
  VideoColorspace, convert_color_space, AvColorPrimaries, AvColorTrc, AvColorSpace, AvPixelFormat,
  SpeakerLayout, VideoFormat, frame_pix_fmt, convert_speaker_layout, convert_pixel_format,
}
use droidcam_whip_c.Common.{◌≢◌, ◌⊎◌, ◌↔◌, refl, ◌≡◌}

speakers_test : convert_speaker_layout 7 ≡ SpeakerLayout.unknown
unfolding convert_speaker_layout
speakers_test = refl

convert_pixel_format-frame_pix_fmt_example :
    (convert_pixel_format (frame_pix_fmt VideoFormat.p010) ≡ VideoFormat.p010)
    × (frame_pix_fmt (convert_pixel_format AvPixelFormat.yuvj420p) ≡ AvPixelFormat.yuv420p)
convert_pixel_format-frame_pix_fmt_example =
    convert_pixel_format-frame_pix_fmt VideoFormat.p010 AvPixelFormat.yuvj420p

convert_color_space_hdr_test :
    let s = AvColorSpace.other in
    let trc = AvColorTrc.smpte2084 in
    let p = AvColorPrimaries.bt2020 in
    ((convert_color_space s trc p ≡ VideoColorspace.cs_2100_hlg)
      ↔ ((s ≡ AvColorSpace.bt2020_ncl) ⊎ ((s ≡ AvColorSpace.other) × (p ≡ AvColorPrimaries.bt2020)))
        × (trc ≡ AvColorTrc.arib_std_b67))
    × ((convert_color_space s trc p ≡ VideoColorspace.cs_2100_pq)
        ↔ ((s ≡ AvColorSpace.bt2020_ncl)
            ⊎ ((s ≡ AvColorSpace.other) × (p ≡ AvColorPrimaries.bt2020)))
          × (trc ≢ AvColorTrc.arib_std_b67))
convert_color_space_hdr_test =
    convert_color_space-hdr AvColorSpace.other AvColorTrc.smpte2084 AvColorPrimaries.bt2020
