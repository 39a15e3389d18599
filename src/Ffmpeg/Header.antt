-- ===== src/Ffmpeg/Header.antt =====
-- The two bytes in front of an AAC stream, as `FFMpegDecoder::init` of src/ffmpeg_decode.cc reads
-- them: an AudioSpecificConfig, of which the code takes the sample rate and the channels.
use droidcam_whip_c.Common.{
  zero, true, suc, ◌&&◌, ◌==◌, ℕ, ◌+◌, ◌*◌, ◌/◌, ◌%◌, ◌^◌, ◌<◌, ◌≡◌, refl, Bool, false, List, [],
  ◌∷◌, Option, none, some, bit_and, bit_or, ltb, get_or, arith,
}
use droidcam_whip_c.Common.Bits.{mask_four, mask_five, bit_or_fields}
use droidcam_whip_c.Buffer.{byte, shl, shr}

abbrev pub aac_frequencies : List ℕ
aac_frequencies =
    96000 ∷ 88200 ∷ 64000 ∷ 48000 ∷ 44100 ∷ 32000 ∷ 24000 ∷ 22050 ∷ 16000 ∷ 12000 ∷ 11025 ∷ 8000
    ∷ []

-- `decoder->sample_rate = aac_frequencies[sr_idx]` behind the test, and the channels.
abbrev pub row_if : Bool → ℕ → ℕ → Option (ℕ × ℕ)
row_if true f c = some (get_or aac_frequencies f 0, c)
row_if false f c = none

unfoldable pub sr_idx : List ℕ → ℕ
sr_idx header = bit_and (bit_or (shl (byte header 0) 1) (shr (byte header 1) 7)) 0x1F

unfoldable pub channels : List ℕ → ℕ
channels header = bit_and (shr (byte header 1) 3) 0xF

-- The sample rate and the channels, or nothing if the index is out of the table.
unfoldable pub read_header : List ℕ → Option (ℕ × ℕ)
unfolding sr_idx channels
read_header header = row_if (ltb (sr_idx header) 12) (sr_idx header) (channels header)

-- An AudioSpecificConfig begins with five bits of the object type, four of the frequency's index
-- and four of the channels.
abbrev pub audio_specific_config : ℕ → ℕ → ℕ → ℕ → List ℕ
audio_specific_config object frequency count rest =
    (object * 8 + frequency / 2) ∷ (frequency % 2 * 128 + count * 8 + rest) ∷ []

-- What the shifts leave of a header, before they are masked.
shifted :
    (object f c r : ℕ)
    → f < 16
    → c < 16
    → r < 8
    → bit_or (shl (object * 8 + f / 2) 1) (shr (f % 2 * 128 + c * 8 + r) 7) ≡ object * 16 + f
shifted object f c r hf hc hr =
    rw
      (bit_or_fields 1 (object * 8 + f / 2) ((object * 8 + f / 2) * 2 ^ 1)
        ((f % 2 * 128 + c * 8 + r) / 2 ^ 7) refl (omega arith))
      (omega arith)

sr_idx-config :
    (object f c r : ℕ)
    → f < 16
    → c < 16
    → r < 8
    → sr_idx (audio_specific_config object f c r) ≡ object % 2 * 16 + f
unfolding sr_idx
sr_idx-config object f c r hf hc hr =
    rw (shifted object f c r hf hc hr) (omega (arith, mask_five (object * 16 + f)))

channels-config :
    (object f c r : ℕ) → f < 16 → c < 16 → r < 8 → channels (audio_specific_config object f c r) ≡ c
unfolding channels
channels-config object f c r hf hc hr = omega (arith, mask_four ((f % 2 * 128 + c * 8 + r) / 2 ^ 3))

table_row :
    (p f c : ℕ)
    → p < 2
    → row_if (ltb (p * 16 + f) 12) (p * 16 + f) c ≡ row_if (p == 0 && ltb f 12) f c
table_row zero f c h = ground arith
table_row (suc zero) f c h = ground arith
table_row (suc (suc p)) f c h = absurd (omega arith)

-- The header of an even object type, such as 2 for AAC-LC, gives the channels and the frequency of
-- its index, if that index is below 12; every other header is refused, also that of an odd object
-- type with an index that the table has.
pub read_header-config :
    (object f c r : ℕ)
    → f < 16
    → c < 16
    → r < 8
    → read_header (audio_specific_config object f c r) ≡ row_if (object % 2 == 0 && ltb f 12) f c
unfolding read_header
read_header-config object f c r hf hc hr =
    rw (sr_idx-config object f c r hf hc hr, channels-config object f c r hf hc hr)
      (table_row (object % 2) f c (omega arith))
