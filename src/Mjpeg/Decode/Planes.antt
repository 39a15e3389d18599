-- ===== src/Mjpeg/Decode/Planes.antt =====
-- The planes that src/mjpeg_decode.cc lays out in its buffer, against what TurboJPEG writes.
use droidcam_whip_c.Common.{
  if◌then◌else◌, false, take, ◌==◌, ◌<◌, inl, inr, ltb, if-cases, ◌⊎◌, ℕ, suc, ◌+◌, ◌-◌, ◌*◌, ◌/◌,
  ◌^◌, ◌≤◌, ◌≡◌, refl, arith, List, Option, none, some,
}
use droidcam_whip_c.Mjpeg.Decode.{
  first_picture, decompress_if, decode_mjpeg, decompress, MjpegDecoder, Header, lay_out, TurboJpeg,
  Decoded,
}
use droidcam_whip_c.Ffmpeg.Frames.{ObsFrame}
use droidcam_whip_c.Buffer.{shr, byte}
use droidcam_whip_c.Decoder.{DataPacket}
use droidcam_whip_c.Mjpeg.Decode.Geometry.{
  chroma_side, chroma_fits, extra_lines, luma_fits, extra_columns, luma_side, set_three, plane_end,
  HasPlanes, padded,
}

-- The planes follow each other in the buffer, and what TurboJPEG writes to a plane for a picture of
-- the given subsampling, in the size of the frame, stays before the next one, and before the end of
-- the buffer. (TurboJPEG scales a picture of another size to one that is no larger, or fails.)
pub record PlanesFit (s : ℕ) (f : ObsFrame) (d : MjpegDecoder) : Type 0 where
  pub first : byte f.planes 0 ≡ d.frame_buf
  pub luma :
      plane_end
        (byte f.planes 0)
        (byte f.linesize 0)
        (luma_side (extra_columns s) f.width)
        (luma_side (extra_lines s) f.height)
      ≤ byte f.planes 1
  pub chroma :
      plane_end
        (byte f.planes 1)
        (byte f.linesize 1)
        (chroma_side s (extra_columns s) f.width)
        (chroma_side s (extra_lines s) f.height)
      ≤ byte f.planes 2
  pub last :
      plane_end
        (byte f.planes 2)
        (byte f.linesize 2)
        (chroma_side s (extra_columns s) f.width)
        (chroma_side s (extra_lines s) f.height)
      ≤ d.frame_buf + d.frame_buf_size

-- Every picture, the later ones too, is 4:2:0 and has an even width and height, neither of them 0,
-- whose sizes do not overflow an `int`.
abbrev pub AllSupported : TurboJpeg → Type 0
AllSupported t =
    (bytes : List ℕ) (h : Header)
    → t.header bytes ≡ some h
    → (a : ℕ) × (b : ℕ) × (h.width ≡ suc a * 2)
      × (h.height ≡ suc b * 2)
      × (h.width * h.height * 3 < 2 ^ 31)
      × h.subsamp ≡ 2

-- `brealloc` never gives NULL.
abbrev pub HasBlocks : TurboJpeg → Type 0
HasBlocks t = (old size : ℕ) → (t.brealloc old size == 0) ≡ false

-- What was written last stays in the planes.
abbrev pub WrittenFits : Option Header → ObsFrame → MjpegDecoder → Type 0
WrittenFits none f d = Unit {0}
WrittenFits (some h) f d = PlanesFit h.subsamp f d

-- A decoder without a picture yet, or with its planes laid out for 4:2:0.
abbrev pub IsLaidOut : ObsFrame → MjpegDecoder → Type 0
IsLaidOut f d = HasPlanes f.planes × HasPlanes f.linesize × (d.m_subsamp ≡ 0 ⊎ PlanesFit 2 f d)

-- The call has a result, and what it wrote stays in the planes; also where it fails.
abbrev pub AllLaidOut : Option Decoded → Type 0
AllLaidOut none = ⊥
AllLaidOut (some (ret, got, f, d)) = IsLaidOut f d × WrittenFits d.written f d

abbrev LaidOut : Option (ObsFrame × MjpegDecoder) → Type 0
LaidOut none = ⊥
LaidOut (some (f, d)) = HasPlanes f.planes × HasPlanes f.linesize × PlanesFit 2 f d

module _ (t : TurboJpeg) where
  lay_out-LaidOut :
      (h : Header) (f : ObsFrame) (d : MjpegDecoder) (a b : ℕ)
      → h.width ≡ suc a * 2
      → h.height ≡ suc b * 2
      → h.width * h.height * 3 < 2 ^ 31
      → HasBlocks t
      → HasPlanes f.planes
      → HasPlanes f.linesize
      → LaidOut (lay_out t h f d)
  unfolding lay_out
  lay_out-LaidOut h f d a b ew eh lt m hp hl =
      let y = h.width * h.height in
      let buf = t.brealloc d.frame_buf (y * 3 / 2) in
      let (p0, p1, p2, hp') = set_three f.planes buf (buf + y) (buf + y + y / 4) 0 hp in
      let (l0, l1, l2, hl') = set_three f.linesize h.width (shr h.width 1) (shr h.width 1) 0 hl in
      if-cases (λ x. LaidOut x) (ltb (y * 3) (2 ^ 31)) _ none
        (λ _. (
          hp',
          hl',
          record {
            first = p0;
            luma = luma_fits h.width h.height a b _ _ ew eh l0 p0 (omega (arith, p1));
            chroma = chroma_fits h.width h.height a b _ _ ew eh l1 p1 (omega (arith, p2));
            last =
                rw (m d.frame_buf (y * 3 / 2))
                  (chroma_fits h.width h.height a b _ _ ew eh l2 p2 (omega arith));
          },
        ))
        (λ e. absurd (ground arith))

  -- A call for a frame whose planes are laid out.
  decompress-AllLaidOut :
      (bytes : List ℕ) (f : ObsFrame) (d : MjpegDecoder)
      → AllSupported t
      → LaidOut (some (f, d))
      → AllLaidOut (some (decompress t bytes (f, d)))
  unfolding decompress
  decompress-AllLaidOut bytes f d v (hp, hl, w) =
      if-cases (λ x. AllLaidOut (some x)) (t.decompresses bytes) _ _
        (λ _. (
          (hp, hl, inr (keep 2 f _ _ w refl refl refl refl refl refl)),
          all _ _ refl refl refl refl refl refl (t.header bytes) refl,
        ))
        (λ _. (
          (hp, hl, inr (keep 2 f _ _ w refl refl refl refl refl refl)),
          all _ _ refl refl refl refl refl refl (t.header bytes) refl,
        ))
    where
      keep :
          (s : ℕ) (f g : ObsFrame) (e : MjpegDecoder)
          → PlanesFit s f d
          → g.planes ≡ f.planes
          → g.linesize ≡ f.linesize
          → g.width ≡ f.width
          → g.height ≡ f.height
          → e.frame_buf ≡ d.frame_buf
          → e.frame_buf_size ≡ d.frame_buf_size
          → PlanesFit s g e
      keep s f g e v a b x y p q = record {
        first = rw (a, p) v.first;
        luma = rw (a, b, x, y) v.luma;
        chroma = rw (a, b, x, y) v.chroma;
        last = rw (a, b, x, y, p, q) v.last;
      }

      all :
          (g : ObsFrame) (e : MjpegDecoder)
          → g.planes ≡ f.planes
          → g.linesize ≡ f.linesize
          → g.width ≡ f.width
          → g.height ≡ f.height
          → e.frame_buf ≡ d.frame_buf
          → e.frame_buf_size ≡ d.frame_buf_size
          → (o : Option Header) → t.header bytes ≡ o
          → WrittenFits o g e
      all g e a b x y p q none r = tt
      all g e a b x y p q (some h) r =
          let (m, n, k, l, i, s) = v bytes h r in rw s (keep 2 f g e w a b x y p q)

  decompress_if-AllLaidOut :
      (bytes : List ℕ) (o : Option (ObsFrame × MjpegDecoder))
      → AllSupported t
      → LaidOut o
      → AllLaidOut (decompress_if t bytes o)
  unfolding decompress_if
  decompress_if-AllLaidOut bytes none v w = elim w [ ]
  decompress_if-AllLaidOut bytes (some (f, d)) v w = decompress-AllLaidOut bytes f d v w

  first_picture-AllLaidOut :
      (bytes : List ℕ) (f : ObsFrame) (d : MjpegDecoder) (o : Option Header)
      → t.header bytes ≡ o
      → AllSupported t
      → HasBlocks t
      → IsLaidOut f d
      → WrittenFits d.written f d
      → AllLaidOut (first_picture t bytes f d o)
  unfolding first_picture
  first_picture-AllLaidOut bytes f d none e v m w k = (w, k)
  first_picture-AllLaidOut bytes f d (some h) e v m (hp, hl, w) k =
      let (a, b, x, y, lt, s) = v bytes h e in
      if-cases AllLaidOut (h.subsamp == 2) _ _
        (λ _.
          decompress_if-AllLaidOut bytes (lay_out t h f d) v
            (lay_out-LaidOut h f d a b x y lt m hp hl))
        (λ _. ((hp, hl, w), k))

  -- If every picture, the later ones too, is 4:2:0 with an even width and height, neither of them
  -- 0, whose sizes do not overflow an `int`, and `brealloc` finds memory, then a call of
  -- decode_video of MJpegDecoder keeps its planes in their places: what TurboJPEG writes to one of
  -- them for that picture ends before the next one, and before the end of the buffer, whether it
  -- succeeds or not.
  pub decode_mjpeg-AllLaidOut :
      (f : ObsFrame) (p : DataPacket) (d : MjpegDecoder)
      → AllSupported t
      → HasBlocks t
      → IsLaidOut f d
      → WrittenFits d.written f d
      → AllLaidOut (decode_mjpeg t f p d)
  unfolding decode_mjpeg
  decode_mjpeg-AllLaidOut f p d v m (hp, hl, w) k =
      let bytes = take p.used p.block in
      let first = first_picture-AllLaidOut bytes f d (t.header bytes) refl v m (hp, hl, w) k in
      if-cases AllLaidOut (d.m_subsamp == 0) _ _ (λ _. first) (λ e. later bytes w e)
    where
      later :
          (bytes : List ℕ)
          → (d.m_subsamp ≡ 0 ⊎ PlanesFit 2 f d)
          → (d.m_subsamp == 0) ≡ false
          → AllLaidOut (some (decompress t bytes (f, d)))
      later bytes (inl z) e = absurd (ground arith)
      later bytes (inr u) e = decompress-AllLaidOut bytes f d v (hp, hl, u)

odd_lines : (b : ℕ) → padded (b * 2 + 1) / 2 - 1 ≡ b
odd_lines b = omega arith

even_columns : (a : ℕ) → padded ((a + 2) * 2) / 2 ≡ a + 2
even_columns a = omega arith

even_stride : (a : ℕ) → (a + 2) * 2 / 2 ^ 1 ≡ a + 2
even_stride a = omega arith

odd_area : (a b : ℕ) → (a + 2) * 2 * (b * 2 + 1) ≡ (b * (a + 2)) * 4 + (a + 2) * 2
odd_area a b = omega arith

chroma_overruns :
    (w h a b p l buf : ℕ)
    → w ≡ (a + 2) * 2
    → h ≡ b * 2 + 1
    → l ≡ w / 2 ^ 1
    → p ≡ buf + w * h + w * h / 4
    → buf + w * h * 3 / 2 < plane_end p l (padded w / 2) (padded h / 2)
chroma_overruns w h a b p l buf ew eh el ep =
    rw (el, ep, ew, eh, odd_lines b, even_columns a, even_stride a, odd_area a b) (omega arith)

no_larger : (buf size n : ℕ) → buf + size < n → buf + (if buf == 0 then 0 else size) < n
no_larger buf size n h = ground arith

abbrev pub AllOverrun : Option (ObsFrame × MjpegDecoder) → Type 0
AllOverrun none = ⊥
AllOverrun (some (f, d)) =
    d.frame_buf + d.frame_buf_size
    < plane_end (byte f.planes 2) (byte f.linesize 2) (padded f.width / 2) (padded f.height / 2)

-- A picture of an odd height, and of an even width of at least four, is laid out so that the last
-- line of its last plane leaves the buffer (the sizes do not overflow).
pub lay_out_overruns :
    (t : TurboJpeg) (h : Header) (f : ObsFrame) (d : MjpegDecoder) (a b : ℕ)
    → h.width ≡ (a + 2) * 2
    → h.height ≡ b * 2 + 1
    → h.width * h.height * 3 < 2 ^ 31
    → HasPlanes f.planes
    → HasPlanes f.linesize
    → AllOverrun (lay_out t h f d)
unfolding lay_out
lay_out_overruns t h f d a b ew eh lt hp hl =
    let y = h.width * h.height in
    let buf = t.brealloc d.frame_buf (y * 3 / 2) in
    let (p0, p1, p2, hp') = set_three f.planes buf (buf + y) (buf + y + y / 4) 0 hp in
    let (l0, l1, l2, hl') = set_three f.linesize h.width (shr h.width 1) (shr h.width 1) 0 hl in
    if-cases AllOverrun (ltb (y * 3) (2 ^ 31)) _ none
      (λ _. no_larger buf (y * 3 / 2) _ (chroma_overruns h.width h.height a b _ _ buf ew eh l2 p2))
      (λ e. absurd (ground arith))
