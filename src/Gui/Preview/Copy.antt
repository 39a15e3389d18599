-- ===== src/Gui/Preview/Copy.antt =====
-- A single copy of a picture in src/gui_win32.c, and the sizes of its blocks.
use native.Mathlib.Nat.{mul-le-mul}
use droidcam_whip_c.Common.{
  take-length_append, ◌∙◌, ap, length-drop, length-append, drop, ℕ, ◌*◌, ◌^◌, ◌≤◌, ◌<◌, ◌≡◌, refl,
  some, List, ◌++◌, arith, length, take, length-take,
}
use droidcam_whip_c.Gui.Preview.{picture_size, grow_frame, copy_frame, memcpy, tick, Preview}
use droidcam_whip_c.Decoder.{Realloc}
use droidcam_whip_c.Frame.{write_at}

-- `realloc` as documented: a block of the size asked for, or nothing.
abbrev pub Sizes : Realloc → Type 0
Sizes realloc = (block : List ℕ) (n : ℕ) (c : List ℕ) → realloc block n ≡ some c → length c ≡ n

-- A block is as long as its size says, and the frame's block holds a picture of the frame's size.
pub record IsSound (g : Preview) : Type 0 where
  pub framed : g.frame_size ≤ length g.frame
  pub pictured : g.frame_width * g.frame_height * 3 ≤ g.frame_size
  pub painted : g.paint_buf_size ≤ length g.paint_buf
  pub small : g.frame_width * g.frame_height * 3 < 2 ^ 64

pub memcpy-fits :
    (block bytes : List ℕ) (n : ℕ)
    → n ≤ length block
    → n ≤ length bytes
    → (c : List ℕ) × (memcpy block bytes n ≡ some c)
      × (length c ≡ length block)
      × (take n c ≡ take n bytes)
unfolding memcpy write_at
memcpy-fits block bytes n f g =
    let l = length-take n bytes in
    (
      take n bytes ++ drop n block,
      ground (arith, l),
      omega (arith, l, length-append {0} (take n bytes) (drop n block), length-drop {0} n block),
      ap (λ k. take k (take n bytes ++ drop n block)) (omega (arith, l))
          ∙ take-length_append (take n bytes) (drop n block),
    )

tick-IsSound : (now : ℕ) (g : Preview) → IsSound g → IsSound (tick now g)
unfolding tick
tick-IsSound now g v = ground arith

-- The memory of a picture of positive `int` sides does not overflow a `size_t`.
picture_size-small : (w h : ℕ) → w < 2 ^ 31 → h < 2 ^ 31 → w * h * 3 < 2 ^ 64
picture_size-small w h a b = omega (
  arith,
  mul-le-mul {n₁ = w} {m₁ = h} {n₂ = 2147483647} {m₂ = 2147483647} (omega arith) (omega arith),
)

pub picture_size-exact : (w h : ℕ) → w * h * 3 < 2 ^ 64 → picture_size w h ≡ w * h * 3
picture_size-exact w h s = omega arith

-- A frame's memory, before the picture is copied into it.
HasRoom : Preview → ℕ → Type 0
HasRoom g n =
    (n ≤ g.frame_size) × (g.frame_size ≤ length g.frame) × (g.paint_buf_size ≤ length g.paint_buf)

grow_frame-HasRoom :
    (r : Realloc) (g g' : Preview) (n : ℕ)
    → Sizes r
    → IsSound g
    → grow_frame r g n ≡ some g'
    → HasRoom g' n
unfolding grow_frame HasRoom
grow_frame-HasRoom r g g' n z v e = ground (arith, z g.frame n g'.frame)

tick-same :
    (now : ℕ) (g : Preview)
    → let g' = tick now g in
      (g'.frame ≡ g.frame)
      × (g'.frame_size ≡ g.frame_size)
      × (g'.frame_width ≡ g.frame_width)
      × (g'.frame_height ≡ g.frame_height)
      × (g'.paint_buf ≡ g.paint_buf)
      × (g'.paint_buf_size ≡ g.paint_buf_size)
unfolding tick
tick-same now g = ground arith

-- The picture that the frame holds.
abbrev IsFramed : Preview → List ℕ → ℕ → ℕ → Type 0
IsFramed g d w h =
    (g.frame_width ≡ w) × (g.frame_height ≡ h) × (take (w * h * 3) g.frame ≡ take (w * h * 3) d)

copy_frame-IsFramed :
    (now : ℕ) (g : Preview) (d : List ℕ) (w h : ℕ)
    → HasRoom g (w * h * 3)
    → w * h * 3 ≤ length d
    → w * h * 3 < 2 ^ 64
    → (g' : Preview) × (copy_frame now g d w h ≡ some g') × IsSound g' × IsFramed g' d w h
unfolding copy_frame HasRoom
copy_frame-IsFramed now g d w h room l s =
    let (c, e, k, t) = memcpy-fits g.frame d (w * h * 3) (omega arith) l in
    let e' : memcpy g.frame d (picture_size w h) ≡ some c =
      ap (memcpy g.frame d) (picture_size-exact w h s) ∙ e in
    let q : Preview = record g { frame = c; frame_width = w; frame_height = h } in
    let sound : IsSound q = record {
      framed = omega arith;
      pictured = omega arith;
      painted = omega arith;
      small = s;
    } in
    let same = tick-same now q in
    (
      tick now q,
      rw (copy_frame, e') refl,
      tick-IsSound now q sound,
      (same.2, same.3, ap (take (w * h * 3)) same.0 ∙ t),
    )

-- A picture of positive sides for which there is memory.
pub set_frame-IsFramed :
    (r : Realloc) (now : ℕ) (g g' : Preview) (d : List ℕ) (w h : ℕ)
    → Sizes r
    → IsSound g
    → w < 2 ^ 31
    → h < 2 ^ 31
    → w * h * 3 ≤ length d
    → grow_frame r g (picture_size w h) ≡ some g'
    → (q : Preview) × (copy_frame now g' d w h ≡ some q) × IsSound q × IsFramed q d w h
unfolding HasRoom
set_frame-IsFramed r now g g' d w h z v a b l e =
    let small = picture_size-small w h a b in
    let (x, y, u) = grow_frame-HasRoom r g g' (picture_size w h) z v e in
    copy_frame-IsFramed now g' d w h (omega arith, y, u) l small
