-- ===== src/Gui/Preview.antt =====
-- The picture in the window of src/gui_win32.c: the worker thread stores it with `gui_set_frame`, the
-- main thread copies it in `paint_preview`. Each runs under the lock where it touches the frame, so
-- a call is one step.
mod Copy
pub mod Shown
use droidcam_whip_c.Common.{
  ℕ, ◌+◌, ◌-◌, ◌*◌, ◌%◌, ◌^◌, Bool, true, false, ◌&&◌, ◌||◌, not, Option, none, some, List, [], ◌∷◌,
  ltb, leb, ◌==◌, if◌then◌else◌, length, take,
}
use droidcam_whip_c.Common.Int.{ℤ, pos, ltb_ℤ, pos_part}
use droidcam_whip_c.Decoder.{Realloc}
use droidcam_whip_c.Frame.{write_at}

-- The fields of `WinGui` for the picture; a block is `[]` for a null pointer.
pub record Preview : Type 0 where
  pub frame : List ℕ
  pub frame_size : ℕ
  pub frame_width : ℕ
  pub frame_height : ℕ
  pub paint_buf : List ℕ
  pub paint_buf_size : ℕ
  pub paint_width : ℕ
  pub paint_height : ℕ
  pub frame_count : ℕ
  pub shown_fps : ℕ
  pub fps_tick : ℕ

-- As `calloc` leaves it.
abbrev pub new_preview : Preview
new_preview = record {
  frame = [];
  frame_size = 0;
  frame_width = 0;
  frame_height = 0;
  paint_buf = [];
  paint_buf_size = 0;
  paint_width = 0;
  paint_height = 0;
  frame_count = 0;
  shown_fps = 0;
  fps_tick = 0;
}

-- `(size_t)width*(size_t)height*3u`
abbrev pub picture_size : ℕ → ℕ → ℕ
picture_size width height = width * height * 3 % 2 ^ 64

-- `memcpy(block, bytes, n)`; `none` if it reads or writes past a block.
unfoldable pub memcpy : List ℕ → List ℕ → ℕ → Option (List ℕ)
memcpy block bytes n = if leb n (length bytes) then write_at block 0 (take n bytes) else none

-- The frames of a second, by a `DWORD` of milliseconds.
unfoldable pub tick : ℕ → Preview → Preview
tick now g =
    let start = if g.fps_tick == 0 then now else g.fps_tick in
    if leb 1000 ((now + 2 ^ 32 - start) % 2 ^ 32)
    then record g { shown_fps = g.frame_count + 1; frame_count = 0; fps_tick = now }
    else record g { frame_count = g.frame_count + 1; fps_tick = start }

unfoldable pub copy_frame : ℕ → Preview → List ℕ → ℕ → ℕ → Option Preview
copy_frame now g bgr_data width height =
    elim (memcpy g.frame bgr_data (picture_size width height)) [
      | none ↦ none
      | some b ↦
          some (tick now (record g { frame = b; frame_width = width; frame_height = height }))
    ]

unfoldable pub grow_frame : Realloc → Preview → ℕ → Option Preview
grow_frame realloc g needed =
    if ltb g.frame_size needed
    then elim (realloc g.frame needed) [
      | none ↦ none
      | some n ↦ some (record g { frame = n; frame_size = needed })
    ]
    else some g

-- `gui_set_frame` at the time `now`. Without memory the picture is passed over.
unfoldable pub gui_set_frame : Realloc → ℕ → Preview → Option (List ℕ) → ℤ → ℤ → Option Preview
gui_set_frame realloc now g none width height = some g
gui_set_frame realloc now g (some bgr_data) width height =
    let w = pos_part width in
    let h = pos_part height in
    if not (ltb_ℤ (pos 0) width) || not (ltb_ℤ (pos 0) height)
    then some g
    else elim (grow_frame realloc g (picture_size w h)) [
      | none ↦ some g
      | some g' ↦ copy_frame now g' bgr_data w h
    ]

has_frame : Preview → Bool
has_frame g = not (length g.frame == 0) && ltb 0 g.frame_width && ltb 0 g.frame_height

unfoldable pub grow_paint : Realloc → Preview → ℕ → Option Preview
grow_paint realloc g needed =
    if ltb g.paint_buf_size needed
    then elim (realloc g.paint_buf needed) [
      | none ↦ none
      | some n ↦ some (record g { paint_buf = n; paint_buf_size = needed })
    ]
    else some g

unfoldable pub copy_paint : Preview → ℕ → Option (Preview × Bool)
copy_paint g needed = elim (memcpy g.paint_buf g.frame needed) [
  | none ↦ none
  | some b ↦
      some (
        record g { paint_buf = b; paint_width = g.frame_width; paint_height = g.frame_height },
        true,
      )
]

-- `paint_preview` up to the end of its lock, and whether a picture, and not the hint, is drawn then.
-- The drawing, by `StretchDIBits` from `paint_buf` or by `DrawTextA`, is left out.
unfoldable pub paint_preview : Realloc → Preview → Option (Preview × Bool)
unfolding has_frame
paint_preview realloc g =
    let needed = picture_size g.frame_width g.frame_height in
    if has_frame g
    then elim (grow_paint realloc g needed) [
      | none ↦ some (g, false)
      | some g' ↦ copy_paint g' needed
    ]
    else some (g, false)

pub data PreviewStep : Type 0 where
  arrive : ℕ → Option (List ℕ) → ℤ → ℤ → PreviewStep
  repaint : PreviewStep

unfoldable pub preview_step : Realloc → Preview → PreviewStep → Option Preview
preview_step realloc g (arrive now bgr_data width height) =
    gui_set_frame realloc now g bgr_data width height
preview_step realloc g repaint = elim (paint_preview realloc g) [
  | none ↦ none
  | some (g', painted) ↦ some g'
]

unfoldable pub preview_run : Realloc → Preview → List PreviewStep → Option Preview
preview_run realloc g [] = some g
preview_run realloc g (s ∷ steps) = elim (preview_step realloc g s) [
  | none ↦ none
  | some g' ↦ preview_run realloc g' steps
]
