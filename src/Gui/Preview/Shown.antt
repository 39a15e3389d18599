-- ===== src/Gui/Preview/Shown.antt =====
-- The pictures of src/gui_win32.c over any calls, and what a repaint copies to be painted. The
-- drawing behind the copy, by `StretchDIBits`, is left out.
use native.Mathlib.Nat.{mul-le-mul}
use droidcam_whip_c.Common.{
  sym, ltb, [], ◌∷◌, All, true, Option-cases, ◌||◌, inl, false, inr, not, Bool-cases, Bool, ◌∙◌, ap,
  ℕ, ◌*◌, ◌^◌, ◌≤◌, ◌<◌, ◌≡◌, refl, Option, none, some, List, arith, length, take,
}
use droidcam_whip_c.Gui.Preview.{
  repaint, arrive, preview_step, new_preview, preview_run, PreviewStep, copy_paint, grow_paint,
  has_frame, paint_preview, gui_set_frame, picture_size, grow_frame, memcpy, Preview,
}
use droidcam_whip_c.Decoder.{Realloc}
use droidcam_whip_c.Common.Int.{pos, ltb_ℤ, pos_part, ℤ}
use droidcam_whip_c.Frame.Safety.{Answers}
use droidcam_whip_c.Gui.Preview.Copy.{
  memcpy-fits, picture_size-exact, set_frame-IsFramed, Sizes, IsSound,
}

-- What a caller of `gui_set_frame` promises: `int` sides, and a block of the picture's size.
abbrev pub IsPicture : Option (List ℕ) → ℕ → ℕ → Type 0
IsPicture none w h = Unit
IsPicture (some d) w h = (w < 2 ^ 31) × (h < 2 ^ 31) × (w * h * 3 ≤ length d)

gui_set_frame-IsSound :
    (r : Realloc) (now : ℕ) (g : Preview) (d : Option (List ℕ)) (w h : ℤ)
    → Sizes r
    → IsSound g
    → IsPicture d (pos_part w) (pos_part h)
    → (q : Preview) × (gui_set_frame r now g d w h ≡ some q) × IsSound q
unfolding gui_set_frame
gui_set_frame-IsSound r now g none w h z v p = (g, refl, v)
gui_set_frame-IsSound r now g (some d) w h z v p =
    elim (Bool-cases (not (ltb_ℤ (pos 0) w) || not (ltb_ℤ (pos 0) h))) [
      | inl e ↦ (g, rw (gui_set_frame, e) refl, v)
      | inr e ↦ elim (Option-cases (grow_frame r g (picture_size (pos_part w) (pos_part h)))) [
        | inl f ↦ (g, rw (gui_set_frame, e, f) refl, v)
        | inr (g', f) ↦
            let (q, x, y, i) =
              set_frame-IsFramed r now g g' d (pos_part w) (pos_part h) z v p.0 p.1 p.2 f in
            (q, rw (gui_set_frame, e, f) x, y)
      ]
    ]

grow_paint-same :
    (r : Realloc) (g g' : Preview) (n : ℕ)
    → Sizes r
    → IsSound g
    → grow_paint r g n ≡ some g'
    → (n ≤ g'.paint_buf_size)
      × (g'.paint_buf_size ≤ length g'.paint_buf)
      × (g'.frame ≡ g.frame)
      × (g'.frame_size ≡ g.frame_size)
      × (g'.frame_width ≡ g.frame_width)
      × (g'.frame_height ≡ g.frame_height)
unfolding grow_paint
grow_paint-same r g g' n z v e = ground (arith, z g.paint_buf n g'.paint_buf)

-- The copy to paint is what the frame holds.
abbrev IsPainted : Preview → Preview → Type 0
IsPainted q g =
    (q.paint_width ≡ g.frame_width)
    × (q.paint_height ≡ g.frame_height)
    × (take (g.frame_width * g.frame_height * 3) q.paint_buf
        ≡ take (g.frame_width * g.frame_height * 3) g.frame)

grow_paint-IsPainted :
    (r : Realloc) (g g' : Preview)
    → Sizes r
    → IsSound g
    → grow_paint r g (picture_size g.frame_width g.frame_height) ≡ some g'
    → (q : Preview) × (copy_paint g' (picture_size g.frame_width g.frame_height) ≡ some (q, true))
      × IsSound q
      × IsPainted q g
unfolding copy_paint
grow_paint-IsPainted r g g' z v e =
    let n = g.frame_width * g.frame_height * 3 in
    let exact = picture_size-exact g.frame_width g.frame_height v.small in
    let (a, b, f, k, w, h) =
      grow_paint-same r g g' (picture_size g.frame_width g.frame_height) z v e in
    let frame_length : length g'.frame ≡ length g.frame = ap (λ l. length l) f in
    let (c, m, l, t) =
      memcpy-fits g'.paint_buf g'.frame n (omega arith) (omega (arith, v.pictured, v.framed)) in
    let m' : memcpy g'.paint_buf g'.frame (picture_size g.frame_width g.frame_height) ≡ some c =
      ap (memcpy g'.paint_buf g'.frame) exact ∙ m in
    let size : g'.frame_width * g'.frame_height * 3 ≡ n = cc (w, h) in
    (
      record g' { paint_buf = c; paint_width = g'.frame_width; paint_height = g'.frame_height },
      rw (copy_paint, m') refl,
      record {
        framed = omega (arith, v.framed);
        pictured = omega (arith, v.pictured);
        painted = omega arith;
        small = omega (arith, v.small);
      },
      (w, h, t ∙ ap (take n) f),
    )

paint_preview-IsSound :
    (r : Realloc) (g : Preview)
    → Sizes r
    → IsSound g
    → (q : Preview) × (b : Bool) × (paint_preview r g ≡ some (q, b)) × IsSound q
unfolding paint_preview
paint_preview-IsSound r g z v = elim (Bool-cases (has_frame g)) [
  | inr e ↦ (g, false, rw (paint_preview, e) refl, v)
  | inl e ↦ elim (Option-cases (grow_paint r g (picture_size g.frame_width g.frame_height))) [
    | inl f ↦ (g, false, rw (paint_preview, e, f) refl, v)
    | inr (g', f) ↦
        let (q, x, i, s) = grow_paint-IsPainted r g g' z v f in
        (q, true, rw (paint_preview, e, f) x, i)
  ]
]

-- A call of `gui_set_frame` as its caller promises, or a repaint.
abbrev pub IsCall : PreviewStep → Type 0
IsCall (arrive now d w h) = IsPicture d (pos_part w) (pos_part h)
IsCall repaint = Unit

preview_step-IsSound :
    (r : Realloc) (g : Preview) (s : PreviewStep)
    → Sizes r
    → IsSound g
    → IsCall s
    → (q : Preview) × (preview_step r g s ≡ some q) × IsSound q
unfolding preview_step
preview_step-IsSound r g (arrive now d w h) z v c = gui_set_frame-IsSound r now g d w h z v c
preview_step-IsSound r g repaint z v c =
    let (q, b, e, i) = paint_preview-IsSound r g z v in (q, rw (preview_step, e) refl, i)

-- Without memory as well, no copy leaves its block, whatever sizes the pictures have.
preview_run-IsSound :
    (r : Realloc) (steps : List PreviewStep) (g : Preview)
    → Sizes r
    → IsSound g
    → All IsCall steps
    → (q : Preview) × (preview_run r g steps ≡ some q) × IsSound q
unfolding preview_run
preview_run-IsSound r [] g z v a = (g, refl, v)
preview_run-IsSound r (s ∷ steps) g z v a =
    let (q, e, i) = preview_step-IsSound r g s z v a.0 in
    let (p, f, j) = preview_run-IsSound r steps q z i a.1 in (p, rw (preview_run, e) f, j)

sizes : (r : Realloc) → Answers r → Sizes r
sizes r a block n c e = let (b, f, l) = a block n in ap (λ x. length x) (cc (e, f)) ∙ l

new-IsSound : IsSound new_preview
new-IsSound = record {
  framed = omega arith;
  pictured = omega arith;
  painted = omega arith;
  small = omega arith;
}

answered_frame :
    (r : Realloc) (g : Preview) (n : ℕ) → Answers r → (g' : Preview) × (grow_frame r g n ≡ some g')
unfolding grow_frame
answered_frame r g n ok = elim (Bool-cases (ltb g.frame_size n)) [
  | inl e ↦
      let (c, f, l) = ok g.frame n in
      (record g { frame = c; frame_size = n }, rw (grow_frame, e, f) refl)
  | inr e ↦ (g, rw (grow_frame, e) refl)
]

answered_paint :
    (r : Realloc) (g : Preview) (n : ℕ) → Answers r → (g' : Preview) × (grow_paint r g n ≡ some g')
unfolding grow_paint
answered_paint r g n ok = elim (Bool-cases (ltb g.paint_buf_size n)) [
  | inl e ↦
      let (c, f, l) = ok g.paint_buf n in
      (record g { paint_buf = c; paint_buf_size = n }, rw (grow_paint, e, f) refl)
  | inr e ↦ (g, rw (grow_paint, e) refl)
]

has_frame-pictured :
    (g : Preview) → IsSound g → 0 < g.frame_width → 0 < g.frame_height → has_frame g ≡ true
unfolding has_frame
has_frame-pictured g v a b =
    let some_bytes = mul-le-mul {n₁ = 1} {m₁ = 1} {n₂ = g.frame_width} {m₂ = g.frame_height} a b in
    let room : 0 < length g.frame = omega (arith, some_bytes, v.framed, v.pictured) in
    ground (arith, room, a, b)

-- While there is memory, from a new window on and after any calls of gui_set_frame and repaints of
-- pictures with `int` sides and blocks that hold them: a picture of positive `int` sides, with a
-- block that holds it, is stored, and the next repaint copies exactly its bytes to paint_buf and
-- its size to paint_width and paint_height; no copy of all these calls leaves its block. How the
-- copy is drawn is not part of the statement.
pub paint_preview-shows :
    (r : Realloc) (steps : List PreviewStep) (now : ℕ) (d : List ℕ) (w h : ℕ)
    → Answers r
    → All IsCall steps
    → 0 < w
    → 0 < h
    → w < 2 ^ 31
    → h < 2 ^ 31
    → w * h * 3 ≤ length d
    → (g : Preview) × (g' : Preview) × (q : Preview) × (preview_run r new_preview steps ≡ some g)
      × (gui_set_frame r now g (some d) (pos w) (pos h) ≡ some g')
      × (paint_preview r g' ≡ some (q, true))
      × (q.paint_width ≡ w)
      × (q.paint_height ≡ h)
      × (take (w * h * 3) q.paint_buf ≡ take (w * h * 3) d)
unfolding gui_set_frame paint_preview grow_frame
paint_preview-shows r steps now d w h ok calls a b c e l =
    let (g, run, v) = preview_run-IsSound r steps new_preview (sizes r ok) new-IsSound calls in
    let (g₁, grown) = answered_frame r g (picture_size w h) ok in
    let (g', x, y, (fw, fh, ft)) = set_frame-IsFramed r now g g₁ d w h (sizes r ok) v c e l grown in
    let (g₂, grown') = answered_paint r g' (picture_size g'.frame_width g'.frame_height) ok in
    let (q, x', y', (pw, ph, pt)) = grow_paint-IsPainted r g' g₂ (sizes r ok) y grown' in
    let framed : has_frame g' ≡ true =
      has_frame-pictured g' y (omega (arith, fw)) (omega (arith, fh)) in
    let size : g'.frame_width * g'.frame_height * 3 ≡ w * h * 3 = cc (fw, fh) in
    let positive : (not (ltb_ℤ (pos 0) (pos w)) || not (ltb_ℤ (pos 0) (pos h))) ≡ false =
      ground arith in
    (
      g,
      g',
      q,
      run,
      rw (gui_set_frame, positive, grown) x,
      rw (paint_preview, framed, grown') x',
      pw ∙ fw,
      ph ∙ fh,
      ap (λ n. take n q.paint_buf) (sym size) ∙ pt ∙ ap (λ n. take n g'.frame) size ∙ ft,
    )
