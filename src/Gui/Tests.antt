-- ===== src/Gui/Tests.antt =====
-- The window of src/gui_win32.c in concrete runs.
use Prim.Native.String.{String}
use text.Mathlib.Text.{◌==◌ as str_eq}
use droidcam_whip_c.Common.{
  ℕ, ◌*◌, ◌≡◌, refl, true, ◌&&◌, Option, none, some, List, [], ◌∷◌, arith, if◌then◌else◌, take, All,
  replicate, length-replicate,
}
use droidcam_whip_c.Common.Int.{ℤ, pos, ◌==ℤ◌}
use droidcam_whip_c.Gui.Preview.{
  paint_preview, gui_set_frame, new_preview, preview_run, PreviewStep, Preview, arrive, repaint,
}
use droidcam_whip_c.Gui.Session.{
  gui_main, new_session, session_run, SessionStep, Env, connect, close, work,
}
use droidcam_whip_c.Decoder.{Realloc}
use droidcam_whip_c.Gui.Session.Life.{gui_main-IsDone, IsDone, IsSound}
use droidcam_whip_c.Gui.Settings.{Dialog, Settings, Windows}
use droidcam_whip_c.Frame.Safety.{Answers}
use droidcam_whip_c.Gui.Preview.Shown.{paint_preview-shows, IsCall}
use droidcam_whip_c.Options.{hevc}
use droidcam_whip_c.Gui.Settings.Kept.{typed}

abbrev zeroed : Realloc
zeroed block n = some (replicate n 0)

zeroed-Answers : Answers zeroed
zeroed-Answers block n = (replicate n 0, refl, length-replicate n 0)

-- A picture of two pixels, a repaint, and a call without a picture.
abbrev calls : List PreviewStep
calls =
    arrive 5 (some (9 ∷ 9 ∷ 9 ∷ 9 ∷ 9 ∷ 9 ∷ [])) (pos 2) (pos 1)
    ∷ repaint
    ∷ arrive 6 none (pos 7) (pos 7)
    ∷ []

calls-IsCall : All IsCall calls
calls-IsCall = (ground arith, (tt, (tt, tt)))

abbrev pixel : List ℕ
pixel = 1 ∷ 2 ∷ 3 ∷ []

paint_preview-shows_example :
    (g : Preview) × (g' : Preview) × (q : Preview) × (preview_run zeroed new_preview calls ≡ some g)
    × (gui_set_frame zeroed 40 g (some pixel) (pos 1) (pos 1) ≡ some g')
    × (paint_preview zeroed g' ≡ some (q, true))
    × (q.paint_width ≡ 1)
    × (q.paint_height ≡ 1)
    × (take (1 * 1 * 3) q.paint_buf ≡ take (1 * 1 * 3) pixel)
paint_preview-shows_example =
    paint_preview-shows zeroed calls 40 pixel 1 1 zeroed-Answers calls-IsCall (omega arith)
      (omega arith) (omega arith) (omega arith) (omega arith)

-- A file in memory, and numbers that it knows.
abbrev File : Type 0
File = String → String → Option String

abbrev or_else : {A : Type 0} → A → Option A → A
or_else d none = d
or_else d (some a) = a

abbrev number : String → ℤ
number s = if str_eq s "8080" then pos 8080 else if str_eq s "640" then pos 640 else pos 25

abbrev numeral : ℤ → String
numeral n = if n ==ℤ pos 8080 then "8080" else if n ==ℤ pos 640 then "640" else "25"

abbrev entry : String → String → String → File → File
entry section key v file s k = if str_eq s section && str_eq k key then some v else file s k

abbrev get_number : Option String → Option ℤ
get_number none = none
get_number (some v) = some (number v)

abbrev in_memory : Windows File
in_memory = record {
  window_text = λ v size. v;
  get_string = λ section key default size file. or_else default (file section key);
  get_int = λ section key default file. or_else default (get_number (file section key));
  write_string = entry;
  print_int = numeral;
}

abbrev empty_file : File
empty_file section key = none

abbrev some_dialog : Dialog
some_dialog = typed "10.0.0.7" "rtsp://host/cam" "8080" "640" "640" "25" "h265"

abbrev some_settings : Settings
some_settings = record {
  phone_ip = "10.0.0.7";
  rtsp_url = "rtsp://host/cam";
  port = pos 8080;
  width = pos 640;
  height = pos 640;
  fps = pos 25;
  format = hevc;
}

abbrev always : Env
always = record { creates = λ events. true; starts = λ events. true }

abbrev clicks : List SessionStep
clicks = connect ∷ work ∷ connect ∷ connect ∷ close ∷ []

gui_main-IsDone_example :
    IsSound (session_run always (new_session some_settings) clicks)
    × IsDone (gui_main always some_settings clicks)
gui_main-IsDone_example = gui_main-IsDone always some_settings clicks
