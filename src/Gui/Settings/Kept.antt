-- ===== src/Gui/Settings/Kept.antt =====
-- The settings of src/gui_win32.c across a restart, and the dialog beside the command line.
use Prim.Native.String.{String}
use text.Mathlib.Text.{◌==◌ as str_eq}
use droidcam_whip_c.Common.{true, ℕ, false, Bool, ◌||◌, ◌&&◌, ◌≡◌}
use droidcam_whip_c.Common.Int.{ℤ}
use droidcam_whip_c.Options.{parse_format}
use droidcam_whip_c.Gui.Settings.{Dialog, format_to_string, format_index, Settings, Windows}

-- The entries of the settings file that the program reads and writes.
abbrev pub is_entry : String → String → Bool
is_entry section key =
    (str_eq section "connection" && (str_eq key "phone_ip" || str_eq key "port"))
    || (str_eq section "video"
        && (str_eq key "width" || str_eq key "height" || str_eq key "fps" || str_eq key "format"))
    || (str_eq section "output" && str_eq key "rtsp_url")

module _ {Ini : Type 0} (win : Windows Ini) where
  -- What is asked of the file for a value that is written to one of the program's entries: the other
  -- entries of the program stay as they are.
  pub record IsApart (v : String) : Type 0 where
    pub get_string-other :
        (section key section' key' default : String) (size : ℕ) (ini : Ini)
        → is_entry section key ≡ true
        → is_entry section' key' ≡ true
        → (str_eq section section' && str_eq key key') ≡ false
        → win.get_string section key default size (win.write_string section' key' v ini)
          ≡ win.get_string section key default size ini
    pub get_int-other :
        (section key section' key' : String) (default : ℤ) (ini : Ini)
        → is_entry section key ≡ true
        → is_entry section' key' ≡ true
        → (str_eq section section' && str_eq key key') ≡ false
        → win.get_int section key default (win.write_string section' key' v ini)
          ≡ win.get_int section key default ini

  -- A text that the program's entries give back, when it is read into a buffer of a size: it is one
  -- line that fits, and has no blanks or quotes around it.
  pub record Keeps (v : String) (size : ℕ) : Type 0 where
    pub same :
        (section key default : String) (ini : Ini)
        → is_entry section key ≡ true
        → win.get_string section key default size (win.write_string section key v ini) ≡ v
    pub apart : IsApart v

  -- A number that they give back.
  pub record KeepsInt (n : ℤ) : Type 0 where
    pub same_int :
        (section key : String) (default : ℤ) (ini : Ini)
        → is_entry section key ≡ true
        → win.get_int section key default (win.write_string section key (win.print_int n) ini) ≡ n
    pub apart_int : IsApart (win.print_int n)

  -- Settings whose values the file gives back.
  pub record IsKept (g : Settings) : Type 0 where
    pub kept_ip : Keeps g.phone_ip 64
    pub kept_url : Keeps g.rtsp_url 256
    pub kept_port : KeepsInt g.port
    pub kept_width : KeepsInt g.width
    pub kept_height : KeepsInt g.height
    pub kept_fps : KeepsInt g.fps
    pub kept_format : Keeps (format_to_string g.format) 32

  -- A text that is read from its field as a whole.
  abbrev pub IsWhole : String → ℕ → Type 0
  IsWhole v size = win.window_text v size ≡ v

-- What the dialog's fields hold when the values are typed that a command line gives.
abbrev pub typed : String → String → String → String → String → String → String → Dialog
typed ip url port width height fps format = record {
  ip = ip;
  rtsp = url;
  port_text = port;
  width_text = width;
  height_text = height;
  fps_text = fps;
  selection = format_index (parse_format format);
}
