-- ===== src/Gui/Settings.antt =====
-- The settings of src/gui_win32.c: the fields of `WinGui`, the dialog that changes them, the file that
-- keeps them, and the configuration that they give. The calls of Windows and `snprintf` with "%d" are
-- a parameter; a `char` array is the text in it.
pub mod Kept
use Prim.Native.String.{String}
use text.Mathlib.Text.{◌==◌ as str_eq}
use droidcam_whip_c.Common.{ℕ, Bool, true, false, ◌||◌, ◌&&◌, if◌then◌else◌}
use droidcam_whip_c.Common.Int.{ℤ, pos, ltb_ℤ, ◌==ℤ◌}
use droidcam_whip_c.Options.{StreamFormat, avc, mjpg, hevc}

-- GetWindowTextA with the size of the buffer; GetPrivateProfileStringA and GetPrivateProfileIntA with
-- the section, the key, the default (and the size of the buffer); WritePrivateProfileStringA.
pub record Windows (Ini : Type 0) : Type 0 where
  pub window_text : String → ℕ → String
  pub get_string : String → String → String → ℕ → Ini → String
  pub get_int : String → String → ℤ → Ini → ℤ
  pub write_string : String → String → String → Ini → Ini
  pub print_int : ℤ → String

pub record Settings : Type 0 where
  pub phone_ip : String
  pub rtsp_url : String
  pub port : ℤ
  pub width : ℤ
  pub height : ℤ
  pub fps : ℤ
  pub format : StreamFormat

-- What the fields of the dialog hold when it is closed.
pub record Dialog : Type 0 where
  pub ip : String
  pub rtsp : String
  pub port_text : String
  pub width_text : String
  pub height_text : String
  pub fps_text : String
  pub selection : ℤ

-- `struct droidcam_source_config` but for its callback.
pub record SourceConfig : Type 0 where
  pub device_ip : String
  pub device_id : String
  pub port : ℤ
  pub width : ℤ
  pub height : ℤ
  pub fps : ℤ
  pub video_format : StreamFormat
  pub use_hw : Bool
  pub use_hdr : Bool
  pub rtsp_url : String

abbrev pub format_to_string : StreamFormat → String
format_to_string hevc = "hevc"
format_to_string mjpg = "jpg"
format_to_string avc = "avc"

unfoldable pub string_to_format : String → StreamFormat
string_to_format v =
    if str_eq v "hevc" || str_eq v "h265"
    then hevc
    else if str_eq v "jpg" || str_eq v "mjpg" || str_eq v "mjpeg"
    then mjpg
    else avc

-- The entry of the dialog's list for a format, and back.
abbrev pub format_index : StreamFormat → ℤ
format_index hevc = pos 1
format_index mjpg = pos 2
format_index avc = pos 0

abbrev pub index_format : ℤ → StreamFormat
index_format sel = if sel ==ℤ pos 1 then hevc else if sel ==ℤ pos 2 then mjpg else avc

abbrev pub positive_or : ℤ → ℤ → ℤ
positive_or default n = if ltb_ℤ (pos 0) n then n else default

abbrev pub default_url : String
default_url = "rtsp://127.0.0.1:8554/cam_in"

module _ {Ini : Type 0} (win : Windows Ini) where
  -- `show_settings_dialog` behind its loop, when the dialog was closed by Save.
  unfoldable pub apply_dialog : (String → ℤ) → Dialog → Settings
  apply_dialog atoi d = record {
    phone_ip = win.window_text d.ip 64;
    rtsp_url = win.window_text d.rtsp 256;
    port = positive_or (pos 4747) (atoi (win.window_text d.port_text 32));
    width = positive_or (pos 1280) (atoi (win.window_text d.width_text 32));
    height = positive_or (pos 720) (atoi (win.window_text d.height_text 32));
    fps = positive_or (pos 25) (atoi (win.window_text d.fps_text 32));
    format = index_format d.selection;
  }

  unfoldable pub load_settings : Ini → Settings
  load_settings ini = record {
    phone_ip = win.get_string "connection" "phone_ip" "192.168.1.100" 64 ini;
    port = win.get_int "connection" "port" (pos 4747) ini;
    width = win.get_int "video" "width" (pos 1280) ini;
    height = win.get_int "video" "height" (pos 720) ini;
    fps = win.get_int "video" "fps" (pos 25) ini;
    format = string_to_format (win.get_string "video" "format" "avc" 32 ini);
    rtsp_url = win.get_string "output" "rtsp_url" default_url 256 ini;
  }

  unfoldable pub save_settings : Settings → Ini → Ini
  save_settings g ini =
      let ini = win.write_string "connection" "phone_ip" g.phone_ip ini in
      let ini = win.write_string "connection" "port" (win.print_int g.port) ini in
      let ini = win.write_string "video" "width" (win.print_int g.width) ini in
      let ini = win.write_string "video" "height" (win.print_int g.height) ini in
      let ini = win.write_string "video" "fps" (win.print_int g.fps) ini in
      let ini = win.write_string "video" "format" (format_to_string g.format) ini in
      win.write_string "output" "rtsp_url" g.rtsp_url ini

unfoldable pub gui_get_config : Settings → SourceConfig
gui_get_config g = record {
  device_ip = g.phone_ip;
  device_id = g.phone_ip;
  port = g.port;
  width = g.width;
  height = g.height;
  fps = g.fps;
  video_format = g.format;
  use_hw = true;
  use_hdr = false;
  rtsp_url = g.rtsp_url;
}
