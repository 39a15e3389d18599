-- ===== src/Options.antt =====
-- `main` of src/main.c up to the start of the source, as built without `_WIN32`: the command line,
-- its checks and the configuration. `atoi` of libc is a parameter.
pub mod Accepted
mod Tests
use Prim.Native.String.{String}
use text.Mathlib.Text.{◌==◌ as str_eq}
use droidcam_whip_c.Common.Int.{ℤ, pos, ltb_ℤ}
use droidcam_whip_c.Common.{
  ◌&&◌, [], none, ◌||◌, false, some, not, ◌∷◌, true, Option, Bool, if◌then◌else◌, List,
}

-- `enum VideoFormat` of src/source.h
pub data StreamFormat : Type 0 where
  avc mjpg hevc : StreamFormat

-- The configuration and the local variables of `main` that the loop over `argv` sets.
pub record Options : Type 0 where
  pub port : ℤ
  pub width : ℤ
  pub height : ℤ
  pub fps : ℤ
  pub video_format : StreamFormat
  pub use_hw : Bool
  pub use_hdr : Bool
  pub phone_ip : Option String
  pub rtsp_url : String
  pub gui_mode : Bool

abbrev pub defaults : Options
defaults = record {
  port = pos 4747;
  width = pos 1280;
  height = pos 720;
  fps = pos 25;
  video_format = avc;
  use_hw = true;
  use_hdr = false;
  phone_ip = none;
  rtsp_url = "rtsp://127.0.0.1:8554/cam_in";
  gui_mode = false;
}

unfoldable pub parse_format : String → StreamFormat
parse_format value =
    if str_eq value "hevc" || str_eq value "h265"
    then hevc
    else if str_eq value "jpg" || str_eq value "mjpg" || str_eq value "mjpeg"
    then mjpg
    else avc

-- The options that take the next argument as their value.
pub data ValueOption : Type 0 where
  opt_port opt_width opt_height opt_fps opt_format : ValueOption

unfoldable pub value_option : String → Option ValueOption
value_option arg =
    if str_eq arg "--port"
    then some opt_port
    else if str_eq arg "--width"
    then some opt_width
    else if str_eq arg "--height"
    then some opt_height
    else if str_eq arg "--fps"
    then some opt_fps
    else if str_eq arg "--format"
    then some opt_format
    else none

-- A phone address if there is none yet, else the URL.
unfoldable pub positional : Options → String → Options
positional o arg = elim o.phone_ip [
  | none ↦ record o { phone_ip = some arg }
  | some ip ↦ record o { rtsp_url = arg }
]

-- An argument that takes no value, or one that should and is the last.
unfoldable pub single : Options → String → Options
unfolding positional
single o arg =
    if str_eq arg "--gui"
    then record o { gui_mode = true }
    else if str_eq arg "--no-hw"
    then record o { use_hw = false }
    else if str_eq arg "--hdr"
    then record o { use_hdr = true }
    else positional o arg

module _ (atoi : String → ℤ) where
  unfoldable pub set_option : Options → ValueOption → String → Options
  set_option o opt_port value = record o { port = atoi value }
  set_option o opt_width value = record o { width = atoi value }
  set_option o opt_height value = record o { height = atoi value }
  set_option o opt_fps value = record o { fps = atoi value }
  set_option o opt_format value = record o { video_format = parse_format value }

  -- The loop over `argv` from index 1 on.
  unfoldable pub parse_args : Options → List String → Options
  unfolding set_option single
  parse_args o [] = o
  parse_args o (arg ∷ []) = single o arg
  parse_args o (arg ∷ value ∷ args) = elim (value_option arg) [
    | some opt ↦ parse_args (set_option o opt value) args
    | none ↦ parse_args (single o arg) (value ∷ args)
  ]

-- The exit status 2 with the usage text, or the configuration and the phone's address that
-- `droidcam_source_start` is called with.
pub data Outcome : Type 0 where
  usage : Outcome
  start : Options → String → Outcome

has_phone : Options → Bool
has_phone o = elim o.phone_ip [ none ↦ false | some ip ↦ true ]

abbrev is_positive : ℤ → Bool
is_positive n = ltb_ℤ (pos 0) n

unfoldable pub check_options : Options → Outcome
unfolding has_phone
check_options o =
    if not (has_phone o) && not o.gui_mode
    then usage
    else if not (is_positive o.port)
        || ltb_ℤ (pos 65535) o.port
        || not (is_positive o.width)
        || not (is_positive o.height)
        || not (is_positive o.fps)
    then usage
    else elim o.phone_ip [ none ↦ usage | some ip ↦ start o ip ]

unfoldable pub main_options : (String → ℤ) → List String → Outcome
unfolding check_options
main_options atoi args = check_options (parse_args atoi defaults args)
