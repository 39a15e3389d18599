-- ===== src/Options/Accepted.antt =====
-- What the command line of src/main.c is accepted as.
use droidcam_whip_c.Options.{
  opt_format, opt_fps, opt_height, opt_width, opt_port, ValueOption, set_option, parse_format,
  defaults, single, value_option, positional, parse_args, String, Options,
}
use droidcam_whip_c.Common.{◌∙◌, refl, true, false, some, none, [], ◌∷◌, ◌≡◌, List}
use droidcam_whip_c.Common.Int.{ℤ}

-- The arguments for a configuration: the phone, the URL, and each option with its value.
abbrev pub render : String → String → String → String → String → String → String → List String
render ip url port width height fps format =
    ip ∷ url ∷ "--port" ∷ port ∷ "--width" ∷ width ∷ "--height" ∷ height ∷ "--fps" ∷ fps
    ∷ "--format" ∷ format ∷ "--no-hw" ∷ "--hdr" ∷ []

-- An argument that the loop takes for an address.
abbrev pub IsPlain : String → Type 0
IsPlain arg = (value_option arg ≡ none) × ((o : Options) → single o arg ≡ positional o arg)

-- One round of the loop.
module _ (atoi : String → ℤ) (o : Options) (args : List String) where
  parse_plain :
      (arg next : String)
      → IsPlain arg
      → parse_args atoi o (arg ∷ next ∷ args) ≡ parse_args atoi (positional o arg) (next ∷ args)
  unfolding parse_args
  parse_plain arg next p = rw (p.0, parse_args, p.1 o)

  parse_value :
      (arg : String) (opt : ValueOption) (value : String)
      → value_option arg ≡ some opt
      → parse_args atoi o (arg ∷ value ∷ args) ≡ parse_args atoi (set_option atoi o opt value) args
  unfolding parse_args
  parse_value arg opt value e = rw (e, parse_args)

-- The options that take no value, at the end of the line.
parse_flags :
    (atoi : String → ℤ) (o : Options)
    → parse_args atoi o ("--no-hw" ∷ "--hdr" ∷ []) ≡ record o { use_hw = false; use_hdr = true }
unfolding parse_args value_option single
parse_flags atoi o = refl

value_options :
    (value_option "--port" ≡ some opt_port)
    × (value_option "--width" ≡ some opt_width)
    × (value_option "--height" ≡ some opt_height)
    × (value_option "--fps" ≡ some opt_fps)
    × (value_option "--format" ≡ some opt_format)
unfolding value_option
value_options = (refl, refl, refl, refl, refl)

-- Each argument arrives in its field: an address and a URL that are no options, then every option
-- with its value, give the configuration with these values.
pub parse_args-render :
    (atoi : String → ℤ) (ip url port width height fps format : String)
    → IsPlain ip
    → IsPlain url
    → parse_args atoi defaults (render ip url port width height fps format) ≡ record {
      port = atoi port;
      width = atoi width;
      height = atoi height;
      fps = atoi fps;
      video_format = parse_format format;
      use_hw = false;
      use_hdr = true;
      phone_ip = some ip;
      rtsp_url = url;
      gui_mode = false;
    }
unfolding positional set_option
parse_args-render atoi ip url port width height fps format p q =
    parse_plain atoi _ _ ip url p
    ∙ parse_plain atoi _ _ url "--port" q
    ∙ parse_value atoi _ _ "--port" opt_port port value_options.0
    ∙ parse_value atoi _ _ "--width" opt_width width value_options.1
    ∙ parse_value atoi _ _ "--height" opt_height height value_options.2
    ∙ parse_value atoi _ _ "--fps" opt_fps fps value_options.3
    ∙ parse_value atoi _ _ "--format" opt_format format value_options.4
    ∙ parse_flags atoi _
