-- ===== src/Options/Tests.antt =====
-- Command lines of src/main.c, with an `atoi` that knows the numerals used here.
use Prim.Native.String.{String}
use text.Mathlib.Text.{◌==◌ as str_eq}
use droidcam_whip_c.Options.Accepted.{IsPlain, render, parse_args-render}
use droidcam_whip_c.Common.{true, false, refl, some, [], ◌≡◌, ◌∷◌, if◌then◌else◌, List}
use droidcam_whip_c.Options.{
  usage, hevc, start, single, defaults, parse_args, main_options, value_option, parse_format,
  Options,
}
use droidcam_whip_c.Common.Int.{pos, ℤ}

abbrev some_atoi : String → ℤ
some_atoi s = if str_eq s "8080" then pos 8080 else if str_eq s "640" then pos 640 else pos 0

abbrev phone_only : List String
phone_only = "10.0.0.7" ∷ []

abbrev phone_options : Options
phone_options = record defaults { phone_ip = some "10.0.0.7" }

bad_port_test : main_options some_atoi ("10.0.0.7" ∷ "--port" ∷ "x" ∷ []) ≡ usage
unfolding main_options parse_args value_option
bad_port_test = refl

-- A value option at the end of the line has no value and is taken for an address.
dangling_port_test :
    main_options some_atoi ("--port" ∷ [])
    ≡ start (record defaults { phone_ip = some "--port" }) "--port"
unfolding main_options parse_args value_option
dangling_port_test = refl

parse_format_test : parse_format "h265" ≡ hevc
unfolding parse_format
parse_format_test = refl

phone-IsPlain : IsPlain "10.0.0.7"
unfolding value_option single
phone-IsPlain = (refl, λ o. refl)

url-IsPlain : IsPlain "rtsp://host/cam"
unfolding value_option single
url-IsPlain = (refl, λ o. refl)

rendered_test :
    parse_args some_atoi defaults
      (render "10.0.0.7" "rtsp://host/cam" "8080" "640" "640" "640" "jpg")
    ≡ record {
      port = pos 8080;
      width = pos 640;
      height = pos 640;
      fps = pos 640;
      video_format = parse_format "jpg";
      use_hw = false;
      use_hdr = true;
      phone_ip = some "10.0.0.7";
      rtsp_url = "rtsp://host/cam";
      gui_mode = false;
    }
rendered_test =
    parse_args-render some_atoi "10.0.0.7" "rtsp://host/cam" "8080" "640" "640" "640" "jpg"
      phone-IsPlain url-IsPlain
