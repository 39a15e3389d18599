-- ===== src/Source/Tests.antt =====
-- Tests of the network thread of src/source.cc.
use droidcam_whip_c.Common.{
  arith, ◌+◌, ◌%◌, [], ◌∷◌, suc, ltb, List, ℕ, true, false, some, none, ◌≡◌, refl,
}
use droidcam_whip_c.Source.Ports.{tries_rotate, connect_device-Forwards, tries, Forwards, Refuses}
use droidcam_whip_c.Source.{
  net_connect, send, thread_start, port_start, passes, connect_device, Event, start_source, adb,
  thread_end, set_recv_buf_len, pass, Source, SourceConfig, Env,
}
use droidcam_whip_c.Source.Sockets.{video_thread_closes, open_socket}
use droidcam_whip_c.Common.Int.{pos}
use droidcam_whip_c.Options.{StreamFormat}

abbrev count_events : List Event → ℕ
count_events [] = 0
count_events (e ∷ es) = suc (count_events es)

-- A network in which each connection is a new socket, the request is taken, and every third
-- event a frame fails; no device refuses, and a stop never comes.
abbrev network : Env
network = record {
  finds = λ es. some (1, false);
  net_connects = λ es port. some (count_events es);
  forwards = λ es port. true;
  usb_connects = λ es. none;
  sends = λ es. pos 1;
  receives = λ es. ltb 0 (count_events es % 3);
  stops = λ es. false;
  resets = λ es. false;
}

-- An ADB device that is online, with every forward refused.
abbrev refusing : Env
refusing = record network { forwards = λ es port. false }

abbrev config : SourceConfig
config = record {
  config_width = 640;
  config_height = 480;
  config_port = 4747;
  config_format = StreamFormat.hevc;
  config_hdr = true;
}

abbrev phone : Source
phone = start_source config

abbrev adb_phone : Source
adb_phone = record phone { kind = adb }

-- The first pass connects and sends the request.
request_test :
    (pass network phone).events
    ≡ set_recv_buf_len 0
      ∷ send 0 (record {
        format = StreamFormat.hevc;
        width = 640;
        height = 480;
        usb_port = 0;
        hdr = true;
        nonce = 5912;
      })
      ∷ net_connect 4747 (some 0)
      ∷ []
unfolding pass
request_test = refl

video_thread_closes_example :
    open_socket (thread_end network (passes network 3 (thread_start phone))).events ≡ some none
video_thread_closes_example = video_thread_closes network 3 phone refl refl refl

connect_device-Forwards_example : Forwards network 1 adb_phone (connect_device network adb_phone)
connect_device-Forwards_example = connect_device-Forwards network 1 adb_phone refl refl

tries_rotate_example :
    Refuses adb_phone (tries refusing (suc 12) adb_phone) (port_start adb_phone 1 + 12 % 9)
tries_rotate_example =
    tries_rotate refusing 1 (λ es. refl) (λ es port. refl) 12 adb_phone refl (omega arith)
