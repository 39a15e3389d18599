-- ===== src/Devices/Mdns/Tests.antt =====
-- Replies of a phone with the name `d` and the label `Pixel`, and a key that is no name.
use droidcam_whip_c.Common.{
  ◌+◌, ◌==◌, length, if◌then◌else◌, true, false, refl, ◌≡◌, List, ℕ, [], ◌∷◌, none, some, arith,
  replicate,
}
use droidcam_whip_c.Devices.{new_device, get_device, add_device, device_slots}
use droidcam_whip_c.Devices.Mdns.{wifi_text, query_callbacks, print_model, txt_model, up_to_nul}
use droidcam_whip_c.Devices.Mdns.Fits.{IsLimited}
use droidcam_whip_c.Devices.Fits.{length-take-le, AllFit}
use droidcam_whip_c.Devices.Mdns.Named.{wifi_model, query_callbacks-finds, label_of, answer_of}
use droidcam_whip_c.Devices.Adb.Fits.{ReadFits}
use droidcam_whip_c.Devices.Adb.{do_reload}
use droidcam_whip_c.Devices.Discovered.{no_device-AllFit, discovered-AllFit}
use droidcam_whip_c.Devices.Mdns.Sockets.{
  recv_query, recv_all, recv_loop, open_query, any_socket, close_all, ready, open_socket,
  query_send, select, query_recv, close, Env, mdns_do_reload,
}
use droidcam_whip_c.Devices.Mdns.Sockets.Closed.{mdns_do_reload-closes, opens_of, closes_of}
use droidcam_whip_c.Devices.Mdns.Sockets.Kept.{mdns_do_reload-AllFit}
use droidcam_whip_c.Common.Int.{negsuc}
use droidcam_whip_c.Devices.Usb.{DeviceInfo, usb_do_reload}

abbrev phone : List ℕ
phone = 100 ∷ []

-- `10.0`
abbrev sender : List ℕ
sender = 49 ∷ 48 ∷ 46 ∷ 48 ∷ []

abbrev pixel : List ℕ
pixel = 80 ∷ 105 ∷ 120 ∷ 101 ∷ 108 ∷ []

-- The key `n` is taken for `name`, for only as many bytes are compared as the key has.
short_key_test : txt_model ((110 ∷ [], pixel) ∷ []) sender [] ≡ print_model pixel wifi_text sender
unfolding txt_model print_model
short_key_test = refl

phone_added :
    add_device device_slots phone 1 ≡ some (0, some (new_device phone 1) ∷ replicate 31 none)
unfolding add_device
phone_added = refl

query_callbacks-finds_example :
    get_device
      (query_callbacks device_slots (answer_of phone sender 7 ∷ label_of phone sender pixel ∷ []))
      phone
      1
    ≡ some (
      0,
      record {
        serial = phone;
        model = wifi_model pixel sender;
        state = [];
        address = sender;
        handle = 7;
      },
    )
unfolding up_to_nul
query_callbacks-finds_example =
    query_callbacks-finds device_slots (some (new_device phone 1) ∷ replicate 31 none) phone sender
      pixel 7 0 (omega arith) refl phone_added (omega arith) (omega arith) refl

answer-IsLimited : IsLimited (answer_of phone sender 7)
answer-IsLimited n = length-take-le n phone

abbrev an_iphone : DeviceInfo
an_iphone = record { udid = phone; handle = 3 }

discovered-AllFit_example :
    AllFit (query_callbacks device_slots (answer_of phone sender 7 ∷ []))
    × ReadFits (do_reload false true phone device_slots)
    × AllFit (usb_do_reload true 44 (some (an_iphone ∷ [])) device_slots)
discovered-AllFit_example =
    discovered-AllFit (answer_of phone sender 7 ∷ []) false true phone true 44
      (some (an_iphone ∷ [])) (answer-IsLimited, tt) (omega arith)

-- The second socket does not open; the queries are not sent, and their negative number counts as
-- one of a query that was.
abbrev answers : Env
answers = record {
  opens = λ events. if length events == 2 then none else some (length events + 5);
  sends = λ events. negsuc 0;
  selects = λ events. ready (λ sock. true);
  replies = λ events. answer_of phone sender 7 ∷ [];
  time_is_up = λ events. true;
}

reload_test :
    (mdns_do_reload answers 4 device_slots).events
    ≡ close 8
      ∷ close 5
      ∷ query_recv 8
      ∷ query_recv 5
      ∷ select
      ∷ query_send 8
      ∷ open_socket (some 8)
      ∷ open_socket none
      ∷ query_send 5
      ∷ open_socket (some 5)
      ∷ []
unfolding mdns_do_reload close_all any_socket open_query recv_loop recv_all recv_query
reload_test = refl

mdns_do_reload-closes_example :
    let s = mdns_do_reload answers 4 device_slots in closes_of 5 s.events ≡ opens_of 5 s.events
mdns_do_reload-closes_example = mdns_do_reload-closes answers 4 device_slots 5 (omega arith)

mdns_do_reload-AllFit_example : AllFit (mdns_do_reload answers 4 device_slots).slots
mdns_do_reload-AllFit_example =
    mdns_do_reload-AllFit answers 4 device_slots (λ events. (answer-IsLimited, tt))
      (no_device-AllFit 32)
