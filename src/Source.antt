-- ===== src/Source.antt =====
-- `video_thread` and `connect_device` of src/source.cc: the life of the video connection. Each call
-- that leaves the thread is logged; what it answers is a parameter, a function of the calls made
-- before it, and so is what the other threads write to the flags of the source.
pub mod Sockets
pub mod Ports
mod Tests
use droidcam_whip_c.Common.{
  ◌*◌, not, if◌then◌else◌, ◌+◌, ◌&&◌, zero, suc, ℕ, Bool, true, false, List, [], ◌∷◌, Option, none,
  some, ltb,
}
use droidcam_whip_c.Options.{StreamFormat}
use droidcam_whip_c.Common.Int.{pos, ltb_ℤ, ℤ}

-- `enum DeviceType`; `no_device` is NONE.
pub data DeviceType : Type 0 where
  no_device wifi adb ios mdns_wifi : DeviceType

-- The fields of the request that `video_thread` prints into `video_req`.
pub record VideoRequest : Type 0 where
  pub format : StreamFormat
  pub width : ℕ
  pub height : ℕ
  pub usb_port : ℕ
  pub hdr : Bool
  pub nonce : ℕ

pub data Event : Type 0 where
  reload : Event
  net_connect : ℕ → Option ℕ → Event
  add_forward : ℕ → ℕ → Bool → Event
  clear_forwards : ℕ → ℕ → Event
  usb_connect : ℕ → Option ℕ → Event
  send : ℕ → VideoRequest → Event
  receive : ℕ → Bool → Event
  set_recv_buf_len net_close : ℕ → Event
  clear_reset release_decoder sleep : Event

-- `finds` is the index and whether the device is offline, as `GetDevice` gives them; a socket is
-- its number, `none` for INVALID_SOCKET; `usb_connects` also gives the port of the proxy.
pub record Env : Type 0 where
  pub finds : List Event → Option (ℕ × Bool)
  pub net_connects : List Event → ℕ → Option ℕ
  pub forwards : List Event → ℕ → Bool
  pub usb_connects : List Event → Option (ℕ × ℕ)
  pub sends : List Event → ℤ
  pub receives : List Event → Bool
  pub stops : List Event → Bool
  pub resets : List Event → Bool

pub record Source : Type 0 where
  pub kind : DeviceType
  pub port : ℕ
  pub usb_port : ℕ
  pub activated : Bool
  pub is_showing : Bool
  pub video_running : Bool
  pub video_format : StreamFormat
  pub width : ℕ
  pub height : ℕ
  pub use_hdr : Bool
  pub sock : Option ℕ
  pub events : List Event

abbrev pub log : Event → Source → Source
log e s = record s { events = e ∷ s.events }

-- The ports that a device's forwards may use: nine from `port_start` on.
abbrev pub port_start : Source → ℕ → ℕ
port_start s iter = s.port + iter * 10

abbrev pub port_last : Source → ℕ → ℕ
port_last s iter = port_start s iter + 8

choose_port : Source → ℕ → Source
choose_port s iter =
    if ltb s.usb_port (port_start s iter)
    then record s { usb_port = port_start s iter }
    else if ltb (port_last s iter) s.usb_port
    then log (clear_forwards (port_start s iter) (port_last s iter))
        (record s { usb_port = port_start s iter })
    else s

module _ (env : Env) where
  -- `return net_connect(...)`: the socket is left in `sock`, as its caller does.
  connect_to : Source → ℕ → Source
  connect_to s port =
      let k = env.net_connects s.events port in record (log (net_connect port k) s) { sock = k }

  -- The forward of an ADB device at `usb_port`, and the connection through it.
  connect_forward : Source → ℕ → Source
  connect_forward s iter =
      let ok = env.forwards s.events s.usb_port in
      let s' = log (add_forward s.usb_port s.port ok) s in
      let t = connect_to s' s'.usb_port in
      if not ok then record s' { usb_port = s'.usb_port + 1; sock = none } else elim t.sock [
        | some k ↦ t
        | none ↦ log (clear_forwards (port_start s iter) (port_last s iter)) t
      ]

  not_found : Source → Source
  not_found s = record (log reload s) { sock = none }

  connect_adb : Source → Source
  connect_adb s = elim (env.finds s.events) [
    | none ↦ not_found s
    | some (iter, offline) ↦
        if offline then record s { sock = none } else connect_forward (choose_port s iter) iter
  ]

  connect_mdns : Source → Source
  connect_mdns s = elim (env.finds s.events) [ none ↦ not_found s | some _ ↦ connect_to s s.port ]

  connect_usb : Source → Source
  connect_usb s = elim (env.usb_connects s.events) [
    | none ↦ record (log (usb_connect s.port none) s) { sock = none }
    | some (k, port) ↦ record (log (usb_connect s.port (some k)) s) {
      sock = some k;
      usb_port = port;
    }
  ]

  connect_ios : Source → Source
  connect_ios s = elim (env.finds s.events) [ none ↦ not_found s | some _ ↦ connect_usb s ]

  connect_kind : DeviceType → Source → Source
  connect_kind no_device s = record s { sock = none }
  connect_kind wifi s = connect_to s s.port
  connect_kind mdns_wifi s = connect_mdns s
  connect_kind adb s = connect_adb s
  connect_kind ios s = connect_ios s

  unfoldable pub connect_device : Source → Source
  unfolding connect_to connect_forward connect_adb connect_mdns connect_ios connect_usb not_found
      choose_port connect_kind
  connect_device s = connect_kind s.kind s

  -- The label LOOP, up to the end of the pass; `net_close` where a socket is left.
  abbrev close_socket : Source → Source
  close_socket s = elim s.sock [ none ↦ s | some k ↦ record (log (net_close k) s) { sock = none } ]

  loop_end : Source → Source
  loop_end s = log sleep (log release_decoder (close_socket (record s { video_running = false })))

  -- The label SLOW_LOOP.
  slow_loop : Source → Source
  slow_loop s = loop_end (log sleep s)

  -- `recv_video_frame` at the socket that is open; the C code has one there always.
  receive_frame : Source → ℕ → Bool × Source
  receive_frame s k =
      let ok = env.receives s.events in
      if env.resets s.events then (false, s) else (ok, log (receive k ok) s)

  -- A pass while the video runs.
  running_pass : Source → ℕ → Source
  running_pass s k =
      let (ok, s') = receive_frame s k in
      if ok
      then s'
      else slow_loop
          (record (log (net_close k) (log clear_reset s')) { video_running = false; sock = none })

  running_at : Source → Option ℕ → Source
  running_at s none = s
  running_at s (some k) = running_pass s k

  is_hevc : StreamFormat → Bool
  is_hevc StreamFormat.hevc = true
  is_hevc _ = false

  video_request : Source → VideoRequest
  video_request s = record {
    format = s.video_format;
    width = s.width;
    height = s.height;
    usb_port = s.usb_port;
    hdr = s.use_hdr && is_hevc s.video_format;
    nonce = 5912;
  }

  -- `net_send_all` of the request on a new connection, and what follows.
  request_video : Source → ℕ → Source
  request_video s k =
      let ret = env.sends s.events in
      let s' = log (send k (video_request s)) s in
      if ltb_ℤ (pos 0) ret
      then record (log (set_recv_buf_len k) s') { video_running = true }
      else slow_loop (record (log (net_close k) s') { sock = none })

  connecting_pass : Source → Source
  connecting_pass s =
      let s' = connect_device s in
      elim s'.sock [ none ↦ slow_loop s' | some k ↦ request_video s' k ]

  -- A pass of the loop of `video_thread`.
  unfoldable pub pass : Source → Source
  unfolding running_at running_pass connecting_pass request_video receive_frame slow_loop loop_end
      video_request is_hevc connect_device
  pass s =
      if s.activated && s.is_showing
      then (if s.video_running then running_at s s.sock else connecting_pass s)
      else loop_end s

  -- Behind the loop.
  unfoldable pub thread_end : Source → Source
  thread_end s = close_socket (record s { video_running = false })

  -- `video_thread` over at most the given number of passes, or until a stop is requested.
  unfoldable pub passes : ℕ → Source → Source
  passes zero s = s
  passes (suc n) s = elim (env.stops s.events) [ true ↦ s | false ↦ passes n (pass s) ]

-- The `switch` that `video_thread` begins with.
unfoldable pub thread_start : Source → Source
thread_start s =
    let reloaded = log reload s in
    if s.activated
    then elim s.kind [
      | no_device ↦ s
      | wifi ↦ s
      | adb ↦ reloaded
      | ios ↦ reloaded
      | mdns_wifi ↦ reloaded
    ]
    else s

-- `droidcam_source_start` with the fields of its configuration, up to the threads.
pub record SourceConfig : Type 0 where
  pub config_width : ℕ
  pub config_height : ℕ
  pub config_port : ℕ
  pub config_format : StreamFormat
  pub config_hdr : Bool

abbrev pub start_source : SourceConfig → Source
start_source c = record {
  kind = wifi;
  port = c.config_port;
  usb_port = 0;
  activated = true;
  is_showing = true;
  video_running = false;
  video_format = c.config_format;
  width = c.config_width;
  height = c.config_height;
  use_hdr = c.config_hdr;
  sock = none;
  events = [];
}
