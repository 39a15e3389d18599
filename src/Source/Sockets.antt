-- ===== src/Source/Sockets.antt =====
-- The sockets of `video_thread` in src/source.cc: at most one is open, it is used only while it is
-- open, it is closed once, and the decoder is released only when none is open.
use droidcam_whip_c.Common.{
  ◌&&◌, zero, suc, if◌then◌else◌, if-cases, ap, ◌∙◌, refl, [], ◌==◌, ◌∷◌, arith, true, not, false,
  Bool, ℕ, List, Option, some, none, ◌≡◌,
}
use droidcam_whip_c.Source.{
  connect_kind, thread_start, passes, thread_end, video_request, connecting_pass, pass, clear_reset,
  ios, adb, wifi, no_device, connect_usb, not_found, receive_frame, connect_mdns, running_at,
  running_pass, connect_ios, request_video, DeviceType, log, connect_adb, release_decoder,
  net_close, set_recv_buf_len, receive, send, usb_connect, net_connect, loop_end, connect_to,
  connect_forward, slow_loop, connect_device, Event, choose_port, Source, Env,
}
use droidcam_whip_c.Common.Int.{pos, ltb_ℤ}

abbrev when : Bool → Option ℕ → Option (Option ℕ)
when true k = some k
when false k = none

abbrev is_open : Option ℕ → ℕ → Bool
is_open none k = false
is_open (some j) k = j == k

abbrev is_closed : Option ℕ → Bool
is_closed none = true
is_closed (some j) = false

-- The rules: the socket that is open before an event and the one behind it, if it may happen.
abbrev step : Option ℕ → Event → Option (Option ℕ)
step o (net_connect p k) = when (is_closed o) k
step o (usb_connect p k) = when (is_closed o) k
step o (send k r) = when (is_open o k) o
step o (receive k ok) = when (is_open o k) o
step o (set_recv_buf_len k) = when (is_open o k) o
step o (net_close k) = when (is_open o k) none
step o release_decoder = when (is_closed o) o
step o e = some o

abbrev step_from : Option (Option ℕ) → Event → Option (Option ℕ)
step_from none e = none
step_from (some o) e = step o e

-- The socket that is open behind the events, the latest first; `none` if a rule was broken.
unfoldable pub open_socket : List Event → Option (Option ℕ)
open_socket [] = some none
open_socket (e ∷ es) = step_from (open_socket es) e

-- The socket that the source holds is the one that is open, and the video runs over it.
abbrev pub IsSound : Source → Type 0
IsSound s = (open_socket s.events ≡ some s.sock) × s.video_running ≡ not (is_closed s.sock)

-- In the middle of a pass: a socket may be open while the video does not run yet.
abbrev Holds : Source → Type 0
Holds s = open_socket s.events ≡ some s.sock

module _ (env : Env) where
  connect_to-Holds :
      (s : Source) (port : ℕ) → Holds s → s.sock ≡ none → Holds (connect_to env s port)
  unfolding connect_to open_socket
  connect_to-Holds s port h n = rw h (rw n refl)

  choose_port-Holds :
      (s : Source) (iter : ℕ)
      → Holds s
      → s.sock ≡ none
      → Holds (choose_port s iter) × (choose_port s iter).sock ≡ none
  unfolding choose_port open_socket
  choose_port-Holds s iter h n = ground arith

  connect_forward-Holds :
      (s : Source) (iter : ℕ) → Holds s → s.sock ≡ none → Holds (connect_forward env s iter)
  unfolding connect_forward connect_to open_socket
  connect_forward-Holds s iter h n = ground arith

  connect_adb-Holds : (s : Source) → Holds s → s.sock ≡ none → Holds (connect_adb env s)
  unfolding connect_adb not_found open_socket
  connect_adb-Holds s h n = go (env.finds s.events) refl
    where
      go : (found : Option (ℕ × Bool)) → env.finds s.events ≡ found → Holds (connect_adb env s)
      go none e = rw (connect_adb, e) (ground arith)
      go (some (iter, true)) e = rw (connect_adb, e) (ground arith)
      go (some (iter, false)) e =
          let (g, m) = choose_port-Holds s iter h n in
          rw (connect_adb, e) (connect_forward-Holds (choose_port s iter) iter g m)

  connect_mdns-Holds : (s : Source) → Holds s → s.sock ≡ none → Holds (connect_mdns env s)
  unfolding connect_mdns not_found connect_to open_socket
  connect_mdns-Holds s h n = ground arith

  connect_ios-Holds : (s : Source) → Holds s → s.sock ≡ none → Holds (connect_ios env s)
  unfolding connect_ios connect_usb not_found open_socket
  connect_ios-Holds s h n = ground arith

  connect_kind-Holds :
      (k : DeviceType) (s : Source) → Holds s → s.sock ≡ none → Holds (connect_kind env k s)
  unfolding connect_kind
  connect_kind-Holds no_device s h n = h ∙ ap some n
  connect_kind-Holds wifi s h n = connect_to-Holds s s.port h n
  connect_kind-Holds adb s h n = connect_adb-Holds s h n
  connect_kind-Holds ios s h n = connect_ios-Holds s h n
  connect_kind-Holds DeviceType.mdns_wifi s h n = connect_mdns-Holds s h n

  connect_device-Holds : (s : Source) → Holds s → s.sock ≡ none → Holds (connect_device env s)
  unfolding connect_device
  connect_device-Holds s h n = connect_kind-Holds s.kind s h n

  slow_loop-IsSound : (s : Source) → Holds s → IsSound (slow_loop env s)
  unfolding slow_loop loop_end open_socket
  slow_loop-IsSound s h = ground arith

  loop_end-IsSound : (s : Source) → Holds s → IsSound (loop_end env s)
  unfolding loop_end open_socket
  loop_end-IsSound s h = ground arith

  closed-Holds :
      (s : Source) (k : ℕ)
      → open_socket s.events ≡ some (some k)
      → Holds (record (log (net_close k) s) { sock = none })
  unfolding open_socket
  closed-Holds s k h = ground arith

  receive_frame-IsSound :
      (s : Source) (k : ℕ)
      → Holds s
      → s.sock ≡ some k
      → s.video_running ≡ true
      → IsSound (receive_frame env s k).1 × (receive_frame env s k).1.sock ≡ some k
  unfolding receive_frame open_socket
  receive_frame-IsSound s k h n r = ground arith

  cleared-Holds : (s : Source) → Holds s → Holds (log clear_reset s)
  unfolding open_socket
  cleared-Holds s h = rw h refl

  running_pass-IsSound :
      (s : Source) (k : ℕ)
      → Holds s
      → s.sock ≡ some k
      → s.video_running ≡ true
      → IsSound (running_pass env s k)
  unfolding running_pass
  running_pass-IsSound s k h n r =
      let p = receive_frame env s k in
      let (w, m) = receive_frame-IsSound s k h n r in
      let closed = record (log (net_close k) (log clear_reset p.1)) { sock = none } in
      let g = closed-Holds (log clear_reset p.1) k (cleared-Holds p.1 w.0 ∙ ap some m) in
      if-cases IsSound p.0 p.1 (slow_loop env (record closed { video_running = false })) (λ _. w)
        (λ _. slow_loop-IsSound (record closed { video_running = false }) g)

  request_video-IsSound :
      (s : Source) (k : ℕ) → Holds s → s.sock ≡ some k → IsSound (request_video env s k)
  unfolding request_video open_socket
  request_video-IsSound s k h n =
      let t = log (send k (video_request env s)) s in
      let e : open_socket t.events ≡ some (some k) = ground arith in
      let on = record (log (set_recv_buf_len k) t) { video_running = true } in
      let off = record (log (net_close k) t) { sock = none } in
      if-cases IsSound (ltb_ℤ (pos 0) (env.sends s.events)) on (slow_loop env off)
        (λ _. ground arith) (λ _. slow_loop-IsSound off (closed-Holds t k e))

  connecting_pass-IsSound : (s : Source) → Holds s → s.sock ≡ none → IsSound (connecting_pass env s)
  unfolding connecting_pass
  connecting_pass-IsSound s h n = go (connect_device env s).sock refl
    where
      go : (k : Option ℕ) → (connect_device env s).sock ≡ k → IsSound (connecting_pass env s)
      go none e =
          rw (connecting_pass, e)
            (slow_loop-IsSound (connect_device env s) (connect_device-Holds s h n))
      go (some k) e =
          rw (connecting_pass, e)
            (request_video-IsSound (connect_device env s) k (connect_device-Holds s h n) e)

  running_at-IsSound :
      (s : Source) (k : Option ℕ)
      → IsSound s
      → s.sock ≡ k
      → s.video_running ≡ true
      → IsSound (running_at env s k)
  unfolding running_at
  running_at-IsSound s none v n r = v
  running_at-IsSound s (some k) (h, _) n r = running_pass-IsSound s k h n r

  pass-IsSound : (s : Source) → IsSound s → IsSound (pass env s)
  unfolding pass
  pass-IsSound s v =
      let h = v.0 in
      let r = v.1 in
      if-cases IsSound (s.activated && s.is_showing)
        (if s.video_running then running_at env s s.sock else connecting_pass env s)
        (loop_end env s)
        (λ _.
          if-cases IsSound s.video_running (running_at env s s.sock) (connecting_pass env s)
            (λ e. running_at-IsSound s s.sock v refl e)
            (λ e. connecting_pass-IsSound s h (ground arith)))
        (λ _. loop_end-IsSound s h)

  -- The video runs exactly while a socket is open, after any number of passes.
  pub passes-IsSound : (n : ℕ) (s : Source) → IsSound s → IsSound (passes env n s)
  unfolding passes
  passes-IsSound zero s v = v
  passes-IsSound (suc n) s v = go (passes-IsSound n (pass env s)) (env.stops s.events) refl
    where
      go :
          (IsSound (pass env s) → IsSound (passes env n (pass env s)))
          → (b : Bool) → env.stops s.events ≡ b
          → IsSound (passes env (suc n) s)
      go rec true e = rw (passes, e) v
      go rec false e = rw (passes, e) (rec (pass-IsSound s v))

  thread_start-IsSound :
      (s : Source)
      → s.events ≡ []
      → s.sock ≡ none
      → s.video_running ≡ false
      → IsSound (thread_start s)
  unfolding thread_start open_socket
  thread_start-IsSound s e n r = ground arith

  -- For every device, after any number of passes of the network thread and whatever the network,
  -- the devices and the other threads do: no socket is opened over an open one, each is used only
  -- while it is open and closed once, the decoder is released only while none is open, and at the
  -- end of the thread none is left open.
  pub video_thread_closes :
      (n : ℕ) (s : Source)
      → s.events ≡ []
      → s.sock ≡ none
      → s.video_running ≡ false
      → open_socket (thread_end env (passes env n (thread_start s))).events ≡ some none
  unfolding thread_end open_socket
  video_thread_closes n s e k r =
      let t = passes env n (thread_start s) in
      let h = (passes-IsSound n (thread_start s) (thread_start-IsSound s e k r)).0 in ground arith
