-- ===== src/Proxy/Tests.antt =====
-- Tests of src/proxy.cc.
use droidcam_whip_c.Common.{
  ◌&&◌, not, false, ◌+◌, length, ◌==◌, if◌then◌else◌, ℕ, List, [], ◌∷◌, true, some, none, ◌≡◌, refl,
  ltb, suc,
}
use droidcam_whip_c.Common.Int.{ltb_ℤ, pos}
use droidcam_whip_c.Net.{got}
use droidcam_whip_c.Proxy.{
  pass, accept_client, serve_all, serve, relay, close_conn, Env, passes, proxy_start, proxy_end,
  ready,
}
use droidcam_whip_c.Proxy.Events.{
  stuck, Event, accept, usbmuxd_connect, set_nonblock, recv, send_all, close, IsRelayed, pending,
  opened, closed,
}
use droidcam_whip_c.Proxy.Relay.{proxy_run-IsRelayed}
use droidcam_whip_c.Proxy.Sockets.{proxy_run_closes}
use droidcam_whip_c.Proxy.Server.{
  close_sock, new_proxy, open_server, start_all, start_proxy, end_proxy, ServerEnv,
}
use droidcam_whip_c.Proxy.Server.Left.{start_all-leaves, is_sock, closes_of, listens_of}

abbrev count_events : List Event → ℕ
count_events [] = 0
count_events (e ∷ es) = suc (count_events es)

-- One client comes, the phone answers, and the descriptor 5 of the client is always ready.
abbrev one_client : Env
one_client = record {
  active = λ es. true;
  accepts = λ es. if ltb 0 (count_events es) then none else some 5;
  connects = λ es. some 6;
  selects = λ es. ready (λ k. k == 5);
  recvs = λ es k. if ltb (count_events es) 5 then got (71 ∷ 69 ∷ []) else got [];
  sends = λ es to bytes. pos 1;
}

-- The client sends two bytes, and then it hangs up.
relay_test :
    proxy_end (passes one_client 2 proxy_start)
    ≡ close 6
      ∷ close 5
      ∷ recv 5 (got [])
      ∷ accept none
      ∷ send_all 6 (71 ∷ 69 ∷ []) true
      ∷ recv 5 (got (71 ∷ 69 ∷ []))
      ∷ set_nonblock 6
      ∷ usbmuxd_connect (some 6)
      ∷ accept (some 5)
      ∷ []
unfolding proxy_start passes proxy_end pass accept_client serve_all serve relay close_conn
relay_test = refl

proxy_run-IsRelayed_example :
    let es = proxy_end (passes one_client 3 proxy_start) in
    IsRelayed es × (pending es ≡ none) × stuck 6 es ≡ false
proxy_run-IsRelayed_example = proxy_run-IsRelayed one_client 3 6

proxy_run_closes_example :
    closed 6 (proxy_end (passes one_client 3 proxy_start))
    ≡ opened 6 (proxy_end (passes one_client 3 proxy_start))
proxy_run_closes_example = proxy_run_closes one_client 3 6

-- A first `Start` whose thread is not created, and a second one, for which the system has no memory
-- for a thread either.
abbrev no_threads : ServerEnv
no_threads = record {
  listens = λ events. some (length events + 4);
  ports = λ events. pos 5000;
  creates = λ events. false;
}

-- The first socket is closed by the second call, the second one stays open.
left_open_test :
    (end_proxy (start_all no_threads ((1, 4747) ∷ (1, 4747) ∷ []) new_proxy)).proxy_sock ≡ some 8
unfolding end_proxy start_all start_proxy open_server close_sock new_proxy
left_open_test = refl

start_all-leaves_example :
    let (result, s) =
      start_proxy no_threads 1 4747 (start_all no_threads ((1, 4747) ∷ []) new_proxy) in
    let e = end_proxy s in
    (ltb_ℤ (pos 0) result ≡ s.thread_active)
    × (listens_of 8 e.events
        ≡ closes_of 8 e.events + (if not s.thread_active && is_sock 8 s.proxy_sock then 1 else 0))
start_all-leaves_example = start_all-leaves no_threads ((1, 4747) ∷ []) 1 4747 8
