-- ===== src/Proxy.antt =====
-- src/proxy.cc: the relay between the clients of a local port and the phone behind usbmuxd. Each
-- call that leaves the thread is logged; what it answers is a parameter, a function of the calls
-- made before it, and so is `thread_active`, which another thread clears.
pub mod Events
mod Drops
pub mod Relay
pub mod Sockets
pub mod Server
mod Tests
use droidcam_whip_c.Common.{
  ℕ, zero, suc, Bool, true, false, not, ◌&&◌, ◌||◌, ◌==◌, List, [], ◌∷◌, ◌++◌, Option, none, some,
  if◌then◌else◌, ltb,
}
use droidcam_whip_c.Common.Int.{ℤ, pos, ltb_ℤ}
use mathlib.Core.List.{reverse}
use droidcam_whip_c.Net.{Received, got, broken}
use droidcam_whip_c.Proxy.Events.{
  Event, accept, usbmuxd_connect, set_nonblock, recv, send_all, close, sleep,
}

-- What `select` answers; `ready` tells the descriptors that it leaves in its set.
pub data Select : Type 0 where
  timeout failed : Select
  ready : (ℕ → Bool) → Select

-- A descriptor is its number, `none` for INVALID_SOCKET and for an `rc` that is not positive.
pub record Env : Type 0 where
  pub active : List Event → Bool
  pub accepts : List Event → Option ℕ
  pub connects : List Event → Option ℕ
  pub selects : List Event → Select
  pub recvs : List Event → ℕ → Received
  pub sends : List Event → ℕ → List ℕ → ℤ

pub record ProxyConn : Type 0 where
  pub client : ℕ
  pub remote : ℕ

-- The local variables of `proxy_run`: `set` is the descriptor set, `list` the deque.
pub record ProxyRun : Type 0 where
  pub set : ℕ → Bool
  pub list : List ProxyConn
  pub events : List Event

abbrev pub log : Event → ProxyRun → ProxyRun
log e s = record s { events = e ∷ s.events }

-- `FD_SET` and `FD_CLR`
abbrev pub fd_write : ℕ → Bool → (ℕ → Bool) → ℕ → Bool
fd_write k b set j = if j == k then b else set j

unfoldable pub proxy_start : ProxyRun
proxy_start = record { set = λ k. false; list = []; events = [] }

-- A client that was accepted, and the connection to the phone that was tried for it.
add_conn : ProxyRun → ℕ → Option ℕ → ProxyRun
add_conn s client none = log (close client) s
add_conn s client (some remote) = log (set_nonblock remote) (record s {
  set = fd_write remote true (fd_write client true s.set);
  list = s.list ++ (record { client = client; remote = remote } ∷ []);
})

-- The two `net_close` and `FD_CLR` of a connection that failed.
unfoldable pub close_conn : ProxyConn → ProxyRun → ProxyRun
close_conn elem s = record (log (close elem.remote) (log (close elem.client) s)) {
  set = fd_write elem.remote false (fd_write elem.client false s.set);
}

module _ (env : Env) where
  connect_client : ProxyRun → ℕ → ProxyRun
  connect_client s client =
      let rc = env.connects s.events in add_conn (log (usbmuxd_connect rc) s) client rc

  connect_accepted : ProxyRun → Option ℕ → ProxyRun
  connect_accepted s none = s
  connect_accepted s (some client) = connect_client s client

  -- The first part of a pass: `net_accept` and what follows.
  unfoldable pub accept_client : ProxyRun → ProxyRun
  unfolding connect_accepted connect_client add_conn
  accept_client s = let k = env.accepts s.events in connect_accepted (log (accept k) s) k

  -- `net_send_all` of what was received; true is an error.
  forward : ProxyRun → ℕ → List ℕ → Bool × ProxyRun
  forward s to bytes =
      let ok = ltb_ℤ (pos 0) (env.sends s.events to bytes) in (not ok, log (send_all to bytes ok) s)

  -- One direction of a connection; true is an error.
  relay_chunk : ProxyRun → ℕ → Received → Bool × ProxyRun
  relay_chunk s to (got []) = (true, s)
  relay_chunk s to (got (b ∷ bs)) = forward s to (b ∷ bs)
  relay_chunk s to broken = (true, s)

  unfoldable pub relay : ProxyRun → ℕ → ℕ → Bool × ProxyRun
  unfolding relay_chunk forward
  relay s from to = let r = env.recvs s.events from in relay_chunk (log (recv from r) s) to r

  relay_if : Bool → ProxyRun → ℕ → ℕ → Bool × ProxyRun
  relay_if true s from to = relay s from to
  relay_if false s from to = (false, s)

  -- A connection in the loop behind `select`: whether it stays, and the state behind it.
  unfoldable pub serve : (ℕ → Bool) → ProxyConn → ProxyRun → Bool × ProxyRun
  unfolding relay_if
  serve read_fds elem s =
      let (err, s') = relay_if (read_fds elem.client) s elem.client elem.remote in
      let (err', s'') = relay_if (read_fds elem.remote) s' elem.remote elem.client in
      if err || err' then (false, close_conn elem s'') else (true, s'')

  -- The loop over the list: the connections that stay.
  unfoldable pub serve_all : (ℕ → Bool) → List ProxyConn → ProxyRun → List ProxyConn × ProxyRun
  serve_all read_fds [] s = ([], s)
  serve_all read_fds (elem ∷ elems) s =
      let (stays, s') = serve read_fds elem s in
      let (rest, s'') = serve_all read_fds elems s' in (if stays then elem ∷ rest else rest, s'')

  serve_ready : ProxyRun → (ℕ → Bool) → ProxyRun
  serve_ready s left =
      let (stay, s') = serve_all (λ k. s.set k && left k) s.list s in record s' { list = stay }

  -- `select` and what follows.
  select_pass : ProxyRun → Select → ProxyRun
  select_pass s timeout = s
  select_pass s failed = log sleep s
  select_pass s (ready left) = serve_ready s left

  serve_pass : ProxyRun → ProxyRun
  serve_pass s = elim s.list [
    | [] ↦ log sleep s
    | elem ∷ elems ↦ select_pass s (env.selects s.events)
  ]

  -- A pass of the loop of `proxy_run`.
  unfoldable pub pass : ProxyRun → ProxyRun
  unfolding serve_pass select_pass serve_ready
  pass s = serve_pass (accept_client s)

  -- At most the given number of passes, or until the thread is told to end.
  unfoldable pub passes : ℕ → ProxyRun → ProxyRun
  passes zero s = s
  passes (suc n) s = elim (env.active s.events) [ true ↦ passes n (pass s) | false ↦ s ]

-- Behind the loop: the connections are closed from the back.
unfoldable pub close_all : List ProxyConn → List Event → List Event
close_all [] es = es
close_all (elem ∷ elems) es = close_all elems (close elem.remote ∷ close elem.client ∷ es)

unfoldable pub proxy_end : ProxyRun → List Event
unfolding close_all
proxy_end s = close_all (reverse s.list) s.events
