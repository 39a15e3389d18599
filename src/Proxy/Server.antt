-- ===== src/Proxy/Server.antt =====
-- The class `Proxy` of src/proxy.cc: its constructor, `Start`, and its destructor, with the socket that
-- the relay's thread listens on. Each call is logged, the latest first.
pub mod Left
use droidcam_whip_c.Common.{
  ℕ, Bool, true, false, ◌&&◌, List, [], ◌∷◌, Option, none, some, if◌then◌else◌, ltb,
}
use droidcam_whip_c.Common.Int.{ℤ, pos, ltb_ℤ}

pub data ServerEvent : Type 0 where
  listen : Option ℕ → ServerEvent
  listen_port close : ℕ → ServerEvent
  create_thread : Bool → ServerEvent
  join_thread : ServerEvent

-- What `net_listen`, `net_listen_port` and `pthread_create` return, by the calls before.
pub record ServerEnv : Type 0 where
  pub listens : List ServerEvent → Option ℕ
  pub ports : List ServerEvent → ℤ
  pub creates : List ServerEvent → Bool

-- `proxy_device` is the number of the device, `proxy_sock` is `none` for INVALID_SOCKET.
pub record Server : Type 0 where
  pub proxy_device : Option ℕ
  pub proxy_sock : Option ℕ
  pub port_local : ℤ
  pub port_remote : ℕ
  pub thread_active : Bool
  pub events : List ServerEvent

abbrev pub log : ServerEvent → Server → Server
log e s = record s { events = e ∷ s.events }

unfoldable pub new_proxy : Server
new_proxy = record {
  proxy_device = none;
  proxy_sock = none;
  port_local = pos 0;
  port_remote = 0;
  thread_active = false;
  events = [];
}

unfoldable pub close_sock : Option ℕ → Server → Server
close_sock none s = s
close_sock (some sock) s = log (close sock) s

module _ (env : ServerEnv) where
  -- `proxy_sock` and `port_local` by what `net_listen` returns.
  listening : Option ℕ → Server → Server
  listening none s = record s { proxy_sock = none; port_local = pos 0 }
  listening (some sock) s = record (log (listen_port sock) s) {
    proxy_sock = some sock;
    port_local = env.ports s.events;
  }

  unfoldable pub open_server : Server → Server
  unfolding listening
  open_server s = let sock = env.listens s.events in listening sock (log (listen sock) s)

  start_thread : Server → Server
  start_thread s =
      if ltb_ℤ (pos 0) s.port_local
      then record (log (create_thread (env.creates s.events)) s) {
        thread_active = env.creates s.events;
      }
      else record s { thread_active = false }

  -- `Start`: the port that it returns, and the state.
  unfoldable pub start_proxy : ℕ → ℕ → Server → ℤ × Server
  unfolding start_thread
  start_proxy dev remote_port s =
      let s = record s { proxy_device = some dev; port_remote = remote_port } in
      if s.thread_active
      then (s.port_local, s)
      else (let s' = start_thread (open_server (close_sock s.proxy_sock s)) in
          (if s'.thread_active then s'.port_local else pos 0, s'))

  unfoldable pub start_all : List (ℕ × ℕ) → Server → Server
  start_all [] s = s
  start_all ((dev, port) ∷ calls) s = start_all calls (start_proxy dev port s).1

-- `~Proxy`: behind the join the thread has ended.
unfoldable pub end_proxy : Server → Server
end_proxy s =
    if s.thread_active
    then close_sock s.proxy_sock (record (log join_thread s) { thread_active = false })
    else s
