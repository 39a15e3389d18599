-- ===== src/Net/Open.antt =====
-- The opening of sockets in src/net.cc, as built without _WIN32: `net_listen` and both `net_connect`.
-- Each call into the system is logged, and what it answers is a parameter; `errno` is kept, since
-- the code reads it behind `connect` whatever that returned.
pub mod Closed
mod Tests
use droidcam_whip_c.Common.{
  ℕ, suc, ◌+◌, ◌==◌, Bool, true, false, List, [], ◌∷◌, Option, none, some, if◌then◌else◌,
}

-- The values of `errno` that the code tells apart: EAGAIN, EWOULDBLOCK, EINPROGRESS, and any other.
pub data Errno : Type 0 where
  again would_block in_progress other : Errno

pub data Event : Type 0 where
  socket : Option ℕ → Event
  bind : ℕ → Bool → Event
  set_nonblock : ℕ → Bool → Bool → Event
  connect : ℕ → ℕ → Event
  select : ℕ → Event
  listen : ℕ → Bool → Event
  set_recv_timeout : ℕ → Event
  close : ℕ → Event
  free_addrs : Event

pub data Select : Type 0 where
  timeout failed ready : Select

-- What the system answers, by the events before. `connects` gives the error that sets `errno`,
-- `none` for a connection at once, which leaves it alone; an address is its number.
pub record Kernel : Type 0 where
  pub sockets : List Event → Option ℕ
  pub binds : List Event → Bool
  pub nonblocks : List Event → Bool
  pub connects : List Event → Option Errno
  pub selects : List Event → Select
  pub listens : List Event → Bool

pub record Net : Type 0 where
  pub errno : Errno
  pub events : List Event

abbrev pub log : Event → Net → Net
log e n = record n { events = e ∷ n.events }

abbrev is_pending : Errno → Bool
is_pending Errno.again = true
is_pending Errno.would_block = true
is_pending Errno.in_progress = true
is_pending Errno.other = false

-- `net_close` and INVALID_SOCKET
give_up : ℕ → Net → Option ℕ × Net
give_up sock n = (none, log (close sock) n)

-- The second `set_nonblock` of `net_connect`.
finish : ℕ → Bool → Net → Option ℕ × Net
unfolding give_up
finish sock true n = (some sock, n)
finish sock false n = give_up sock n

connect_errno : Option Errno → Net → Net
connect_errno none n = n
connect_errno (some e) n = record n { errno = e }

-- A failed `bind` of `net_connect` is only logged; it sets `errno`.
bound : ℕ → Bool → Net → Net
bound sock true n = log (bind sock true) n
bound sock false n = record (log (bind sock false) n) { errno = Errno.other }

module _ (k : Kernel) where
  after_select : ℕ → Select → Net → Option ℕ × Net
  unfolding finish
  after_select sock Select.timeout n = give_up sock n
  after_select sock Select.failed n = give_up sock n
  after_select sock Select.ready n =
      let b = k.nonblocks n.events in finish sock b (log (set_nonblock sock false b) n)

  -- From the test of `errno`.
  wait_connect : ℕ → Net → Option ℕ × Net
  unfolding after_select
  wait_connect sock n =
      if is_pending n.errno
      then after_select sock (k.selects n.events) (log (select sock) n)
      else give_up sock n

  start_connect : ℕ → ℕ → Bool → Net → Option ℕ × Net
  unfolding wait_connect connect_errno
  start_connect addr sock true n =
      wait_connect sock (log (connect sock addr) (connect_errno (k.connects n.events) n))
  start_connect addr sock false n = give_up sock n

  -- Behind `socket`.
  use_socket : Bool → ℕ → Option ℕ → Net → Option ℕ × Net
  unfolding start_connect bound
  use_socket binding addr none n = (none, n)
  use_socket binding addr (some sock) n =
      let n' = if binding then bound sock (k.binds n.events) n else n in
      let b = k.nonblocks n'.events in start_connect addr sock b (log (set_nonblock sock true b) n')

  -- `net_connect` of an address; `binding` is whether the local address is of its family.
  unfoldable pub connect_address : Bool → ℕ → Net → Option ℕ × Net
  unfolding use_socket
  connect_address binding addr n =
      let s = k.sockets n.events in use_socket binding addr s (log (socket s) n)

  connected : Option ℕ × Net → (Net → Option ℕ × Net) → Option ℕ × Net
  connected (some sock, n) others = (some sock, log (set_recv_timeout sock) n)
  connected (none, n) others = others n

  -- The loop of `net_connect` of a host, over its addresses, of which there is one at least.
  unfoldable pub connect_addresses : List (Bool × ℕ) → Net → Option ℕ × Net
  unfolding connected
  connect_addresses [] n = (none, log free_addrs n)
  connect_addresses ((binding, addr) ∷ addrs) n =
      connected (connect_address binding addr n) (connect_addresses addrs)

  -- `net_connect` of a host: `addrs` is what `getaddrinfo` gives, `none` for an error.
  unfoldable pub net_connect : Option (List (Bool × ℕ)) → Net → Option ℕ × Net
  net_connect none n = (none, n)
  net_connect (some addrs) n = connect_addresses addrs n

  listening : ℕ → Bool → Net → Option ℕ × Net
  unfolding give_up
  listening sock true n = (some sock, n)
  listening sock false n = give_up sock n

  after_bind : ℕ → Bool → Net → Option ℕ × Net
  unfolding listening give_up
  after_bind sock false n = give_up sock n
  after_bind sock true n = let b = k.listens n.events in listening sock b (log (listen sock b) n)

  use_server : Option ℕ → Net → Option ℕ × Net
  unfolding after_bind
  use_server none n = (none, n)
  use_server (some sock) n =
      let n' = log (set_nonblock sock true (k.nonblocks n.events)) n in
      let b = k.binds n'.events in after_bind sock b (log (bind sock b) n')

  unfoldable pub net_listen : Net → Option ℕ × Net
  unfolding use_server
  net_listen n = let s = k.sockets n.events in use_server s (log (socket s) n)
