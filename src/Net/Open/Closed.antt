-- ===== src/Net/Open/Closed.antt =====
-- The sockets that src/net.cc opens: each is returned or closed.
use droidcam_whip_c.Common.{
  ◌∙◌, ℕ, suc, ◌+◌, ◌==◌, Bool, true, false, List, [], ◌∷◌, Option, none, some, ◌≡◌, refl, if-cases,
  arith,
}
use droidcam_whip_c.Net.Open.{
  net_listen, bind, after_bind, listen, listening, connected, net_connect, use_server,
  connect_address, connect_addresses, select, connect, is_pending, connect_errno, set_nonblock,
  give_up, finish, start_connect, after_select, bound, use_socket, wait_connect, Errno, Event,
  socket, close, free_addrs, Select, Kernel, Net, log,
}

abbrev pub one_if : Bool → ℕ
one_if true = 1
one_if false = 0

-- How often a socket was opened, and how often it was closed.
abbrev pub opened : ℕ → List Event → ℕ
opened k [] = 0
opened k (socket (some j) ∷ es) = one_if (j == k) + opened k es
opened k (e ∷ es) = opened k es

abbrev pub closed : ℕ → List Event → ℕ
closed k [] = 0
closed k (close j ∷ es) = one_if (j == k) + closed k es
closed k (e ∷ es) = closed k es

-- How often the addresses of a host were freed.
abbrev pub freed : List Event → ℕ
freed [] = 0
freed (free_addrs ∷ es) = suc (freed es)
freed (e ∷ es) = freed es

abbrev pub returned : ℕ → Option ℕ → ℕ
returned k none = 0
returned k (some j) = one_if (j == k)

module _ (k : ℕ) where
  -- From the events `es`, with `m` open by the code: what it leaves open is what it returns.
  abbrev pub Leaves : ℕ → List Event → Option ℕ × Net → Type 0
  Leaves m es (r, n) =
      (opened k n.events + closed k es + m ≡ closed k n.events + opened k es + returned k r)
      × freed n.events ≡ freed es

  module _ (kernel : Kernel) where
    after_select-Leaves :
        (sock : ℕ) (x : Select) (n : Net)
        → Leaves (one_if (sock == k)) n.events (after_select kernel sock x n)
    unfolding after_select finish give_up
    after_select-Leaves sock Select.timeout n = (omega arith, refl)
    after_select-Leaves sock Select.failed n = (omega arith, refl)
    after_select-Leaves sock Select.ready n = go (kernel.nonblocks n.events)
      where
        go :
            (b : Bool)
            → Leaves
                (one_if (sock == k))
                n.events
                (finish sock b (log (set_nonblock sock false b) n))
        go true = (omega arith, refl)
        go false = (omega arith, refl)

    wait_connect-Leaves :
        (sock : ℕ) (n : Net) → Leaves (one_if (sock == k)) n.events (wait_connect kernel sock n)
    unfolding wait_connect give_up
    wait_connect-Leaves sock n =
        if-cases (Leaves (one_if (sock == k)) n.events) (is_pending n.errno)
          (after_select kernel sock (kernel.selects n.events) (log (select sock) n))
          (give_up sock n)
          (λ _. after_select-Leaves sock (kernel.selects n.events) (log (select sock) n))
          (λ _. (omega arith, refl))

    start_connect-Leaves :
        (addr sock : ℕ) (b : Bool) (n : Net)
        → Leaves (one_if (sock == k)) n.events (start_connect kernel addr sock b n)
    unfolding start_connect connect_errno give_up
    start_connect-Leaves addr sock true n = go (kernel.connects n.events)
      where
        go :
            (o : Option Errno)
            → Leaves
                (one_if (sock == k))
                n.events
                (wait_connect kernel sock (log (connect sock addr) (connect_errno o n)))
        go none = wait_connect-Leaves sock (log (connect sock addr) n)
        go (some e) = wait_connect-Leaves sock (log (connect sock addr) (record n { errno = e }))
    start_connect-Leaves addr sock false n = (omega arith, refl)

    bound-same :
        (sock : ℕ) (b : Bool) (n : Net)
        → (opened k (bound sock b n).events ≡ opened k n.events)
          × (closed k (bound sock b n).events ≡ closed k n.events)
          × freed (bound sock b n).events ≡ freed n.events
    unfolding bound
    bound-same sock true n = (refl, refl, refl)
    bound-same sock false n = (refl, refl, refl)

    use_socket-Leaves :
        (binding : Bool) (addr : ℕ) (s : Option ℕ) (n : Net)
        → Leaves 0 n.events (use_socket kernel binding addr s (log (socket s) n))
    unfolding use_socket
    use_socket-Leaves binding addr none n = (omega arith, refl)
    use_socket-Leaves true addr (some sock) n =
        let m = log (socket (some sock)) n in
        let n' = bound sock (kernel.binds m.events) m in
        let b = kernel.nonblocks n'.events in
        let (x, y, z) = bound-same sock (kernel.binds m.events) m in
        let (u, v) = start_connect-Leaves addr sock b (log (set_nonblock sock true b) n') in
        (omega arith, v ∙ z)
    use_socket-Leaves false addr (some sock) n =
        let m = log (socket (some sock)) n in
        let b = kernel.nonblocks m.events in
        let (u, v) = start_connect-Leaves addr sock b (log (set_nonblock sock true b) m) in
        (omega arith, v)

    connect_address-Leaves :
        (binding : Bool) (addr : ℕ) (n : Net)
        → Leaves 0 n.events (connect_address kernel binding addr n)
    unfolding connect_address
    connect_address-Leaves binding addr n =
        use_socket-Leaves binding addr (kernel.sockets n.events) n

    abbrev pub freed_by : Option ℕ → ℕ
    freed_by none = 1
    freed_by (some sock) = 0

    abbrev pub Ends : List Event → Option ℕ × Net → Type 0
    Ends es (r, n) =
        (opened k n.events + closed k es ≡ closed k n.events + opened k es + returned k r)
        × freed n.events ≡ freed es + freed_by r

    connect_addresses-Ends :
        (addrs : List (Bool × ℕ)) (n : Net) → Ends n.events (connect_addresses kernel addrs n)
    unfolding connect_addresses
    connect_addresses-Ends [] n = (omega arith, omega arith)
    connect_addresses-Ends ((binding, addr) ∷ addrs) n =
        go (connect_addresses-Ends addrs) (connect_address kernel binding addr n)
          (connect_address-Leaves binding addr n)
      where
        go :
            ((n' : Net) → Ends n'.events (connect_addresses kernel addrs n'))
            → (t : Option ℕ × Net) → Leaves 0 n.events t
            → Ends n.events (connected kernel t (connect_addresses kernel addrs))
        go rec (some sock, n') (u, v) = (omega arith, omega arith)
        go rec (none, n') (u, v) = let (x, y) = rec n' in (omega arith, omega arith)

    listening-Leaves :
        (sock : ℕ) (b : Bool) (n : Net)
        → Leaves (one_if (sock == k)) n.events (listening kernel sock b (log (listen sock b) n))
    unfolding listening give_up
    listening-Leaves sock true n = (omega arith, refl)
    listening-Leaves sock false n = (omega arith, refl)

    after_bind-Leaves :
        (sock : ℕ) (b : Bool) (n : Net)
        → Leaves (one_if (sock == k)) n.events (after_bind kernel sock b (log (bind sock b) n))
    unfolding after_bind give_up
    after_bind-Leaves sock true n =
        let m = log (bind sock true) n in
        let (u, v) = listening-Leaves sock (kernel.listens m.events) m in (omega arith, v)
    after_bind-Leaves sock false n = (omega arith, refl)

    use_server-Leaves :
        (s : Option ℕ) (n : Net) → Leaves 0 n.events (use_server kernel s (log (socket s) n))
    unfolding use_server
    use_server-Leaves none n = (omega arith, refl)
    use_server-Leaves (some sock) n =
        let m = log (socket (some sock)) n in
        let n' = log (set_nonblock sock true (kernel.nonblocks m.events)) m in
        let (u, v) = after_bind-Leaves sock (kernel.binds n'.events) n' in (omega arith, v)

-- Whatever the system answers, net_connect and net_listen leave open, of the sockets that they
-- open, exactly the one that they return; and net_connect frees the addresses of the host if it
-- returns no socket, and never otherwise.
pub net_connect-Leaves :
    (k : ℕ) (kernel : Kernel) (addrs : List (Bool × ℕ)) (n : Net)
    → Ends k kernel n.events (net_connect kernel (some addrs) n)
      × Leaves k 0 n.events (net_listen kernel n)
unfolding net_connect net_listen
net_connect-Leaves k kernel addrs n = (
  connect_addresses-Ends k kernel addrs n,
  use_server-Leaves k kernel (kernel.sockets n.events) n,
)
