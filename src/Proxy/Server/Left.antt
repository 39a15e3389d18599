-- ===== src/Proxy/Server/Left.antt =====
-- Which sockets the class `Proxy` leaves open.
use droidcam_whip_c.Common.{
  inr, inl, ◌&&◌, not, if-cases, Bool-cases, ℕ, ◌+◌, ◌≡◌, refl, Bool, true, false, ◌==◌, List, [],
  ◌∷◌, Option, none, some, arith, if◌then◌else◌,
}
use droidcam_whip_c.Proxy.Server.{
  join_thread, end_proxy, new_proxy, start_all, start_proxy, log, listening, open_server,
  start_thread, close_sock, ServerEvent, Server, ServerEnv, listen, close,
}
use droidcam_whip_c.Common.Int.{ltb_ℤ, ℤ, ◌<ℤ◌, pos}

abbrev pub listens_of : ℕ → List ServerEvent → ℕ
listens_of k [] = 0
listens_of k (listen (some sock) ∷ events) = (if sock == k then 1 else 0) + listens_of k events
listens_of k (_ ∷ events) = listens_of k events

abbrev pub closes_of : ℕ → List ServerEvent → ℕ
closes_of k [] = 0
closes_of k (close sock ∷ events) = (if sock == k then 1 else 0) + closes_of k events
closes_of k (_ ∷ events) = closes_of k events

abbrev pub is_sock : ℕ → Option ℕ → Bool
is_sock k none = false
is_sock k (some sock) = sock == k

-- The socket in the field is the only one that is open, and a thread has a port.
record IsServer (k : ℕ) (s : Server) : Type 0 where
  held : listens_of k s.events ≡ closes_of k s.events + (if is_sock k s.proxy_sock then 1 else 0)
  ported : s.thread_active ≡ true → pos 0 <ℤ s.port_local

close_sock-closes :
    (k : ℕ) (sock : Option ℕ) (s : Server)
    → (listens_of k (close_sock sock s).events ≡ listens_of k s.events)
      × (closes_of k (close_sock sock s).events
          ≡ closes_of k s.events + (if is_sock k sock then 1 else 0))
unfolding close_sock
close_sock-closes k none s = (refl, omega arith)
close_sock-closes k (some sock) s = (refl, omega arith)

module _ (env : ServerEnv) (k : ℕ) where
  open_server-holds :
      (s : Server)
      → listens_of k s.events ≡ closes_of k s.events
      → let s' = open_server env s in
        listens_of k s'.events ≡ closes_of k s'.events + (if is_sock k s'.proxy_sock then 1 else 0)
  unfolding open_server listening
  open_server-holds s h = go (env.listens s.events)
    where
      go :
          (sock : Option ℕ)
          → let s' = listening env sock (log (listen sock) s) in
            listens_of k s'.events
            ≡ closes_of k s'.events + (if is_sock k s'.proxy_sock then 1 else 0)
      go none = omega arith
      go (some sock) = omega arith

  start_thread-IsServer :
      (s : Server)
      → listens_of k s.events ≡ closes_of k s.events + (if is_sock k s.proxy_sock then 1 else 0)
      → IsServer k (start_thread env s)
  unfolding start_thread
  start_thread-IsServer s h = ground (arith, h)

  -- The result of `Start`, and the state behind it.
  IsStarted : ℤ × Server → Type 0
  IsStarted (port, s) = IsServer k s × (ltb_ℤ (pos 0) port ≡ s.thread_active)

  result-IsStarted :
      (s : Server) → IsServer k s → IsStarted (if s.thread_active then s.port_local else pos 0, s)
  unfolding IsStarted
  result-IsStarted s v = (v, ground (arith, v.ported))

  start_proxy-IsStarted :
      (dev port : ℕ) (s : Server) → IsServer k s → IsStarted (start_proxy env dev port s)
  unfolding start_proxy IsStarted
  start_proxy-IsStarted dev port s v =
      let q : Server = record s { proxy_device = some dev; port_remote = port } in
      let same : IsServer k q = record { held = v.held; ported = v.ported } in
      let (l, c) = close_sock-closes k s.proxy_sock q in
      let once = close_sock q.proxy_sock q in
      let s' = start_thread env (open_server env once) in
      let new : IsServer k s' =
        start_thread-IsServer (open_server env once)
          (open_server-holds once (omega (arith, l, c, v.held))) in
      if-cases IsStarted s.thread_active (s.port_local, q)
        (if s'.thread_active then s'.port_local else pos 0, s')
        (λ e. (same, ground (arith, e, v.ported))) (λ e. result-IsStarted s' new)

  start_all-IsServer :
      (calls : List (ℕ × ℕ)) (s : Server) → IsServer k s → IsServer k (start_all env calls s)
  unfolding start_all IsStarted
  start_all-IsServer [] s v = v
  start_all-IsServer ((dev, port) ∷ calls) s v =
      start_all-IsServer calls (start_proxy env dev port s).1 (start_proxy-IsStarted dev port s v).0

end_proxy-closes :
    (k : ℕ) (s : Server)
    → IsServer k s
    → let e = end_proxy s in
      listens_of k e.events
      ≡ closes_of k e.events + (if not s.thread_active && is_sock k s.proxy_sock then 1 else 0)
unfolding end_proxy
end_proxy-closes k s v =
    let q : Server = record (log join_thread s) { thread_active = false } in
    let (l, c) = close_sock-closes k s.proxy_sock q in
    elim (Bool-cases s.thread_active) [
      | inl e ↦ ground (arith, e, l, c, v.held)
      | inr e ↦ ground (arith, e, v.held)
    ]

-- Whatever the system answers, for any calls of `Start` and one more: that one returns a positive
-- port exactly if the relay's thread runs behind it; and if the destructor comes then, each socket
-- that was opened to listen on has been closed, but for the socket of a last `Start` that did not
-- create the thread, which stays open.
pub start_all-leaves :
    (env : ServerEnv) (calls : List (ℕ × ℕ)) (dev port k : ℕ)
    → let (result, s) = start_proxy env dev port (start_all env calls new_proxy) in
      let e = end_proxy s in
      (ltb_ℤ (pos 0) result ≡ s.thread_active)
      × (listens_of k e.events
          ≡ closes_of k e.events + (if not s.thread_active && is_sock k s.proxy_sock then 1 else 0))
unfolding IsStarted new_proxy
start_all-leaves env calls dev port k =
    let new : IsServer k new_proxy = record {
      held = omega arith;
      ported = λ e. absurd (ground (arith, e));
    } in
    let before = start_all env calls new_proxy in
    let (v, r) =
      start_proxy-IsStarted env k dev port before (start_all-IsServer env k calls new_proxy new) in
    (r, end_proxy-closes k (start_proxy env dev port before).1 v)
