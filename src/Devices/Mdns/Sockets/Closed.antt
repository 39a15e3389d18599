-- ===== src/Devices/Mdns/Sockets/Closed.antt =====
-- The sockets and the devices of a reload in src/mdns_discovery.cc.
use droidcam_whip_c.Common.{
  ◌&&◌, not, ltb, ℕ, zero, suc, ◌+◌, ◌<◌, ◌≡◌, refl, ◌∙◌, Bool, ◌==◌, List, [], ◌∷◌, ◌++◌, Option,
  none, some, arith, if◌then◌else◌, if-cases,
}
use droidcam_whip_c.Devices.Mdns.Sockets.{
  log, Selected, any_socket, opened, pass, close_all, recv_loop, recv_all, open_query, recv_query,
  mdns_do_reload, Env, Reload, Event, Query, open_socket, query_recv, close, select, timeout,
  failed, ready,
}
use droidcam_whip_c.Devices.{Slots}
use droidcam_whip_c.Common.Int.{◌==ℤ◌, pos}
use droidcam_whip_c.Devices.Mdns.{query_callbacks}

-- How often a descriptor was opened, closed, and stands in the array.
abbrev pub opens_of : ℕ → List Event → ℕ
opens_of k [] = 0
opens_of k (open_socket (some sock) ∷ events) = (if sock == k then 1 else 0) + opens_of k events
opens_of k (_ ∷ events) = opens_of k events

abbrev pub closes_of : ℕ → List Event → ℕ
closes_of k [] = 0
closes_of k (close sock ∷ events) = (if sock == k then 1 else 0) + closes_of k events
closes_of k (_ ∷ events) = closes_of k events

abbrev holds_of : ℕ → List Query → ℕ
holds_of k [] = 0
holds_of k (q ∷ socks) = (if q.sock == k then 1 else 0) + holds_of k socks

holds_of-append :
    (k : ℕ) (socks : List Query) (q : Query)
    → holds_of k (socks ++ q ∷ []) ≡ holds_of k socks + (if q.sock == k then 1 else 0)
holds_of-append k [] q = omega arith
holds_of-append k (p ∷ socks) q = omega (arith, holds_of-append k socks q)

-- A reload in which a descriptor is open as often as it stands in the array.
IsOpen : ℕ → Reload → Type 0
IsOpen k s = (opens_of k s.events ≡ holds_of k s.socks) × closes_of k s.events ≡ 0

module _ (env : Env) (k : ℕ) (positive : 0 < k) where
  opened-IsOpen :
      (s : Reload) (sock : Option ℕ)
      → IsOpen k s
      → IsOpen k (opened env (log (open_socket sock) s) sock)
  unfolding opened IsOpen
  opened-IsOpen s none v =
      let other : ◌≡◌ {A = ℕ} (if 0 == k then 1 else 0) 0 = ground (arith, positive) in
      (omega (arith, holds_of-append k s.socks (record { sock = 0; query_id = pos 0 }), other), v.1)
  opened-IsOpen s (some sock) v =
      let q : Query = record {
        sock = sock;
        query_id = env.sends (open_socket (some sock) ∷ s.events);
      } in
      (omega (arith, holds_of-append k s.socks q), v.1)

  open_query-IsOpen : (s : Reload) → IsOpen k s → IsOpen k (open_query env s)
  unfolding open_query
  open_query-IsOpen s v = opened-IsOpen s (env.opens s.events) v

  recv_query-IsOpen :
      (is_ready : ℕ → Bool) (q : Query) (s : Reload)
      → IsOpen k s
      → IsOpen k (recv_query env is_ready q s)
  unfolding recv_query IsOpen
  recv_query-IsOpen is_ready q s v =
      if-cases (IsOpen k) (not (q.query_id ==ℤ pos 0) && is_ready q.sock)
        (record (log (query_recv q.sock) s) {
          slots = query_callbacks s.slots (env.replies s.events);
        })
        s (λ e. v) (λ e. v)

  recv_all-IsOpen :
      (is_ready : ℕ → Bool) (socks : List Query) (s : Reload)
      → IsOpen k s
      → IsOpen k (recv_all env is_ready socks s)
  unfolding recv_all
  recv_all-IsOpen is_ready [] s v = v
  recv_all-IsOpen is_ready (q ∷ socks) s v =
      recv_all-IsOpen is_ready socks (recv_query env is_ready q s)
        (recv_query-IsOpen is_ready q s v)

  pass-IsOpen : (s : Reload) (r : Selected) → IsOpen k s → IsOpen k (pass env s r).0
  unfolding pass
  pass-IsOpen s timeout v = v
  pass-IsOpen s failed v = v
  pass-IsOpen s (ready is_ready) v = recv_all-IsOpen is_ready s.socks s v

  recv_loop-IsOpen : (n : ℕ) (s : Reload) → IsOpen k s → IsOpen k (recv_loop env n s)
  unfolding recv_loop IsOpen
  recv_loop-IsOpen zero s v = v
  recv_loop-IsOpen (suc n) s v =
      let (s', goes_on) = pass env (log select s) (env.selects s.events) in
      let after = pass-IsOpen (log select s) (env.selects s.events) v in
      if-cases (IsOpen k) (goes_on && not (env.time_is_up s'.events)) (recv_loop env n s') s'
        (λ e. recv_loop-IsOpen n s' after) (λ e. after)

  closes-one :
      (q : Query) (s : Reload)
      → let s' = if ltb 0 q.sock then log (close q.sock) s else s in
        (closes_of k s'.events ≡ closes_of k s.events + (if q.sock == k then 1 else 0))
        × opens_of k s'.events ≡ opens_of k s.events
  closes-one q s = ground (arith, positive)

  close_all-closes :
      (socks : List Query) (s : Reload)
      → (closes_of k (close_all socks s).events ≡ closes_of k s.events + holds_of k socks)
        × opens_of k (close_all socks s).events ≡ opens_of k s.events
  unfolding close_all
  close_all-closes [] s = (omega arith, refl)
  close_all-closes (q ∷ socks) s =
      let s' = if ltb 0 q.sock then log (close q.sock) s else s in
      let (c, o) = close_all-closes socks s' in
      let (c', o') = closes-one q s in (omega (arith, c, c'), o ∙ o')

-- Whatever the system answers and however many passes the loop makes, a reload of the class MDNS
-- closes each socket as often as it opened it, unless its descriptor is 0.
pub mdns_do_reload-closes :
    (env : Env) (passes : ℕ) (slots : Slots) (k : ℕ)
    → 0 < k
    → let s = mdns_do_reload env passes slots in closes_of k s.events ≡ opens_of k s.events
unfolding mdns_do_reload IsOpen
mdns_do_reload-closes env passes slots k positive =
    let start : Reload = record { socks = []; slots = slots; events = [] } in
    let new : IsOpen k start = (refl, refl) in
    let one = open_query env start in
    let two = open_query env one in
    let s = open_query env two in
    let opened =
      open_query-IsOpen env k positive two
        (open_query-IsOpen env k positive one (open_query-IsOpen env k positive start new)) in
    let s' = if any_socket s.socks then recv_loop env passes s else s in
    let done : IsOpen k s' =
      if-cases (IsOpen k) (any_socket s.socks) (recv_loop env passes s) s
        (λ e. recv_loop-IsOpen env k positive passes s opened) (λ e. opened) in
    let (c, o) = close_all-closes env k positive s'.socks s' in omega (arith, c, o, done.0, done.1)
