-- ===== src/Proxy/Relay.antt =====
-- What `proxy_run` of src/proxy.cc hands to `net_send_all`: every chunk of bytes that it receives,
-- at once, for the other side of the same connection.
use mathlib.Core.List.{reverse}
use droidcam_whip_c.Proxy.{
  timeout, proxy_end, ready, serve_all, serve, close_all, log, close_conn, Select, pass,
  proxy_start, accept_client, passes, relay_chunk, connect_accepted, connect_client, forward,
  relay_if, add_conn, select_pass, serve_ready, serve_pass,
}
use droidcam_whip_c.Common.{
  ◌&&◌, zero, if-cases, suc, refl, ◌||◌, [], arith, ◌++◌, ◌∷◌, List, ℕ, Bool, true, false, Option,
  some, none, ◌≡◌,
}
use droidcam_whip_c.Proxy.Events.{
  stuck, set_nonblock, usbmuxd_connect, sleep, recv, accept, close, is_accept, pending, IsRelayed,
  linked, Event,
}
use droidcam_whip_c.Proxy.{ProxyRun, ProxyConn, relay, Env}
use droidcam_whip_c.Net.{broken, got, Received}
use droidcam_whip_c.Proxy.Drops.{passes-frees, close_all-frees}

-- Nothing is left to pass on, and every connection of the list was made for its client.
abbrev pub IsQuiet : List Event → Type 0
IsQuiet es = IsRelayed es × pending es ≡ none

abbrev pub AllLinked : List ProxyConn → List Event → Type 0
AllLinked [] es = Unit {0}
AllLinked (elem ∷ elems) es = (linked elem.client elem.remote es ≡ true) × AllLinked elems es

-- A log that another one has grown from.
abbrev Grows : List Event → List Event → Type 0
Grows es fs = (c r : ℕ) → linked c r es ≡ true → linked c r fs ≡ true

AllLinked-Grows :
    (l : List ProxyConn) (es fs : List Event) → Grows es fs → AllLinked l es → AllLinked l fs
AllLinked-Grows [] es fs g h = tt
AllLinked-Grows (elem ∷ elems) es fs g (h, hs) =
    (g elem.client elem.remote h, AllLinked-Grows elems es fs g hs)

AllLinked-append :
    (l : List ProxyConn) (elem : ProxyConn) (es : List Event)
    → AllLinked l es
    → linked elem.client elem.remote es ≡ true
    → AllLinked (l ++ (elem ∷ [])) es
AllLinked-append [] elem es h n = (n, tt)
AllLinked-append (e ∷ l) elem es (h, hs) n = (h, AllLinked-append l elem es hs n)

or_left : (a b : Bool) → a ≡ true → (a || b) ≡ true
or_left a b h = ground arith

or_right : (a b : Bool) → b ≡ true → (a || b) ≡ true
or_right a b h = ground arith

linked_later :
    (c r : ℕ) (e : Event) (es : List Event) → linked c r es ≡ true → linked c r (e ∷ es) ≡ true
linked_later c r e es h = ground arith

module _ (env : Env) where
  -- What a step leads to from a log.
  abbrev Steps : List Event → List Event → Type 0
  Steps es fs = IsQuiet fs × Grows es fs

  relay_chunk-Steps :
      (s : ProxyRun) (from to : ℕ) (r : Received)
      → IsQuiet s.events
      → (linked from to s.events || linked to from s.events) ≡ true
      → Steps s.events (relay_chunk env (log (recv from r) s) to r).1.events
  unfolding relay_chunk forward
  relay_chunk-Steps s from to (got []) (h, q) l = (((q, h), refl), λ c r k. k)
  relay_chunk-Steps s from to broken (h, q) l = (((q, h), refl), λ c r k. k)
  relay_chunk-Steps s from to (got (b ∷ bs)) (h, q) l = ((((refl, l), (q, h)), refl), λ c r k. k)

  relay_if-Steps :
      (b : Bool) (s : ProxyRun) (from to : ℕ)
      → IsQuiet s.events
      → (linked from to s.events || linked to from s.events) ≡ true
      → Steps s.events (relay_if env b s from to).1.events
  unfolding relay_if relay
  relay_if-Steps true s from to h l = relay_chunk-Steps s from to (env.recvs s.events from) h l
  relay_if-Steps false s from to h l = (h, λ c r k. k)

  close_conn-Steps :
      (elem : ProxyConn) (s : ProxyRun)
      → IsQuiet s.events
      → Steps s.events (close_conn elem s).events
  unfolding close_conn
  close_conn-Steps elem s (h, q) = (((refl, (q, h)), refl), λ c r k. k)

  serve-Steps :
      (read_fds : ℕ → Bool) (elem : ProxyConn) (s : ProxyRun)
      → IsQuiet s.events
      → linked elem.client elem.remote s.events ≡ true
      → Steps s.events (serve env read_fds elem s).1.events
  unfolding serve
  serve-Steps read_fds elem s h l =
      let c = elem.client in
      let r = elem.remote in
      let t = relay_if env (read_fds c) s c r in
      let (h', g) =
        relay_if-Steps (read_fds c) s c r h
          (or_left (linked c r s.events) (linked r c s.events) l) in
      let l' = g c r l in
      let u = relay_if env (read_fds r) t.1 r c in
      let (h'', g') =
        relay_if-Steps (read_fds r) t.1 r c h'
          (or_right (linked r c t.1.events) (linked c r t.1.events) l') in
      let (w, k) = close_conn-Steps elem u.1 h'' in
      if-cases (λ (x : Bool × ProxyRun). Steps s.events x.1.events) (t.0 || u.0)
        (false, close_conn elem u.1) (true, u.1) (λ _. (w, λ a b m. k a b (g' a b (g a b m))))
        (λ _. (h'', λ a b m. g' a b (g a b m)))

  -- The loop behind `select`: the connections that stay are among those of the list.
  serve_all-Steps :
      (read_fds : ℕ → Bool) (l : List ProxyConn) (s : ProxyRun)
      → IsQuiet s.events
      → AllLinked l s.events
      → Steps s.events (serve_all env read_fds l s).1.events
        × AllLinked (serve_all env read_fds l s).0 (serve_all env read_fds l s).1.events
  unfolding serve_all
  serve_all-Steps read_fds [] s h l = ((h, λ c r k. k), tt)
  serve_all-Steps read_fds (elem ∷ elems) s h (l, ls) =
      let t = serve env read_fds elem s in
      let (h', g) = serve-Steps read_fds elem s h l in
      let ls' = AllLinked-Grows elems s.events t.1.events g ls in
      let u = serve_all env read_fds elems t.1 in
      let ((w, k), m) = serve_all-Steps read_fds elems t.1 h' ls' in
      let l' = k elem.client elem.remote (g elem.client elem.remote l) in
      (
        (w, λ a b n. k a b (g a b n)),
        if-cases (λ x. AllLinked x u.1.events) t.0 (elem ∷ u.0) u.0 (λ _. (l', m)) (λ _. m),
      )

  -- Between the passes.
  abbrev pub IsRelaying : ProxyRun → Type 0
  IsRelaying s = IsQuiet s.events × AllLinked s.list s.events

  add_conn-IsRelaying :
      (s : ProxyRun) (client : ℕ) (rc : Option ℕ)
      → IsQuiet s.events
      → AllLinked s.list s.events
      → is_accept client s.events ≡ true
      → IsRelaying (add_conn (log (usbmuxd_connect rc) s) client rc)
  unfolding add_conn
  add_conn-IsRelaying s client none (h, q) l a =
      (((refl, (q, h)), refl), AllLinked-Grows s.list s.events _ (λ c r k. k) l)
  add_conn-IsRelaying s client (some remote) (h, q) l a =
      let es = set_nonblock remote ∷ usbmuxd_connect (some remote) ∷ s.events in
      let m : AllLinked s.list es =
        AllLinked-Grows s.list s.events es
          (λ c r k. linked_later c r (usbmuxd_connect (some remote)) s.events k) l in
      (
        ((refl, (q, h)), refl),
        AllLinked-append s.list (record { client = client; remote = remote }) es m (ground arith),
      )

  connect_accepted-IsRelaying :
      (s : ProxyRun) (k : Option ℕ)
      → IsRelaying s
      → IsRelaying (connect_accepted env (log (accept k) s) k)
  unfolding connect_accepted connect_client
  connect_accepted-IsRelaying s none ((h, q), l) =
      (((q, h), refl), AllLinked-Grows s.list s.events _ (λ c r k. k) l)
  connect_accepted-IsRelaying s (some client) ((h, q), l) =
      add_conn-IsRelaying (log (accept (some client)) s) client
        (env.connects (accept (some client) ∷ s.events)) ((q, h), refl)
        (AllLinked-Grows s.list s.events _ (λ c r k. k) l) (ground arith)

  accept_client-IsRelaying : (s : ProxyRun) → IsRelaying s → IsRelaying (accept_client env s)
  unfolding accept_client
  accept_client-IsRelaying s w = connect_accepted-IsRelaying s (env.accepts s.events) w

  select_pass-IsRelaying :
      (s : ProxyRun) (x : Select) → IsRelaying s → IsRelaying (select_pass env s x)
  unfolding select_pass serve_ready
  select_pass-IsRelaying s timeout w = w
  select_pass-IsRelaying s Select.failed ((h, q), l) =
      (((q, h), refl), AllLinked-Grows s.list s.events _ (λ c r k. k) l)
  select_pass-IsRelaying s (ready left) (h, l) =
      let ((w, _), m) = serve_all-Steps (λ k. s.set k && left k) s.list s h l in (w, m)

  serve_pass-IsRelaying : (s : ProxyRun) → IsRelaying s → IsRelaying (serve_pass env s)
  unfolding serve_pass
  serve_pass-IsRelaying s ((h, q), l) =
      go s.list (select_pass-IsRelaying s (env.selects s.events) ((h, q), l))
    where
      go :
          (x : List ProxyConn)
          → IsRelaying (select_pass env s (env.selects s.events))
          → IsRelaying (elim x [
            | [] ↦ log sleep s
            | elem ∷ elems ↦ select_pass env s (env.selects s.events)
          ])
      go [] w = (((q, h), refl), AllLinked-Grows s.list s.events _ (λ c r k. k) l)
      go (elem ∷ elems) w = w

  pass-IsRelaying : (s : ProxyRun) → IsRelaying s → IsRelaying (pass env s)
  unfolding pass
  pass-IsRelaying s w =
      let t = accept_client env s in serve_pass-IsRelaying t (accept_client-IsRelaying s w)

  pub passes-IsRelaying : (n : ℕ) (s : ProxyRun) → IsRelaying s → IsRelaying (passes env n s)
  unfolding passes
  passes-IsRelaying zero s w = w
  passes-IsRelaying (suc n) s w = go (passes-IsRelaying n (pass env s)) (env.active s.events) refl
    where
      go :
          (IsRelaying (pass env s) → IsRelaying (passes env n (pass env s)))
          → (b : Bool) → env.active s.events ≡ b
          → IsRelaying (passes env (suc n) s)
      go rec true e = rw (passes, e) (rec (pass-IsRelaying s w))
      go rec false e = rw (passes, e) w

  close_all-IsQuiet : (l : List ProxyConn) (es : List Event) → IsQuiet es → IsQuiet (close_all l es)
  unfolding close_all
  close_all-IsQuiet [] es w = w
  close_all-IsQuiet (elem ∷ elems) es (h, q) =
      close_all-IsQuiet elems (close elem.remote ∷ close elem.client ∷ es) ((refl, (q, h)), refl)

  -- After any number of passes of the relay and its end, whatever the network does and however
  -- often connections fail: every chunk of bytes that net_recv gave was handed at once, all of it,
  -- in one call of net_send_all, to the other side of a connection that was made between the two,
  -- and nothing else was handed to net_send_all; and where that call failed, perhaps behind a part
  -- of the bytes, its descriptor was closed.
  pub proxy_run-IsRelayed :
      (n k : ℕ)
      → let es = proxy_end (passes env n proxy_start) in
        IsRelayed es × (pending es ≡ none) × stuck k es ≡ false
  unfolding proxy_start proxy_end
  proxy_run-IsRelayed n k =
      let s = passes env n proxy_start in
      let w = passes-IsRelaying n proxy_start ((tt, refl), tt) in
      let (relayed, quiet) = close_all-IsQuiet (reverse s.list) s.events w.0 in
      (
        relayed,
        quiet,
        close_all-frees k (reverse s.list) s.events (passes-frees env k n proxy_start refl),
      )
