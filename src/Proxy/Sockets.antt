-- ===== src/Proxy/Sockets.antt =====
-- The descriptors of `proxy_run` in src/proxy.cc: as often as one is opened it is closed, or it
-- belongs to a connection of the list.
use mathlib.Core.List.{reverse-append, reverse}
use droidcam_whip_c.Proxy.{
  accept_client, Select, proxy_end, relay, close_conn, serve, serve_all, passes, log, pass,
  proxy_start, ProxyConn, Env, ProxyRun, close_all, relay_chunk, connect_accepted, connect_client,
  forward, relay_if, add_conn, select_pass, serve_ready, serve_pass,
}
use droidcam_whip_c.Common.{
  ◌∙◌, refl, ◌||◌, [], zero, ◌&&◌, ◌==◌, ◌+◌, ap, suc, arith, if-cases, ◌++◌, if◌then◌else◌, ◌∷◌,
  List, ℕ, Bool, true, false, Option, some, none, ◌≡◌,
}
use droidcam_whip_c.Net.{broken, got, Received}
use droidcam_whip_c.Proxy.Events.{
  sleep, usbmuxd_connect, accept, closed, close, recv, one_if, opened, Event,
}

module _ (k : ℕ) where
  abbrev uses : ProxyConn → ℕ
  uses elem = one_if (elem.client == k) + one_if (elem.remote == k)

  abbrev in_use : List ProxyConn → ℕ
  in_use [] = 0
  in_use (elem ∷ elems) = uses elem + in_use elems

  in_use-append : (l m : List ProxyConn) → in_use (l ++ m) ≡ in_use l + in_use m
  in_use-append [] m = omega arith
  in_use-append (elem ∷ l) m = omega (arith, in_use-append l m)

  in_use-reverse : (l : List ProxyConn) → in_use (reverse l) ≡ in_use l
  in_use-reverse [] = refl
  in_use-reverse (elem ∷ l) =
      ap in_use (reverse-append (elem ∷ []) l)
      ∙ omega (arith, in_use-append (reverse l) (elem ∷ []), in_use-reverse l)

  -- The events `fs` behind `es` open nothing, and close what is used less often.
  abbrev Closes : List Event → ℕ → List Event → ℕ → Type 0
  Closes es m fs n = (opened k fs ≡ opened k es) × closed k fs + n ≡ closed k es + m

  abbrev pub IsBalanced : ProxyRun → Type 0
  IsBalanced s = opened k s.events ≡ closed k s.events + in_use s.list

  module _ (env : Env) where
    relay_chunk-Closes :
        (s : ProxyRun) (from to : ℕ) (r : Received) (m : ℕ)
        → Closes s.events m (relay_chunk env (log (recv from r) s) to r).1.events m
    unfolding relay_chunk forward
    relay_chunk-Closes s from to (got []) m = (refl, refl)
    relay_chunk-Closes s from to (got (b ∷ bs)) m = (refl, refl)
    relay_chunk-Closes s from to broken m = (refl, refl)

    relay_if-Closes :
        (b : Bool) (s : ProxyRun) (from to m : ℕ)
        → Closes s.events m (relay_if env b s from to).1.events m
    unfolding relay_if relay
    relay_if-Closes true s from to m = relay_chunk-Closes s from to (env.recvs s.events from) m
    relay_if-Closes false s from to m = (refl, refl)

    close_conn-Closes :
        (elem : ProxyConn) (s : ProxyRun) → Closes s.events (uses elem) (close_conn elem s).events 0
    unfolding close_conn
    close_conn-Closes elem s = (refl, omega arith)

    serve-Closes :
        (read_fds : ℕ → Bool) (elem : ProxyConn) (s : ProxyRun)
        → Closes s.events
            (uses elem)
            (serve env read_fds elem s).1.events
            (if (serve env read_fds elem s).0 then uses elem else 0)
    unfolding serve
    serve-Closes read_fds elem s =
        let c = elem.client in
        let r = elem.remote in
        let t = relay_if env (read_fds c) s c r in
        let (a, b) = relay_if-Closes (read_fds c) s c r 0 in
        let u = relay_if env (read_fds r) t.1 r c in
        let (a', b') = relay_if-Closes (read_fds r) t.1 r c 0 in
        let (x, y) = close_conn-Closes elem u.1 in
        if-cases
          (λ (v : Bool × ProxyRun).
            Closes s.events (uses elem) v.1.events (if v.0 then uses elem else 0))
          (t.0 || u.0) (false, close_conn elem u.1) (true, u.1) (λ _. (omega arith, omega arith))
          (λ _. (omega arith, omega arith))

    stays-in_use :
        (b : Bool) (elem : ProxyConn) (l : List ProxyConn)
        → in_use (if b then elem ∷ l else l) ≡ (if b then uses elem else 0) + in_use l
    stays-in_use true elem l = refl
    stays-in_use false elem l = omega arith

    serve_all-Closes :
        (read_fds : ℕ → Bool) (l : List ProxyConn) (s : ProxyRun)
        → Closes s.events
            (in_use l)
            (serve_all env read_fds l s).1.events
            (in_use (serve_all env read_fds l s).0)
    unfolding serve_all
    serve_all-Closes read_fds [] s = (refl, refl)
    serve_all-Closes read_fds (elem ∷ elems) s =
        let t = serve env read_fds elem s in
        let u = serve_all env read_fds elems t.1 in
        let (a, b) = serve-Closes read_fds elem s in
        let (a', b') = serve_all-Closes read_fds elems t.1 in
        let e : in_use (if t.0 then elem ∷ u.0 else u.0)
            ≡ (if t.0 then uses elem else 0) + in_use u.0 =
          stays-in_use t.0 elem u.0 in
        (omega arith, omega (arith, e))

    add_conn-IsBalanced :
        (s : ProxyRun) (client : ℕ) (rc : Option ℕ)
        → opened k s.events ≡ closed k s.events + in_use s.list + one_if (client == k)
        → IsBalanced (add_conn (log (usbmuxd_connect rc) s) client rc)
    unfolding add_conn
    add_conn-IsBalanced s client none h = omega arith
    add_conn-IsBalanced s client (some remote) h =
        omega (arith, in_use-append s.list (record { client = client; remote = remote } ∷ []))

    connect_accepted-IsBalanced :
        (s : ProxyRun) (j : Option ℕ)
        → IsBalanced s
        → IsBalanced (connect_accepted env (log (accept j) s) j)
    unfolding connect_accepted connect_client
    connect_accepted-IsBalanced s none h = h
    connect_accepted-IsBalanced s (some client) h =
        add_conn-IsBalanced (log (accept (some client)) s) client
          (env.connects (accept (some client) ∷ s.events)) (omega arith)

    select_pass-IsBalanced :
        (s : ProxyRun) (x : Select) → IsBalanced s → IsBalanced (select_pass env s x)
    unfolding select_pass serve_ready
    select_pass-IsBalanced s Select.timeout h = h
    select_pass-IsBalanced s Select.failed h = h
    select_pass-IsBalanced s (Select.ready left) h =
        let (a, b) = serve_all-Closes (λ j. s.set j && left j) s.list s in omega arith

    serve_pass-IsBalanced : (s : ProxyRun) → IsBalanced s → IsBalanced (serve_pass env s)
    unfolding serve_pass
    serve_pass-IsBalanced s h = go s.list (select_pass-IsBalanced s (env.selects s.events) h)
      where
        go :
            (x : List ProxyConn)
            → IsBalanced (select_pass env s (env.selects s.events))
            → IsBalanced (elim x [
              | [] ↦ log sleep s
              | elem ∷ elems ↦ select_pass env s (env.selects s.events)
            ])
        go [] w = h
        go (elem ∷ elems) w = w

    pass-IsBalanced : (s : ProxyRun) → IsBalanced s → IsBalanced (pass env s)
    unfolding pass accept_client
    pass-IsBalanced s h =
        serve_pass-IsBalanced (accept_client env s)
          (connect_accepted-IsBalanced s (env.accepts s.events) h)

    pub passes-IsBalanced : (n : ℕ) (s : ProxyRun) → IsBalanced s → IsBalanced (passes env n s)
    unfolding passes
    passes-IsBalanced zero s h = h
    passes-IsBalanced (suc n) s h = go (passes-IsBalanced n (pass env s)) (env.active s.events) refl
      where
        go :
            (IsBalanced (pass env s) → IsBalanced (passes env n (pass env s)))
            → (b : Bool) → env.active s.events ≡ b
            → IsBalanced (passes env (suc n) s)
        go rec true e = rw (passes, e) (rec (pass-IsBalanced s h))
        go rec false e = rw (passes, e) h

  close_all-Closes :
      (l : List ProxyConn) (es : List Event) → Closes es (in_use l) (close_all l es) 0
  unfolding close_all
  close_all-Closes [] es = (refl, refl)
  close_all-Closes (elem ∷ elems) es =
      let (a, b) = close_all-Closes elems (close elem.remote ∷ close elem.client ∷ es) in
      (a, omega arith)

-- After any number of passes and the end of the thread, every descriptor that the relay has opened,
-- for a client or to the phone, it has closed, as often as it was opened.
pub proxy_run_closes :
    (env : Env) (n k : ℕ)
    → closed k (proxy_end (passes env n proxy_start))
      ≡ opened k (proxy_end (passes env n proxy_start))
unfolding proxy_start proxy_end
proxy_run_closes env n k =
    let s = passes env n proxy_start in
    let w = passes-IsBalanced k env n proxy_start refl in
    let (a, b) = close_all-Closes k (reverse s.list) s.events in
    omega (arith, in_use-reverse k s.list)
