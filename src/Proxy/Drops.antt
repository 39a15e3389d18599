-- ===== src/Proxy/Drops.antt =====
-- What `proxy_run` of src/proxy.cc does where `net_send_all` fails: the connection is closed.
use droidcam_whip_c.Net.{broken, got, Received}
use droidcam_whip_c.Proxy.{
  timeout, ready, add_conn, connect_client, log, Select, serve_ready, relay, pass, connect_accepted,
  ProxyConn, forward, ProxyRun, accept_client, serve_all, serve, select_pass, relay_if, serve_pass,
  close_conn, passes, relay_chunk, Env, close_all,
}
use droidcam_whip_c.Common.{
  none, some, ◌∙◌, ◌∙◌, refl, ◌&&◌, ◌||◌, zero, true, [], Option, arith, if-cases, suc, false, ◌∷◌,
  ◌==◌, ◌≡◌, ◌≡◌, not, Bool, List, ℕ,
}
use droidcam_whip_c.Net.{got, Received}
use droidcam_whip_c.Proxy.Events.{
  accept, usbmuxd_connect, sleep, close, send_all, recv, Event, stuck,
}
use droidcam_whip_c.Common.Int.{pos, ltb_ℤ}

module _ (env : Env) (k : ℕ) where
  abbrev IsFree : ProxyRun → Type 0
  IsFree s = stuck k s.events ≡ false

  -- What is sent can only make its own descriptor one to close, and then the call reports an error.
  abbrev Breaks : ProxyRun → ℕ → Bool × ProxyRun → Type 0
  Breaks s to r =
      (r.0 ≡ false → stuck k r.1.events ≡ stuck k s.events)
      × ((to == k) ≡ false → stuck k r.1.events ≡ stuck k s.events)

  forward-Breaks : (s : ProxyRun) (to : ℕ) (bytes : List ℕ) → Breaks s to (forward env s to bytes)
  unfolding forward
  forward-Breaks s to bytes = go (ltb_ℤ (pos 0) (env.sends s.events to bytes))
    where
      go : (ok : Bool) → Breaks s to (not ok, log (send_all to bytes ok) s)
      go true = ((λ e. refl), λ e. refl)
      go false = (ground arith, ground arith)

  relay_chunk-Breaks : (s : ProxyRun) (to : ℕ) (r : Received) → Breaks s to (relay_chunk env s to r)
  unfolding relay_chunk
  relay_chunk-Breaks s to (got []) = ((λ e. refl), λ e. refl)
  relay_chunk-Breaks s to (got (b ∷ bs)) = forward-Breaks s to (b ∷ bs)
  relay_chunk-Breaks s to broken = ((λ e. refl), λ e. refl)

  relay_if-Breaks : (b : Bool) (s : ProxyRun) (from to : ℕ) → Breaks s to (relay_if env b s from to)
  unfolding relay_if relay
  relay_if-Breaks true s from to =
      relay_chunk-Breaks (log (recv from (env.recvs s.events from)) s) to (env.recvs s.events from)
  relay_if-Breaks false s from to = ((λ e. refl), λ e. refl)

  close_conn-frees :
      (elem : ProxyConn) (s : ProxyRun)
      → ((elem.client == k) ≡ false → (elem.remote == k) ≡ false → stuck k s.events ≡ false)
      → stuck k (close_conn elem s).events ≡ false
  unfolding close_conn
  close_conn-frees elem s h = ground arith

  serve-frees :
      (read_fds : ℕ → Bool) (elem : ProxyConn) (s : ProxyRun)
      → stuck k s.events ≡ false
      → stuck k (serve env read_fds elem s).1.events ≡ false
  unfolding serve
  serve-frees read_fds elem s h =
      let c = elem.client in
      let r = elem.remote in
      let t = relay_if env (read_fds c) s c r in
      let (a, b) = relay_if-Breaks (read_fds c) s c r in
      let u = relay_if env (read_fds r) t.1 r c in
      let (a', b') = relay_if-Breaks (read_fds r) t.1 r c in
      if-cases (λ (x : Bool × ProxyRun). stuck k x.1.events ≡ false) (t.0 || u.0)
        (false, close_conn elem u.1) (true, u.1)
        (λ e. close_conn-frees elem u.1 (λ p q. b' p ∙ b q ∙ h))
        (λ e. a' (ground arith) ∙ a (ground arith) ∙ h)

  serve_all-frees :
      (read_fds : ℕ → Bool) (l : List ProxyConn) (s : ProxyRun)
      → stuck k s.events ≡ false
      → stuck k (serve_all env read_fds l s).1.events ≡ false
  unfolding serve_all
  serve_all-frees read_fds [] s h = h
  serve_all-frees read_fds (elem ∷ elems) s h =
      serve_all-frees read_fds elems (serve env read_fds elem s).1 (serve-frees read_fds elem s h)

  accept_client-frees :
      (s : ProxyRun) → stuck k s.events ≡ false → stuck k (accept_client env s).events ≡ false
  unfolding accept_client connect_accepted connect_client add_conn
  accept_client-frees s h = go (env.accepts s.events)
    where
      joined :
          (client : ℕ) (rc : Option ℕ)
          → stuck k
              (add_conn (log (usbmuxd_connect rc) (log (accept (some client)) s)) client rc).events
            ≡ false
      joined client none = ground arith
      joined client (some remote) = h

      go : (o : Option ℕ) → stuck k (connect_accepted env (log (accept o) s) o).events ≡ false
      go none = h
      go (some client) = joined client (env.connects (accept (some client) ∷ s.events))

  select_pass-frees :
      (s : ProxyRun) (x : Select)
      → stuck k s.events ≡ false
      → stuck k (select_pass env s x).events ≡ false
  unfolding select_pass serve_ready
  select_pass-frees s timeout h = h
  select_pass-frees s Select.failed h = h
  select_pass-frees s (ready left) h = serve_all-frees (λ j. s.set j && left j) s.list s h

  serve_pass-frees :
      (s : ProxyRun) → stuck k s.events ≡ false → stuck k (serve_pass env s).events ≡ false
  unfolding serve_pass
  serve_pass-frees s h = go s.list
    where
      go :
          (x : List ProxyConn)
          → IsFree (elim x [
            | [] ↦ log sleep s
            | elem ∷ elems ↦ select_pass env s (env.selects s.events)
          ])
      go [] = h
      go (elem ∷ elems) = select_pass-frees s (env.selects s.events) h

  pub passes-frees :
      (n : ℕ) (s : ProxyRun) → stuck k s.events ≡ false → stuck k (passes env n s).events ≡ false
  unfolding passes pass
  passes-frees zero s h = h
  passes-frees (suc n) s h =
      go
        (passes-frees n (pass env s)
          (serve_pass-frees (accept_client env s) (accept_client-frees s h)))
        (env.active s.events) refl
    where
      go :
          stuck k (passes env n (pass env s)).events ≡ false
          → (b : Bool) → env.active s.events ≡ b
          → stuck k (passes env (suc n) s).events ≡ false
      go rec true e = rw (passes, e) rec
      go rec false e = rw (passes, e) h

pub close_all-frees :
    (k : ℕ) (l : List ProxyConn) (es : List Event)
    → stuck k es ≡ false
    → stuck k (close_all l es) ≡ false
unfolding close_all
close_all-frees k [] es h = h
close_all-frees k (elem ∷ elems) es h =
    close_all-frees k elems (close elem.remote ∷ close elem.client ∷ es) (ground arith)
