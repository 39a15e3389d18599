-- ===== src/Devices/Mdns/Sockets/Kept.antt =====
-- The devices of a reload in src/mdns_discovery.cc.
use droidcam_whip_c.Devices.Mdns.{query_callbacks}
use droidcam_whip_c.Devices.Mdns.Sockets.{
  query_recv, close, failed, any_socket, open_socket, select, timeout, log, ready, Selected, Event,
  Reload, Query, recv_query, recv_all, pass, recv_loop, opened, mdns_do_reload, Env, close_all,
  open_query,
}
use droidcam_whip_c.Common.{
  refl, none, zero, arith, ◌&&◌, some, ltb, ◌∙◌, if◌then◌else◌, ◌∙◌, not, ◌∷◌, if-cases, suc, [],
  Option, ◌≡◌, ◌≡◌, All, Bool, List, ℕ,
}
use droidcam_whip_c.Devices.{Slots}
use droidcam_whip_c.Devices.Fits.{AllFit}
use droidcam_whip_c.Devices.Mdns.Fits.{query_callbacks-AllFit, IsLimited}
use droidcam_whip_c.Common.Int.{pos, ◌==ℤ◌}

-- What the entries of the replies are read by keeps to its capacity.
abbrev pub AllLimited : Env → Type 0
AllLimited env = (events : List Event) → All IsLimited (env.replies events)

open_query-slots : (env : Env) (s : Reload) → (open_query env s).slots ≡ s.slots
unfolding open_query opened
open_query-slots env s = go (env.opens s.events)
  where
    go : (sock : Option ℕ) → (opened env (log (open_socket sock) s) sock).slots ≡ s.slots
    go none = refl
    go (some sock) = refl

close_all-slots : (socks : List Query) (s : Reload) → (close_all socks s).slots ≡ s.slots
unfolding close_all
close_all-slots [] s = refl
close_all-slots (q ∷ socks) s =
    let s' = if ltb 0 q.sock then log (close q.sock) s else s in
    let kept : s'.slots ≡ s.slots = ground arith in close_all-slots socks s' ∙ kept

module _ (env : Env) (limited : AllLimited env) where
  recv_query-AllFit :
      (is_ready : ℕ → Bool) (q : Query) (s : Reload)
      → AllFit s.slots
      → AllFit (recv_query env is_ready q s).slots
  unfolding recv_query
  recv_query-AllFit is_ready q s v =
      if-cases (λ (t : Reload). AllFit t.slots) (not (q.query_id ==ℤ pos 0) && is_ready q.sock)
        (record (log (query_recv q.sock) s) {
          slots = query_callbacks s.slots (env.replies s.events);
        })
        s (λ e. query_callbacks-AllFit (env.replies s.events) s.slots (limited s.events) v) (λ e. v)

  recv_all-AllFit :
      (is_ready : ℕ → Bool) (socks : List Query) (s : Reload)
      → AllFit s.slots
      → AllFit (recv_all env is_ready socks s).slots
  unfolding recv_all
  recv_all-AllFit is_ready [] s v = v
  recv_all-AllFit is_ready (q ∷ socks) s v =
      recv_all-AllFit is_ready socks (recv_query env is_ready q s)
        (recv_query-AllFit is_ready q s v)

  pass-AllFit : (s : Reload) (r : Selected) → AllFit s.slots → AllFit (pass env s r).0.slots
  unfolding pass
  pass-AllFit s timeout v = v
  pass-AllFit s failed v = v
  pass-AllFit s (ready is_ready) v = recv_all-AllFit is_ready s.socks s v

  recv_loop-AllFit : (n : ℕ) (s : Reload) → AllFit s.slots → AllFit (recv_loop env n s).slots
  unfolding recv_loop
  recv_loop-AllFit zero s v = v
  recv_loop-AllFit (suc n) s v =
      let (s', goes_on) = pass env (log select s) (env.selects s.events) in
      let after = pass-AllFit (log select s) (env.selects s.events) v in
      if-cases (λ (t : Reload). AllFit t.slots) (goes_on && not (env.time_is_up s'.events))
        (recv_loop env n s') s' (λ e. recv_loop-AllFit n s' after) (λ e. after)

-- If the list of devices fits in its arrays and the reader of the replies keeps to its capacity,
-- then the list fits behind a reload of the class MDNS, whatever its sockets answer and however
-- many passes the loop makes.
pub mdns_do_reload-AllFit :
    (env : Env) (passes : ℕ) (slots : Slots)
    → AllLimited env
    → AllFit slots
    → AllFit (mdns_do_reload env passes slots).slots
unfolding mdns_do_reload
mdns_do_reload-AllFit env passes slots limited fit =
    let start : Reload = record { socks = []; slots = slots; events = [] } in
    let one = open_query env start in
    let two = open_query env one in
    let s = open_query env two in
    let same : s.slots ≡ slots =
      open_query-slots env two ∙ open_query-slots env one ∙ open_query-slots env start in
    let v : AllFit s.slots = rw same fit in
    let s' = if any_socket s.socks then recv_loop env passes s else s in
    let done : AllFit s'.slots =
      if-cases (λ (t : Reload). AllFit t.slots) (any_socket s.socks) (recv_loop env passes s) s
        (λ e. recv_loop-AllFit env limited passes s v) (λ e. v) in
    rw (close_all-slots s'.socks s') done
