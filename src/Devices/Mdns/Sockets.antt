-- ===== src/Devices/Mdns/Sockets.antt =====
-- `MDNS::DoReload` of src/mdns_discovery.cc: three sockets that send the query, the replies that
-- arrive on them for a while, and their end. Each call is logged, the latest first.
pub mod Closed
pub mod Kept
use droidcam_whip_c.Common.{
  ℕ, zero, suc, Bool, true, false, not, ◌&&◌, ◌==◌, ltb, List, [], ◌∷◌, ◌++◌, Option, none, some,
  if◌then◌else◌,
}
use droidcam_whip_c.Common.Int.{ℤ, pos, ◌==ℤ◌}
use droidcam_whip_c.Devices.{Slots}
use droidcam_whip_c.Devices.Mdns.{query_callbacks, Reply}

pub data Event : Type 0 where
  open_socket : Option ℕ → Event
  query_send query_recv close : ℕ → Event
  select : Event

-- What `select` returns: nothing in time, an error, or the descriptors that are ready.
pub data Selected : Type 0 where
  timeout failed : Selected
  ready : (ℕ → Bool) → Selected

-- What the calls of the system and of src/mdns.h return, by the calls before: `opens` is `none` for a
-- negative descriptor, `replies` are the entries of which `mdns_query_recv` calls back, and
-- `time_is_up` is whether `time_end` is reached.
pub record Env : Type 0 where
  pub opens : List Event → Option ℕ
  pub sends : List Event → ℤ
  pub selects : List Event → Selected
  pub replies : List Event → List Reply
  pub time_is_up : List Event → Bool

-- `struct query`
pub record Query : Type 0 where
  pub sock : ℕ
  pub query_id : ℤ

pub record Reload : Type 0 where
  pub socks : List Query
  pub slots : Slots
  pub events : List Event

abbrev pub log : Event → Reload → Reload
log e s = record s { events = e ∷ s.events }

abbrev pub add_query : ℕ → ℤ → Reload → Reload
add_query sock query_id s = record s {
  socks = s.socks ++ record { sock = sock; query_id = query_id } ∷ [];
}

-- `maxfd != 0`
unfoldable pub any_socket : List Query → Bool
any_socket [] = false
any_socket (q ∷ socks) = if ltb 0 q.sock then true else any_socket socks

-- The last loop.
unfoldable pub close_all : List Query → Reload → Reload
close_all [] s = s
close_all (q ∷ socks) s = close_all socks (if ltb 0 q.sock then log (close q.sock) s else s)

module _ (env : Env) where
  -- A socket that is not opened leaves the entry of the array as `memset` has it.
  opened : Reload → Option ℕ → Reload
  opened s none = add_query 0 (pos 0) s
  opened s (some sock) = add_query sock (env.sends s.events) (log (query_send sock) s)

  unfoldable pub open_query : Reload → Reload
  unfolding opened
  open_query s = let sock = env.opens s.events in opened (log (open_socket sock) s) sock

  unfoldable pub recv_query : (ℕ → Bool) → Query → Reload → Reload
  recv_query is_ready q s =
      if not (q.query_id ==ℤ pos 0) && is_ready q.sock
      then record (log (query_recv q.sock) s) {
        slots = query_callbacks s.slots (env.replies s.events);
      }
      else s

  unfoldable pub recv_all : (ℕ → Bool) → List Query → Reload → Reload
  recv_all is_ready [] s = s
  recv_all is_ready (q ∷ socks) s = recv_all is_ready socks (recv_query is_ready q s)

  -- A pass of the loop, and whether `select` did not fail.
  pass : Reload → Selected → Reload × Bool
  pass s timeout = (s, true)
  pass s failed = (s, false)
  pass s (ready is_ready) = (recv_all is_ready s.socks s, true)

  -- The loop with its condition behind the pass, up to a number of passes.
  unfoldable pub recv_loop : ℕ → Reload → Reload
  unfolding pass
  recv_loop zero s = s
  recv_loop (suc n) s =
      let (s', goes_on) = pass (log select s) (env.selects s.events) in
      let rest = recv_loop n s' in if goes_on && not (env.time_is_up s'.events) then rest else s'

  unfoldable pub mdns_do_reload : ℕ → Slots → Reload
  mdns_do_reload passes slots =
      let s =
        open_query (open_query (open_query (record { socks = []; slots = slots; events = [] }))) in
      let s' = if any_socket s.socks then recv_loop passes s else s in close_all s'.socks s'
