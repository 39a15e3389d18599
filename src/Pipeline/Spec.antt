-- ===== src/Pipeline/Spec.antt =====
-- What the packet pipeline promises, without addresses, heap and empty packets: the network thread
-- fills a buffer and hands its contents over, the contents wait in order unless the decoder throws
-- them away, and the decode thread gets them one by one. A buffer that is handed over before it is
-- filled is outside of the contract: the specification then has no state.
use droidcam_whip_c.Common.{
  ℕ, ◌+◌, Bool, true, false, not, ◌&&◌, ◌||◌, List, [], ◌∷◌, ◌++◌, Option, none, some, ltb, leb,
  if◌then◌else◌, length,
}
use droidcam_whip_c.Decoder.{DataPacket}
use droidcam_whip_c.Ffmpeg.{CodecId, is_discarded}
use droidcam_whip_c.Pipeline.{Step, pull_empty, fill, give_up, hand_over, pull_ready, give_back}

-- How a decoder keeps its backlog short: FFmpeg by its catch-up mode, MJPEG by dropping frames.
pub data Policy : Type 0 where
  catch_up : CodecId → Bool → Policy
  drop_new : Policy

-- What the network thread has in hand.
pub data Hand : Type 0 where
  idle unfilled : Hand
  filled : DataPacket → Hand

-- `decoded` lists all that the decode thread ever got.
pub record Contents : Type 0 where
  pub waiting : List DataPacket
  pub hand : Hand
  pub decoding : Option DataPacket
  pub decoded : List DataPacket
  pub policy : Policy

-- Whether new contents are queued behind `n` others.
abbrev pub admits : Policy → ℕ → DataPacket → Bool
admits (catch_up codec on) n c = not on || leb n 1 && not (is_discarded codec c.block)
admits drop_new n c = leb n 1

abbrev pub next_policy : Policy → ℕ → DataPacket → Policy
next_policy (catch_up codec true) n c = catch_up codec (not (admits (catch_up codec true) n c))
next_policy (catch_up codec false) n c = catch_up codec (ltb 30 (n + 1))
next_policy drop_new n c = drop_new

abbrev pub deliver : Contents → DataPacket → Contents
deliver s c = record s {
  waiting = if admits s.policy (length s.waiting) c then s.waiting ++ c ∷ [] else s.waiting;
  hand = idle;
  policy = next_policy s.policy (length s.waiting) c;
}

abbrev pub network_promise : Contents → Hand → Step → Option Contents
network_promise s idle (pull_empty brealloc size) = some (record s { hand = unfilled })
network_promise s idle _ = some s
network_promise s unfilled hand_over = none
network_promise s unfilled give_up = some (record s { hand = idle })
network_promise s unfilled (fill c) = some (record s { hand = filled c })
network_promise s unfilled _ = some s
network_promise s (filled c) hand_over = some (deliver s c)
network_promise s (filled c) give_up = some (record s { hand = idle })
network_promise s (filled c) (fill c') = some (record s { hand = filled c' })
network_promise s (filled c) _ = some s

abbrev pub take_next : Contents → Option DataPacket → List DataPacket → Contents
take_next s (some c) cs = s
take_next s none [] = s
take_next s none (c ∷ cs) = record s {
  waiting = cs;
  decoding = some c;
  decoded = s.decoded ++ c ∷ [];
}

unfoldable pub promise : Contents → Step → Option Contents
promise s pull_ready = some (take_next s s.decoding s.waiting)
promise s give_back = some (record s { decoding = none })
promise s (pull_empty brealloc size) = network_promise s s.hand (pull_empty brealloc size)
promise s (fill c) = network_promise s s.hand (fill c)
promise s give_up = network_promise s s.hand give_up
promise s hand_over = network_promise s s.hand hand_over

unfoldable pub promise_all : Contents → List Step → Option Contents
promise_all s [] = some s
promise_all s (t ∷ steps) = elim (promise s t) [ none ↦ none | some next ↦ promise_all next steps ]
