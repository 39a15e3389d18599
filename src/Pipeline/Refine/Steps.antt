-- ===== src/Pipeline/Refine/Steps.antt =====
-- A single step of either thread, read as the contract reads it.
use droidcam_whip_c.Common.{
  Option-cases, inr, inl, sym, ap, ◌∙◌, ℕ, ◌≡◌, refl, List, [], ◌∷◌, map, Option, none, some, arith,
  count,
}
use droidcam_whip_c.Decoder.{pull_ready_packet, push_empty_packet, DataPacket, Decoder, store}
use droidcam_whip_c.Pipeline.{
  give_back, step, decode_pull, decode_give_back, network_step, pull_ready, hand_over, give_up,
  pull_empty, fill, Step, network_idle, network_busy, base_of, Pipeline,
}
use droidcam_whip_c.Pipeline.Ownership.{base_of-with_base, IsOwned, owners, held}
use droidcam_whip_c.Pipeline.Spec.{
  take_next, promise, network_promise, Hand, idle, unfilled, filled, Contents,
}
use droidcam_whip_c.Pipeline.Refine.Relation.{
  store-same, policy_of, store-Implements, policy_of-with_base, look, Implements,
}
use droidcam_whip_c.Pipeline.Refine.Push.{
  push_ready_packet-Implements, pull_empty_packet-Implements, Holds-along,
}

-- `none` when the threads are outside of the contract.
abbrev pub Follows : Pipeline → Option Contents → Type 0
Follows p none = Unit
Follows p (some s) = Implements p s

-- A network thread without a packet can only pull one.
network_idle-Follows :
    (p : Pipeline) (t : Step) (s : Contents) (hand : Hand)
    → p.receiving ≡ none
    → s.hand ≡ hand
    → IsOwned p
    → Implements p s
    → Follows (network_idle p t) (network_promise s hand t)
unfolding network_idle
network_idle-Follows p (pull_empty r size) s idle e f v i =
    rw (base_of-with_base, policy_of-with_base)
      (pull_empty_packet-Implements r (base_of p.decoder) size (policy_of p.decoder) p.decoding s
        (λ a. ap (λ o. owners a (base_of p.decoder) o p.decoding) (sym e) ∙ v.unique a)
        (i.0, Holds-along (base_of p.decoder).heap e refl i.1, i.2, i.3))
network_idle-Follows p (fill c) s idle e f v i = i
network_idle-Follows p give_up s idle e f v i = i
network_idle-Follows p hand_over s idle e f v i = i
network_idle-Follows p pull_ready s idle e f v i = i
network_idle-Follows p give_back s idle e f v i = i
network_idle-Follows p t s unfilled e f v i =
    elim (Holds-along (base_of p.decoder).heap e f i.1) [ ]
network_idle-Follows p t s (filled c) e f v i =
    elim (Holds-along (base_of p.decoder).heap e f i.1) [ ]

receiving-apart :
    (p : Pipeline) (packet : ℕ)
    → p.receiving ≡ some packet
    → IsOwned p
    → (count packet (base_of p.decoder).decode_queue ≡ 0) × (held packet p.decoding ≡ 0)
receiving-apart p packet e v =
    let u = ap (λ o. owners packet (base_of p.decoder) o p.decoding) (sym e) ∙ v.unique packet in
    (ground arith, ground arith)

-- The bytes that arrive go to a packet that no other thread and no queue refers to.
fill-Implements :
    (p : Pipeline) (packet : ℕ) (c : DataPacket) (s : Contents)
    → p.receiving ≡ some packet
    → IsOwned p
    → Implements p s
    → Implements (network_busy p packet (fill c)) (record s { hand = filled c })
unfolding network_busy
fill-Implements p packet c s e v i =
    let d = base_of p.decoder in
    let (m, l) =
      store-Implements d (policy_of p.decoder) p.decoding s packet c
        (receiving-apart p packet e v).0 (receiving-apart p packet e v).1 i.0 i.2 in
    rw (base_of-with_base, policy_of-with_base)
      (m, Holds-along (store d.heap packet c) (sym e) refl (store-same d.heap packet c), l, i.3)

network_busy-Follows :
    (p : Pipeline) (packet : ℕ) (t : Step) (s : Contents) (hand : Hand)
    → p.receiving ≡ some packet
    → s.hand ≡ hand
    → IsOwned p
    → Implements p s
    → Follows (network_busy p packet t) (network_promise s hand t)
unfolding network_busy push_empty_packet
network_busy-Follows p packet t s idle e f v i =
    elim (Holds-along (base_of p.decoder).heap e f i.1) [ ]
network_busy-Follows p packet (fill c) s unfilled e f v i = fill-Implements p packet c s e v i
network_busy-Follows p packet (fill c) s (filled c') e f v i = fill-Implements p packet c s e v i
network_busy-Follows p packet give_up s unfilled e f v i =
    rw (base_of-with_base, policy_of-with_base) (i.0, tt, i.2, i.3)
network_busy-Follows p packet give_up s (filled c') e f v i =
    rw (base_of-with_base, policy_of-with_base) (i.0, tt, i.2, i.3)
network_busy-Follows p packet hand_over s unfilled e f v i = tt
network_busy-Follows p packet hand_over s (filled c) e f v i =
    push_ready_packet-Implements p.decoder packet p.decoding s c i.0
      (Holds-along (base_of p.decoder).heap e f i.1) i.2 i.3
network_busy-Follows p packet _ s unfilled e f v i = i
network_busy-Follows p packet _ s (filled c) e f v i = i

-- One step of either thread, read as the contract reads it.
network_step-Follows :
    (p : Pipeline) (t : Step) (s : Contents)
    → IsOwned p
    → Implements p s
    → Follows (network_step p t) (network_promise s s.hand t)
unfolding network_step
network_step-Follows p t s v i = elim (Option-cases p.receiving) [
  | inl e ↦ rw (network_step, e) (network_idle-Follows p t s s.hand e refl v i)
  | inr (packet, e) ↦ rw (network_step, e) (network_busy-Follows p packet t s s.hand e refl v i)
]

pub take_next-same :
    (p : Pipeline) (s : Contents)
    → Implements p s
    → let b = base_of p.decoder in
      take_next s (look b.heap p.decoding) (map b.heap b.decode_queue)
      ≡ take_next s s.decoding s.waiting
take_next-same p s i =
    let b = base_of p.decoder in
    ap (λ o. take_next s o (map b.heap b.decode_queue)) i.2 ∙ ap (take_next s s.decoding) i.0

decode_pull-Implements :
    (p : Pipeline) (s : Contents)
    → Implements p s
    → Implements (decode_pull p) (take_next s s.decoding s.waiting)
unfolding decode_pull pull_ready_packet
decode_pull-Implements p s i =
    rw (sym (take_next-same p s i)) (go p.decoding b.decode_queue refl refl)
  where
    b : Decoder
    b = base_of p.decoder

    go :
        (w : Option ℕ) (q : List ℕ)
        → p.decoding ≡ w
        → b.decode_queue ≡ q
        → Implements (decode_pull p) (take_next s (look b.heap w) (map b.heap q))
    go (some packet) q e f = rw (decode_pull, e) i
    go none [] e f =
        rw (decode_pull, pull_ready_packet, e, f, base_of-with_base, policy_of-with_base)
          (ap (map b.heap) (sym f) ∙ i.0, i.1, ap (look b.heap) (sym e) ∙ i.2, i.3)
    go none (x ∷ q) e f =
        rw (decode_pull, pull_ready_packet, e, f, base_of-with_base, policy_of-with_base)
          (refl, i.1, refl, i.3)

decode_give_back-Implements :
    (p : Pipeline) (s : Contents)
    → Implements p s
    → Implements (decode_give_back p) (record s { decoding = none })
unfolding decode_give_back push_empty_packet
decode_give_back-Implements p s i = elim (Option-cases p.decoding) [
  | inl e ↦ rw (decode_give_back, e) (i.0, i.1, ap (look (base_of p.decoder).heap) e, i.3)
  | inr (packet, e) ↦
      rw (decode_give_back, e, base_of-with_base, policy_of-with_base) (i.0, i.1, refl, i.3)
]

pub step-Follows :
    (p : Pipeline) (t : Step) (s : Contents)
    → IsOwned p
    → Implements p s
    → Follows (step p t) (promise s t)
unfolding step promise
step-Follows p pull_ready s v i = decode_pull-Implements p s i
step-Follows p give_back s v i = decode_give_back-Implements p s i
step-Follows p t s v i = network_step-Follows p t s v i
