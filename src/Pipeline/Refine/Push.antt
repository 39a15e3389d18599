-- ===== src/Pipeline/Refine/Push.antt =====
-- Pulling an empty packet and pushing a filled one, read as the contract reads them.
use droidcam_whip_c.Common.{
  false, ◌+◌, ◌&&◌, leb, not, inr, inl, Bool-cases, true, Bool, ltb, sym, if◌then◌else◌, ap, ◌++◌,
  length, ℕ, ◌≡◌, refl, List, [], ◌∷◌, map, Option, none, some, arith,
}
use droidcam_whip_c.Decoder.{
  resize, new_packet, push_empty_packet, Realloc, pull_empty_packet, DataPacket, Decoder,
}
use droidcam_whip_c.Pipeline.{push_ready_packet, AnyDecoder, ffmpeg, mjpeg, base_of}
use droidcam_whip_c.Pipeline.Ownership.{owners}
use droidcam_whip_c.Pipeline.Spec.{
  next_policy, admits, deliver, Policy, catch_up, Hand, idle, unfilled, filled, Contents,
}
use droidcam_whip_c.Ffmpeg
use droidcam_whip_c.Ffmpeg.{FfMpegDecoder, CodecId, is_discarded}
use droidcam_whip_c.Ffmpeg.Queue.{catchup_starts, catchup_ends}
use droidcam_whip_c.Pipeline.Refine.Relation.{
  store-Implements, policy_of, Holds, look, ImplementsAt,
}

pub pull_empty_packet-Implements :
    (r : Realloc) (d : Decoder) (size : ℕ) (q : Policy) (w : Option ℕ) (s : Contents)
    → ((a : ℕ) → owners a d none w ≡ (if ltb a d.fresh then 1 else 0))
    → ImplementsAt d q none w s
    → let (packet, after) = pull_empty_packet r d size in
      ImplementsAt after q (some packet) w (record s { hand = unfilled })
unfolding pull_empty_packet
pull_empty_packet-Implements r d size q w s unique i = go d.recieve_queue refl
  where
    go :
        (items : List ℕ)
        → d.recieve_queue ≡ items
        → let (packet, after) = pull_empty_packet r d size in
          ImplementsAt after q (some packet) w (record s { hand = unfilled })
    go [] e =
        let (m, l) =
          store-Implements d q w s d.fresh
            (record (new_packet r 0 (d.heap d.fresh).pts size) { used = 0 })
            (ground (arith, unique d.fresh)) (ground (arith, unique d.fresh)) i.0 i.2 in
        rw (pull_empty_packet, e) (m, tt, l, i.3)
    go (x ∷ items) e =
        let (m, l) =
          store-Implements d q w s x (record (resize r (d.heap x) size) { used = 0 })
            (ground (arith, unique x)) (ground (arith, unique x)) i.0 i.2 in
        rw (pull_empty_packet, e) (m, tt, l, i.3)

Holds-filled :
    (heap : ℕ → DataPacket) (a : ℕ) (hand : Hand) (c : DataPacket)
    → Holds heap (some a) hand
    → hand ≡ filled c
    → heap a ≡ c
Holds-filled heap a idle c h e = elim h [ ]
Holds-filled heap a unfilled c h e = cc e
Holds-filled heap a (filled b) c h e = cc (h, e)

map-append_one :
    (h : ℕ → DataPacket) (q : List ℕ) (a : ℕ) → map h (q ++ a ∷ []) ≡ map h q ++ h a ∷ []
map-append_one h [] a = refl
map-append_one h (x ∷ q) a = ap (λ t. h x ∷ t) (map-append_one h q a)

length-map : (h : ℕ → DataPacket) (q : List ℕ) → length (map h q) ≡ length q
length-map h [] = refl
length-map h (x ∷ q) = omega (arith, length-map h q)

push_ready_packet-heap :
    (d : AnyDecoder) (packet : ℕ) → (base_of (push_ready_packet d packet)).heap ≡ (base_of d).heap
unfolding push_ready_packet push_empty_packet
push_ready_packet-heap (ffmpeg d) packet = ground arith
push_ready_packet-heap (mjpeg d) packet = ground arith

map-if :
    (h : ℕ → DataPacket) (b : Bool) (q : List ℕ) (a : ℕ)
    → map h (if b then q ++ a ∷ [] else q) ≡ (if b then map h q ++ h a ∷ [] else map h q)
map-if h true q a = map-append_one h q a
map-if h false q a = refl

push-codec :
    (d : FfMpegDecoder) (packet : ℕ) → (Ffmpeg.push_ready_packet d packet).codec_id ≡ d.codec_id
unfolding Ffmpeg.push_ready_packet
push-codec d packet = ground arith

next_policy-catch_up :
    (codec : CodecId) (on : Bool) (n : ℕ) (c : DataPacket)
    → next_policy (catch_up codec on) n c
      ≡ catch_up codec
          (if on then not (leb n 1 && not (is_discarded codec c.block)) else ltb 30 (n + 1))
next_policy-catch_up codec true n c = refl
next_policy-catch_up codec false n c = refl

push-catchup :
    (d : FfMpegDecoder) (packet : ℕ)
    → (Ffmpeg.push_ready_packet d packet).catchup ≡ (
        if d.catchup
        then not
            (leb (length d.decode_queue) 1 && not (is_discarded d.codec_id (d.heap packet).block))
        else ltb 30 (length d.decode_queue + 1))
push-catchup d packet = elim (Bool-cases d.catchup) [
  | inl e ↦ ground (arith, (catchup_ends d packet e).0, e)
  | inr e ↦ ground (arith, (catchup_starts d packet e).2, e)
]

push-decode_queue :
    (d : FfMpegDecoder) (packet : ℕ)
    → let takes = admits (policy_of (ffmpeg d)) (length d.decode_queue) (d.heap packet) in
      (Ffmpeg.push_ready_packet d packet).decode_queue
      ≡ (if takes then d.decode_queue ++ packet ∷ [] else d.decode_queue)
push-decode_queue d packet = elim (Bool-cases d.catchup) [
  | inl e ↦ ground (arith, (catchup_ends d packet e).1, e)
  | inr e ↦ ground (arith, (catchup_starts d packet e).0, e)
]

push_ready_packet-queues :
    (d : AnyDecoder) (packet : ℕ)
    → let b = base_of d in
      let takes = admits (policy_of d) (length b.decode_queue) (b.heap packet) in
      ((base_of (push_ready_packet d packet)).decode_queue
        ≡ (if takes then b.decode_queue ++ packet ∷ [] else b.decode_queue))
      × (policy_of (push_ready_packet d packet)
          ≡ next_policy (policy_of d) (length b.decode_queue) (b.heap packet))
unfolding push_ready_packet push_empty_packet
push_ready_packet-queues (ffmpeg d) packet = (
  push-decode_queue d packet,
  cc (
    push-codec d packet,
    push-catchup d packet,
    next_policy-catch_up d.codec_id d.catchup (length d.decode_queue) (d.heap packet),
  ),
)
push_ready_packet-queues (mjpeg d) packet = (ground arith, refl)

-- The packet that the network thread hands over waits behind the others, or is thrown away.
pub push_ready_packet-Implements :
    (d : AnyDecoder) (packet : ℕ) (w : Option ℕ) (s : Contents) (c : DataPacket)
    → (map (base_of d).heap (base_of d).decode_queue ≡ s.waiting)
    → ((base_of d).heap packet ≡ c)
    → (look (base_of d).heap w ≡ s.decoding)
    → (policy_of d ≡ s.policy)
    → ImplementsAt
        (base_of (push_ready_packet d packet))
        (policy_of (push_ready_packet d packet))
        none
        w
        (deliver s c)
push_ready_packet-Implements d packet w s c m h l e =
    let (x, y) = push_ready_packet-queues d packet in
    rw (push_ready_packet-heap, x, y, map-if, sym m, sym h, sym l, sym e, length-map)
      (refl, tt, refl, refl)

pub Holds-along :
    (heap : ℕ → DataPacket) {r r' : Option ℕ} {hand hand' : Hand}
    → r ≡ r'
    → hand ≡ hand'
    → Holds heap r hand
    → Holds heap r' hand'
Holds-along heap e f h = rw (sym e, sym f) h
