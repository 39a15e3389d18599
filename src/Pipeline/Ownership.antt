-- ===== src/Pipeline/Ownership.antt =====
-- Every packet has one owner at any time.
use droidcam_whip_c.Common.{
  List, inr, inl, Option-cases, ℕ, ◌+◌, ◌%◌, refl, ◌^◌, ◌≡◌, [], ◌∷◌, Option, none, some, arith,
  ltb, ◌==◌, if◌then◌else◌, length, count, length-append, count-append,
}
use droidcam_whip_c.Decoder.{
  Realloc, Decoder, pull_empty_packet, push_empty_packet, pull_ready_packet,
}
use droidcam_whip_c.Pipeline.{
  network_idle, network_busy, AnyDecoder, ffmpeg, mjpeg, base_of, with_base, push_ready_packet,
  Pipeline, Step, pull_empty, fill, give_up, hand_over, pull_ready, give_back, step, network_step,
  decode_pull, decode_give_back, run,
}

abbrev pub held : ℕ → Option ℕ → ℕ
held a none = 0
held a (some b) = if b == a then 1 else 0

abbrev pub hands : Option ℕ → ℕ
hands none = 0
hands (some b) = 1

-- The places that refer to the packet at an address, over a decoder and the two threads.
abbrev pub owners : ℕ → Decoder → Option ℕ → Option ℕ → ℕ
owners a d r w = count a d.recieve_queue + count a d.decode_queue + held a r + held a w

abbrev pub packets : Decoder → Option ℕ → Option ℕ → ℕ
packets d r w = length d.recieve_queue + length d.decode_queue + hands r + hands w

-- What the fields of a pipeline hold, at one address.
abbrev OwnsAt : ℕ → Decoder → Option ℕ → Option ℕ → Type 0
OwnsAt a d r w =
    (owners a d r w ≡ (if ltb a d.fresh then 1 else 0))
    × (packets d r w ≡ d.fresh)
    × (d.alloc_count ≡ d.fresh % 2 ^ 64)

-- Each allocated packet stands in one queue or one thread's hand, nothing else is referred to, and
-- `alloc_count` is the number of the packets.
pub record IsOwned (p : Pipeline) : Type 0 where
  pub unique :
      (a : ℕ)
      → owners a (base_of p.decoder) p.receiving p.decoding
        ≡ (if ltb a (base_of p.decoder).fresh then 1 else 0)
  pub complete : packets (base_of p.decoder) p.receiving p.decoding ≡ (base_of p.decoder).fresh
  pub counted : (base_of p.decoder).alloc_count ≡ (base_of p.decoder).fresh % 2 ^ 64

-- `push_ready_packet` moves the packet into one of the queues and leaves the rest alone.
push_ready_packet-moves :
    (d : AnyDecoder) (packet a : ℕ)
    → let b = base_of d in
      let c = base_of (push_ready_packet d packet) in
      (count a c.recieve_queue + count a c.decode_queue
        ≡ count a b.recieve_queue + count a b.decode_queue + (if packet == a then 1 else 0))
      × (length c.recieve_queue + length c.decode_queue
          ≡ length b.recieve_queue + length b.decode_queue + 1)
      × (c.fresh ≡ b.fresh)
      × (c.alloc_count ≡ b.alloc_count)
unfolding push_ready_packet push_empty_packet
push_ready_packet-moves (ffmpeg d) packet a = ground (
  arith,
  count-append a d.recieve_queue (packet ∷ []),
  count-append a d.decode_queue (packet ∷ []),
  length-append d.recieve_queue (packet ∷ []),
  length-append d.decode_queue (packet ∷ []),
)
push_ready_packet-moves (mjpeg d) packet a = ground (
  arith,
  count-append a d.recieve_queue (packet ∷ []),
  count-append a d.decode_queue (packet ∷ []),
  length-append d.recieve_queue (packet ∷ []),
  length-append d.decode_queue (packet ∷ []),
)

pub base_of-with_base : (d : AnyDecoder) (b : Decoder) → base_of (with_base d b) ≡ b
base_of-with_base (ffmpeg d) b = refl
base_of-with_base (mjpeg d) b = refl

abbrev Owns : ℕ → Pipeline → Type 0
Owns a p = OwnsAt a (base_of p.decoder) p.receiving p.decoding

-- `pull_empty_packet` takes its result from the queue, or allocates it.
pull_empty_packet-takes :
    (r : Realloc) (d : Decoder) (size a : ℕ)
    → let (packet, c) = pull_empty_packet r d size in
      (owners a c (some packet) none + (if ltb a d.fresh then 1 else 0)
        ≡ owners a d none none + (if ltb a c.fresh then 1 else 0))
      × (packets c (some packet) none + d.fresh ≡ packets d none none + c.fresh)
      × (d.alloc_count ≡ d.fresh % 2 ^ 64 → c.alloc_count ≡ c.fresh % 2 ^ 64)
unfolding pull_empty_packet
pull_empty_packet-takes r d size a = ground arith

network_idle-Owns :
    (p : Pipeline) (s : Step) (a : ℕ) → p.receiving ≡ none → Owns a p → Owns a (network_idle p s)
unfolding network_idle
network_idle-Owns p (pull_empty r size) a idle o =
    let after = (pull_empty_packet r (base_of p.decoder) size).1 in
    rw (base_of-with_base p.decoder after)
      (ground (arith, pull_empty_packet-takes r (base_of p.decoder) size a))
network_idle-Owns p _ a idle o = o

-- A busy network thread: what it holds goes to a queue, or stays.
network_busy-Owns :
    (p : Pipeline) (packet : ℕ) (s : Step) (a : ℕ)
    → p.receiving ≡ some packet
    → Owns a p
    → Owns a (network_busy p packet s)
unfolding network_busy push_empty_packet
network_busy-Owns p packet (fill contents) a busy o = rw base_of-with_base o
network_busy-Owns p packet give_up a busy o = rw base_of-with_base (
    ground (
      arith,
      count-append a (base_of p.decoder).recieve_queue (packet ∷ []),
      length-append (base_of p.decoder).recieve_queue (packet ∷ []),
    ))
network_busy-Owns p packet hand_over a busy o =
    ground (arith, push_ready_packet-moves p.decoder packet a)
network_busy-Owns p packet _ a busy o = o

network_step-Owns : (p : Pipeline) (s : Step) (a : ℕ) → Owns a p → Owns a (network_step p s)
unfolding network_step
network_step-Owns p s a o = elim (Option-cases p.receiving) [
  | inl e ↦ rw (e, network_step) (network_idle-Owns p s a e o)
  | inr (packet, e) ↦ rw (e, network_step) (network_busy-Owns p packet s a e o)
]

decode_pull-Owns : (p : Pipeline) (a : ℕ) → Owns a p → Owns a (decode_pull p)
unfolding decode_pull pull_ready_packet
decode_pull-Owns p a o = ground arith

decode_give_back-Owns : (p : Pipeline) (a : ℕ) → Owns a p → Owns a (decode_give_back p)
unfolding decode_give_back push_empty_packet
decode_give_back-Owns p a o = ground (
  arith,
  count-append a (base_of p.decoder).recieve_queue (get p ∷ []),
  length-append (base_of p.decoder).recieve_queue (get p ∷ []),
)
  where
    get : Pipeline → ℕ
    get q = elim q.decoding [ none ↦ 0 | some packet ↦ packet ]

step-Owns : (p : Pipeline) (s : Step) (a : ℕ) → Owns a p → Owns a (step p s)
unfolding step
step-Owns p pull_ready a o = decode_pull-Owns p a o
step-Owns p give_back a o = decode_give_back-Owns p a o
step-Owns p s a o = network_step-Owns p s a o

-- Every step of either thread keeps the ownership of the packets, whatever `realloc` answers and
-- whatever is written into a packet.
pub step-IsOwned : (p : Pipeline) (s : Step) → IsOwned p → IsOwned (step p s)
step-IsOwned p s v = record {
  unique = λ a. (step-Owns p s a (v.unique a, v.complete, v.counted)).0;
  complete = (step-Owns p s 0 (v.unique 0, v.complete, v.counted)).1;
  counted = (step-Owns p s 0 (v.unique 0, v.complete, v.counted)).2;
}

pub run-IsOwned_from : (steps : List Step) (p : Pipeline) → IsOwned p → IsOwned (run p steps)
unfolding run
run-IsOwned_from [] p v = v
run-IsOwned_from (s ∷ steps) p v = run-IsOwned_from steps (step p s) (step-IsOwned p s v)

-- A new decoder with both hands empty.
abbrev pub IsNew : Pipeline → Type 0
IsNew p =
    ((base_of p.decoder).recieve_queue ≡ [])
    × ((base_of p.decoder).decode_queue ≡ [])
    × ((base_of p.decoder).alloc_count ≡ 0)
    × ((base_of p.decoder).fresh ≡ 0)
    × (p.receiving ≡ none)
    × (p.decoding ≡ none)

-- From a new decoder, after every interleaving of the steps of the network thread and the decode
-- thread, each packet ever allocated is referred to from exactly one place (a queue, or the hand of
-- one thread), no other address is referred to, and `alloc_count` is the number of packets modulo
-- 2 ^ 64.
pub run-IsOwned : (p : Pipeline) (steps : List Step) → IsNew p → IsOwned (run p steps)
run-IsOwned p steps n = run-IsOwned_from steps p (record {
  unique = λ a. rw (n.0, n.1, n.3, n.4, n.5) (ground arith);
  complete = rw (n.0, n.1, n.3, n.4, n.5);
  counted = rw (n.2, n.3);
})
