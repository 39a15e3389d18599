-- ===== src/Pipeline/Release.antt =====
-- `release_decoder` of src/source.cc: when its wait ends, and what `~Decoder` then frees.
use droidcam_whip_c.Decoder.{push_empty_packet, pull_ready_packet, delete_all, Decoder, destroy}
use droidcam_whip_c.Pipeline.{
  ◌∷◌, if◌then◌else◌, ◌+◌, false, ◌≤◌, [], some, ◌^◌, count, none, length, List, ℕ, Option, ◌≡◌,
  ◌<◌, base_of, Pipeline, Step, pull_ready, give_back, step, run, release_waits,
}
use droidcam_whip_c.Pipeline.Ownership.{step-IsOwned, run-IsOwned_from, hands, IsOwned}
use droidcam_whip_c.Common.{◌∙◌, zero, suc, ◌%◌, true, refl, count-append, ◌-◌, ltb, arith}

count-le-length : (a : ℕ) (xs : List ℕ) → count a xs ≤ length xs
count-le-length a [] = omega arith
count-le-length a (x ∷ xs) = ground (arith, count-le-length a xs)

delete_all-sub :
    (items : List ℕ) (n : ℕ) → n < 2 ^ 64 → length items ≤ n → delete_all items n ≡ n - length items
unfolding delete_all
delete_all-sub [] n h k = omega arith
delete_all-sub (x ∷ items) n h k =
    omega (arith, delete_all-sub items ((n + 2 ^ 64 - 1) % 2 ^ 64) (omega arith) (omega arith))

-- What `~Decoder` leaves of the count: the packets in neither queue.
destroy-count :
    (d : Decoder)
    → d.alloc_count < 2 ^ 64
    → length d.recieve_queue + length d.decode_queue ≤ d.alloc_count
    → (destroy d).1 ≡ d.alloc_count - (length d.recieve_queue + length d.decode_queue)
unfolding destroy
destroy-count d h k = omega (
  arith,
  delete_all-sub d.recieve_queue d.alloc_count h (omega arith),
  delete_all-sub d.decode_queue (delete_all d.recieve_queue d.alloc_count)
      (omega (arith, delete_all-sub d.recieve_queue d.alloc_count h (omega arith)))
      (omega (arith, delete_all-sub d.recieve_queue d.alloc_count h (omega arith))),
)

nil_of_length : (xs : List ℕ) → length xs ≡ 0 → xs ≡ []
nil_of_length [] e = refl
nil_of_length (x ∷ xs) e = absurd (omega arith)

none_of_hands : (o : Option ℕ) → hands o ≡ 0 → o ≡ none
none_of_hands none e = refl
none_of_hands (some x) e = absurd (omega arith)

destroy-count_at :
    (d : Decoder) (a : ℕ) → count a (destroy d).0 ≡ count a d.recieve_queue + count a d.decode_queue
unfolding destroy
destroy-count_at d a = count-append a d.recieve_queue d.decode_queue

-- When the wait has ended with no stop requested, all packets are back in the receive queue.
all_back :
    (p : Pipeline)
    → IsOwned p
    → p.receiving ≡ none
    → (base_of p.decoder).fresh < 2 ^ 64
    → release_waits false (base_of p.decoder) ≡ false
    → (hands p.decoding ≡ 0)
      × (length (base_of p.decoder).decode_queue ≡ 0)
      × ((base_of p.decoder).alloc_count ≡ length (base_of p.decoder).recieve_queue)
      × ((base_of p.decoder).alloc_count < 2 ^ 64)
unfolding release_waits
all_back p v idle small done = ground (arith, v.complete, v.counted)

-- With no stop requested, the network thread leaves the wait of `release_decoder` only when the
-- decode thread holds no packet and none waits for it; `~Decoder` then frees every packet ever
-- allocated exactly once, nothing else, and its count ends at 0. (Fewer than 2 ^ 64 packets, and
-- the network thread itself holds none.)
pub release_frees_all :
    (p : Pipeline)
    → IsOwned p
    → p.receiving ≡ none
    → (base_of p.decoder).fresh < 2 ^ 64
    → release_waits false (base_of p.decoder) ≡ false
    → let d = base_of p.decoder in
      (p.decoding ≡ none)
      × (d.decode_queue ≡ [])
      × ((a : ℕ) → count a (destroy d).0 ≡ (if ltb a d.fresh then 1 else 0))
      × ((destroy d).1 ≡ 0)
release_frees_all p v idle small done =
    let back = all_back p v idle small done in
    let d = base_of p.decoder in
    let no_decoding = none_of_hands p.decoding (back.0) in
    let no_backlog = nil_of_length d.decode_queue (back.1) in
    (
      no_decoding,
      no_backlog,
      λ a. ground (arith, destroy-count_at d a, v.unique a),
      omega (arith, destroy-count d (back.3) (omega (arith, back.1, back.2)), back.1, back.2),
    )

-- With a stop requested the wait is skipped: if the decode thread still holds a packet then, the
-- decoder is destroyed under it, that packet is not freed, and the count does not end at 0.
pub release_stopped_leaks :
    (p : Pipeline) (packet : ℕ)
    → IsOwned p
    → p.receiving ≡ none
    → (base_of p.decoder).fresh < 2 ^ 64
    → p.decoding ≡ some packet
    → let d = base_of p.decoder in
      (release_waits true d ≡ false)
      × (packet < d.fresh)
      × (count packet (destroy d).0 ≡ 0)
      × ((destroy d).1 ≡ 1)
unfolding release_waits
release_stopped_leaks p packet v idle small busy =
    let d = base_of p.decoder in
    let counts = destroy-count_at d packet in
    (
      ground arith,
      ground (arith, v.unique packet, counts),
      ground (arith, v.unique packet, counts),
      ground (arith, v.complete, v.counted, destroy-count d),
    )

-- One round of `video_decode_thread` that finds a packet.
abbrev pub decode_rounds : ℕ → List Step
decode_rounds zero = []
decode_rounds (suc n) = pull_ready ∷ give_back ∷ decode_rounds n

round_lem :
    (p : Pipeline) (n : ℕ)
    → length (base_of p.decoder).decode_queue ≡ suc n
    → p.decoding ≡ none
    → let q = step (step p pull_ready) give_back in
      (length (base_of q.decoder).decode_queue ≡ n)
      × (q.decoding ≡ none)
      × (q.receiving ≡ p.receiving)
unfolding step pull_ready_packet push_empty_packet
round_lem p n e idle = ground arith

-- The decode thread empties a queue of `n` packets in `n` rounds.
drained :
    (n : ℕ) (p : Pipeline)
    → length (base_of p.decoder).decode_queue ≡ n
    → p.decoding ≡ none
    → let q = run p (decode_rounds n) in
      (q.decoding ≡ none) × ((base_of q.decoder).decode_queue ≡ []) × (q.receiving ≡ p.receiving)
unfolding run
drained zero p e idle = (idle, nil_of_length _ e, refl)
drained (suc n) p e idle =
    let (e', idle', same) = round_lem p n e idle in
    let (a, b, c) = drained n (step (step p pull_ready) give_back) e' idle' in (a, b, c ∙ same)

give_back_lem :
    (p : Pipeline)
    → let q = step p give_back in
      (q.decoding ≡ none)
      × (length (base_of q.decoder).decode_queue ≡ length (base_of p.decoder).decode_queue)
      × (q.receiving ≡ p.receiving)
unfolding step push_empty_packet
give_back_lem p = ground arith

-- The wait ends: from any owned state in which the network thread holds no packet, the decode
-- thread gives back what it holds, and after as many rounds as packets wait for it `release_decoder`
-- waits no longer.
pub release_wait_ends :
    (p : Pipeline)
    → IsOwned p
    → p.receiving ≡ none
    → let steps = give_back ∷ decode_rounds (length (base_of p.decoder).decode_queue) in
      release_waits false (base_of (run p steps).decoder) ≡ false
unfolding release_waits run
release_wait_ends p v idle =
    let (free, same_length, same) = give_back_lem p in
    let n = length (base_of p.decoder).decode_queue in
    let q = step p give_back in
    let (a, b, c) = drained n q same_length free in
    let w = run-IsOwned_from (decode_rounds n) q (step-IsOwned p give_back v) in
    ground (arith, w.complete, w.counted)
