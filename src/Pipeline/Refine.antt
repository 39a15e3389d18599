-- ===== src/Pipeline/Refine.antt =====
-- The packet pipeline of src/source.cc beside the contract of Pipeline/Spec: a simulation that relates
-- each address to the contents that the contract speaks of.
pub mod Relation
mod Push
mod Steps
use droidcam_whip_c.Common.{
  append_assoc, append-nil, Option-cases, false, ◌+◌, ◌&&◌, leb, not, inr, inl, Bool-cases, true,
  Bool, ltb, sym, if◌then◌else◌, ap, ◌∙◌, ◌++◌, length, ℕ, ◌≡◌, refl, List, [], ◌∷◌, map, Option,
  none, some, arith, count,
}
use droidcam_whip_c.Decoder.{
  pull_ready_packet, resize, new_packet, push_empty_packet, Realloc, pull_empty_packet, DataPacket,
  Decoder, store,
}
use droidcam_whip_c.Pipeline.{
  run, give_back, step, decode_pull, decode_give_back, network_step, pull_ready, hand_over, give_up,
  pull_empty, fill, Step, network_idle, network_busy, push_ready_packet, AnyDecoder, ffmpeg, mjpeg,
  base_of, with_base, Pipeline,
}
use droidcam_whip_c.Pipeline.Ownership.{
  run-IsOwned, step-IsOwned, IsNew, base_of-with_base, IsOwned, owners, held,
}
use droidcam_whip_c.Pipeline.Spec.{
  promise_all, take_next, promise, network_promise, next_policy, admits, deliver, Policy, catch_up,
  drop_new, Hand, idle, unfilled, filled, Contents,
}
use droidcam_whip_c.Ffmpeg
use droidcam_whip_c.Ffmpeg.{FfMpegDecoder, CodecId, is_discarded}
use droidcam_whip_c.Ffmpeg.Queue.{catchup_starts, catchup_ends}
use droidcam_whip_c.Pipeline.Refine.Relation.{policy_of, look, Implements}
use droidcam_whip_c.Pipeline.Refine.Steps.{take_next-same, step-Follows, Follows}
use droidcam_whip_c.Pipeline.Refine.Push.{Holds-along}

-- What a step gives to the decode thread.
abbrev first : (ℕ → DataPacket) → Option ℕ → List ℕ → List DataPacket
first heap none (packet ∷ items) = heap packet ∷ []
first heap none [] = []
first heap (some packet) items = []

unfoldable pub gets : Pipeline → Step → List DataPacket
gets p pull_ready = first (base_of p.decoder).heap p.decoding (base_of p.decoder).decode_queue
gets p _ = []

unfoldable pub gets_all : Pipeline → List Step → List DataPacket
gets_all p [] = []
gets_all p (t ∷ steps) = gets p t ++ gets_all (step p t) steps

Records : List DataPacket → Option Contents → Type 0
Records seen none = Unit
Records seen (some s) = s.decoded ≡ seen

network_promise-Records :
    (s : Contents) (hand : Hand) (t : Step) → Records s.decoded (network_promise s hand t)
unfolding Records
network_promise-Records s idle (pull_empty brealloc size) = refl
network_promise-Records s idle _ = refl
network_promise-Records s unfilled hand_over = tt
network_promise-Records s unfilled give_up = refl
network_promise-Records s unfilled (fill c) = refl
network_promise-Records s unfilled _ = refl
network_promise-Records s (filled c) hand_over = refl
network_promise-Records s (filled c) give_up = refl
network_promise-Records s (filled c) (fill c') = refl
network_promise-Records s (filled c) _ = refl

take_next-first :
    (s : Contents) (heap : ℕ → DataPacket) (w : Option ℕ) (q : List ℕ)
    → (take_next s (look heap w) (map heap q)).decoded ≡ s.decoded ++ first heap w q
take_next-first s heap (some packet) q = sym (append-nil _)
take_next-first s heap none [] = sym (append-nil _)
take_next-first s heap none (packet ∷ q) = refl

promise-Records :
    (p : Pipeline) (t : Step) (s : Contents)
    → Implements p s
    → Records (s.decoded ++ gets p t) (promise s t)
unfolding Records gets promise
promise-Records p pull_ready s i =
    rw (sym (take_next-same p s i))
      (take_next-first s (base_of p.decoder).heap p.decoding (base_of p.decoder).decode_queue)
promise-Records p give_back s i = sym (append-nil _)
promise-Records p t s i = rw append-nil (network_promise-Records s s.hand t)

Follows-along : (p : Pipeline) {o o' : Option Contents} → o ≡ o' → Follows p o → Follows p o'
Follows-along p e f = rw (sym e) f

Records-along :
    (seen : List DataPacket) {o o' : Option Contents} → o ≡ o' → Records seen o → Records seen o'
Records-along seen e f = rw (sym e) f

promise_all-next :
    (s : Contents) (t : Step) (steps : List Step) {next : Contents}
    → promise s t ≡ some next
    → promise_all s (t ∷ steps) ≡ promise_all next steps
unfolding promise_all
promise_all-next s t steps e = rw (promise_all, e) refl

promise_all-none :
    (s : Contents) (t : Step) (steps : List Step)
    → promise s t ≡ none
    → promise_all s (t ∷ steps) ≡ none
unfolding promise_all
promise_all-none s t steps e = rw (promise_all, e) refl

absurd_none : {s : Contents} {A : Type 0} → none ≡ some s → A
absurd_none e = absurd (ground (arith, e))

run-Implements_from :
    (steps : List Step) (p : Pipeline) (s s' : Contents)
    → IsOwned p
    → Implements p s
    → promise_all s steps ≡ some s'
    → Implements (run p steps) s' × (s'.decoded ≡ s.decoded ++ gets_all p steps)
unfolding run promise_all gets_all Records
run-Implements_from [] p s s' v i e =
    let same : s ≡ s' = cc e in rw (sym same) (i, sym (append-nil s.decoded))
run-Implements_from (t ∷ steps) p s s' v i e =
    go (promise s t) refl
      (λ next. run-Implements_from steps (step p t) next s' (step-IsOwned p t v))
  where
    go :
        (o : Option Contents)
        → promise s t ≡ o
        → ((next : Contents)
            → Implements (step p t) next
            → promise_all next steps ≡ some s'
            → Implements (run (step p t) steps) s'
              × (s'.decoded ≡ next.decoded ++ gets_all (step p t) steps))
        → Implements (run (step p t) steps) s'
          × (s'.decoded ≡ s.decoded ++ (gets p t ++ gets_all (step p t) steps))
    go none f rest = absurd_none (sym (promise_all-none s t steps f) ∙ e)
    go (some next) f rest =
        let follows : Implements (step p t) next =
          Follows-along (step p t) f (step-Follows p t s v i) in
        let records : next.decoded ≡ s.decoded ++ gets p t =
          Records-along (s.decoded ++ gets p t) f (promise-Records p t s i) in
        let (x, y) = rest next follows (sym (promise_all-next s t steps f) ∙ e) in
        (
          x,
          y
              ∙ ap (λ l. l ++ gets_all (step p t) steps) records
              ∙ append_assoc s.decoded (gets p t) (gets_all (step p t) steps),
        )

-- Nothing waits, nothing is in hand, and nothing has been decoded.
abbrev pub nothing : Policy → Contents
nothing policy = record {
  waiting = [];
  hand = idle;
  decoding = none;
  decoded = [];
  policy = policy;
}

-- From a new decoder, after every interleaving of the threads' steps in which no packet is handed
-- over before it is filled, the decode queue, the packet in the decode thread's hand, a filled
-- packet in the network thread's hand and the decoder's catch-up mode are those of the contract,
-- and the decode thread got the contents that the contract says, in that order: neither the reuse
-- of packets nor a write of the network thread changes what waits or is being decoded.
pub run-Implements :
    (p : Pipeline) (steps : List Step) (s : Contents)
    → IsNew p
    → promise_all (nothing (policy_of p.decoder)) steps ≡ some s
    → Implements (run p steps) s × (gets_all p steps ≡ s.decoded)
unfolding run
run-Implements p steps s n e =
    let heap = (base_of p.decoder).heap in
    let (x, y) =
      run-Implements_from steps p (nothing (policy_of p.decoder)) s (run-IsOwned p [] n)
        (ap (map heap) n.1, Holds-along heap (sym n.4) refl tt, ap (look heap) n.5, refl) e in
    (x, sym y)
