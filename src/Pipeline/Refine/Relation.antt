-- ===== src/Pipeline/Refine/Relation.antt =====
-- What it is for the two queues, the heap and the hands to stand for the contents that the contract
-- speaks of.
use droidcam_whip_c.Common.{◌∙◌, ℕ, ◌≡◌, refl, List, [], ◌∷◌, map, Option, none, some, arith, count}
use droidcam_whip_c.Decoder.{DataPacket, Decoder, store}
use droidcam_whip_c.Pipeline.{AnyDecoder, ffmpeg, mjpeg, base_of, with_base, Pipeline}
use droidcam_whip_c.Pipeline.Ownership.{held}
use droidcam_whip_c.Pipeline.Spec.{
  Policy, catch_up, drop_new, Hand, idle, unfilled, filled, Contents,
}

abbrev pub policy_of : AnyDecoder → Policy
policy_of (ffmpeg d) = catch_up d.codec_id d.catchup
policy_of (mjpeg d) = drop_new

abbrev pub look : (ℕ → DataPacket) → Option ℕ → Option DataPacket
look heap none = none
look heap (some a) = some (heap a)

-- The packet at the address has the contents that the contract says the network thread holds.
abbrev pub Holds : (ℕ → DataPacket) → Option ℕ → Hand → Type 0
Holds heap none idle = Unit
Holds heap none unfilled = ⊥
Holds heap none (filled c) = ⊥
Holds heap (some a) idle = ⊥
Holds heap (some a) unfilled = Unit
Holds heap (some a) (filled c) = heap a ≡ c

abbrev pub ImplementsAt : Decoder → Policy → Option ℕ → Option ℕ → Contents → Type 0
ImplementsAt d q r w s =
    (map d.heap d.decode_queue ≡ s.waiting)
    × Holds d.heap r s.hand
    × (look d.heap w ≡ s.decoding)
    × (q ≡ s.policy)

abbrev pub Implements : Pipeline → Contents → Type 0
Implements p s = ImplementsAt (base_of p.decoder) (policy_of p.decoder) p.receiving p.decoding s

pub policy_of-with_base : (d : AnyDecoder) (b : Decoder) → policy_of (with_base d b) ≡ policy_of d
policy_of-with_base (ffmpeg d) b = refl
policy_of-with_base (mjpeg d) b = refl

map-store :
    (h : ℕ → DataPacket) (a : ℕ) (c : DataPacket) (q : List ℕ)
    → count a q ≡ 0
    → map (store h a c) q ≡ map h q
map-store h a c [] e = refl
map-store h a c (x ∷ q) e = ground (arith, map-store h a c q)

look-store :
    (h : ℕ → DataPacket) (a : ℕ) (c : DataPacket) (w : Option ℕ)
    → held a w ≡ 0
    → look (store h a c) w ≡ look h w
look-store h a c none e = refl
look-store h a c (some b) e = ground arith

pub store-same : (h : ℕ → DataPacket) (a : ℕ) (c : DataPacket) → store h a c a ≡ c
store-same h a c = ground arith

-- A write to a packet that neither waits nor is being decoded.
pub store-Implements :
    (d : Decoder) (q : Policy) (w : Option ℕ) (s : Contents) (a : ℕ) (c : DataPacket)
    → count a d.decode_queue ≡ 0
    → held a w ≡ 0
    → (map d.heap d.decode_queue ≡ s.waiting)
    → (look d.heap w ≡ s.decoding)
    → (map (store d.heap a c) d.decode_queue ≡ s.waiting) × (look (store d.heap a c) w ≡ s.decoding)
store-Implements d q w s a c apart free e f =
    (map-store d.heap a c d.decode_queue apart ∙ e, look-store d.heap a c w free ∙ f)
