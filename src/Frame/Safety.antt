-- ===== src/Frame/Safety.antt =====
-- What `read_frame` returns, on every branch and for every input.
use droidcam_whip_c.Decoder.{
  Realloc, pull_empty_packet, Decoder, resize, push_empty_packet, DataPacket,
}
use droidcam_whip_c.Net.{Received, Recv, received_bytes, net_recv_all}
use droidcam_whip_c.Frame.{
  read_frame, frame, packet, no_pts, again, max_packet, overflow, out_of_fuel, stop, fail,
  max_config, finish_frame, Pass, fill_frame, read_body, pass, null, read_passes, write_at,
  FrameResult,
}
use droidcam_whip_c.Common.{
  inr, false, true, length-drop, refl, length-take, zero, length-append, drop, ◌++◌, suc, ◌<◌, ◌⊎◌,
  [], take, some, arith, ◌∷◌, ◌≡◌, ◌≤◌, ◌+◌, ◌≢◌, length, Bool, ℕ, List,
}
use droidcam_whip_c.Buffer.{buffer_read32be}

-- `realloc` as documented, while there is memory: a block of the size asked for.
abbrev pub Answers : Realloc → Type 0
Answers brealloc =
    (block : List ℕ) (n : ℕ) → (c : List ℕ) × (brealloc block n ≡ some c) × (length c ≡ n)

-- Every packet's block is as long as its `size` says.
abbrev pub HasBlocks : Decoder → Type 0
HasBlocks d = (a : ℕ) → (d.heap a).size ≤ length (d.heap a).block

pub write_at_fits :
    (block : List ℕ) (i : ℕ) (bytes : List ℕ)
    → i + length bytes ≤ length block
    → (c : List ℕ) × (write_at block i bytes ≡ some c) × (length c ≡ length block)
unfolding write_at
write_at_fits block i bytes h = (
  take i block ++ (bytes ++ drop (i + length bytes) block),
  ground arith,
  omega (
    arith,
    length-append {0} (take i block) (bytes ++ drop (i + length bytes) block),
    length-append {0} bytes (drop (i + length bytes) block),
    length-take {0} i block,
    length-drop {0} (i + length bytes) block,
  ),
)

resize-fits :
    (r : Realloc) (p : DataPacket) (n : ℕ)
    → Answers r
    → p.size ≤ length p.block
    → (n ≤ length (resize r p n).block) × ((resize r p n).size ≤ length (resize r p n).block)
unfolding resize
resize-fits r p n ok h = let (c, e, l) = ok p.block n in ground arith

pub pull_empty_packet-fits :
    (r : Realloc) (d : Decoder) (n : ℕ)
    → Answers r
    → HasBlocks d
    → let (a, d') = pull_empty_packet r d n in n ≤ length (d'.heap a).block
unfolding pull_empty_packet
pull_empty_packet-fits r d n ok h = ground (
  arith,
  resize-fits r (d.heap (head d.recieve_queue)) n ok (h (head d.recieve_queue)),
  resize-fits r (record { block = []; size = 0; used = 0; pts = (d.heap d.fresh).pts }) n ok
      (omega arith),
)
  where
    head : List ℕ → ℕ
    head [] = 0
    head (x ∷ xs) = x

-- What one pass can lead to.
abbrev Allowed : {Sock : Type 0} → ℕ → Pass Sock → Type 0
Allowed c (fail e s) = (e ≢ stop) × (e ≢ out_of_fuel) × (e ≢ overflow)
Allowed c (again bytes n s) = (c ≡ 0) × (n ≢ 0) × (n ≤ max_config) × (length bytes ≡ n)
Allowed c (frame pts len s) = (0 < len) × (len ≤ max_packet) × (pts ≢ no_pts)

-- What the whole of `read_frame` can lead to.
abbrev pub Expected : FrameResult → Decoder → Type 0
Expected (null e) d = (e ≢ stop) × (e ≢ out_of_fuel) × (e ≢ overflow)
Expected (packet a) d =
    (0 < (d.heap a).used)
    × ((d.heap a).used ≤ max_config + max_packet)
    × ((d.heap a).used ≤ length (d.heap a).block)
    × ((d.heap a).pts ≢ no_pts)

module _ {Sock : Type 0} (recv : Recv Sock) where
  -- `recv` as documented: no more bytes than asked for.
  abbrev pub Limits : Type 0
  Limits = (s : Sock) (n : ℕ) → length (received_bytes (recv s n).0) ≤ n

  pass-Allowed : (s : Sock) (c : ℕ) → Allowed c (pass recv s c)
  unfolding pass buffer_read32be
  pass-Allowed s c = ground arith

  fill_frame-Expected :
      (d : Decoder) (a : ℕ) (h : Bool) (config : List ℕ) (pts len : ℕ) (r : Received) (s : Sock)
      → length config + len ≤ length (d.heap a).block
      → length (received_bytes r) ≤ len
      → length config ≤ max_config
      → 0 < len
      → len ≤ max_packet
      → pts ≢ no_pts
      → let o = fill_frame recv d a h config (length config) pts len r s in
        Expected o.result o.decoder
  unfolding fill_frame finish_frame push_empty_packet
  fill_frame-Expected d a h config pts len r s fits limits small pos_len max_len time =
      let (b, e, l) = write_at_fits (d.heap a).block 0 config (omega arith) in
      let (c, e', l') = write_at_fits b (length config) (received_bytes r) (omega arith) in
      ground arith

  read_body-Expected :
      (r : Realloc) (d : Decoder) (s : Sock) (h : Bool) (config : List ℕ) (pts len : ℕ)
      → Answers r
      → HasBlocks d
      → Limits
      → length config ≤ max_config
      → 0 < len
      → len ≤ max_packet
      → pts ≢ no_pts
      → let o = read_body recv r d s h config (length config) pts len in Expected o.result o.decoder
  unfolding read_body net_recv_all
  read_body-Expected r d s h config pts len ok blocks limits small pos_len max_len time =
      fill_frame-Expected _ _ h config pts len _ _
        (pull_empty_packet-fits r d (length config + len) ok blocks) (limits s len) small pos_len
        max_len time

  -- The passes: at most one configuration comes before the frame, so two suffice.
  read_passes-Expected :
      (fuel : ℕ) (r : Realloc) (d : Decoder) (s : Sock) (h : Bool) (config : List ℕ)
      → Answers r
      → HasBlocks d
      → Limits
      → length config ≤ max_config
      → (fuel ≡ 1) × (length config ≢ 0) ⊎ (fuel ≡ 2)
      → let o = read_passes recv fuel r d s h config (length config) in Expected o.result o.decoder
  unfolding read_passes
  read_passes-Expected zero r d s h config ok blocks limits small enough = ground arith
  read_passes-Expected (suc fuel) r d s h config ok blocks limits small enough =
      go (read_passes-Expected fuel r d) (pass recv s (length config)) refl
    where
      go :
          ((s : Sock) (h : Bool) (config : List ℕ)
            → Answers r
            → HasBlocks d
            → Limits
            → length config ≤ max_config
            → (fuel ≡ 1) × (length config ≢ 0) ⊎ (fuel ≡ 2)
            → let o = read_passes recv fuel r d s h config (length config) in
              Expected o.result o.decoder)
          → (p : Pass Sock) → pass recv s (length config) ≡ p
          → let o = read_passes recv (suc fuel) r d s h config (length config) in
            Expected o.result o.decoder
      go ih (fail e s') eq = rw (eq, read_passes) (rw eq at (pass-Allowed s (length config)))
      go ih (frame pts len s') eq =
          let (pos_len, max_len, time) : (0 < len) × (len ≤ max_packet) × (pts ≢ no_pts) =
            rw eq at (pass-Allowed s (length config)) in
          rw (eq, read_passes)
            (read_body-Expected r d s' h config pts len ok blocks limits small pos_len max_len time)
      go ih (again bytes n s') eq =
          let (first, some_bytes, few, all) : (length config ≡ 0)
              × (n ≢ 0)
              × (n ≤ max_config)
              × (length bytes ≡ n) =
            rw eq at (pass-Allowed s (length config)) in
          rw (eq, read_passes, ← all)
            (ih s' true bytes ok blocks limits (omega arith) (ground arith))

  -- `read_frame` always returns: two passes of AGAIN suffice. It never writes outside of the
  -- packet's block, never reports the app's stop code (a 32-bit length never equals NO_PTS), and a
  -- packet that it returns holds between 1 and 1024 + 2 ^ 24 bytes, all inside its block, with a time
  -- stamp that is not NO_PTS. This holds while `realloc` has memory, `recv` returns no more than
  -- asked for, and every packet's block is as long as its `size`.
  pub read_frame-Expected :
      (r : Realloc) (d : Decoder) (s : Sock)
      → Answers r
      → HasBlocks d
      → Limits
      → let o = read_frame recv r d s in Expected o.result o.decoder
  unfolding read_frame
  read_frame-Expected r d s ok blocks limits =
      read_passes-Expected 2 r d s false [] ok blocks limits (omega arith) (inr refl)
