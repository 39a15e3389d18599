-- ===== src/Frame/Stream.antt =====
-- `read_frame` undoes the framing of the phone: the encoder here is the specification.
use droidcam_whip_c.Buffer.{buffer_write32be, buffer_read32be, buffer_read64be}
use droidcam_whip_c.Buffer.RoundTrip.{read32be-value, read64be-value}
use droidcam_whip_c.Decoder.{pull_empty_packet, Realloc, Decoder}
use droidcam_whip_c.Net.{Received, Recv, got, net_recv_all}
use droidcam_whip_c.Frame.{
  read_passes, read_body, read_frame, finish_frame, fill_frame, packet, again, frame, max_config,
  max_packet, no_pts, Outcome, pass, write_at,
}
use droidcam_whip_c.Common.{
  ◌∙◌, true, false, ◌==◌, not, length-drop, length-append, take-length_append, Bool, some, ◌+◌,
  append_assoc, arith, refl, ◌≤◌, ◌%◌, drop, ◌≢◌, ◌≡◌, ◌^◌, [], ◌∷◌, ◌/◌, ◌++◌, ◌<◌, length, ℕ,
  List,
}
use droidcam_whip_c.Frame.Safety.{pull_empty_packet-fits, HasBlocks, Answers}

unfoldable be32 : ℕ → List ℕ
unfolding buffer_write32be
be32 value = buffer_write32be (0 ∷ 0 ∷ 0 ∷ 0 ∷ []) value

-- The twelve bytes of a header.
unfoldable pub header : ℕ → ℕ → List ℕ
unfolding be32
header pts len = be32 (pts / 2 ^ 32) ++ (be32 (pts % 2 ^ 32) ++ be32 len)

-- A configuration, if there is one, then the frame.
abbrev pub encode_config : List ℕ → List ℕ
encode_config [] = []
encode_config (c ∷ config) = header no_pts (length (c ∷ config)) ++ (c ∷ config)

abbrev pub encode_frame : ℕ → List ℕ → List ℕ
encode_frame pts body = header pts (length body) ++ body

length-header : (pts len : ℕ) → length (header pts len) ≡ 12
unfolding header
length-header pts len = refl

header-fields :
    (pts len : ℕ)
    → pts < 2 ^ 64
    → len < 2 ^ 32
    → (buffer_read64be (header pts len) ≡ pts) × (buffer_read32be (drop 8 (header pts len)) ≡ len)
unfolding header
header-fields pts len hp hl = (
  omega (
    arith,
    read64be-value (pts / 2 ^ 32 / 2 ^ 24 % 256) (pts / 2 ^ 32 / 2 ^ 16 % 256)
        (pts / 2 ^ 32 / 2 ^ 8 % 256) (pts / 2 ^ 32 % 256) (pts % 2 ^ 32 / 2 ^ 24 % 256)
        (pts % 2 ^ 32 / 2 ^ 16 % 256) (pts % 2 ^ 32 / 2 ^ 8 % 256) (pts % 2 ^ 32 % 256) (be32 len)
        (omega arith) (omega arith) (omega arith) (omega arith) (omega arith) (omega arith)
        (omega arith) (omega arith),
  ),
  omega (
    arith,
    read32be-value (len / 2 ^ 24 % 256) (len / 2 ^ 16 % 256) (len / 2 ^ 8 % 256) (len % 256) []
        (omega arith) (omega arith) (omega arith) (omega arith),
  ),
)

-- Two writes, the second where the first ended.
write_at_twice :
    (block config body : List ℕ)
    → length config + length body ≤ length block
    → (b : List ℕ) × (rest : List ℕ) × (write_at block 0 config ≡ some b)
      × (write_at b (length config) body ≡ some (config ++ (body ++ rest)))
unfolding write_at
write_at_twice block config body fits =
    let b = config ++ drop (length config) block in
    (
      b,
      drop (length config + length body) b,
      ground (arith),
      ground (
        arith,
        take-length_append config (drop (length config) block),
        length-append config (drop (length config) block),
        length-drop (length config) block,
      ),
    )

module _ {Sock : Type 0} (recv : Recv Sock) (Holds : Sock → List ℕ → Type 0) where
  -- `recv` with MSG_WAITALL as documented, on a connection that the bytes still to come are on.
  abbrev pub Delivers : Type 0
  Delivers =
      (s : Sock) (xs ys : List ℕ)
      → Holds s (xs ++ ys)
      → ((recv s (length xs)).0 ≡ got xs) × Holds (recv s (length xs)).1 ys

  pass_frame :
      (s : Sock) (c pts len : ℕ) (more : List ℕ)
      → Delivers
      → pts < no_pts
      → 0 < len
      → len ≤ max_packet
      → Holds s (header pts len ++ more)
      → (s' : Sock) × (pass recv s c ≡ frame pts len s') × Holds s' more
  unfolding pass net_recv_all
  pass_frame s c pts len more stream hp hl hm holds =
      let (e, later) = rw (length-header pts len) at (stream s (header pts len) more holds) in
      let (f, g) = header-fields pts len (omega arith) (omega arith) in
      ((recv s 12).1, ground (arith, length-header pts len), later)

  pass_config :
      (s : Sock) (config more : List ℕ)
      → Delivers
      → length config ≢ 0
      → length config ≤ max_config
      → Holds s ((header no_pts (length config) ++ config) ++ more)
      → (s' : Sock) × (pass recv s 0 ≡ again config (length config) s') × Holds s' more
  unfolding pass net_recv_all
  pass_config s config more stream some_bytes few holds =
      let n = length config in
      let holds' = rw append_assoc at holds in
      let (e, later) =
        rw (length-header no_pts n) at (stream s (header no_pts n) (config ++ more) holds') in
      let (f, g) = header-fields no_pts n (omega arith) (omega arith) in
      let (e', later') = stream (recv s 12).1 config more later in
      ((recv (recv s 12).1 n).1, ground (arith, length-header no_pts n), later')

  -- The packet at `a` that a frame has been read into.
  abbrev pub IsFilled : Outcome Sock → List ℕ → ℕ → List ℕ → Type 0
  IsFilled o config pts body =
      (a : ℕ) × (o.result ≡ packet a)
      × ((o.decoder.heap a).used ≡ length config + length body)
      × ((o.decoder.heap a).pts ≡ pts)
      × ((rest : List ℕ) × ((o.decoder.heap a).block ≡ config ++ (body ++ rest)))

  fill_frame-IsFilled :
      (d : Decoder) (a : ℕ) (h : Bool) (config body : List ℕ) (pts : ℕ) (s : Sock)
      → length config + length body ≤ length (d.heap a).block
      → IsFilled
          (fill_frame recv d a h config (length config) pts (length body) (got body) s)
          config
          pts
          body
  unfolding fill_frame finish_frame
  fill_frame-IsFilled d a h config body pts s fits =
      let (b, rest, e, e') = write_at_twice (d.heap a).block config body fits in
      (a, ground arith, ground arith, ground arith, (rest, ground arith))

  -- What `read_frame` makes of a frame: the packet, and what stays on the connection.
  abbrev pub Reads : Outcome Sock → List ℕ → ℕ → List ℕ → List ℕ → Type 0
  Reads o config pts body rest =
      IsFilled o config pts body × Holds o.sock rest × (o.has_config ≡ not (length config == 0))

  sock-fill_frame :
      (d : Decoder) (a : ℕ) (h : Bool) (config : List ℕ) (n pts len : ℕ) (r : Received) (s : Sock)
      → ((fill_frame recv d a h config n pts len r s).sock ≡ s)
        × ((fill_frame recv d a h config n pts len r s).has_config ≡ h)
  unfolding fill_frame
  sock-fill_frame d a h config n pts len r s = ground arith

  read_body-Reads :
      (r : Realloc) (d : Decoder) (s : Sock) (h : Bool) (config body rest : List ℕ) (pts : ℕ)
      → Delivers
      → Answers r
      → HasBlocks d
      → Holds s (body ++ rest)
      → h ≡ not (length config == 0)
      → Reads (read_body recv r d s h config (length config) pts (length body)) config pts body rest
  unfolding read_body net_recv_all
  read_body-Reads r d s h config body rest pts stream ok blocks holds flag =
      let n = length config + length body in
      let (a, d') = pull_empty_packet r d n in
      let (e, later) = stream s body rest holds in
      let (same, same') =
        sock-fill_frame d' a h config (length config) pts (length body) (got body)
          (recv s (length body)).1 in
      rw e (
        fill_frame-IsFilled d' a h config body pts (recv s (length body)).1
            (pull_empty_packet-fits r d n ok blocks),
        rw same later,
        same' ∙ flag,
      )

  -- If the connection holds the encoding of a frame whose time stamp is below NO_PTS and whose body
  -- has 1 to 2^24 bytes, with a configuration of at most 1024 bytes in front of it or none, while
  -- recv delivers what the connection holds, realloc finds memory and every packet's size is that
  -- of its block, then read_frame returns a packet with that time stamp, whose first used bytes are
  -- the configuration and then the body; it reports whether there was a configuration, and leaves
  -- on the connection exactly the bytes that follow.
  pub read_frame-encode :
      (r : Realloc) (d : Decoder) (s : Sock) (config body rest : List ℕ) (pts : ℕ)
      → Delivers
      → Answers r
      → HasBlocks d
      → pts < no_pts
      → 0 < length body
      → length body ≤ max_packet
      → length config ≤ max_config
      → Holds s (encode_config config ++ (encode_frame pts body ++ rest))
      → Reads (read_frame recv r d s) config pts body rest
  unfolding read_frame
  read_frame-encode r d s [] body rest pts stream ok blocks hp hl hm hc holds =
      let (s', e, later) =
        pass_frame s 0 pts (length body) (body ++ rest) stream hp hl hm
          (rw append_assoc at holds) in
      rw (e, read_passes)
        (read_body-Reads r d s' false [] body rest pts stream ok blocks later refl)
  read_frame-encode r d s (c ∷ config) body rest pts stream ok blocks hp hl hm hc holds =
      let (s', e, more) =
        pass_config s (c ∷ config) (encode_frame pts body ++ rest) stream (omega arith) hc holds in
      let (s'', e', later) =
        pass_frame s' (length (c ∷ config)) pts (length body) (body ++ rest) stream hp hl hm
          (rw append_assoc at more) in
      rw (e, read_passes)
        (rw (e', read_passes)
          (read_body-Reads r d s'' true (c ∷ config) body rest pts stream ok blocks later
            (ground arith)))
