-- ===== src/Frame/Tests.antt =====
-- `read_frame` over a connection that is the list of the bytes still to come.
use droidcam_whip_c.Decoder.{pull_empty_packet, DataPacket, Decoder, Realloc}
use droidcam_whip_c.Frame.Safety.{Answers, HasBlocks, Limits, Expected, read_frame-Expected}
use droidcam_whip_c.Frame.Stream.{
  Delivers, Reads, header, encode_config, encode_frame, read_frame-encode,
}
use droidcam_whip_c.Common.{
  length-replicate, length-append, refl, replicate, drop, drop-length_append, false, ◌∷◌, ◌≡◌, ◌++◌,
  some, take-length_append, length-take, [], take, List, ℕ, arith,
}
use droidcam_whip_c.Frame.{bad_length, null, write_at, pass, read_frame}
use droidcam_whip_c.Net.{net_recv_all, got, Recv}
use droidcam_whip_c.Buffer.{buffer_read64be, buffer_read32be}

abbrev list_recv : Recv (List ℕ)
list_recv s n = (got (take n s), drop n s)

abbrev IsRest : List ℕ → List ℕ → Type 0
IsRest s bytes = s ≡ bytes

list_recv-Delivers : Delivers list_recv IsRest
list_recv-Delivers s xs ys e = rw e (rw (take-length_append xs ys) refl, drop-length_append xs ys)

list_recv-Limits : Limits list_recv
list_recv-Limits s n = omega (arith, length-take {0} n s)

abbrev zero_fill : Realloc
zero_fill block n = some (take n (block ++ replicate n 0))

zero_fill-Answers : Answers zero_fill
zero_fill-Answers block n = (
  take n (block ++ replicate n 0),
  refl,
  omega (
    arith,
    length-take {0} n (block ++ replicate n 0),
    length-append {0} block (replicate n 0),
    length-replicate {A = ℕ} n 0,
  ),
)

abbrev no_packets : ℕ → DataPacket
no_packets a = record { block = []; size = 0; used = 0; pts = 0 }

abbrev fresh_decoder : Decoder
fresh_decoder = record {
  recieve_queue = [];
  decode_queue = [];
  alloc_count = 0;
  ready = false;
  failed = false;
  heap = no_packets;
  fresh = 0;
}

fresh_decoder-HasBlocks : HasBlocks fresh_decoder
fresh_decoder-HasBlocks a = omega arith

-- A configuration of two bytes, a frame of three bytes at time 5, and one byte more.
abbrev stream : List ℕ
stream = encode_config (7 ∷ 8 ∷ []) ++ (encode_frame 5 (1 ∷ 2 ∷ 3 ∷ []) ++ (9 ∷ []))

read_frame_test :
    ((read_frame list_recv zero_fill fresh_decoder stream).decoder.heap 0).block
    ≡ 7 ∷ 8 ∷ 1 ∷ 2 ∷ 3 ∷ []
unfolding read_frame pass net_recv_all buffer_read32be buffer_read64be header pull_empty_packet
    write_at
read_frame_test = refl

-- A length of 0 ends the stream.
read_frame_empty_test :
    (read_frame list_recv zero_fill fresh_decoder (encode_frame 5 [])).result ≡ null bad_length
unfolding read_frame pass net_recv_all buffer_read32be buffer_read64be header pull_empty_packet
    write_at
read_frame_empty_test = refl

read_frame-encode_example :
    Reads list_recv IsRest
      (read_frame list_recv zero_fill fresh_decoder stream)
      (7 ∷ 8 ∷ [])
      5
      (1 ∷ 2 ∷ 3 ∷ [])
      (9 ∷ [])
read_frame-encode_example =
    read_frame-encode list_recv IsRest zero_fill fresh_decoder stream (7 ∷ 8 ∷ []) (1 ∷ 2 ∷ 3 ∷ [])
      (9 ∷ []) 5 list_recv-Delivers zero_fill-Answers fresh_decoder-HasBlocks (omega arith)
      (omega arith) (omega arith) (omega arith) refl

read_frame-Expected_example :
    let o = read_frame list_recv zero_fill fresh_decoder stream in Expected o.result o.decoder
read_frame-Expected_example =
    read_frame-Expected list_recv zero_fill fresh_decoder stream zero_fill-Answers
      fresh_decoder-HasBlocks list_recv-Limits
