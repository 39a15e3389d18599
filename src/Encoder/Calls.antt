-- ===== src/Encoder/Calls.antt =====
-- The calls of src/encoder_rtsp.c into FFmpeg, what they return, and the rules that FFmpeg's
-- documentation sets for the lifetimes of its objects and the order of the calls. What a packet or a
-- picture holds is no part of these rules.
use droidcam_whip_c.Common.{
  ℕ, suc, ◌-◌, Bool, true, false, not, ◌&&◌, Option, none, some, List, [], ◌∷◌, if◌then◌else◌,
}
use droidcam_whip_c.Common.Int.{ℤ}

pub data Name : Type 0 where
  h264_nvenc libx264 : Name

pub data Call : Type 0 where
  find_encoder alloc_codec : Name → Call
  avcodec_open : Name → ℕ → Call
  free_codec alloc_frame alloc_packet frame_get_buffer get_sws : Call
  free_sws free_frame free_packet : Call
  alloc_output new_stream copy_parameters avio_open write_header : Call
  rescale_ts : Call
  write_frame : Option ℕ → Call
  write_trailer avio_closep free_output : Call
  make_writable : Call
  sws_scale : ℕ → ℕ → Call
  send_frame : ℕ → Call
  send_eof receive_packet packet_unref : Call

-- A call, and whether it succeeded.
abbrev pub Event : Type 0
Event = Call × Bool

-- What `avcodec_receive_packet` returns: 0 with a packet, AVERROR(EAGAIN), AVERROR_EOF, or another
-- error, -(n + 1).
pub data Received : Type 0 where
  got : ℕ → Received
  again eof : Received
  failed : ℕ → Received

-- The library: the value of a call that returns an int, whether one that returns a pointer gives
-- one, each by the calls made before it, whether the muxer has the flag AVFMT_NOFILE, and
-- `av_rescale_q` from microseconds to the unit of the given rate.
pub record Libav : Type 0 where
  pub returns : List Event → Call → ℤ
  pub gives : List Event → Call → Bool
  pub receives : List Event → Received
  pub nofile : Bool
  pub rescale : ℕ → ℕ → ℕ

-- An object of FFmpeg: not there, allocated, or in use (a codec that is open, an output whose
-- header is written and whose trailer is not).
pub data Stage : Type 0 where
  absent allocated opened : Stage

pub record Held : Type 0 where
  pub codec : Stage
  pub frame : Bool
  pub packet : Bool
  pub sws : Bool
  pub muxer : Stage
  pub stream : Bool
  pub io : Bool

abbrev pub is_absent : Stage → Bool
is_absent Stage.absent = true
is_absent _ = false

abbrev pub is_allocated : Stage → Bool
is_allocated Stage.allocated = true
is_allocated _ = false

abbrev pub is_opened : Stage → Bool
is_opened Stage.opened = true
is_opened _ = false

abbrev pub when : Bool → Held → Option Held
when true h = some h
when false h = none

-- The rules: nothing is allocated over a live object, an object is freed once, and only used while
-- it lives; an output's frames come between its header and its trailer; it is freed with its
-- trailer written and its file closed.
abbrev pub step : Held → Event → Option Held
step h (Call.find_encoder n, ok) = some h
step h (Call.alloc_codec n, ok) =
    when (is_absent h.codec) (record h { codec = if ok then Stage.allocated else Stage.absent })
step h (Call.avcodec_open n g, ok) =
    when (is_allocated h.codec) (record h { codec = if ok then Stage.opened else Stage.allocated })
step h (Call.free_codec, ok) = when (not (is_absent h.codec)) (record h { codec = Stage.absent })
step h (Call.alloc_frame, ok) = when (not h.frame) (record h { frame = ok })
step h (Call.alloc_packet, ok) = when (not h.packet) (record h { packet = ok })
step h (Call.frame_get_buffer, ok) = when h.frame h
step h (Call.get_sws, ok) = when (not h.sws) (record h { sws = ok })
step h (Call.free_sws, ok) = when h.sws (record h { sws = false })
step h (Call.free_frame, ok) = when h.frame (record h { frame = false })
step h (Call.free_packet, ok) = when h.packet (record h { packet = false })
step h (Call.alloc_output, ok) =
    when (is_absent h.muxer) (record h { muxer = if ok then Stage.allocated else Stage.absent })
step h (Call.new_stream, ok) =
    when (is_allocated h.muxer && not h.stream) (record h { stream = ok })
step h (Call.copy_parameters, ok) = when (h.stream && is_opened h.codec) h
step h (Call.avio_open, ok) = when (is_allocated h.muxer && not h.io) (record h { io = ok })
step h (Call.write_header, ok) =
    when (is_allocated h.muxer && h.stream)
      (record h { muxer = if ok then Stage.opened else Stage.allocated })
step h (Call.rescale_ts, ok) = when (h.packet && h.stream && is_opened h.codec) h
step h (Call.write_frame p, ok) = when (h.packet && is_opened h.muxer) h
step h (Call.write_trailer, ok) = when (is_opened h.muxer) (record h { muxer = Stage.allocated })
step h (Call.avio_closep, ok) = when h.io (record h { io = false })
step h (Call.free_output, ok) =
    when (is_allocated h.muxer && not h.io) (record h { muxer = Stage.absent; stream = false })
step h (Call.make_writable, ok) = when h.frame h
step h (Call.sws_scale stride height, ok) = when (h.sws && h.frame) h
step h (Call.send_frame p, ok) = when (is_opened h.codec && h.frame) h
step h (Call.send_eof, ok) = when (is_opened h.codec) h
step h (Call.receive_packet, ok) = when (is_opened h.codec && h.packet) h
step h (Call.packet_unref, ok) = when h.packet h

abbrev pub nothing_held : Held
nothing_held = record {
  codec = Stage.absent;
  frame = false;
  packet = false;
  sws = false;
  muxer = Stage.absent;
  stream = false;
  io = false;
}

abbrev pub step_from : Option Held → Event → Option Held
step_from none e = none
step_from (some h) e = step h e

-- What the calls, the latest first, leave held; `none` if one of them breaks a rule.
unfoldable pub held : List Event → Option Held
held [] = some nothing_held
held (e ∷ es) = step_from (held es) e

-- How many more pictures went into the codec than packets came out.
abbrev pub owed : List Event → ℕ
owed [] = 0
owed ((Call.send_frame p, ok) ∷ es) = suc (owed es)
owed ((Call.receive_packet, true) ∷ es) = owed es - 1
owed (e ∷ es) = owed es

-- The time stamps of the pictures that went into the codec, the latest first.
abbrev pub sent : List Event → List ℕ
sent [] = []
sent ((Call.send_frame p, ok) ∷ es) = p ∷ sent es
sent (e ∷ es) = sent es
