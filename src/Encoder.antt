-- ===== src/Encoder.antt =====
-- src/encoder_rtsp.c: the H.264 encoder and the RTSP output. Every call into FFmpeg is logged, with
-- whether it succeeded; what it returns is a parameter, a function of the calls made before it. A
-- pointer of the context is whether it is not NULL.
pub mod Calls
pub mod Protocol
pub mod Session
use droidcam_whip_c.Common.{
  ℕ, zero, suc, ◌+◌, ◌*◌, ◌/◌, Bool, true, false, not, ◌&&◌, ◌||◌, Option, none, some, List, [],
  ◌∷◌, ltb, if◌then◌else◌,
}
use droidcam_whip_c.Common.Int.{ℤ, pos, negsuc, is_neg}
use droidcam_whip_c.Encoder.Calls.{Call, Event, Name, Received, Libav}

-- `content` is what `packet` holds, nothing if it is blank.
pub record EncoderRtspCtx : Type 0 where
  pub width : ℕ
  pub height : ℕ
  pub fps : ℕ
  pub next_pts : ℕ
  pub codec_ctx : Bool
  pub frame : Bool
  pub packet : Bool
  pub content : Option ℕ
  pub sws : Bool
  pub fmt_ctx : Bool
  pub pb : Bool
  pub stream : Bool
  pub output_open : Bool
  pub calls : List Event

-- What `encoder_rtsp_init` leads to: the context, or NULL with the calls made.
pub data Started : Type 0 where
  started : EncoderRtspCtx → Started
  null : List Event → Started

abbrev pub log : Call → Bool → EncoderRtspCtx → EncoderRtspCtx
log c ok ctx = record ctx { calls = (c, ok) ∷ ctx.calls }

-- A call whose result the code does not read.
abbrev pub run : Call → EncoderRtspCtx → EncoderRtspCtx
run c ctx = log c true ctx

abbrev pub gop_size : ℕ → ℕ
gop_size fps = if ltb 0 (fps / 2) then fps / 2 else 1

-- The first part of `close_output`, up to `avio_closep`.
end_output : Bool → EncoderRtspCtx → EncoderRtspCtx
end_output nofile ctx =
    let ctx = if ctx.output_open then run Call.write_trailer ctx else ctx in
    if not nofile && ctx.pb then record (run Call.avio_closep ctx) { pb = false } else ctx

drop_output : EncoderRtspCtx → EncoderRtspCtx
drop_output ctx = record (run Call.free_output ctx) {
  fmt_ctx = false;
  pb = false;
  stream = false;
  output_open = false;
}

unfoldable pub close_output : Bool → EncoderRtspCtx → EncoderRtspCtx
unfolding end_output drop_output
close_output nofile ctx = if ctx.fmt_ctx then drop_output (end_output nofile ctx) else ctx

-- `encoder_rtsp_close` behind its `close_output`.
free_objects : EncoderRtspCtx → List Event
free_objects ctx =
    let ctx = if ctx.sws then run Call.free_sws ctx else ctx in
    let ctx = if ctx.frame then run Call.free_frame ctx else ctx in
    let ctx = if ctx.packet then run Call.free_packet ctx else ctx in
    let ctx = if ctx.codec_ctx then run Call.free_codec ctx else ctx in ctx.calls

abbrev pub init_ctx : ℕ → ℕ → ℤ → EncoderRtspCtx
init_ctx width height fps = record {
  width = width;
  height = height;
  fps = elim fps [ pos (suc n) ↦ suc n | _ ↦ 25 ];
  next_pts = 0;
  codec_ctx = false;
  frame = false;
  packet = false;
  content = none;
  sws = false;
  fmt_ctx = false;
  pb = false;
  stream = false;
  output_open = false;
  calls = [];
}

module _ (av : Libav) where
  open_codec : Name → EncoderRtspCtx → ℤ × EncoderRtspCtx
  open_codec name ctx =
      let ret = av.returns ctx.calls (Call.avcodec_open name (gop_size ctx.fps)) in
      let ctx = log (Call.avcodec_open name (gop_size ctx.fps)) (not (is_neg ret)) ctx in
      if is_neg ret
      then (ret, record (run Call.free_codec ctx) { codec_ctx = false })
      else (pos 0, ctx)

  -- The errors AVERROR_ENCODER_NOT_FOUND and AVERROR(ENOMEM) are negative, and only that is read.
  unfoldable pub init_encoder : Name → EncoderRtspCtx → ℤ × EncoderRtspCtx
  unfolding open_codec
  init_encoder name ctx =
      let found = av.gives ctx.calls (Call.find_encoder name) in
      let ctx = log (Call.find_encoder name) found ctx in
      if not found
      then (negsuc 0, ctx)
      else (let given = av.gives ctx.calls (Call.alloc_codec name) in
          let ctx = record (log (Call.alloc_codec name) given ctx) { codec_ctx = given } in
          if not given then (negsuc 0, ctx) else open_codec name ctx)

  start_output : EncoderRtspCtx → ℤ × EncoderRtspCtx
  start_output ctx =
      let ret = av.returns ctx.calls Call.write_header in
      let ctx = log Call.write_header (not (is_neg ret)) ctx in
      if is_neg ret
      then (ret, close_output av.nofile ctx)
      else (pos 0, record ctx { output_open = true })

  open_file : EncoderRtspCtx → ℤ × EncoderRtspCtx
  open_file ctx =
      let ret = av.returns ctx.calls Call.avio_open in
      let ctx = record (log Call.avio_open (not (is_neg ret)) ctx) { pb = not (is_neg ret) } in
      if is_neg ret then (ret, close_output av.nofile ctx) else start_output ctx

  -- `open_output` from `avio_open2` on.
  open_io : EncoderRtspCtx → ℤ × EncoderRtspCtx
  open_io ctx = if av.nofile then start_output ctx else open_file ctx

  copy_parameters : EncoderRtspCtx → ℤ × EncoderRtspCtx
  copy_parameters ctx =
      let ret = av.returns ctx.calls Call.copy_parameters in
      let ctx = log Call.copy_parameters (not (is_neg ret)) ctx in
      if is_neg ret then (ret, ctx) else open_io ctx

  -- `open_output` from `avformat_new_stream` on.
  open_stream : EncoderRtspCtx → ℤ × EncoderRtspCtx
  open_stream ctx =
      let given = av.gives ctx.calls Call.new_stream in
      let ctx = record (log Call.new_stream given ctx) { stream = given } in
      if given then copy_parameters ctx else (negsuc 0, ctx)

  -- `open_output` behind `close_output`. `avformat_alloc_output_context2` leaves NULL in `fmt_ctx`
  -- when it fails.
  alloc_output : EncoderRtspCtx → ℤ × EncoderRtspCtx
  alloc_output ctx =
      let ret = av.returns ctx.calls Call.alloc_output in
      let given = not (is_neg ret) && av.gives ctx.calls Call.alloc_output in
      let ctx = record (log Call.alloc_output given ctx) { fmt_ctx = given } in
      if given then open_stream ctx else (if is_neg ret then ret else negsuc 0, ctx)

  unfoldable pub open_output : EncoderRtspCtx → ℤ × EncoderRtspCtx
  unfolding alloc_output open_stream copy_parameters open_io open_file start_output
  open_output ctx = alloc_output (close_output av.nofile ctx)

  -- `av_interleaved_write_frame` takes the packet's reference: the packet is blank behind it.
  try_write : EncoderRtspCtx → ℤ × EncoderRtspCtx
  try_write ctx =
      let c = Call.write_frame ctx.content in
      let ret = av.returns ctx.calls c in
      (ret, record (log c (not (is_neg ret)) ctx) { content = none })

  -- `open_output(ctx) == 0`, then the second try.
  retry_write : ℤ → ℤ × EncoderRtspCtx → ℤ × EncoderRtspCtx
  retry_write ret (pos zero, ctx) = try_write ctx
  retry_write ret (_, ctx) = (ret, ctx)

  -- `write_packet` with the output open.
  write_open : EncoderRtspCtx → ℤ × EncoderRtspCtx
  write_open ctx =
      let (ret, ctx) = try_write (run Call.rescale_ts ctx) in
      if is_neg ret then retry_write ret (open_output (close_output av.nofile ctx)) else (ret, ctx)

  unfoldable pub write_packet : EncoderRtspCtx → ℤ × EncoderRtspCtx
  unfolding write_open retry_write try_write
  write_packet ctx =
      if ctx.output_open
      then write_open ctx
      else (let (ret, ctx) = open_output ctx in
          if is_neg ret then (negsuc 0, ctx) else write_open ctx)

  abbrev pub unref : EncoderRtspCtx → EncoderRtspCtx
  unref ctx = record (run Call.packet_unref ctx) { content = none }

  abbrev pub receive : Option ℕ → EncoderRtspCtx → EncoderRtspCtx
  receive none ctx = log Call.receive_packet false ctx
  receive (some n) ctx = record (log Call.receive_packet true ctx) { content = some n }

  -- The loop of `encoder_rtsp_encode_frame`; `none` means that the fuel ran out.
  unfoldable pub encode_loop : ℕ → EncoderRtspCtx → Option (ℤ × EncoderRtspCtx)
  encode_loop zero ctx = none
  encode_loop (suc fuel) ctx = elim (av.receives ctx.calls) [
    | Received.got n ↦
        let (ret, ctx') = write_packet (receive (some n) ctx) in
        elim (is_neg ret) [ true ↦ some (ret, unref ctx') | false ↦ encode_loop fuel (unref ctx') ]
    | Received.again ↦ some (pos 0, receive none ctx)
    | Received.eof ↦ some (pos 0, receive none ctx)
    | Received.failed n ↦ some (negsuc n, receive none ctx)
  ]

  -- `pts` in microseconds; the picture's time stamp never falls behind `next_pts`.
  abbrev pub frame_pts : EncoderRtspCtx → ℤ → ℕ
  frame_pts ctx (negsuc n) = ctx.next_pts
  frame_pts ctx (pos n) =
      let p = av.rescale n ctx.fps in if ltb p ctx.next_pts then ctx.next_pts else p

  -- From `avcodec_send_frame` on.
  send_picture : ℕ → EncoderRtspCtx → ℕ → Option (ℤ × EncoderRtspCtx)
  send_picture fuel ctx p =
      let c = Call.send_frame p in
      let ret = av.returns ctx.calls c in
      let ctx = record (log c (not (is_neg ret)) ctx) { next_pts = p + 1 } in
      if is_neg ret then some (ret, ctx) else encode_loop fuel ctx

  -- `bgr_data` is whether the pointer is not NULL.
  unfoldable pub encoder_rtsp_encode_frame :
      ℕ → EncoderRtspCtx → Bool → ℤ → Option (ℤ × EncoderRtspCtx)
  unfolding send_picture encode_loop
  encoder_rtsp_encode_frame fuel ctx bgr_data pts =
      let ret = av.returns ctx.calls Call.make_writable in
      let ctx' = log Call.make_writable (not (is_neg ret)) ctx in
      if not bgr_data
      then some (negsuc 0, ctx)
      else if is_neg ret
      then some (ret, ctx')
      else send_picture fuel (run (Call.sws_scale (ctx.width * 3) ctx.height) ctx')
          (frame_pts ctx pts)

  -- The loop of `encoder_rtsp_close`.
  unfoldable pub flush_loop : ℕ → EncoderRtspCtx → Option EncoderRtspCtx
  flush_loop zero ctx = none
  flush_loop (suc fuel) ctx = elim (av.receives ctx.calls) [
    | Received.got n ↦
        let ctx' = receive (some n) ctx in
        flush_loop fuel (unref (if ctx'.output_open then (write_packet ctx').1 else ctx'))
    | _ ↦ some (receive none ctx)
  ]

  flush : ℕ → EncoderRtspCtx → Option EncoderRtspCtx
  flush fuel ctx =
      let sent = run Call.send_eof ctx in
      if not ctx.codec_ctx
      then some ctx
      else if not ctx.packet
      then some sent
      else flush_loop fuel sent

  -- `encoder_rtsp_close` behind the loop: the calls made, the context itself being freed.
  unfoldable pub free_all : EncoderRtspCtx → List Event
  unfolding free_objects
  free_all ctx = free_objects (close_output av.nofile ctx)

  unfoldable pub encoder_rtsp_close : ℕ → EncoderRtspCtx → Option (List Event)
  unfolding flush flush_loop free_all
  encoder_rtsp_close fuel ctx = elim (flush fuel ctx) [
    | none ↦ none
    | some ctx' ↦ some (free_all ctx')
  ]

  -- The two tries of `encoder_rtsp_init`, and whether one succeeded.
  init_codec : EncoderRtspCtx → Bool × EncoderRtspCtx
  init_codec ctx =
      let (ret, ctx) = init_encoder Name.h264_nvenc ctx in
      if is_neg ret
      then (let (ret', ctx') = init_encoder Name.libx264 ctx in (not (is_neg ret'), ctx'))
      else (true, ctx)

  -- `av_frame_alloc` to `sws_getContext`, and whether all of them succeeded.
  init_frame : EncoderRtspCtx → Bool × EncoderRtspCtx
  init_frame ctx =
      let f = av.gives ctx.calls Call.alloc_frame in
      let ctx = record (log Call.alloc_frame f ctx) { frame = f } in
      let p = av.gives ctx.calls Call.alloc_packet in
      let ctx = record (log Call.alloc_packet p ctx) { packet = p } in
      if not f || not p
      then (false, ctx)
      else (let ret = av.returns ctx.calls Call.frame_get_buffer in
          let ctx = log Call.frame_get_buffer (not (is_neg ret)) ctx in
          if is_neg ret
          then (false, ctx)
          else (let s = av.gives ctx.calls Call.get_sws in
              (s, record (log Call.get_sws s ctx) { sws = s })))

  fail : ℕ → EncoderRtspCtx → Option Started
  fail fuel ctx = elim (encoder_rtsp_close fuel ctx) [
    | none ↦ none
    | some calls ↦ some (null calls)
  ]

  -- `calloc` and `strdup` have memory. The result of `open_output` is only logged.
  unfoldable pub encoder_rtsp_init : ℕ → ℕ → ℕ → ℤ → Option Started
  unfolding init_codec init_frame fail
  encoder_rtsp_init fuel width height fps =
      let (found, ctx) = init_codec (init_ctx width height fps) in
      let (ok, ctx') = init_frame ctx in
      if not found
      then fail fuel ctx
      else if not ok
      then fail fuel ctx'
      else some (started (open_output ctx').1)
