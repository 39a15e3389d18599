-- ===== src/Encoder/Protocol.antt =====
-- The calls of src/encoder_rtsp.c keep to the lifetimes and the order of Encoder/Calls: the pointers
-- of the context say what is held.
pub mod Output
pub mod Writes
use droidcam_whip_c.Common.{
  zero, ◌&&◌, suc, not, if-cases, ◌∙◌, refl, inr, inl, Bool-cases, Bool, true, false, some, ◌≡◌,
  if◌then◌else◌, arith,
}
use droidcam_whip_c.Encoder.{log, EncoderRtspCtx, close_output}
use droidcam_whip_c.Encoder.Calls.{sent, owed, step, Call, Libav, Stage, held, Held}
use droidcam_whip_c.Common.Int.{pos, negsuc, is_neg, ℤ}

abbrev pub held_of : EncoderRtspCtx → Held
held_of ctx = record {
  codec = if ctx.codec_ctx then Stage.opened else Stage.absent;
  frame = ctx.frame;
  packet = ctx.packet;
  sws = ctx.sws;
  muxer =
      if ctx.fmt_ctx
      then (if ctx.output_open then Stage.opened else Stage.allocated)
      else Stage.absent;
  stream = ctx.stream;
  io = ctx.pb;
}

-- Without an output context there is no stream, file or header; a header needs a stream; and a
-- muxer that needs no file has none.
pub record IsConsistent (nofile : Bool) (ctx : EncoderRtspCtx) : Type 0 where
  pub holds : held ctx.calls ≡ some (held_of ctx)
  pub closed :
      ctx.fmt_ctx ≡ false → (ctx.stream ≡ false) × (ctx.pb ≡ false) × (ctx.output_open ≡ false)
  pub headed : ctx.output_open ≡ true → ctx.stream ≡ true
  pub fileless : nofile ≡ true → ctx.pb ≡ false

-- What the operations on the output leave alone: the objects of the codec, the time stamps, and
-- the pictures and packets that passed the codec.
abbrev pub SameCodec : EncoderRtspCtx → EncoderRtspCtx → Type 0
SameCodec c d =
    (c.codec_ctx ≡ d.codec_ctx)
    × (c.frame ≡ d.frame)
    × (c.packet ≡ d.packet)
    × (c.sws ≡ d.sws)
    × (c.next_pts ≡ d.next_pts)
    × (owed c.calls ≡ owed d.calls)
    × (sent c.calls ≡ sent d.calls)

close_output-Held :
    (nofile : Bool) (ctx : EncoderRtspCtx)
    → IsConsistent nofile ctx
    → held (close_output nofile ctx).calls ≡ some (held_of (close_output nofile ctx))
unfolding close_output held
close_output-Held nofile ctx v =
    let h = v.holds in let f = v.fileless in let c = v.closed in ground arith

pub close_output_closes :
    (nofile : Bool) (ctx : EncoderRtspCtx)
    → IsConsistent nofile ctx
    → ((close_output nofile ctx).fmt_ctx ≡ false)
      × (close_output nofile ctx).pb ≡ false
      × (close_output nofile ctx).stream ≡ false
      × (close_output nofile ctx).output_open ≡ false
unfolding close_output
close_output_closes nofile ctx v = let c = v.closed in ground arith

pub close_output-IsConsistent :
    (nofile : Bool) (ctx : EncoderRtspCtx)
    → IsConsistent nofile ctx
    → IsConsistent nofile (close_output nofile ctx)
close_output-IsConsistent nofile ctx v =
    let c = close_output_closes nofile ctx v in
    record {
      holds = close_output-Held nofile ctx v;
      closed = λ _. (c.2, c.1, c.3);
      headed = λ e. ground arith;
      fileless = λ _. c.1;
    }

pub close_output-SameCodec :
    (nofile : Bool) (ctx : EncoderRtspCtx) → SameCodec (close_output nofile ctx) ctx
unfolding close_output
close_output-SameCodec nofile ctx = ground arith

-- A call that leaves the objects as they are.
pub log-IsConsistent :
    (nofile : Bool) (ctx : EncoderRtspCtx) (c : Call) (ok : Bool)
    → step (held_of ctx) (c, ok) ≡ some (held_of ctx)
    → IsConsistent nofile ctx
    → IsConsistent nofile (log c ok ctx)
unfolding held
log-IsConsistent nofile ctx c ok e v = record {
  holds = rw v.holds e;
  closed = v.closed;
  headed = v.headed;
  fileless = v.fileless;
}
