-- ===== src/Encoder/Session.antt =====
-- A life of the encoder of src/encoder_rtsp.c: the start, the pictures that src/source.cc pushes
-- into it one after the other, whatever becomes of each, and the end.
pub mod Steps
pub mod Pictures
pub mod Close
pub mod Life
mod Tests
use droidcam_whip_c.Encoder.{
  EncoderRtspCtx, encoder_rtsp_close, encoder_rtsp_encode_frame, encoder_rtsp_init, null, started,
}
use droidcam_whip_c.Common.{
  if◌then◌else◌, if-cases, ◌*◌, not, length, ◌+◌, zero, inr, inl, Bool-cases, suc, ◌≤◌, arith, ◌∙◌,
  ◌-◌, [], ◌<◌, ◌∷◌, List, ℕ, Bool, true, false, Option, some, none, ◌≡◌, refl,
}
use droidcam_whip_c.Encoder.Calls.{Received, Call, sent, got, owed, Event, Libav}
use droidcam_whip_c.Encoder.{
  EncoderRtspCtx, encoder_rtsp_close, encoder_rtsp_encode_frame, encoder_rtsp_init, null, started,
}
use droidcam_whip_c.Common.Int.{is_neg, negsuc, pos, ℤ}
use droidcam_whip_c.Encoder.Protocol.{IsConsistent}

-- `push_video_frame` for pictures of one size: each `encoder_rtsp_encode_frame` follows the last,
-- and its result is only logged.
unfoldable pub encode_all : Libav → ℕ → EncoderRtspCtx → List (Bool × ℤ) → Option EncoderRtspCtx
encode_all av fuel ctx [] = some ctx
encode_all av fuel ctx ((bgr_data, pts) ∷ pictures) =
    elim (encoder_rtsp_encode_frame av fuel ctx bgr_data pts) [
      | none ↦ none
      | some (ret, ctx') ↦ encode_all av fuel ctx' pictures
    ]

-- The calls of a whole life; `none` means that the fuel of a loop ran out.
unfoldable pub session : Libav → ℕ → ℕ → ℕ → ℤ → List (Bool × ℤ) → Option (List Event)
unfolding encode_all
session av fuel width height fps pictures = elim (encoder_rtsp_init av fuel width height fps) [
  | none ↦ none
  | some (null calls) ↦ some calls
  | some (started ctx) ↦ elim (encode_all av fuel ctx pictures) [
    | none ↦ none
    | some ctx' ↦ encoder_rtsp_close av fuel ctx'
  ]
]

-- FFmpeg gives at most one packet for each picture that went in.
abbrev pub OnePerPicture : Libav → Type 0
OnePerPicture av = (calls : List Event) (n : ℕ) → av.receives calls ≡ got n → 0 < owed calls

-- The time stamps fall from a bound on, each below the one before it.
abbrev pub Below : ℕ → List ℕ → Type 0
Below n [] = Unit
Below n (p ∷ ps) = p < n × Below p ps

-- A context that `encoder_rtsp_init` has returned.
pub record IsLive (av : Libav) (ctx : EncoderRtspCtx) : Type 0 where
  pub consistent : IsConsistent av.nofile ctx
  pub codec : ctx.codec_ctx ≡ true
  pub frame : ctx.frame ≡ true
  pub packet : ctx.packet ≡ true
  pub sws : ctx.sws ≡ true
  pub order : Below ctx.next_pts (sent ctx.calls)
