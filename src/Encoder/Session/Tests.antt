-- ===== src/Encoder/Session/Tests.antt =====
-- Tests of the life of an encoder of src/encoder_rtsp.c.
use droidcam_whip_c.Common.{
  ◌/◌, ◌*◌, suc, ◌∷◌, ltb, [], if◌then◌else◌, arith, List, ℕ, Bool, true, Option, some, none, ◌≡◌,
  refl,
}
use droidcam_whip_c.Encoder.Session.{session, OnePerPicture}
use droidcam_whip_c.Encoder.Calls.{again, got, Name, owed, sent, Call, Event, Libav}
use droidcam_whip_c.Encoder.Session.Life.{session-Lives, Lives}
use droidcam_whip_c.Common.Int.{negsuc, pos, ℤ}
use droidcam_whip_c.Encoder.{
  encoder_rtsp_close, write_packet, close_output, open_output, encoder_rtsp_encode_frame,
  init_encoder, encoder_rtsp_init,
}

-- A library without an NVIDIA encoder: the other calls succeed, one packet comes out for each
-- picture, and the first `refused` writes fail.
abbrev writes : List Event → ℕ
writes [] = 0
writes ((Call.write_frame p, ok) ∷ es) = suc (writes es)
writes (e ∷ es) = writes es

abbrev answer : ℕ → List Event → Call → ℤ
answer refused calls (Call.avcodec_open Name.h264_nvenc g) = negsuc 0
answer refused calls (Call.write_frame p) = if ltb (writes calls) refused then negsuc 31 else pos 0
answer refused calls c = pos 0

abbrev library : ℕ → Libav
library refused = record {
  returns = answer refused;
  gives = λ calls c. true;
  receives = λ calls. if ltb 0 (owed calls) then got (owed calls) else again;
  nofile = true;
  rescale = λ n fps. n * fps / 1000000;
}

library-OnePerPicture : (refused : ℕ) → OnePerPicture (library refused)
library-OnePerPicture refused calls n e = ground arith

-- Two pictures, the second with an older time stamp.
abbrev two_pictures : List (Bool × ℤ)
two_pictures = (true, pos 1000000) ∷ (true, pos 500000) ∷ []

abbrev session_stamps : Option (List Event) → List ℕ
session_stamps none = []
session_stamps (some calls) = sent calls

stamps_test : session_stamps (session (library 0) 5 640 480 (pos 25) two_pictures) ≡ 26 ∷ 25 ∷ []
unfolding session encoder_rtsp_init init_encoder encoder_rtsp_encode_frame open_output close_output
    write_packet encoder_rtsp_close
stamps_test = refl

abbrev written : List Event → List (Option ℕ)
written [] = []
written ((Call.write_frame p, ok) ∷ es) = p ∷ written es
written (e ∷ es) = written es

abbrev session_written : Option (List Event) → List (Option ℕ)
session_written none = []
session_written (some calls) = written calls

-- After a failed write the packet is blank: the second try writes nothing of it.
retry_test :
    session_written (session (library 1) 5 640 480 (pos 25) ((true, pos 0) ∷ []))
    ≡ none ∷ some 1 ∷ []
unfolding session encoder_rtsp_init init_encoder encoder_rtsp_encode_frame open_output close_output
    write_packet encoder_rtsp_close
retry_test = refl

session-Lives_example : Lives (library 1) (session (library 1) 3 640 480 (pos 25) two_pictures)
session-Lives_example =
    session-Lives (library 1) (library-OnePerPicture 1) 3 640 480 (pos 25) two_pictures
      (omega arith)
