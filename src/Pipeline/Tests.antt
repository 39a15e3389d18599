-- ===== src/Pipeline/Tests.antt =====
-- Runs of the two threads over the packets, and the theorems at a concrete interleaving.
use droidcam_whip_c.Pipeline.Ownership.{IsOwned, run-IsOwned}
use droidcam_whip_c.Pipeline.Release.{release_wait_ends, release_frees_all, release_stopped_leaks}
use droidcam_whip_c.Pipeline.Bounded.{HasBoundedBacklog, run-HasBoundedBacklog}
use droidcam_whip_c.Common.{
  ltb, if◌then◌else◌, some, ◌<◌, ◌∷◌, count, refl, ◌≡◌, true, none, false, [], ℕ, List, arith,
}
use droidcam_whip_c.Pipeline.{
  give_up, fill, give_back, push_ready_packet, pull_ready, hand_over, pull_empty, step, Step,
  ffmpeg, Pipeline, run, base_of, release_waits,
}
use droidcam_whip_c.Decoder.{
  pull_ready_packet, push_empty_packet, destroy, pull_empty_packet, DataPacket, Decoder, Realloc,
}
use droidcam_whip_c.Ffmpeg.{CodecId}
use droidcam_whip_c.Pipeline.Refine.Relation.{policy_of, Implements}
use droidcam_whip_c.Pipeline.Spec.{catch_up, idle, promise, Contents, promise_all}
use droidcam_whip_c.Pipeline.Refine.{nothing, run-Implements, gets_all}

abbrev no_packets : ℕ → DataPacket
no_packets a = record { block = []; size = 0; used = 0; pts = 0 }

abbrev new_decoder : Decoder
new_decoder = record {
  recieve_queue = [];
  decode_queue = [];
  alloc_count = 0;
  ready = true;
  failed = false;
  heap = no_packets;
  fresh = 0;
}

abbrev new_pipeline : Pipeline
new_pipeline = record {
  decoder = ffmpeg (record { base = new_decoder; codec_id = CodecId.h264; catchup = false });
  receiving = none;
  decoding = none;
}

abbrev out_of_memory : Realloc
out_of_memory block n = none

-- Two packets are received; the decode thread has the first in hand.
abbrev two_frames : List Step
two_frames =
    pull_empty out_of_memory 10
    ∷ hand_over
    ∷ pull_empty out_of_memory 10
    ∷ pull_ready
    ∷ hand_over
    ∷ []

abbrev busy : Pipeline
busy = record {
  decoder = ffmpeg (record {
    base = record new_decoder { decode_queue = 1 ∷ []; alloc_count = 2; fresh = 2 };
    codec_id = CodecId.h264;
    catchup = false;
  });
  receiving = none;
  decoding = some 0;
}

-- Both packets are back.
abbrev quiet : Pipeline
quiet = record {
  decoder = ffmpeg (record {
    base = record new_decoder { recieve_queue = 0 ∷ 1 ∷ []; alloc_count = 2; fresh = 2 };
    codec_id = CodecId.h264;
    catchup = false;
  });
  receiving = none;
  decoding = none;
}

two_frames_test : (run new_pipeline two_frames).decoding ≡ some 0
unfolding run step pull_empty_packet push_empty_packet pull_ready_packet push_ready_packet
two_frames_test = refl

busy-IsOwned : IsOwned busy
busy-IsOwned = record { unique = λ a. ground arith; complete = refl; counted = refl }

quiet-IsOwned : IsOwned quiet
quiet-IsOwned = record { unique = λ a. ground arith; complete = refl; counted = refl }

run-IsOwned_example : IsOwned (run new_pipeline two_frames)
run-IsOwned_example = run-IsOwned new_pipeline two_frames (refl, refl, refl, refl, refl, refl)

run-HasBoundedBacklog_example : HasBoundedBacklog (run new_pipeline two_frames).decoder
run-HasBoundedBacklog_example = run-HasBoundedBacklog two_frames new_pipeline (omega arith)

quiet_done : release_waits false (base_of quiet.decoder) ≡ false
unfolding release_waits
quiet_done = refl

release_frees_all_example :
    let d = base_of quiet.decoder in
    (quiet.decoding ≡ none)
    × (d.decode_queue ≡ [])
    × ((a : ℕ) → count a (destroy d).0 ≡ (if ltb a d.fresh then 1 else 0))
    × ((destroy d).1 ≡ 0)
release_frees_all_example = release_frees_all quiet quiet-IsOwned refl (omega arith) quiet_done

release_stopped_leaks_example :
    let d = base_of busy.decoder in
    (release_waits true d ≡ false)
    × (0 < d.fresh)
    × (count 0 (destroy d).0 ≡ 0)
    × ((destroy d).1 ≡ 1)
release_stopped_leaks_example = release_stopped_leaks busy 0 busy-IsOwned refl (omega arith) refl

release_wait_ends_example :
    release_waits false (base_of (run busy (give_back ∷ pull_ready ∷ give_back ∷ [])).decoder)
    ≡ false
release_wait_ends_example = release_wait_ends busy busy-IsOwned refl

abbrev first_frame : DataPacket
first_frame = record { block = 1 ∷ []; size = 1; used = 1; pts = 100 }

abbrev second_frame : DataPacket
second_frame = record { block = 2 ∷ []; size = 1; used = 1; pts = 200 }

-- The decode thread has the first frame in hand while the second arrives; the first one's packet is
-- then reused for a third that is given up.
abbrev with_reuse : List Step
with_reuse =
    pull_empty out_of_memory 10
    ∷ fill first_frame
    ∷ hand_over
    ∷ pull_ready
    ∷ pull_empty out_of_memory 10
    ∷ fill second_frame
    ∷ hand_over
    ∷ give_back
    ∷ pull_empty out_of_memory 10
    ∷ fill second_frame
    ∷ give_up
    ∷ pull_ready
    ∷ []

abbrev both_decoded : Contents
both_decoded = record {
  waiting = [];
  hand = idle;
  decoding = some second_frame;
  decoded = first_frame ∷ second_frame ∷ [];
  policy = catch_up CodecId.h264 false;
}

both_promised :
    promise_all (nothing (policy_of new_pipeline.decoder)) with_reuse ≡ some both_decoded
unfolding promise_all promise
both_promised = refl

run-Implements_example :
    Implements (run new_pipeline with_reuse) both_decoded
    × (gets_all new_pipeline with_reuse ≡ both_decoded.decoded)
run-Implements_example =
    run-Implements new_pipeline with_reuse both_decoded (refl, refl, refl, refl, refl, refl)
      both_promised
