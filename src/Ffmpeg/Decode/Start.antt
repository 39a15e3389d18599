-- ===== src/Ffmpeg/Decode/Start.antt =====
-- The calls of `FFMpegDecoder::init` in src/ffmpeg_decode.cc keep to the lifetimes of FFmpeg's
-- objects, and its pointers say what they leave held.
use droidcam_whip_c.Encoder.Calls.{Stage}
use droidcam_whip_c.Common.{
  refl, [], none, ℕ, ◌∷◌, List, Option, Bool, true, false, some, ◌≡◌, if◌then◌else◌, arith,
}
use droidcam_whip_c.Ffmpeg.Calls.{Call, Event, Held, Libavcodec, held, HwType}
use droidcam_whip_c.Ffmpeg.Decode.{
  init_found, init_context, aac_values, new_codec, with_header, init_stream, init, hw_device_list,
  init_hw_decoder, init_frame_hw, open_result, init_frame, open_codec, init_packet, use_device,
  call, has_hw_type, try_devices, Codec,
}
use droidcam_whip_c.Common.Int.{negsuc, pos, ℤ}
use droidcam_whip_c.Ffmpeg.{CodecId}

-- What the pointers say is held, with the context opened or not.
abbrev pub objects : Bool → Codec → Held
objects opened d = record {
  context = if d.decoder then (if opened then Stage.opened else Stage.allocated) else Stage.absent;
  device = d.hw_ctx;
  frame = d.frame;
  frame_hw = d.frame_hw;
  packet = d.packet;
}

abbrev pub IsFreeable : Codec → Type 0
IsFreeable d = (opened : Bool) × held d.calls ≡ some (objects opened d)

-- What `init` leaves if it succeeds.
pub record IsUsable (d : Codec) : Type 0 where
  pub holds : held d.calls ≡ some (objects true d)
  pub has_decoder : d.decoder ≡ true
  pub has_packet : d.packet ≡ true
  pub has_frame : d.frame ≡ true
  pub has_frame_hw : d.hw ≡ true → d.frame_hw ≡ true

-- The context, a device or none, and no frame or packet yet.
abbrev only_context : Bool → Held
only_context device = record {
  context = Stage.allocated;
  device = device;
  frame = false;
  frame_hw = false;
  packet = false;
}

record IsBlank (device : Bool) (d : Codec) : Type 0 where
  holds : held d.calls ≡ some (only_context device)
  has_decoder : d.decoder ≡ true
  no_packet : d.packet ≡ false
  no_frame : d.frame ≡ false
  no_frame_hw : d.frame_hw ≡ false

-- A search for a device: before `use_device`, the pointer to it is not set.
abbrev IsTried : Bool × Codec → Type 0
IsTried (b, d) = IsBlank b d × d.hw_ctx ≡ false

IsBlank-device : (a b : Bool) (d : Codec) → a ≡ b → IsBlank b d → IsBlank a d
IsBlank-device a b d e w = rw e w

-- What `init` promises by what it returns.
abbrev pub IsInit : ℤ × Codec → Type 0
IsInit (pos n, d) = IsUsable d
IsInit (negsuc n, d) = IsFreeable d

module _ (lib : Libavcodec) where
  device_created-IsTried :
      (type : HwType) (b : Bool) (d : Codec) (o : Option ℕ)
      → IsTried (false, d)
      → IsTried (b, record (call (Call.hwdevice_create type) b d) { hw_pix_fmt = o })
  unfolding held
  device_created-IsTried type b d o (w, n) = (
    record {
      holds = let h = w.holds in ground arith;
      has_decoder = w.has_decoder;
      no_packet = w.no_packet;
      no_frame = w.no_frame;
      no_frame_hw = w.no_frame_hw;
    },
    n,
  )

  no_format-IsTried :
      (d : Codec) → IsTried (false, d) → IsTried (false, record d { hw_pix_fmt = none })
  no_format-IsTried d (v, n) = (
    record {
      holds = v.holds;
      has_decoder = v.has_decoder;
      no_packet = v.no_packet;
      no_frame = v.no_frame;
      no_frame_hw = v.no_frame_hw;
    },
    n,
  )

  try_devices-IsTried :
      (types : List HwType) (d : Codec) → IsTried (false, d) → IsTried (try_devices lib types d)
  unfolding try_devices
  try_devices-IsTried [] d w = w
  try_devices-IsTried (type ∷ types) d w =
      go (try_devices-IsTried types) (has_hw_type lib.hw_configs type) refl
        (lib.gives d.calls (Call.hwdevice_create type)) refl
    where
      go :
          ((d' : Codec) → IsTried (false, d') → IsTried (try_devices lib types d'))
          → (o : Option ℕ) → has_hw_type lib.hw_configs type ≡ o
          → (b : Bool) → lib.gives d.calls (Call.hwdevice_create type) ≡ b
          → IsTried (try_devices lib (type ∷ types) d)
      go rec none e b f = rw (try_devices, e) (rec _ (no_format-IsTried d w))
      go rec (some format) e true f =
          rw (try_devices, e, f) (device_created-IsTried type true d (some format) w)
      go rec (some format) e false f =
          rw (try_devices, e, f) (rec _ (device_created-IsTried type false d none w))

  use_device-IsBlank :
      (t : Bool × Codec) → IsTried t → IsBlank (use_device lib t).hw_ctx (use_device lib t)
  unfolding use_device held
  use_device-IsBlank (true, d) (w, n) = record {
    holds = let h = w.holds in ground arith;
    has_decoder = w.has_decoder;
    no_packet = w.no_packet;
    no_frame = w.no_frame;
    no_frame_hw = w.no_frame_hw;
  }
  use_device-IsBlank (false, d) (w, n) = record {
    holds = let h = w.holds in ground arith;
    has_decoder = w.has_decoder;
    no_packet = w.no_packet;
    no_frame = w.no_frame;
    no_frame_hw = w.no_frame_hw;
  }

  init_packet-IsInit :
      (d : Codec)
      → held d.calls ≡ some (objects true d)
      → d.decoder ≡ true
      → d.packet ≡ false
      → d.frame ≡ true
      → (d.hw ≡ true → d.frame_hw ≡ true)
      → IsInit (init_packet lib d)
  unfolding init_packet held
  init_packet-IsInit d h c p f w = go (lib.gives d.calls Call.alloc_packet) refl
    where
      go : (b : Bool) → lib.gives d.calls Call.alloc_packet ≡ b → IsInit (init_packet lib d)
      go true e =
          rw (init_packet, e)
            (record {
              holds = ground arith;
              has_decoder = c;
              has_packet = refl;
              has_frame = f;
              has_frame_hw = w;
            })
      go false e = rw (init_packet, e) (true, ground arith)

  init_frame-IsInit :
      (d : Codec)
      → held d.calls ≡ some (objects true d)
      → d.decoder ≡ true
      → d.packet ≡ false
      → d.frame ≡ false
      → d.frame_hw ≡ false
      → IsInit (init_frame lib d)
  unfolding init_frame init_frame_hw held
  init_frame-IsInit d h c p f w = go (lib.gives d.calls Call.alloc_frame) refl
    where
      go : (b : Bool) → lib.gives d.calls Call.alloc_frame ≡ b → IsInit (init_frame lib d)
      go true e =
          rw (init_frame, e)
            (init_packet-IsInit _ (ground arith) (ground arith) (ground arith) (ground arith)
              (ground arith))
      go false e = rw (init_frame, e) (true, ground arith)

  open_result-IsInit : (r : ℤ) (d : Codec) → IsBlank d.hw_ctx d → IsInit (open_result lib r d)
  unfolding open_result held
  open_result-IsInit (pos n) d w =
      init_frame-IsInit (call Call.avcodec_open true d)
        (let h = w.holds in
          let c = w.has_decoder in
          let p = w.no_packet in let f = w.no_frame in let g = w.no_frame_hw in ground arith)
        w.has_decoder w.no_packet w.no_frame w.no_frame_hw
  open_result-IsInit (negsuc n) d w = (
    false,
    (let h = w.holds in
        let c = w.has_decoder in
        let p = w.no_packet in let f = w.no_frame in let g = w.no_frame_hw in ground arith),
  )

  open_codec-IsInit :
      (use_hw : Bool) (d : Codec) → IsTried (false, d) → IsInit (open_codec lib use_hw d)
  unfolding open_codec init_hw_decoder
  open_codec-IsInit true d w =
      let t = try_devices lib hw_device_list d in
      let u = use_device lib t in
      open_result-IsInit (lib.opens u.calls) u
        (use_device-IsBlank t (try_devices-IsTried hw_device_list d w))
  open_codec-IsInit false d (v, n) =
      open_result-IsInit (lib.opens d.calls) d (IsBlank-device d.hw_ctx false d n v)

  header_codec-IsInit :
      (use_hw : Bool) (d : Codec) (o : Option (ℕ × ℕ))
      → IsTried (false, d)
      → IsInit (with_header lib use_hw d o)
  unfolding with_header
  header_codec-IsInit use_hw d none (w, n) = (
    false,
    (let h = w.holds in
        let c = w.has_decoder in
        let p = w.no_packet in let f = w.no_frame in let g = w.no_frame_hw in ground arith),
  )
  header_codec-IsInit use_hw d (some (rate, count)) (w, n) =
      open_codec-IsInit use_hw (record d { sample_rate = rate; audio_channels = count })
        (
          record {
            holds = w.holds;
            has_decoder = w.has_decoder;
            no_packet = w.no_packet;
            no_frame = w.no_frame;
            no_frame_hw = w.no_frame_hw;
          },
          n,
        )

  init_stream-IsInit :
      (header : Option (List ℕ)) (id : CodecId) (use_hw : Bool) (d : Codec)
      → IsTried (false, d)
      → IsInit (init_stream lib header id use_hw d)
  unfolding init_stream
  init_stream-IsInit header CodecId.aac use_hw d w =
      header_codec-IsInit use_hw d (aac_values lib header) w
  init_stream-IsInit header CodecId.h264 use_hw d w = open_codec-IsInit use_hw d w
  init_stream-IsInit header CodecId.h265 use_hw d w = open_codec-IsInit use_hw d w
  init_stream-IsInit header CodecId.other use_hw d w = open_codec-IsInit use_hw d w

  -- The code uses the new context unchecked.
  abbrev pub HasContext : Type 0
  HasContext = (es : List Event) → lib.gives es Call.alloc_context ≡ true

  init_found-IsInit :
      (header : Option (List ℕ)) (id : CodecId) (use_hw b : Bool)
      → HasContext
      → IsInit (init_found lib header id use_hw new_codec b)
  unfolding init_found init_context new_codec held
  init_found-IsInit header id use_hw false m = (true, refl)
  init_found-IsInit header id use_hw true m =
      let es = (Call.find_decoder, true) ∷ [] in
      init_stream-IsInit header id use_hw _ (
        record {
          holds = ground (arith, m es);
          has_decoder = m es;
          no_packet = refl;
          no_frame = refl;
          no_frame_hw = refl;
        },
        refl,
      )

  pub init-IsInit :
      (header : Option (List ℕ)) (id : CodecId) (use_hw : Bool)
      → HasContext
      → IsInit (init lib header id use_hw new_codec)
  unfolding init
  init-IsInit header id use_hw m = init_found-IsInit header id use_hw _ m
