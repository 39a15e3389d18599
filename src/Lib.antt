-- ===== src/Lib.antt =====
-- droidcam-whip-c takes the video stream of a phone that runs the DroidCam app and publishes it over
-- RTSP. One network thread connects to the phone, asks for the stream and cuts it into packets; one
-- decode thread decodes the packets, converts each picture to BGR, encodes it and pushes it out.
--
-- The parts and their models (paths from the repository's root):
--   src/buffer_util.h: the big-endian reads and writes. Buffer.
--   src/decoder.h: the packet buffers and the two queues that the threads share. Decoder.
--   src/ffmpeg_decode.cc, src/mjpeg_decode.cc: which packets reach the decode thread, with the
--     catch-up mode of FFMpegDecoder: Ffmpeg, Mjpeg. The decoding over FFmpeg and TurboJPEG:
--     Ffmpeg/Calls, Ffmpeg/Header, Ffmpeg/Frames, Ffmpeg/Decode and Mjpeg/Decode.
--   src/source.cc: the life of a packet across the two threads, as interleavings of their steps, and
--     release_decoder. Pipeline, with what it promises in Pipeline/Spec. The framing of the stream, read_frame. Frame.
--   src/source.cc: the way of a picture to the scaler, the preview and the encoder, and the end of
--     droidcam_source_stop. Output, over Encoder.
--   src/net.cc: the transfers on a connected socket. Net. The opening of sockets. Net/Open.
--   src/source.cc, src/ffmpeg_decode.cc: the tables of picture, sound and colour formats. Formats.
--   src/main.c: the command line and its checks. Options.
--   src/source.cc: the network thread with its sockets, and connect_device. Source.
--   src/device_discovery.cc: the text of a command, and the list of devices. Command, Devices. What
--     `adb devices` prints, and the devices read from it. Devices/Adb. The array of a command of adb.
--     Devices/Adb/Commands. The search for adb and its forwards.
--     Devices/Adb/Manager. The devices of usbmuxd, and the models. Devices/Usb.
--   src/mdns_discovery.cc: the devices of the replies, Devices/Mdns, and the sockets, Devices/Mdns/Sockets.
--   src/sys/unix/cmd.cc: the parent of cmd_execute, and cmd_simple_wait. Process.
--   src/gui_win32.c, and src/main.c from there on: the picture in the window, Gui/Preview, the settings,
--     Gui/Settings, and the connect button with its thread, Gui/Session. They use Options, Frame.
--   src/proxy.cc: the relay between the clients of a local port and the phone. Proxy. The class with its
--     socket and its thread. Proxy/Server.
--   src/encoder_rtsp.c: the encoder and the RTSP output. Encoder, with FFmpeg's calls and the rules for
--     their order in Encoder/Calls.
-- Common holds the shared names, lists over the native numbers, integers and the laws of `|`.
--
-- How the code is modelled: a pointer to a packet is an address into the decoder's heap, and `new`
-- hands out the next address; a queue is the list of its pointers, oldest first; a queue operation is
-- one step, since the code locks the queue over it. Integers of the code are numbers with the wrap
-- written out where the code can wrap (alloc_count, the reads of src/buffer_util.h); lengths of lists do
-- not wrap. A system call or a call of another library (recv, send, realloc, atoi) is a parameter, and
-- what the code relies on is a named hypothesis (Answers, Limits, Delivers, Accepts, OnePerPicture,
-- HasContext, AllSupported, HasBlocks, EndsAt, Keeps, IsApart). Where the code calls such code often,
-- as in Encoder, Output, Source, Proxy, Net/Open and Ffmpeg/Decode, each call is logged, and what it returns is a function of the calls
-- before it, of which nothing else is known. Output calls the functions of Encoder themselves.
--
-- Bounds and fuel: read_frame has fuel for two passes of its label AGAIN, which suffice because a
-- second configuration is refused; net_send_all has fuel for one round more than there are bytes. The
-- loops of the encoder over its packets share one fuel, which suffices if it is more than the number
-- of pictures, in Output as in Encoder. The loop of cmd_execute that empties the pipe has fuel for one
-- read more than the pipe gives. The passes of the network thread and of the relay are counted, and any
-- number of them is allowed.
--
-- Not modelled: the calls into FFmpeg, TurboJPEG, libswscale, usbmuxd and the system beyond those named
-- above, the log output, the sleeps, the start and the join of threads outside of the window, the layout and
-- the drawing of the window in src/gui_win32.c, src/mdns.h, a copy of another project's library,
-- the loading of the libraries and the reload's thread in src/device_discovery.cc,
-- and the child's side of cmd_execute and the files for Windows under src/sys.
pub mod Common
pub mod Buffer
pub mod Decoder
pub mod Ffmpeg
pub mod Mjpeg
pub mod Pipeline
pub mod Net
pub mod Frame
pub mod Formats
pub mod Options
pub mod Gui
pub mod Encoder
pub mod Source
pub mod Command
pub mod Devices
pub mod Proxy
pub mod Output
pub mod Process
