-- ===== src/Lib.antt =====
-- The receiver of kmvirtualcamera, modelled: from the datagrams of an RTP stream to the access units
-- that a video decoder is given, with the clocks and the hand-over between threads around it.
--
-- The parts and how they meet. A datagram goes to H264RtpDepacketizer, which reads it by the wire
-- parser (parseRtp) and calls back with whole access units. A message of the data channel goes to
-- DcVideoDepacketizer, which gathers the chunks of a frame. ReceiverEngine owns both, chooses
-- between their frames and throttles keyframe requests. The access units are pushed into a
-- BoundedVideoQueue, which asks SplitAnnexB whether a unit is a configured IDR; the decoder's thread
-- pops them. CallbackGate keeps an owner alive while such callbacks run in it. TimestampUnwrapper32
-- turns RTP timestamps into an endless clock and RationalPacer paces the output frames.
-- TwccReceiver notes when numbered packets arrive and reports it to the sender, and
-- BandwidthEstimator says what bitrate to ask for; EnhancedRtcpReceivingSession owns the first, asks the
-- second, counts the packets and sends the reports and the keyframe requests. SignalingWorker
-- creates a session and answers the offers that it polls; the session is decoded from a bounded JSON
-- reader's value. Nv12Converter and the letterbox of nv12.h bring
-- decoded pictures into the size that the virtual camera shows, behind a frame header.
-- LatestFrame keeps the newest decoded frame for its readers, and AudioPcmQueue hands decoded sound to the audio device.
--
-- Which file models which part (children of a module are proofs about it unless said otherwise):
--   Prelude: shared names; Boolean tests (Prelude/Tests), lists by native length (Prelude/Lists),
--     integers over the native numbers (Prelude/Int)
--   Timing/Unwrap, Timing/Ticks, Timing/Pacer: shared/km/timing.h
--   H264: shared/km/h264.h
--   Wire: shared/km/rtp_wire.h; Wire/Format also writes packets, which the source never does
--   RtpDepacketizer: shared/receiver/codec/h264_rtp_depacketizer.h and .cpp
--   DcDepacketizer: shared/receiver/codec/dc_video_depacketizer.h and .cpp; DcDepacketizer/Drain is the
--     second half of the model
--   ReceiverEngine: shared/receiver/engine/receiver_engine.h and .cpp
--   VideoQueue: shared/km/bounded_video_queue.h
--   LatestFrame: shared/km/latest_frame.h
--   Twcc: shared/receiver/rtc/twcc_receiver.h and .cpp; Twcc/Feedback and Twcc/Extension also read
--     feedback and write header extensions, which the source never does
--   Planes: buffers with bounds and the loops over pictures, for the next three; Planes/Loops and
--     Planes/Blit are about them
--   Nv12: shared/km/nv12.h
--   Nv12Converter: windows/receiver/media/nv12_converter.cpp, of which Nv12Converter/Turned models the
--     conversion with a rotation
--   TestPattern: windows/receiver/media/test_pattern_generator.h and .cpp; TestPattern/Picture is the picture as
--     tables, for comparison
--   FramePipe: windows/common/frame_pipe_protocol.h
--   BandwidthEstimator: shared/receiver/rtc/bandwidth_estimator.h and .cpp
--   RtcpSession: shared/receiver/rtc/enhanced_rtcp_session.h and .cpp, of which RtcpSession/Calls models the
--     calls; RtcpSession/Arrivals is the set that its count stands for
--   Json: shared/km/json.h, of which Json/Reader models the reader
--   Signaling: shared/receiver/signaling/session_codec.h and signaling_models.h; Signaling/Words holds the
--     words of the messages
--   SignalingWorker: shared/receiver/signaling/signaling_worker.h and .cpp, of which
--     SignalingWorker/Lifecycle models the starting and the stopping
--   CallbackGate: shared/km/callback_gate.h
--   AudioPcmQueue: macos/receiver/audio_pcm_queue.h
-- The module Tests of each part holds runs at concrete inputs.
--
-- How code becomes definitions. A class is a record of its fields, and a method takes the record and
-- answers it anew; a method that may fail answers an option or a Boolean beside the state, and none
-- also stands for a throw. A byte buffer is a list of numbers, a position in it the list from there
-- on. Machine integers are native numbers with their wrap-around written out where it can happen.
-- What a method does under a mutex is atomic, so threads are sequences of calls, and a method that takes
-- the mutex twice is two steps; where a method waits, the interleavings are a step relation. Callbacks are a list of events, the newest first.
--
-- An access to a picture goes through a buffer that knows its size, and answers none out of bounds, so a
-- conversion that has an answer has stayed in its buffers. The floating-point arithmetic of a fit is a
-- parameter, with the bound that the code relies on as a hypothesis.
--
-- Loops are structural, or run on fuel that the caller sets to the length of the buffer, of which each
-- round takes one byte at least. The draining loop of DcVideoDepacketizer has two rounds for each
-- pending frame and one more: a round takes a frame off, or the next one does. The JSON reader has two
-- units for each byte, since an array and its first item share one.
--
-- Not modelled: the WebRTC, HTTP, Opus and operating-system calls and the code that is only glue
-- around them (windows/receiver/ui, windows/virtual-camera, the .mm files of macos), the vendored
-- windows/third_party/qr, and the TypeScript of cloud. The HTTP client of the signalling and the frames in
-- shared memory of windows/common are not modelled either.
pub mod Prelude
pub mod Timing
pub mod H264
pub mod Wire
pub mod RtpDepacketizer
pub mod VideoQueue
pub mod CallbackGate
pub mod AudioPcmQueue
pub mod DcDepacketizer
pub mod ReceiverEngine
pub mod LatestFrame
pub mod Twcc
pub mod Planes
pub mod Nv12
pub mod FramePipe
pub mod Nv12Converter
pub mod BandwidthEstimator
pub mod TestPattern
pub mod Json
pub mod RtcpSession
pub mod Signaling
pub mod SignalingWorker
