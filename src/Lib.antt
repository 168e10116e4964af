-- ===== src/Lib.antt =====
-- A model of the C core of LPMS, the media server library of Livepeer: the code in ffmpeg/*.c and
-- ffmpeg/*.h that transcodes, clips, copies and compares segments of video with libav.
--
-- The parts, and the files that model them:
--
-- Ret, Media: results (ffmpeg/logging.h, ffmpeg_errors.h: 0 or a count, or one of the error codes that
-- the code tells apart) and the packets, frames, streams and time bases that all parts pass around.
-- `TimeOps` is the arithmetic of libavutil on time bases (av_rescale_q, av_cmp_q).
--
-- Queue (ffmpeg/queue.c): packets and frames held back until the outputs can be opened. `queue_write`,
-- `queue_read` and `queue_free` are the functions of those names; AVFifo is an interface with its
-- documented laws. Queue.Ownership counts the structures that are allocated and not freed.
--
-- Codec, Decoder (ffmpeg/decoder.c, ffmpeg/decoder.h): `InputCtx` is `struct input_ctx`. Codec has
-- lpms_send_packet, lpms_receive_frame with fix_video_pts, send_flush_pkt and demux_in; Decoder has
-- decode_in, flush_in and process_in, which the loop of `transcode` calls for each packet.
--
-- Input (ffmpeg/decoder.c): open_input, open_video_decoder, open_audio_decoder, free_input, the choice
-- of a hardware format, and which resources each path leaves open.
--
-- Filter (ffmpeg/filter.c, ffmpeg/filter.h): `FilterCtx` is `struct filter_ctx`; the set-up of the three
-- kinds of filter graphs, filtergraph_read, free_filter, and the tests on the names of encoders.
--
-- Outlet (ffmpeg/encoder.c, ffmpeg/filter.h): `OutputCtx` is `struct output_ctx`. Outlet has
-- add_video_stream, add_audio_stream, close_output and free_output, Outlet.Open has open_output,
-- open_remux_output, open_audio_output and reopen_output. They set up filters with Filter.
--
-- Output (ffmpeg/encoder.c): what process_out does to a frame that comes out of the filter graph:
-- clipping, forced key frames, the time base of the encoder, the guard against runaway encodes; and
-- the counting in `encode`.
--
-- Encode (ffmpeg/encoder.c): `encode`, from a frame to the muxer of Mux, with the change of the encoder
-- when the size of the frames changes.
--
-- Feed (ffmpeg/filter.c): filtergraph_write, which sets the graph up again with Filter and Encode.
--
-- ProcessOut (ffmpeg/encoder.c): process_out as a whole, on Feed, Filter, Output and Encode, and
-- calc_signature.
--
-- Dispatch (ffmpeg/transcoder.c): the second half of the loop of `transcode`: the counts and the
-- duration of a frame, the stream of each output that it goes to, the copying of packets, process_out
-- for each output, and the loop of flush_outputs.
--
-- Thread (ffmpeg/transcoder.c): a handle as a whole, from lpms_transcode_new to lpms_transcode_stop.
-- Thread has both of these, transcode_shutdown, lpms_transcode_reopen_demux and
-- lpms_transcode_discontinuity; Thread.Init has transcode_init with its outputs, Thread.Flush
-- flush_outputs and flush_all_outputs, Thread.Loop the loop of `transcode` with all that it calls,
-- and Thread.Transcode `transcode` and lpms_transcode. Thread.Life has the calls that a handle can
-- see as a relation, Thread.Served what the outputs are given in a round as another. It puts
-- together Session, Input, Segment, Outlet, Dispatch, Transmux and Queue.
--
-- Session (ffmpeg/transcoder.c): what a handle keeps from one segment to the next, on
-- the side of the input: the start of lpms_transcode up to the call of `transcode`, transcode_init and
-- transcode_shutdown, and which decoders can be skipped. It opens inputs with Input.
--
-- Segment (ffmpeg/transcoder.c): the first half of the loop of `transcode`, which joins Queue and Decoder:
-- what process_in gives is held until all outputs are open, then goes on to them. The result of
-- open_output is a field of each output here; Thread.Simulate joins it with the loop of Thread.Loop.
--
-- Mux (ffmpeg/encoder.c): mux, the repair of timestamps and the order of what reaches the muxer. Both
-- encoded packets and the copied packets of Transmux end there.
--
-- Transmux (ffmpeg/transcoder.c): the timeline on which packets of several inputs are copied into one
-- output: the transmuxing part of `transcode`, handle_discontinuity and lpms_transcode_discontinuity.
--
-- Signature (ffmpeg/extras.c): lpms_compare_video_bybuffer and what it stands on, get_matchinfo and
-- is_valid_md5data; Signature.File has lpms_compare_video_bypath, which reads the files into memory.
--
-- Segmenter (ffmpeg/extras.c): lpms_rtmp2hls, from an RTMP stream to the HLS muxer.
--
-- CodecInfo (ffmpeg/extras.c, ffmpeg/extras.h): lpms_get_codec_info, with the caller's buffers as lists of
-- bytes.
--
-- Buffer (ffmpeg/extras.c): read_packet, by which libav reads a video in memory.
--
-- Common has the names and the lemmas on lists and integers that the parts share. Samples has the
-- streams, packets and frames that the tests and examples use; each part has a module Tests, and some a
-- module Samples of their own.
--
-- How the code became definitions. A function that changes a structure takes it and returns the new one
-- beside its result. The calls of libav are parameters of the model: functions of all the calls made
-- before (`Libav`), records of operations with their documented laws (`FifoApi`, `TimeOps`), records of
-- answers, or lists of what they give: a filter graph or an encoder that is drained gives a list of frames
-- or packets and the error code that ends it, so it gives finitely many. Timestamps are integers without bounds; AV_NOPTS_VALUE is -2^63 as in the code, and a
-- theorem that needs the range of int64_t has it as a hypothesis. The uint16_t counters of the decoder
-- wrap at 2^16, and the uint64_t checksum of presentation times at 2^64.
--
-- Fuel and bounds. `drain`, the loop of queue_free, is given one round more than the queue has
-- items; `flush_rounds` counts the calls of flush_in, and a theorem bounds those that are needed;
-- `rounds` counts the rounds of the loop of `transcode`, and a theorem says how many play out the
-- queue; `flush_loop` counts the calls of process_out, and a theorem says when one is enough;
-- `run_loop`, `transcode` and `lpms_transcode` count the rounds of the loop, and a theorem says how
-- many are enough where nothing is decoded (with decoders the loop goes on for as long as they give
-- frames); `receive_all` counts calls of lpms_receive_frame in a row; `read_to_end` makes the reads
-- that libav would, and takes of each as many bytes as its result says: it counts the reads of a
-- buffer, and a theorem says how many are enough. All other loops run over lists.
--
-- Not modelled: the options, dictionaries, metadata and logging that are passed to libav; what the muxers
-- write when they are flushed and in their trailers; lpms_init and the comparison of signatures, which
-- only call libav; the Go code around the C core (bindings, servers, stream containers), the generated
-- protocol buffers and the example commands.
pub mod Common
pub mod Ret
pub mod Media
pub mod Samples
pub mod Queue
pub mod Transmux
pub mod Thread
pub mod Output
pub mod Mux
pub mod Codec
pub mod Decoder
pub mod Filter
pub mod Input
pub mod Outlet
pub mod Encode
pub mod Feed
pub mod ProcessOut
pub mod Dispatch
pub mod Buffer
pub mod CodecInfo
pub mod Segment
pub mod Segmenter
pub mod Session
pub mod Signature
