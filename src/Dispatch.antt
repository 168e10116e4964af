-- ===== src/Dispatch.antt =====
-- The second half of the loop of `transcode` in ffmpeg/transcoder.c: a frame or a packet of the input
-- goes to each output; and flush_outputs, which ends them.
pub mod Streams
pub mod Each
pub mod Flush
pub mod Stays
mod Tests
use lpms.Common.{
  ℕ, zero, suc, ◌+◌, ◌*◌, ℤ, pos, ◌-ℤ◌, ◌==ℤ◌, ltb_ℤ, one, is_nopts, Bool, true, false, not, ◌&&◌,
  ◌||◌, Option, none, some, List, [], ◌∷◌, if◌then◌else◌, ◌==◌,
}
use lpms.Ret.{Ret, err, done, failed, is_eagain, is_eof, is_zero, lpms_err}
use lpms.Media.{MediaType, video, audio, subtitle, is_video, Packet, Frame, Stream, TimeOps}
use lpms.Codec.{InputCtx, is_flush_frame}
use lpms.Filter.{is_drop}
use lpms.Output.{Setting, is_set, audio_from, audio_to}
use lpms.Mux.{Writer, mux}
use lpms.Outlet.{OutputCtx, Encoder, nth_stream, streams_of}
use lpms.Feed.{Picture}
use lpms.ProcessOut.{OutAnswers, Ended, returned, dangling, Call, process_out}

-- The flags of an output, as transcode_init sets them.
unfoldable pub set_flags : InputCtx → OutputCtx → OutputCtx
set_flags ictx o = record o {
  dv = ltb_ℤ ictx.vi (pos 0) || is_drop o.video_name;
  da = ltb_ℤ ictx.ai (pos 0) || is_drop o.audio_name;
}

-- output_results of the decoder
pub record Decoded : Type 0 where
  pub frames : ℕ
  pub pixels : ℕ

abbrev both : Frame → Bool
both f = not (f.width == 0) && not (f.height == 0)

-- What is known of a frame of the input: whether there is one, and the counts.
unfoldable pub count_decoded : Stream → Frame → Bool → Decoded → Option (Bool × Decoded)
count_decoded ist f has_frame d = elim ist.codec_type [
  | video ↦
      if is_flush_frame f
      then none
      else some (
        has_frame && both f,
        record {
          frames = if both f then d.frames + 1 else d.frames;
          pixels = d.pixels + f.width * f.height;
        },
      )
  | audio ↦ some (has_frame && not (f.nb_samples == 0), d)
  | subtitle ↦ some (false, d)
]

-- A frame without a duration gets that of the frame rate.
unfoldable pub set_duration : TimeOps → Stream → Frame → Frame
set_duration ops ist f =
    if is_set f.duration
    then f
    else if is_set ist.r_frame_rate.den
    then record f { duration = ops.rescale_q one (ops.inv_q ist.r_frame_rate) ist.time_base }
    else record f { duration = pos 0 }

unfoldable pub keep_last : Stream → Frame → InputCtx → InputCtx
keep_last ist f c =
    if is_video ist.codec_type
    then record c { last_frame_v = some f }
    else record c { last_frame_a = some f }

-- Where a stream of the input goes in an output: nowhere, or to a stream, through an encoder or not.
pub record Route : Type 0 where
  pub ost : Stream
  pub encoder : Option Encoder

unfoldable pub route_to : InputCtx → OutputCtx → ℕ → Stream → Option Route
route_to ictx o stream_index ist =
    let out_streams = streams_of o.oc in
    if ictx.transmuxing
    then some (record { ost = nth_stream out_streams stream_index; encoder = none })
    else if pos ist.index ==ℤ ictx.vi
    then (if o.dv
        then none
        else some (record {
          ost = nth_stream out_streams 0;
          encoder = if ictx.has_vc then o.vc else none;
        }))
    else if pos ist.index ==ℤ ictx.ai
    then (if o.da
        then none
        else some (record {
          ost = nth_stream out_streams (if o.dv then 0 else 1);
          encoder = if ictx.has_ac then o.ac else none;
        }))
    else none

abbrev find_audio_start : Packet → OutputCtx → OutputCtx
find_audio_start p o = if o.out.clip_audio_start_pts_found then o else record o {
  out = record o.out { clip_audio_start_pts = p.pts; clip_audio_start_pts_found = true };
}

-- Copied audio outside of the clip is left out.
unfoldable pub is_clipped : Packet → OutputCtx → Bool
is_clipped p o =
    (is_set o.out.clip_to && ltb_ℤ (audio_to o.out) p.pts)
    || (is_set o.out.clip_from && not o.out.clip_started)
    || (is_set o.out.clip_from && ltb_ℤ p.pts (audio_from o.out))

abbrev shift : Packet → OutputCtx → Packet
shift p o = if is_set o.out.clip_from then record p { pts = p.pts -ℤ audio_from o.out } else p

unfoldable pub send_copy :
    TimeOps → Writer → Bool → Packet → Stream → Stream → OutputCtx → Ret × OutputCtx
send_copy ops writer clones p ist ost o =
    let (ret, m) = mux ops writer p ist.time_base ost o.muxing in
    if clones then (ret, record o { muxing = m }) else (lpms_err done, o)

-- A packet of a stream that is copied. Only packets of the audio stream are clipped.
unfoldable pub copy_packet :
    TimeOps → Writer → Bool → InputCtx → Packet → Stream → Stream → OutputCtx → Ret × OutputCtx
copy_packet ops writer clones ictx p ist ost o =
    let o1 = find_audio_start p o in
    if is_nopts p.pts
    then (done, o)
    else if pos ist.index ==ℤ ictx.ai
    then (if is_clipped p o1
        then (done, o1)
        else send_copy ops writer clones (shift p o1) ist ost o1)
    else send_copy ops writer clones p ist ost o

-- What libav answers for one output.
pub record ServeAnswers : Type 0 where
  pub clones : Bool
  pub out : OutAnswers
  pub setting : Setting

-- What the loop gives to the outputs.
pub record Item : Type 0 where
  pub stream_index : ℕ
  pub ist : Stream
  pub packet : Packet
  pub picture : Picture
  pub has_frame : Bool

-- The stream is copied or encoded.
unfoldable pub serve_stream :
    TimeOps → Writer → ServeAnswers → InputCtx → Item → Route → OutputCtx → Ended × OutputCtx
serve_stream ops writer a ictx x r o = elim r.encoder [
  | none ↦
      let (ret, o') = copy_packet ops writer a.clones ictx x.packet x.ist r.ost o in
      (returned ret, o')
  | some enc ↦
      let c : Call = record {
        ops = ops;
        writer = writer;
        kind = r.ost.codec_type;
        ost = r.ost;
        encoder = enc;
        setting = a.setting;
      } in
      if x.has_frame then process_out c a.out ictx (some x.picture) o else (returned done, o)
]

abbrev has_muxer : OutputCtx → Bool
has_muxer o = elim o.oc [ none ↦ false | some streams ↦ true ]

-- An output that is used without a muxer is a null dereference.
unfoldable pub serve :
    TimeOps → Writer → ServeAnswers → InputCtx → Item → OutputCtx → Ended × OutputCtx
serve ops writer a ictx x o = elim (route_to ictx o x.stream_index x.ist) [
  | none ↦ (returned done, o)
  | some r ↦ if has_muxer o then serve_stream ops writer a ictx x r o else (dangling, o)
]

-- EAGAIN and the end of the stream are fine; another error stops the outputs that follow.
abbrev pub stops : Ended → Bool
stops (returned ret) = failed ret && not (is_eagain ret) && not (is_eof ret)
stops dangling = true

unfoldable pub serve_all :
    TimeOps
    → Writer
    → (ℕ → ServeAnswers)
    → InputCtx
    → Item
    → List OutputCtx
    → Ended × List OutputCtx
serve_all ops writer answers ictx x [] = (returned done, [])
serve_all ops writer answers ictx x (o ∷ os) =
    let (ended, o') = serve ops writer (answers 0) ictx x o in
    let (ended', os') = serve_all ops writer (λ i. answers (suc i)) ictx x os in
    if stops ended then (ended, o' ∷ os) else (ended', o' ∷ os')

-- The loops of flush_outputs: process_out is called while it returns 0 or EAGAIN. `none` says that the
-- fuel is used up.
abbrev pub goes_on : Ended → Bool
goes_on (returned ret) = is_zero ret || is_eagain ret
goes_on dangling = false

unfoldable pub flush_loop :
    ℕ → (ℕ → OutAnswers) → Call → InputCtx → OutputCtx → Option (Ended × OutputCtx)
flush_loop zero answers c ictx o = none
flush_loop (suc fuel) answers c ictx o =
    let (ended, o') = process_out c (answers 0) ictx none o in
    let rest = flush_loop fuel (λ i. answers (suc i)) c ictx o' in
    if goes_on ended then rest else some (ended, o')
