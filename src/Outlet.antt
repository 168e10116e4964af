-- ===== src/Outlet.antt =====
-- An output: `struct output_ctx` of ffmpeg/filter.h, and how ffmpeg/encoder.c gives it streams and
-- closes it. What libav answers is a record of answers.
pub mod Open
pub mod Held
pub mod Reopened
pub mod Ends
pub mod Layout
pub mod Kept
pub mod Samples
mod Tests
use lpms.Common.{
  ℕ, zero, suc, ℤ, pos, negsuc, nopts, ltb_ℤ, ◌==ℤ◌, Bool, true, false, not, ◌&&◌, ◌||◌, Option,
  none, some, List, [], ◌∷◌, ◌++◌, if◌then◌else◌, length,
}
use lpms.Ret.{Ret, done, failed, lpms_err}
use lpms.Media.{Rational, HwType, is_hw, MediaType, video, audio, Stream, TimeOps}
use lpms.Codec.{InputCtx}
use lpms.Filter.{EncoderName, is_copy, FilterCtx, free_filter}
use lpms.Mux.{MuxState}
use lpms.Output.{OutState, is_set}

-- An encoder: AVCodecContext. `id` tells one that is allocated from another.
pub record Encoder : Type 0 where
  pub id : ℕ
  pub time_base : Rational
  pub width : ℕ
  pub height : ℕ
  pub pool : Option ℕ

-- struct output_ctx. `oc` are the streams of the muxer, and `has_pb` its file; `fps` is `none` if its
-- denominator is 0; `sfilters` is the length of the string; `out` has the fields for clipping and key
-- frames, and `muxing` those for the muxer.
pub record OutputCtx : Type 0 where
  pub initialized : Bool
  pub video_name : EncoderName
  pub audio_name : EncoderName
  pub has_vfilters : Bool
  pub sfilters : Option ℕ
  pub fps : Option Rational
  pub gop_time : ℤ
  pub oc : Option (List Stream)
  pub has_pb : Bool
  pub vc : Option Encoder
  pub ac : Option Encoder
  pub vi : ℕ
  pub ai : ℕ
  pub dv : Bool
  pub da : Bool
  pub vf : FilterCtx
  pub af : FilterCtx
  pub sf : FilterCtx
  pub hw_type : HwType
  pub muxing : MuxState
  pub out : OutState

-- A stream of the input; past the end, where the C code reads what is there, a blank one.
abbrev pub no_stream : Stream
no_stream = record {
  index = 0;
  codec_type = video;
  time_base = record { num = pos 0; den = pos 0 };
  r_frame_rate = record { num = pos 0; den = pos 0 };
}

abbrev pub nth_stream : List Stream → ℕ → Stream
nth_stream [] i = no_stream
nth_stream (s ∷ ss) zero = s
nth_stream (s ∷ ss) (suc i) = nth_stream ss i

abbrev pub streams_of : Option (List Stream) → List Stream
streams_of none = []
streams_of (some ss) = ss

abbrev pub stream_at : InputCtx → ℤ → Stream
stream_at c (pos i) = nth_stream (streams_of c.ic) i
stream_at c (negsuc i) = no_stream

-- avformat_new_stream, and the fields that are set on it.
abbrev pub new_stream : MediaType → Rational → Rational → OutputCtx → OutputCtx
new_stream kind tb rate o =
    let ss = streams_of o.oc in
    record o {
      oc = some (
          ss
          ++ record { index = length ss; codec_type = kind; time_base = tb; r_frame_rate = rate }
            ∷ []);
    }

-- What libav answers while a stream is added.
pub record StreamAnswers : Type 0 where
  pub allocs : Bool
  pub params_ret : Ret
  pub padding : Bool

abbrev milliseconds : Rational
milliseconds = record { num = pos 1; den = pos 1000 }

abbrev pub rate_of : OutputCtx → Stream → Rational
rate_of o ist = elim o.fps [ none ↦ ist.r_frame_rate | some fps ↦ fps ]

-- The time base in which the fps filter, or the input without it, gives frames.
abbrev dest_tb : TimeOps → OutputCtx → Stream → Rational
dest_tb ops o ist = elim o.fps [ none ↦ ist.time_base | some fps ↦ ops.inv_q fps ]

-- The GOP and the clip in that time base.
unfoldable pub set_times : TimeOps → Rational → ℤ → OutState → OutState
set_times ops tb gop_time s =
    let s1 =
      if is_set gop_time
      then record s { gop_pts_len = ops.rescale_q gop_time milliseconds tb; next_kf_pts = pos 0 }
      else s in
    let s2 =
      if is_set s1.clip_from
      then record s1 { clip_from_pts = ops.rescale_q s1.clip_from milliseconds tb }
      else s1 in
    if is_set s2.clip_to
    then record s2 { clip_to_pts = ops.rescale_q s2.clip_to milliseconds tb }
    else s2

abbrev reset_video : OutputCtx → OutputCtx
reset_video o = record o {
  muxing = record o.muxing { last_video_dts = nopts };
  out = record o.out { last_enc_pts = nopts };
}

unfoldable pub add_video_stream : TimeOps → StreamAnswers → InputCtx → OutputCtx → Ret × OutputCtx
add_video_stream ops a ictx o =
    let ist = stream_at ictx ictx.vi in
    let o1 = record o { vi = length (streams_of o.oc) } in
    let copied = new_stream video ist.time_base (rate_of o ist) o1 in
    let broken = new_stream video no_stream.time_base (rate_of o ist) o1 in
    if not a.allocs
    then (lpms_err done, o)
    else if is_copy o.video_name
    then (if ltb_ℤ ictx.vi (pos 0)
        then (lpms_err done, broken)
        else if failed a.params_ret
        then (a.params_ret, copied)
        else (done, reset_video copied))
    else elim o.vc [
      | none ↦ (lpms_err done, broken)
      | some vc ↦
          let o2 = record (new_stream video vc.time_base (rate_of o ist) o1) {
            out = set_times ops (dest_tb ops o ist) o.gop_time o.out;
          } in
          if failed a.params_ret then (a.params_ret, o2) else (done, reset_video o2)
    ]

unfoldable pub set_audio_times : TimeOps → Rational → OutState → OutState
set_audio_times ops tb s =
    let s1 =
      if is_set s.clip_from
      then record s { clip_audio_from_pts = ops.rescale_q s.clip_from milliseconds tb }
      else s in
    if is_set s1.clip_to
    then record s1 { clip_audio_to_pts = ops.rescale_q s1.clip_to milliseconds tb }
    else s1

abbrev end_audio : TimeOps → StreamAnswers → Stream → ℕ → OutputCtx → Ret × OutputCtx
end_audio ops a ist index o = if failed a.params_ret then (a.params_ret, o) else (
  done,
  record o {
    ai = index;
    out = set_audio_times ops ist.time_base o.out;
    muxing = record o.muxing {
      drop_ts = if a.padding then nopts else o.muxing.drop_ts;
      last_audio_dts = nopts;
    };
  },
)

-- The frame rate of an audio stream is not set.
unfoldable pub add_audio_stream : TimeOps → StreamAnswers → InputCtx → OutputCtx → Ret × OutputCtx
add_audio_stream ops a ictx o =
    let ist = stream_at ictx ictx.ai in
    let index = length (streams_of o.oc) in
    let rate = no_stream.r_frame_rate in
    if ltb_ℤ ictx.ai (pos 0) || o.da
    then (done, o)
    else if not a.allocs
    then (lpms_err done, o)
    else if is_copy o.audio_name
    then end_audio ops a ist index (new_stream audio ist.time_base rate o)
    else elim o.ac [
      | none ↦ (lpms_err done, new_stream audio no_stream.time_base rate o)
      | some ac ↦ end_audio ops a ist index (new_stream audio ac.time_base rate o)
    ]

-- The file is the muxer's, and is closed with it.
abbrev pub keeps_file : Option (List Stream) → Bool → Bool
keeps_file none has_pb = has_pb
keeps_file (some ss) has_pb = false

-- close_output keeps the encoder of a hardware session, and the audio and signature filters.
unfoldable pub close_output : OutputCtx → OutputCtx
close_output o = record o {
  oc = none;
  has_pb = keeps_file o.oc o.has_pb;
  vc = if is_hw o.hw_type then o.vc else none;
  ac = none;
  vf = free_filter o.vf;
  af = record o.af { flushed = false; flushing = false };
}

unfoldable pub free_output : OutputCtx → OutputCtx
free_output o =
    let o1 = close_output o in
    record o1 { vc = none; vf = free_filter o1.vf; af = free_filter o1.af; sf = free_filter o1.sf }
