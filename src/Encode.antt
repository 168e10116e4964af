-- ===== src/Encode.antt =====
-- `encode` of ffmpeg/encoder.c: a frame goes to the encoder, and what the encoder gives to the muxer.
-- What libav answers is a record of answers.
pub mod Always
pub mod Stays
pub mod Kept
pub mod Samples
mod Tests
use lpms.Common.{
  ℕ, ◌+◌, ◌*◌, ℤ, ◌+ℤ◌, ◌-ℤ◌, Bool, true, false, not, ◌&&◌, ◌||◌, Option, none, some, List, [], ◌∷◌,
  if◌then◌else◌, ◌==◌,
}
use lpms.Ret.{Ret, ok, err, done, failed, is_eof, lpms_err, Code, enomem}
use lpms.Media.{
  Rational, HwType, is_hw, is_cuda, is_mediacodec, is_video, is_audio, Packet, Frame, Stream,
  TimeOps,
}
use lpms.Output.{OutState, is_set}
use lpms.Mux.{MuxState, Writer, mux}
use lpms.Outlet.{OutputCtx, Encoder}

-- A packet of the encoder, with the number that its frame carried along: the PTS in the filter.
pub record Encoded : Type 0 where
  pub pkt : Packet
  pub opaque : ℤ

-- What libav answers while the encoder is set up again: what the old encoder still gives, with the
-- result that ends it, and the address of the new one.
pub record ReinitAnswers : Type 0 where
  pub finds_encoder : Bool
  pub allocs_encoder : Bool
  pub allocs_params : Bool
  pub sink_pool : Option ℕ
  pub refs_pool : Bool
  pub allocs_pkt : Bool
  pub flushed : List Encoded
  pub flush_end : Code
  pub open_ret : Ret
  pub new_id : ℕ

-- What libav answers to one call: the packets that the encoder gives, and the result that ends them.
pub record EncodeAnswers : Type 0 where
  pub reinit : ReinitAnswers
  pub send_ret : Ret
  pub allocs_pkt : Bool
  pub packets : List Encoded
  pub end : Code

abbrev is_none : Option Rational → Bool
is_none none = true
is_none (some r) = false

-- Without a frame rate the timestamps of the filter are restored, in its time base.
unfoldable pub restore_ts : TimeOps → Encoder → OutputCtx → Encoded → Packet × Rational
restore_ts ops enc o e =
    if is_none o.fps && o.vf.active
    then (
      record e.pkt {
        pts = e.opaque;
        dts = e.opaque -ℤ ops.rescale_q (e.pkt.pts -ℤ e.pkt.dts) enc.time_base o.vf.time_base;
      },
      o.vf.time_base,
    )
    else (e.pkt, enc.time_base)

-- One packet to the muxer. The timestamps of audio stay.
unfoldable pub mux_encoded :
    TimeOps → Writer → Stream → Encoder → OutputCtx → Encoded → Ret × OutputCtx
mux_encoded ops writer ost enc o e =
    let (pkt, tb) =
      if is_video ost.codec_type then restore_ts ops enc o e else (e.pkt, enc.time_base) in
    let (ret, m) = mux ops writer pkt tb ost o.muxing in (ret, record o { muxing = m })

-- The loop that drains the encoder, which an error of the muxer stops.
unfoldable pub drain :
    TimeOps → Writer → Stream → Encoder → Code → List Encoded → OutputCtx → Ret × OutputCtx
drain ops writer ost enc end [] o = (err end, o)
drain ops writer ost enc end (e ∷ es) o =
    let (ret, o') = mux_encoded ops writer ost enc o e in
    let rest = drain ops writer ost enc end es o' in if failed ret then (ret, o') else rest

-- The old encoder is drained whatever the muxer says.
unfoldable pub flush_old :
    TimeOps → Writer → Stream → Encoder → List Encoded → OutputCtx → OutputCtx
flush_old ops writer ost enc [] o = o
flush_old ops writer ost enc (e ∷ es) o =
    flush_old ops writer ost enc es (mux_encoded ops writer ost enc o e).1

-- The encoder with the size of the frame. On hardware it takes the pool of the filter, if there is
-- one, and else that of the old encoder.
unfoldable pub new_encoder : ReinitAnswers → Frame → Encoder → OutputCtx → Option Encoder
new_encoder r frame enc o =
    let vc = record enc { id = r.new_id; width = frame.width; height = frame.height } in
    elim enc.pool [
      | none ↦ some vc
      | some n ↦ elim r.sink_pool [
        | none ↦ some vc
        | some m ↦
            if o.vf.active
            then (if r.refs_pool then some (record vc { pool = some m }) else none)
            else some vc
      ]
    ]

-- The function goes on with an encoder, or leaves with a result.
pub data Chosen : Type 0 where
  goes_on : Encoder → Chosen
  leaves : Ret → Chosen

-- The old encoder is gone before the new one is opened.
unfoldable pub replace :
    TimeOps
    → Writer
    → ReinitAnswers
    → Stream
    → Frame
    → Encoder
    → Encoder
    → OutputCtx
    → Chosen × OutputCtx
replace ops writer r ost frame enc vc o =
    let o1 = flush_old ops writer ost enc r.flushed o in
    let o2 = record o1 { vc = none } in
    let o3 = record o2 {
      vc = some vc;
      out = record o2.out {
        next_kf_pts =
            if is_set o2.out.gop_pts_len
            then frame.pts +ℤ o2.out.gop_pts_len
            else o2.out.next_kf_pts;
      };
    } in
    if not (is_eof (err r.flush_end))
    then (leaves (err r.flush_end), o1)
    else if failed r.open_ret
    then (leaves r.open_ret, o2)
    else (goes_on vc, o3)

unfoldable pub reinit :
    TimeOps → Writer → ReinitAnswers → Stream → Frame → Encoder → OutputCtx → Chosen × OutputCtx
reinit ops writer r ost frame enc o =
    if not (r.finds_encoder && r.allocs_encoder && r.allocs_params)
    then (leaves (lpms_err done), o)
    else elim (new_encoder r frame enc o) [
      | none ↦ (leaves (lpms_err done), o)
      | some vc ↦
          if not r.allocs_pkt
          then (leaves (lpms_err done), o)
          else replace ops writer r ost frame enc vc o
    ]

-- The encoder for a frame of the video: a new one if the size is another.
unfoldable pub choose :
    TimeOps → Writer → ReinitAnswers → Stream → Frame → Encoder → OutputCtx → Chosen × OutputCtx
choose ops writer r ost frame enc o =
    if not (enc.width == frame.width) || not (enc.height == frame.height)
    then reinit ops writer r ost frame enc o
    else (goes_on enc, o)

-- output_results of the output.
abbrev pub count_frame : Encoder → OutputCtx → OutputCtx
count_frame enc o = record o {
  out = record o.out { frames = o.out.frames + 1; pixels = o.out.pixels + enc.width * enc.height };
}

abbrev is_there : Option Frame → Bool
is_there none = false
is_there (some f) = true

-- A hardware encoder is not told of the end. (That CUDA then flushes its buffers shows only in the
-- packets that it gives.)
unfoldable pub sends : OutputCtx → Stream → Option Frame → Bool
sends o ost frame =
    not (is_hw o.hw_type) || is_mediacodec o.hw_type || is_audio ost.codec_type || is_there frame

unfoldable pub send :
    TimeOps → Writer → EncodeAnswers → Stream → Option Frame → Encoder → OutputCtx → Ret × OutputCtx
send ops writer a ost frame enc o =
    if sends o ost frame && failed a.send_ret && not (is_eof a.send_ret)
    then (a.send_ret, o)
    else if not a.allocs_pkt
    then (err enomem, o)
    else drain ops writer ost enc a.end a.packets o

unfoldable pub send_chosen :
    TimeOps → Writer → EncodeAnswers → Stream → Frame → Chosen → OutputCtx → Ret × OutputCtx
send_chosen ops writer a ost frame (leaves ret) o = (ret, o)
send_chosen ops writer a ost frame (goes_on enc) o =
    send ops writer a ost (some frame) enc (count_frame enc o)

-- That the first frame becomes a key frame is in `count_encoded` of Output.
unfoldable pub encode :
    TimeOps → Writer → EncodeAnswers → Stream → Option Frame → Encoder → OutputCtx → Ret × OutputCtx
encode ops writer a ost none enc o = send ops writer a ost none enc o
encode ops writer a ost (some frame) enc o =
    if is_video ost.codec_type
    then (let (chosen, o1) = choose ops writer a.reinit ost frame enc o in
        send_chosen ops writer a ost frame chosen o1)
    else send ops writer a ost (some frame) enc o
