-- ===== src/Feed.antt =====
-- filtergraph_write of ffmpeg/filter.c: a frame, or the end of the input, goes to the filter graph of
-- an output; a change of the frames sets the graph up again.
pub mod Closed
pub mod Reset
pub mod Stays
pub mod Samples
mod Tests
use lpms.Common.{
  ℕ, suc, ℤ, pos, ◌+ℤ◌, ◌==ℤ◌, one, Bool, true, false, not, ◌&&◌, ◌||◌, Option, none, some, List,
  [], ◌∷◌, if◌then◌else◌, ltb, ◌==◌,
}
use lpms.Ret.{Ret, err, done, failed, is_zero, is_eagain, is_eof, lpms_err, Code, filters}
use lpms.Media.{Rational, MediaType, video, is_video, Frame, Stream, TimeOps, blank_frame}
use lpms.Codec.{InputCtx}
use lpms.Filter.{
  FilterCtx, GraphAnswers, free_filter, init_video_filters, int64_min, filtergraph_read,
}
use lpms.Output.{set_gop}
use lpms.Mux.{Writer}
use lpms.Outlet.{OutputCtx, Encoder, stream_at, nth_stream, streams_of}
use lpms.Encode.{EncodeAnswers, encode}

-- A frame, with the pool of GPU frames that it is from.
pub record Picture : Type 0 where
  pub frame : Frame
  pub pool : Option ℕ

-- What libav answers. `source_size` is the size that the source of the graph was set up for, if its
-- link is there; `drained` are the frames that are still in the graph when it is set up again.
pub record FeedAnswers : Type 0 where
  pub source_size : Option (ℕ × ℕ)
  pub close_ret : Ret
  pub drained : List Frame
  pub drain_end : Code
  pub sink_tb : Rational
  pub vc_pool : Option ℕ
  pub graph : GraphAnswers
  pub write_ret : Ret

-- The answers to the calls of `encode`, in their order.
abbrev pub Encodes : Type 0
Encodes = ℕ → EncodeAnswers

-- octx->vf or octx->af
abbrev pub filter_of : MediaType → OutputCtx → FilterCtx
filter_of t o = if is_video t then o.vf else o.af

abbrev pub set_filter : MediaType → FilterCtx → OutputCtx → OutputCtx
set_filter t f o = if is_video t then record o { vf = f } else record o { af = f }

abbrev pub differ : Option ℕ → Option ℕ → Bool
differ (some m) (some n) = not (m == n)
differ _ _ = false

-- Both numbers of the size have to be new.
abbrev is_resized : Option (ℕ × ℕ) → Frame → Bool
is_resized none f = false
is_resized (some (w, h)) f = not (w == f.width) && not (h == f.height)

unfoldable pub needs_reset : Option (ℕ × ℕ) → Picture → FilterCtx → Bool
needs_reset source_size p f = differ p.pool f.pool || is_resized source_size p.frame

-- A stretch of the function: it goes on, or leaves with a result; and the calls of `encode` so far.
pub record Step : Type 0 where
  pub left : Option Ret
  pub octx : OutputCtx
  pub calls : ℕ

-- One frame of the old graph goes to the encoder, which is there wherever a frame is filtered.
unfoldable pub encode_drained :
    TimeOps
    → Writer
    → EncodeAnswers
    → Rational
    → Frame
    → Option Encoder
    → OutputCtx
    → Ret × OutputCtx
encode_drained ops writer answers tb frame none o = (err filters, o)
encode_drained ops writer answers tb frame (some enc) o =
    let (f1, s) = set_gop video frame o.out in
    let same = ops.cmp_q tb enc.time_base ==ℤ pos 0 in
    let f2 = if same then f1 else record f1 { pts = ops.rescale_q f1.pts tb enc.time_base } in
    encode ops writer answers (nth_stream (streams_of o.oc) o.vi) (some f2) enc
      (record o { out = s })

-- while (!ret): the frames that the graph still gives, up to its end. A result that is 0 leaves the
-- function, any other ends the loop.
unfoldable pub drain_graph :
    TimeOps → Writer → Encodes → Rational → Code → Ret → List Frame → ℕ → OutputCtx → Step
drain_graph ops writer encodes tb end ret [] calls o =
    let (ret', o') = encode_drained ops writer (encodes calls) tb blank_frame o.vc o in
    if not (is_zero ret) || is_eagain (err end) || is_eof (err end)
    then record { left = none; octx = o; calls = calls }
    else record {
      left = if is_zero ret' then some (lpms_err ret') else none;
      octx = o';
      calls = suc calls;
    }
drain_graph ops writer encodes tb end ret (frame ∷ frames) calls o =
    let (read, vf) = filtergraph_read done frame o.vf in
    let (ret', o') =
      encode_drained ops writer (encodes calls) tb frame o.vc (record o { vf = vf }) in
    let rest = drain_graph ops writer encodes tb end ret' frames (suc calls) o' in
    if not (is_zero ret)
    then record { left = none; octx = o; calls = calls }
    else if is_zero ret'
    then record { left = some (lpms_err ret'); octx = o'; calls = suc calls }
    else rest

-- The graph is freed, and set up for the new frames.
unfoldable pub set_up_again : Option ℕ → GraphAnswers → InputCtx → Picture → Step → Step
set_up_again vc_pool graph ictx p s =
    let tb = (stream_at ictx ictx.vi).time_base in
    let (ret, vf) =
      init_video_filters s.octx.video_name s.octx.has_vfilters tb vc_pool p.pool graph
        (free_filter s.octx.vf) in
    elim s.left [
      | some ret' ↦ s
      | none ↦ record {
        left = if failed ret then some (err filters) else none;
        octx = record s.octx { vf = vf };
        calls = s.calls;
      }
    ]

unfoldable pub reset_graph :
    TimeOps → Writer → Encodes → FeedAnswers → InputCtx → Picture → OutputCtx → Step
reset_graph ops writer encodes a ictx p o =
    let s = drain_graph ops writer encodes a.sink_tb a.drain_end a.close_ret a.drained 0 o in
    if failed a.close_ret
    then record { left = some a.close_ret; octx = o; calls = 0 }
    else set_up_again a.vc_pool a.graph ictx p s

unfoldable pub check_frame :
    TimeOps → Writer → Encodes → FeedAnswers → InputCtx → MediaType → Picture → OutputCtx → Step
check_frame ops writer encodes a ictx t p o =
    if is_video t && needs_reset a.source_size p (filter_of t o)
    then reset_graph ops writer encodes a ictx p o
    else record { left = none; octx = o; calls = 0 }

-- What a call gives: its result, the frame that went into the graph, if any, and the calls of
-- `encode`.
pub record Fed : Type 0 where
  pub ret : Ret
  pub octx : OutputCtx
  pub into : Option Frame
  pub calls : ℕ

-- The frame goes in with the custom PTS.
unfoldable pub put_frame : Ret → MediaType → Frame → ℕ → OutputCtx → Fed
put_frame ret t frame calls o = record {
  ret = ret;
  octx = o;
  into = some (record frame { pts = (filter_of t o).custom_pts });
  calls = calls;
}

abbrev or_blank : Option Frame → Frame
or_blank none = blank_frame
or_blank (some f) = f

abbrev pub last_frame : InputCtx → MediaType → Frame
last_frame ictx t = or_blank (if is_video t then ictx.last_frame_v else ictx.last_frame_a)

-- One frame of the output rate, or else the duration of the frame.
unfoldable pub ts_step : TimeOps → InputCtx → MediaType → OutputCtx → ℤ
ts_step ops ictx t o =
    let tb = (stream_at ictx ictx.vi).time_base in
    if is_video t
    then elim o.fps [
      | none ↦ (last_frame ictx t).duration
      | some fps ↦ ops.rescale_q_rnd one (ops.inv_q fps) tb
    ]
    else (last_frame ictx t).duration

-- The end of the input: the graph is closed if frames were encoded; else the last frame goes in once
-- more, marked as a flush frame, until one comes out.
unfoldable pub feed_end : TimeOps → Ret → InputCtx → MediaType → OutputCtx → Fed
feed_end ops write_ret ictx t o =
    let f = filter_of t o in
    let frame = record (last_frame ictx t) { opaque = int64_min } in
    let f' = record f { flushing = true; custom_pts = f.custom_pts +ℤ ts_step ops ictx t o } in
    if f.flushed
    then record { ret = done; octx = o; into = none; calls = 0 }
    else if ltb 0 o.out.frames
    then record {
      ret = write_ret;
      octx = set_filter t (record f { closed = true }) o;
      into = none;
      calls = 0;
    }
    else put_frame write_ret t frame 0 (set_filter t f' o)

-- A frame keeps its PTS as the custom one, and carries it along.
unfoldable pub feed_frame : Ret → MediaType → Frame → Step → Fed
feed_frame write_ret t frame s =
    let f = record (filter_of t s.octx) { custom_pts = frame.pts } in
    elim s.left [
      | some ret ↦ record { ret = ret; octx = s.octx; into = none; calls = s.calls }
      | none ↦
          put_frame write_ret t (record frame { opaque = frame.pts }) s.calls
            (set_filter t f s.octx)
    ]

unfoldable pub filtergraph_write :
    TimeOps
    → Writer
    → Encodes
    → FeedAnswers
    → InputCtx
    → MediaType
    → Option Picture
    → OutputCtx
    → Fed
filtergraph_write ops writer encodes a ictx t inf o =
    if (filter_of t o).closed
    then record { ret = done; octx = o; into = none; calls = 0 }
    else elim inf [
      | none ↦ feed_end ops a.write_ret ictx t o
      | some p ↦ feed_frame a.write_ret t p.frame (check_frame ops writer encodes a ictx t p o)
    ]
