-- ===== src/ProcessOut.antt =====
-- process_out of ffmpeg/encoder.c: a frame, or the end of the input, goes through the filter graph of an
-- output, and what comes out goes on to the encoder. The filter is the one of the encoder's kind. An
-- encoder that is NULL, which gives EINVAL, does not occur: `serve` and flush_outputs have one.
pub mod Ends
pub mod Errors
pub mod Hardware
pub mod Live
pub mod Stays
pub mod Samples
mod Tests
use lpms.Common.{
  ℕ, suc, Bool, true, false, not, ◌&&◌, ◌||◌, Option, none, some, List, [], ◌∷◌, if◌then◌else◌,
  ◌==◌,
}
use lpms.Ret.{Ret, err, done, failed, is_eagain, is_eof, lpms_err, Code, eof, filters, enc_runaway}
use lpms.Media.{is_hw, is_mediacodec, MediaType, is_video, Frame, Stream, TimeOps}
use lpms.Codec.{InputCtx}
use lpms.Filter.{
  GraphAnswers, free_filter, init_video_filters, init_signature_filters, filtergraph_read,
}
use lpms.Output.{OutState, Setting, Verdict, pass, skip, runaway, stage, is_set}
use lpms.Mux.{Writer}
use lpms.Outlet.{OutputCtx, Encoder, stream_at}
use lpms.Outlet.Open.{encoder_pool}
use lpms.Encode.{encode}
use lpms.Feed.{Picture, FeedAnswers, Encodes, filter_of, set_filter, differ, Fed, filtergraph_write}

-- What libav answers while the signature of a frame is calculated.
pub record SignAnswers : Type 0 where
  pub graph : GraphAnswers
  pub write_ret : Ret
  pub get_ret : Ret

unfoldable pub calc_signature : SignAnswers → Option ℕ → OutputCtx → Ret × OutputCtx
calc_signature a pool o =
    let (ret, sf) =
      init_signature_filters o.video_name o.sfilters (encoder_pool o.vc) pool a.graph
        (free_filter o.sf) in
    let reset = differ pool o.sf.pool in
    let o' = if reset then record o { sf = sf } else o in
    if reset && failed ret
    then (err filters, o')
    else if failed a.write_ret
    then (a.write_ret, o')
    else (a.get_ret, o')

-- What libav answers to a call: `reads` are the frames that the graph gives, and `read_end` the result
-- that ends them. `signs` are the answers for each of them.
pub record OutAnswers : Type 0 where
  pub vc_pool : Option ℕ
  pub graph : GraphAnswers
  pub feed : FeedAnswers
  pub reads : List Picture
  pub read_end : Code
  pub encodes : Encodes
  pub signs : ℕ → SignAnswers

-- The function returns, or uses what is not there: an encoder that is freed, a muxer that is NULL.
pub data Ended : Type 0 where
  returned : Ret → Ended
  dangling : Ended

-- The encoder that the caller gave is still the one of the output.
unfoldable pub is_live : MediaType → Encoder → OutputCtx → Bool
is_live t enc o = elim (if is_video t then o.vc else o.ac) [
  | none ↦ false
  | some e ↦ e.id == enc.id
]

abbrev is_there : Option ℕ → Bool
is_there none = false
is_there (some n) = true

-- The signature of a frame of the video, whose result does not matter.
unfoldable pub sign : SignAnswers → MediaType → Option ℕ → OutputCtx → OutputCtx
sign a t pool o = if is_video t && is_there o.sfilters then (calc_signature a pool o).1 else o

-- What stays the same during a call.
pub record Call : Type 0 where
  pub ops : TimeOps
  pub writer : Writer
  pub kind : MediaType
  pub ost : Stream
  pub encoder : Encoder
  pub setting : Setting

unfoldable pub encode_next : Call → Encodes → ℕ → Option Frame → OutputCtx → Ret × OutputCtx
encode_next c encodes calls frame o = encode c.ops c.writer (encodes calls) c.ost frame c.encoder o

-- av_buffersink has nothing more: at the end of the input the encoder is told, unless audio still waits
-- for the first video frame of a clip. A hardware encoder never ends by itself.
unfoldable pub end_frames : Call → OutAnswers → Bool → ℕ → OutputCtx → Ended × OutputCtx
end_frames c a has_inf calls o =
    let waits = not (is_video c.kind) && is_set o.out.clip_from_pts && not o.out.clip_started in
    let (sent, o') = encode_next c a.encodes calls none o in
    let ret = if waits then err a.read_end else sent in
    let ends = is_hw o.hw_type && not (is_mediacodec o.hw_type) && is_eagain ret in
    if has_inf || not (is_eagain (err a.read_end) || is_eof (err a.read_end))
    then (returned (err a.read_end), o)
    else if not waits && not (is_live c.kind c.encoder o)
    then (dangling, o)
    else (returned (if ends then err eof else ret), if waits then o else o')

-- The verdict on a frame that came out of the filter, when the frame is signed: on with the loop, or
-- an end. What `encode` returns does not matter here.
pub data Next : Type 0 where
  again : ℕ → OutputCtx → Next
  over : Ended → OutputCtx → Next

unfoldable pub take_verdict : Call → OutAnswers → ℕ → Option ℕ → Verdict → OutputCtx → Next
take_verdict c a calls pool skip o = again calls o
take_verdict c a calls pool runaway o =
    let o' = sign (a.signs calls) c.kind pool o in
    if is_live c.kind c.encoder o then over (returned (err enc_runaway)) o' else over dangling o
take_verdict c a calls pool (pass frame) o =
    let o' = sign (a.signs calls) c.kind pool o in
    if is_live c.kind c.encoder o
    then again (suc calls) (encode_next c a.encodes calls (some frame) o').1
    else over dangling o

-- One frame that came out of the filter; a flush frame counts for nothing.
unfoldable pub take_frame : Call → OutAnswers → ℕ → Picture → OutputCtx → Next
take_frame c a calls p o =
    let (ret, f) = filtergraph_read done p.frame (filter_of c.kind o) in
    let o1 = set_filter c.kind f o in
    let (v, s) = stage c.ops c.setting c.kind p.frame o1.out in
    if failed ret then again calls o1 else take_verdict c a calls p.pool v (record o1 { out = s })

unfoldable pub take_frames :
    Call → OutAnswers → Bool → ℕ → List Picture → OutputCtx → Ended × OutputCtx
take_frames c a has_inf calls [] o = end_frames c a has_inf calls o
take_frames c a has_inf calls (p ∷ ps) o = elim (take_frame c a calls p o) [
  | again calls' o' ↦ take_frames c a has_inf calls' ps o'
  | over ended o' ↦ (ended, o')
]

abbrev pub is_given : Option Picture → Bool
is_given none = false
is_given (some p) = true

abbrev pub frame_of : Option Picture → Option Frame
frame_of none = none
frame_of (some p) = some p.frame

abbrev pool_of : Option Picture → Option ℕ
pool_of none = none
pool_of (some p) = p.pool

-- The graph of the video is set up with the first frame, if it was not before.
unfoldable pub lazy_filter :
    Call → OutAnswers → InputCtx → Option Picture → OutputCtx → Ret × OutputCtx
lazy_filter c a ictx inf o =
    let tb = (stream_at ictx ictx.vi).time_base in
    let (ret, vf) =
      init_video_filters o.video_name o.has_vfilters tb a.vc_pool (pool_of inf) a.graph o.vf in
    if is_video c.kind && not o.vf.active && is_given inf
    then (ret, record o { vf = vf })
    else (done, o)

-- Without a filter the frame goes to the encoder as it is.
unfoldable pub bypass : Call → OutAnswers → Option Picture → OutputCtx → Ended × OutputCtx
bypass c a inf o =
    let (ret, o') = encode_next c a.encodes 0 (frame_of inf) o in
    if is_video c.kind && not (is_given inf) && is_hw o.hw_type && not (is_mediacodec o.hw_type)
    then (returned (err eof), o)
    else (returned ret, o')

unfoldable pub through_filter :
    Call → OutAnswers → InputCtx → Option Picture → OutputCtx → Ended × OutputCtx
through_filter c a ictx inf o =
    let fed = filtergraph_write c.ops c.writer a.encodes a.feed ictx c.kind inf o in
    if failed fed.ret
    then (returned fed.ret, fed.octx)
    else take_frames c a (is_given inf) fed.calls a.reads fed.octx

unfoldable pub process_out :
    Call → OutAnswers → InputCtx → Option Picture → OutputCtx → Ended × OutputCtx
process_out c a ictx inf o =
    let (ret, o') = lazy_filter c a ictx inf o in
    if failed ret
    then (returned ret, o')
    else if (filter_of c.kind o').active
    then through_filter c a ictx inf o'
    else bypass c a inf o'
