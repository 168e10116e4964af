-- ===== src/Outlet/Open.antt =====
-- open_output and reopen_output of ffmpeg/encoder.c.
use lpms.Common.{
  ℕ, suc, pos, ltb_ℤ, Bool, true, not, ◌&&◌, ◌||◌, Option, none, some, List, [], ◌∷◌, if◌then◌else◌,
}
use lpms.Ret.{Ret, done, failed, lpms_err}
use lpms.Media.{Stream, TimeOps}
use lpms.Codec.{InputCtx}
use lpms.Filter.{
  needs_decoder, GraphAnswers, init_video_filters, init_audio_filters, init_signature_filters,
}
use lpms.Outlet.{
  OutputCtx, Encoder, StreamAnswers, stream_at, streams_of, rate_of, new_stream, add_video_stream,
  add_audio_stream, free_output,
}

-- What libav answers while an encoder is opened; `ready` is the encoder with its fields set.
pub record EncoderAnswers : Type 0 where
  pub graph : GraphAnswers
  pub finds_encoder : Bool
  pub allocs_encoder : Bool
  pub layout_ret : Ret
  pub refs_pool : Bool
  pub open_ret : Ret
  pub ready : Encoder

-- What libav answers while an output is opened. `nofile` and `nonstrict` are AVFMT_NOFILE
-- and AVFMT_TS_NONSTRICT of the format, `vc_pool` the pool of the decoder, and `remux` the answers for each stream of the input.
pub record OpenAnswers : Type 0 where
  pub guesses_format : Bool
  pub nofile : Bool
  pub nonstrict : Bool
  pub alloc_ret : Ret
  pub vc_pool : Option ℕ
  pub video_encoder : EncoderAnswers
  pub audio_encoder : EncoderAnswers
  pub video_stream : StreamAnswers
  pub audio_stream : StreamAnswers
  pub remux : ℕ → StreamAnswers
  pub avio_ret : Ret
  pub header_ret : Ret
  pub signature : GraphAnswers

-- A stretch of a function: it goes on, or leaves with a result.
abbrev pub Stretch : Type 0
Stretch = Option Ret × OutputCtx

-- ac of open_audio_output
unfoldable pub open_audio_encoder : EncoderAnswers → InputCtx → OutputCtx → Stretch
open_audio_encoder e ictx o =
    if ictx.has_ac && needs_decoder o.audio_name
    then (let (ret, af) = init_audio_filters o.audio_name e.graph o.af in
        let o1 = record o { af = af } in
        let o2 = record o1 { ac = some e.ready } in
        if failed ret
        then (some ret, o1)
        else if not e.finds_encoder || not e.allocs_encoder
        then (some (lpms_err ret), o1)
        else if failed e.layout_ret
        then (some e.layout_ret, o2)
        else if failed e.open_ret
        then (some e.open_ret, o2)
        else (none, o2))
    else (none, o)

unfoldable pub open_audio_output :
    TimeOps → EncoderAnswers → StreamAnswers → InputCtx → OutputCtx → Ret × OutputCtx
open_audio_output ops e s ictx o =
    let (left, o1) = open_audio_encoder e ictx o in
    elim left [ some ret ↦ (ret, o1) | none ↦ add_audio_stream ops s ictx o1 ]

-- All streams of the input from the i-th on, one to one.
unfoldable pub copy_streams : (ℕ → StreamAnswers) → ℕ → List Stream → OutputCtx → Ret × OutputCtx
copy_streams a i [] o = (done, o)
copy_streams a i (ist ∷ ists) o =
    let o1 = new_stream ist.codec_type ist.time_base (rate_of o ist) o in
    if not (a i).allocs
    then (lpms_err done, o)
    else if failed (a i).params_ret
    then ((a i).params_ret, o1)
    else copy_streams a (suc i) ists o1

unfoldable pub open_remux_output : (ℕ → StreamAnswers) → InputCtx → OutputCtx → Ret × OutputCtx
open_remux_output a ictx o = copy_streams a 0 (streams_of ictx.ic) o

unfoldable pub open_video_encoder : OpenAnswers → InputCtx → OutputCtx → Stretch
open_video_encoder a ictx o =
    if ictx.has_vc && needs_decoder o.video_name
    then (let e = a.video_encoder in
        let tb = (stream_at ictx ictx.vi).time_base in
        let (ret, vf) =
          init_video_filters o.video_name o.has_vfilters tb a.vc_pool none e.graph o.vf in
        let o1 = record o { vf = vf } in
        let o2 = record o1 { vc = some e.ready } in
        if failed ret
        then (some ret, o1)
        else if not e.finds_encoder || not e.allocs_encoder
        then (some (lpms_err ret), o1)
        else if not e.refs_pool
        then (some (lpms_err ret), o2)
        else if failed e.open_ret
        then (some e.open_ret, o2)
        else (none, record o2 { hw_type = ictx.hw_type }))
    else (none, o)

unfoldable pub add_video : TimeOps → OpenAnswers → InputCtx → OutputCtx → Ret × OutputCtx
add_video ops a ictx o =
    if ltb_ℤ ictx.vi (pos 0) || o.dv then (done, o) else add_video_stream ops a.video_stream ictx o

unfoldable pub encode_streams : TimeOps → OpenAnswers → InputCtx → OutputCtx → Ret × OutputCtx
encode_streams ops a ictx o =
    let (ret, o1) = add_video ops a ictx o in
    if failed ret then (ret, o1) else open_audio_output ops a.audio_encoder a.audio_stream ictx o1

unfoldable pub add_streams : TimeOps → OpenAnswers → InputCtx → OutputCtx → Ret × OutputCtx
add_streams ops a ictx o =
    if ictx.transmuxing then open_remux_output a.remux ictx o else encode_streams ops a ictx o

abbrev pub encoder_pool : Option Encoder → Option ℕ
encoder_pool none = none
encoder_pool (some vc) = vc.pool

-- The file, the header, and the signature filters.
unfoldable pub write_header : OpenAnswers → OutputCtx → Ret × OutputCtx
write_header a o =
    let o1 = if a.nofile then o else record o { has_pb = true } in
    if not a.nofile && failed a.avio_ret
    then (a.avio_ret, o)
    else if failed a.header_ret
    then (a.header_ret, o1)
    else elim o1.sfilters [
      | none ↦ (a.header_ret, o1)
      | some n ↦
          let (ret, sf) =
            init_signature_filters o1.video_name (some n) (encoder_pool o1.vc) none a.signature
              o1.sf in
          if needs_decoder o1.video_name && not o1.sf.active
          then (ret, record o1 { sf = sf })
          else (a.header_ret, o1)
    ]

-- avformat_alloc_output_context2
abbrev pub new_muxer : OpenAnswers → OutputCtx → OutputCtx
new_muxer a o = record o {
  oc = some [];
  muxing = record o.muxing { nonstrict = a.nonstrict; written = [] };
}

-- open_output before the clean-up.
unfoldable pub finish_open : TimeOps → OpenAnswers → InputCtx → OutputCtx → Stretch
finish_open ops a ictx o =
    let (ret, o1) = add_streams ops a ictx o in
    let (ret', o2) = write_header a o1 in
    if failed ret
    then (some ret, o1)
    else if failed ret'
    then (some ret', o2)
    else (none, record o2 { initialized = true })

unfoldable pub try_open : TimeOps → OpenAnswers → InputCtx → OutputCtx → Stretch
try_open ops a ictx o =
    let (left, o1) = open_video_encoder a ictx (new_muxer a o) in
    if not a.guesses_format
    then (some (lpms_err done), o)
    else if failed a.alloc_ret
    then (some a.alloc_ret, o)
    else elim left [ some ret ↦ (some ret, o1) | none ↦ finish_open ops a ictx o1 ]

unfoldable pub open_output : TimeOps → OpenAnswers → InputCtx → OutputCtx → Ret × OutputCtx
open_output ops a ictx o =
    let (left, o') = try_open ops a ictx o in
    elim left [ some ret ↦ (ret, free_output o') | none ↦ (done, o') ]

unfoldable pub readd_video : TimeOps → OpenAnswers → InputCtx → OutputCtx → Ret × OutputCtx
readd_video ops a ictx o = elim o.vc [
  | none ↦ (done, o)
  | some vc ↦ add_video_stream ops a.video_stream ictx o
]

-- The muxer of a hardware session is opened again; a failure is left as it is.
unfoldable pub reopen_output : TimeOps → OpenAnswers → InputCtx → OutputCtx → Ret × OutputCtx
reopen_output ops a ictx o =
    let o1 = new_muxer a o in
    let (ret2, o2) = readd_video ops a ictx o1 in
    let (ret3, o3) = open_audio_output ops a.audio_encoder a.audio_stream ictx o2 in
    if not a.guesses_format
    then (lpms_err done, o)
    else if failed a.alloc_ret
    then (a.alloc_ret, record o { oc = none })
    else if failed ret2
    then (ret2, o2)
    else if failed ret3
    then (ret3, o3)
    else write_header a o3
