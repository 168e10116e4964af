-- ===== src/Outlet/Layout.antt =====
-- The streams of an output that is opened, in their order.
use mathlib.Core.List.{map-append, append-nil, append_assoc}
use lpms.Common.{
  ℕ, suc, pos, ltb_ℤ, ◌≡◌, ◌⊎◌, refl, ◌∙◌, sym, arith, Bool, true, false, ◌||◌, none, some, List,
  [], ◌∷◌, ◌++◌, map, if◌then◌else◌, Bool-cases, Option-cases, inl, inr,
}
use lpms.Ret.{Ret, done, failed}
use lpms.Media.{Rational, MediaType, video, audio, Stream, TimeOps}
use lpms.Codec.{InputCtx}
use lpms.Filter.{EncoderName, GraphAnswers, FilterCtx, filtergraph_parser, init_audio_filters}
use lpms.Outlet.{
  OutputCtx, StreamAnswers, no_stream, stream_at, streams_of, new_stream, rate_of, add_video_stream,
  add_audio_stream,
}
use lpms.Outlet.Held.{IsAttached, try_open-Outcome}
use lpms.Outlet.Open.{
  EncoderAnswers, OpenAnswers, new_muxer, open_audio_encoder, open_audio_output, copy_streams,
  open_remux_output, open_video_encoder, add_video, encode_streams, add_streams, write_header,
  finish_open, try_open, open_output,
}

abbrev pub kinds : List Stream → List MediaType
kinds ss = map (λ (s : Stream). s.codec_type) ss

abbrev pub kinds_of : OutputCtx → List MediaType
kinds_of o = kinds (streams_of o.oc)

-- The video stream, unless there is none or it is dropped; then the audio stream likewise.
abbrev pub video_kinds : InputCtx → Bool → List MediaType
video_kinds ictx dv = if ltb_ℤ ictx.vi (pos 0) || dv then [] else video ∷ []

abbrev pub audio_kinds : InputCtx → Bool → List MediaType
audio_kinds ictx da = if ltb_ℤ ictx.ai (pos 0) || da then [] else audio ∷ []

-- libav documents avfilter_graph_config to return 0 or an error.
abbrev pub IsPlain : Ret → Type 0
IsPlain ret = (failed ret ≡ true) ⊎ (ret ≡ done)

kinds-new :
    (k : MediaType) (tb r : Rational) (o : OutputCtx)
    → kinds_of (new_stream k tb r o) ≡ kinds_of o ++ k ∷ []
kinds-new k tb r o = map-append (λ (s : Stream). s.codec_type) (streams_of o.oc) _

-- The second output has more streams, and drops what the first one drops.
abbrev Adds : List MediaType → OutputCtx → OutputCtx → Type 0
Adds ks o o' = (kinds_of o' ≡ kinds_of o ++ ks) × (o'.dv ≡ o.dv) × (o'.da ≡ o.da)

Adds-trans :
    (ks ls : List MediaType) (a b c : OutputCtx) → Adds ks a b → Adds ls b c → Adds (ks ++ ls) a c
Adds-trans ks ls a b c (k, dv, da) (l, dv', da') =
    (rw (l, k) (append_assoc (kinds_of a) ks ls), dv' ∙ dv, da' ∙ da)

audio_to :
    (ictx : InputCtx) (da da' : Bool) (a b : OutputCtx)
    → da ≡ da'
    → Adds (audio_kinds ictx da) a b
    → Adds (audio_kinds ictx da') a b
audio_to ictx da da' a b e h = rw (sym e) h

init_audio_filters-IsPlain :
    (name : EncoderName) (a : GraphAnswers) (f : FilterCtx)
    → IsPlain a.config_ret
    → IsPlain (init_audio_filters name a f).0
unfolding init_audio_filters filtergraph_parser
init_audio_filters-IsPlain name a f plain = ground arith

copy_streams-Adds :
    (a : ℕ → StreamAnswers) (i : ℕ) (ss : List Stream) (o : OutputCtx)
    → let (ret, o') = copy_streams a i ss o in failed ret ≡ false → Adds (kinds ss) o o'
unfolding copy_streams
copy_streams-Adds a i [] o h = (sym (append-nil (kinds_of o)), refl, refl)
copy_streams-Adds a i (s ∷ ss) o h =
    let o1 = new_stream s.codec_type s.time_base (rate_of o s) o in
    let (ret, o2) = copy_streams a (suc i) ss o1 in
    let first : Adds (s.codec_type ∷ []) o o1 =
      (kinds-new s.codec_type s.time_base (rate_of o s) o, refl, refl) in
    let rest = Adds-trans (s.codec_type ∷ []) (kinds ss) o o1 o2 first in
    ground (arith, h, copy_streams-Adds a (suc i) ss o1, rest)

module _ (ops : TimeOps) (ictx : InputCtx) where
  add_video_stream-Adds :
      (a : StreamAnswers) (o : OutputCtx)
      → let (ret, o') = add_video_stream ops a ictx o in failed ret ≡ false → Adds (video ∷ []) o o'
  unfolding add_video_stream
  add_video_stream-Adds a o h =
      let ist = stream_at ictx ictx.vi in
      elim (Option-cases o.vc) [
        | inl e ↦ ground (arith, e, h, kinds-new video ist.time_base (rate_of o ist) o)
        | inr (vc, e) ↦ ground (
          arith,
          e,
          h,
          kinds-new video ist.time_base (rate_of o ist) o,
          kinds-new video vc.time_base (rate_of o ist) o,
        )
      ]

  add_audio_stream-Adds :
      (a : StreamAnswers) (o : OutputCtx)
      → let (ret, o') = add_audio_stream ops a ictx o in
        failed ret ≡ false → Adds (audio_kinds ictx o.da) o o'
  unfolding add_audio_stream
  add_audio_stream-Adds a o h =
      let ist = stream_at ictx ictx.ai in
      let rate = no_stream.r_frame_rate in
      elim (Option-cases o.ac) [
        | inl e ↦
            ground (arith, e, h, append-nil (kinds_of o), kinds-new audio ist.time_base rate o)
        | inr (ac, e) ↦ ground (
          arith,
          e,
          h,
          append-nil (kinds_of o),
          kinds-new audio ist.time_base rate o,
          kinds-new audio ac.time_base rate o,
        )
      ]

  audio_encoder-Adds :
      (e : EncoderAnswers) (o : OutputCtx)
      → IsPlain e.graph.config_ret
      → let (left, o') = open_audio_encoder e ictx o in
        Adds [] o o' × ((ret : Ret) → left ≡ some ret → failed ret ≡ true)
  unfolding open_audio_encoder
  audio_encoder-Adds e o plain =
      ground
        (arith, append-nil (kinds_of o), init_audio_filters-IsPlain o.audio_name e.graph o.af plain)

  audio_output-Adds :
      (e : EncoderAnswers) (s : StreamAnswers) (o : OutputCtx)
      → IsPlain e.graph.config_ret
      → let (ret, o') = open_audio_output ops e s ictx o in
        failed ret ≡ false → Adds (audio_kinds ictx o.da) o o'
  unfolding open_audio_output
  audio_output-Adds e s o plain h =
      let (left, o1) = open_audio_encoder e ictx o in
      let (same, fails) = audio_encoder-Adds e o plain in
      elim (Option-cases left) [
        | inr (ret, l) ↦ absurd (ground (arith, fails ret l, rw (open_audio_output, l) at h))
        | inl l ↦
            let o2 = (add_audio_stream ops s ictx o1).1 in
            rw (open_audio_output, l)
              (Adds-trans [] (audio_kinds ictx o.da) o o1 o2 same (
                audio_to ictx o1.da o.da o1 o2 same.2
                  (add_audio_stream-Adds s o1 (rw (open_audio_output, l) at h))))
      ]

  add_video-Adds :
      (a : OpenAnswers) (o : OutputCtx)
      → let (ret, o') = add_video ops a ictx o in
        failed ret ≡ false → Adds (video_kinds ictx o.dv) o o'
  unfolding add_video
  add_video-Adds a o h =
      ground (arith, append-nil (kinds_of o), add_video_stream-Adds a.video_stream o)

  encode_streams-Adds :
      (a : OpenAnswers) (o : OutputCtx)
      → IsPlain a.audio_encoder.graph.config_ret
      → let (ret, o') = encode_streams ops a ictx o in
        failed ret ≡ false → Adds (video_kinds ictx o.dv ++ audio_kinds ictx o.da) o o'
  unfolding encode_streams
  encode_streams-Adds a o plain h =
      let (ret, o1) = add_video ops a ictx o in
      let (ret2, o2) = open_audio_output ops a.audio_encoder a.audio_stream ictx o1 in
      elim (Bool-cases (failed ret)) [
        | inl bad ↦ absurd (ground (arith, bad, h))
        | inr good ↦
            let first = add_video-Adds a o good in
            let ends : failed ret2 ≡ false = ground (arith, good, h) in
            let second = audio_output-Adds a.audio_encoder a.audio_stream o1 plain ends in
            rw (encode_streams, good)
              (Adds-trans (video_kinds ictx o.dv) (audio_kinds ictx o.da) o o1 o2 first
                (audio_to ictx o1.da o.da o1 o2 first.2 second))
      ]

  video_encoder-Adds : (a : OpenAnswers) (o : OutputCtx) → Adds [] o (open_video_encoder a ictx o).1
  unfolding open_video_encoder
  video_encoder-Adds a o = ground (arith, append-nil (kinds_of o))

write_header-Adds : (a : OpenAnswers) (o : OutputCtx) → Adds [] o (write_header a o).1
unfolding write_header
write_header-Adds a o = ground (arith, append-nil (kinds_of o))

-- What an output that is opened consists of: the streams of the input where it is only copied.
abbrev pub all_kinds : InputCtx → OutputCtx → List MediaType
all_kinds ictx o =
    if ictx.transmuxing
    then kinds (streams_of ictx.ic)
    else video_kinds ictx o.dv ++ audio_kinds ictx o.da

module _ (ops : TimeOps) (ictx : InputCtx) where
  add_streams-Adds :
      (a : OpenAnswers) (o : OutputCtx)
      → IsPlain a.audio_encoder.graph.config_ret
      → let (ret, o') = add_streams ops a ictx o in
        failed ret ≡ false → Adds (all_kinds ictx o) o o'
  unfolding add_streams open_remux_output
  add_streams-Adds a o plain h =
      let ss = streams_of ictx.ic in
      ground (arith, h, encode_streams-Adds ops ictx a o plain, copy_streams-Adds a.remux 0 ss o)

  finish_open-Adds :
      (a : OpenAnswers) (o : OutputCtx)
      → IsPlain a.audio_encoder.graph.config_ret
      → let (left, o') = finish_open ops a ictx o in left ≡ none → Adds (all_kinds ictx o) o o'
  unfolding finish_open
  finish_open-Adds a o plain h =
      let (ret, o1) = add_streams ops a ictx o in
      let o2 = (write_header a o1).1 in
      let good : failed ret ≡ false = ground (arith, h) in
      let sum =
        Adds-trans (all_kinds ictx o) [] o o1 o2 (add_streams-Adds a o plain good)
          (write_header-Adds a o1) in
      let exact : Adds (all_kinds ictx o) o o2 = rw (append-nil (all_kinds ictx o)) at sum in
      ground (arith, h, exact)

  all_kinds-same :
      (a b : OutputCtx) → b.dv ≡ a.dv → b.da ≡ a.da → all_kinds ictx b ≡ all_kinds ictx a
  all_kinds-same a b dv da = ground (arith, dv, da)

  try_open-Adds :
      (a : OpenAnswers) (o : OutputCtx)
      → IsPlain a.audio_encoder.graph.config_ret
      → let (left, o') = try_open ops a ictx o in
        left ≡ none → (kinds_of o' ≡ all_kinds ictx o) × (o'.dv ≡ o.dv) × (o'.da ≡ o.da)
  unfolding try_open
  try_open-Adds a o plain h =
      let o0 = new_muxer a o in
      let (left, o1) = open_video_encoder a ictx o0 in
      let (no_kinds, dv, da) = video_encoder-Adds ops ictx a o0 in
      let same = all_kinds-same o o1 dv da in
      ground (arith, h, no_kinds, dv, da, same, finish_open-Adds a o1 plain)

-- Where open_output returns 0, the streams of the output are those of the input if it is only copied;
-- else the video stream comes first, unless the input has none or it is dropped, and the audio
-- stream last, likewise. A file is held at first only with a muxer, and configuring the graph for
-- audio gives 0 or an error.
pub open_output-kinds :
    (ops : TimeOps) (a : OpenAnswers) (ictx : InputCtx) (o : OutputCtx)
    → IsAttached o
    → IsPlain a.audio_encoder.graph.config_ret
    → (open_output ops a ictx o).0 ≡ done
    → let o' = (open_output ops a ictx o).1 in
      (kinds_of o' ≡ all_kinds ictx o) × (o'.dv ≡ o.dv) × (o'.da ≡ o.da)
unfolding open_output
open_output-kinds ops a ictx o attached plain h =
    let (left, o1) = try_open ops a ictx o in
    let (ends, leaves) = try_open-Outcome ops ictx a o attached in
    elim (Option-cases left) [
      | inl e ↦ rw (open_output, e) (try_open-Adds ops ictx a o plain e)
      | inr (ret, e) ↦ absurd (ground (arith, leaves ret e, rw (open_output, e) at h))
    ]
