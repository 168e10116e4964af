-- ===== src/Outlet/Kept.antt =====
-- The audio filter, which close_output keeps for the next segment.
use lpms.Common.{ℕ, suc, ◌≡◌, refl, arith, true, List, [], ◌∷◌, ◌∙◌, Option-cases, inl, inr}
use lpms.Ret.{done}
use lpms.Media.{Stream, TimeOps}
use lpms.Codec.{InputCtx}
use lpms.Filter.{EncoderName, GraphAnswers, FilterCtx, init_audio_filters}
use lpms.Outlet.{
  OutputCtx, StreamAnswers, streams_of, rate_of, new_stream, add_video_stream, add_audio_stream,
}
use lpms.Outlet.Held.{IsAttached, try_open-Outcome}
use lpms.Outlet.Open.{
  EncoderAnswers, OpenAnswers, new_muxer, open_audio_encoder, open_audio_output, copy_streams,
  open_remux_output, open_video_encoder, add_video, encode_streams, add_streams, write_header,
  finish_open, try_open, open_output,
}

-- An active audio filter is left as it is.
abbrev KeepsFilter : OutputCtx → OutputCtx → Type 0
KeepsFilter o o' = o.af.active ≡ true → o'.af ≡ o.af

KeepsFilter-trans : (a b c : OutputCtx) → KeepsFilter a b → KeepsFilter b c → KeepsFilter a c
KeepsFilter-trans a b c h k active = ground (arith, h active, k)

copy_streams-KeepsFilter :
    (a : ℕ → StreamAnswers) (i : ℕ) (ss : List Stream) (o : OutputCtx)
    → (copy_streams a i ss o).1.af ≡ o.af
unfolding copy_streams
copy_streams-KeepsFilter a i [] o = refl
copy_streams-KeepsFilter a i (s ∷ ss) o =
    let o1 = new_stream s.codec_type s.time_base (rate_of o s) o in
    ground (arith, copy_streams-KeepsFilter a (suc i) ss o1)

init_active :
    (name : EncoderName) (a : GraphAnswers) (f : FilterCtx)
    → f.active ≡ true
    → init_audio_filters name a f ≡ (done, f)
unfolding init_audio_filters
init_active name a f h = ground (arith, h)

module _ (ops : TimeOps) (ictx : InputCtx) where
  add_video-KeepsFilter : (a : OpenAnswers) (o : OutputCtx) → (add_video ops a ictx o).1.af ≡ o.af
  unfolding add_video add_video_stream
  add_video-KeepsFilter a o = ground arith

  add_audio-KeepsFilter :
      (a : StreamAnswers) (o : OutputCtx) → (add_audio_stream ops a ictx o).1.af ≡ o.af
  unfolding add_audio_stream
  add_audio-KeepsFilter a o = ground arith

  audio_encoder-KeepsFilter :
      (e : EncoderAnswers) (o : OutputCtx) → KeepsFilter o (open_audio_encoder e ictx o).1
  unfolding open_audio_encoder
  audio_encoder-KeepsFilter e o active =
      ground (arith, active, init_active o.audio_name e.graph o.af)

  audio_output-KeepsFilter :
      (e : EncoderAnswers) (s : StreamAnswers) (o : OutputCtx)
      → KeepsFilter o (open_audio_output ops e s ictx o).1
  unfolding open_audio_output
  audio_output-KeepsFilter e s o active =
      let (left, o1) = open_audio_encoder e ictx o in
      let same = audio_encoder-KeepsFilter e o active in
      elim (Option-cases left) [
        | inr (ret, h) ↦ rw (open_audio_output, h) same
        | inl h ↦ rw (open_audio_output, h) (add_audio-KeepsFilter s o1 ∙ same)
      ]

  add_streams-KeepsFilter :
      (a : OpenAnswers) (o : OutputCtx) → KeepsFilter o (add_streams ops a ictx o).1
  unfolding add_streams encode_streams open_remux_output
  add_streams-KeepsFilter a o active =
      let (ret, o1) = add_video ops a ictx o in
      ground (
        arith,
        active,
        copy_streams-KeepsFilter a.remux 0 (streams_of ictx.ic) o,
        add_video-KeepsFilter a o,
        audio_output-KeepsFilter a.audio_encoder a.audio_stream o1,
      )

  write_header-KeepsFilter : (a : OpenAnswers) (o : OutputCtx) → (write_header a o).1.af ≡ o.af
  unfolding write_header
  write_header-KeepsFilter a o = ground arith

  video_encoder-KeepsFilter :
      (a : OpenAnswers) (o : OutputCtx) → (open_video_encoder a ictx o).1.af ≡ o.af
  unfolding open_video_encoder
  video_encoder-KeepsFilter a o = ground arith

  try_open-KeepsFilter : (a : OpenAnswers) (o : OutputCtx) → KeepsFilter o (try_open ops a ictx o).1
  unfolding try_open finish_open
  try_open-KeepsFilter a o active =
      let o1 = (open_video_encoder a ictx (new_muxer a o)).1 in
      let o2 = (add_streams ops a ictx o1).1 in
      ground (
        arith,
        active,
        video_encoder-KeepsFilter a (new_muxer a o),
        add_streams-KeepsFilter a o1,
        write_header-KeepsFilter a o2,
      )

-- Where open_output returns 0, it has left an active audio filter as it was.
pub open_output-keeps_filter :
    (ops : TimeOps) (a : OpenAnswers) (ictx : InputCtx) (o : OutputCtx)
    → IsAttached o
    → o.af.active ≡ true
    → (open_output ops a ictx o).0 ≡ done
    → (open_output ops a ictx o).1.af ≡ o.af
unfolding open_output
open_output-keeps_filter ops a ictx o attached active h =
    let (left, o1) = try_open ops a ictx o in
    let (ends, leaves) = try_open-Outcome ops ictx a o attached in
    elim (Option-cases left) [
      | inl e ↦ rw (open_output, e) (try_open-KeepsFilter ops ictx a o active)
      | inr (ret, e) ↦ absurd (ground (arith, leaves ret e, rw (open_output, e) at h))
    ]
