-- ===== src/Outlet/Held.antt =====
-- What an output holds after opening it, and after a failure to.
use lpms.Common.{
  ℕ, suc, ◌≡◌, ◌≢◌, ◌⊎◌, refl, arith, true, false, none, some, List, [], ◌∷◌, Option-cases, inl,
  inr,
}
use lpms.Ret.{Ret, done, is_zero}
use lpms.Media.{Stream, TimeOps}
use lpms.Codec.{InputCtx}
use lpms.Filter.{no_filter, needs_decoder, free_filter}
use lpms.Outlet.{
  OutputCtx, StreamAnswers, streams_of, rate_of, new_stream, add_video_stream, add_audio_stream,
  close_output, free_output,
}
use lpms.Outlet.Open.{
  EncoderAnswers, OpenAnswers, new_muxer, open_audio_encoder, open_audio_output, copy_streams,
  open_remux_output, open_video_encoder, add_video, encode_streams, add_streams, write_header,
  finish_open, try_open, open_output,
}

-- No muxer, file, encoder or filter is held.
pub record IsFreed (o : OutputCtx) : Type 0 where
  pub no_oc : o.oc ≡ none
  pub no_pb : o.has_pb ≡ false
  pub no_vc : o.vc ≡ none
  pub no_ac : o.ac ≡ none
  pub no_vf : o.vf ≡ no_filter
  pub no_af : o.af ≡ no_filter
  pub no_sf : o.sf ≡ no_filter

-- A file is held only with its muxer.
abbrev pub IsAttached : OutputCtx → Type 0
IsAttached o = (o.oc ≢ none) ⊎ (o.has_pb ≡ false)

-- The muxer is there, and the encoder of each kind that is encoded.
pub record IsOpened (ictx : InputCtx) (o : OutputCtx) : Type 0 where
  pub marked : o.initialized ≡ true
  pub muxer : o.oc ≢ none
  pub video_encoder : (ictx.has_vc ≡ false) ⊎ (needs_decoder o.video_name ≡ false) ⊎ (o.vc ≢ none)

-- What stays of an output while it is opened.
pub record Keeps (o o' : OutputCtx) : Type 0 where
  pub oc : (o.oc ≢ none) → (o'.oc ≢ none)
  pub vc : (o.vc ≢ none) → (o'.vc ≢ none)
  pub name : o'.video_name ≡ o.video_name
  pub dv : o'.dv ≡ o.dv

pub Keeps-trans : (a b c : OutputCtx) → Keeps a b → Keeps b c → Keeps a c
Keeps-trans a b c h k = record {
  oc = λ x. k.oc (h.oc x);
  vc = λ x. k.vc (h.vc x);
  name = cc;
  dv = cc;
}

pub free_output-IsFreed : (o : OutputCtx) → IsAttached o → IsFreed (free_output o)
unfolding free_output close_output free_filter
free_output-IsFreed o h = ground arith

copy_streams-Keeps :
    (a : ℕ → StreamAnswers) (i : ℕ) (ss : List Stream) (o : OutputCtx)
    → Keeps o (copy_streams a i ss o).1
unfolding copy_streams
copy_streams-Keeps a i [] o = record { oc = λ h. h; vc = λ h. h; name = refl; dv = refl }
copy_streams-Keeps a i (s ∷ ss) o =
    let o1 = new_stream s.codec_type s.time_base (rate_of o s) o in
    let rest = copy_streams-Keeps a (suc i) ss o1 in
    let step : Keeps o o1 = ground arith in
    ground (arith, Keeps-trans o o1 (copy_streams a (suc i) ss o1).1, rest, step)

module _ (ops : TimeOps) (ictx : InputCtx) where
  pub add_video-Keeps :
      (a : StreamAnswers) (o : OutputCtx) → Keeps o (add_video_stream ops a ictx o).1
  unfolding add_video_stream
  add_video-Keeps a o = ground arith

  add_audio-Keeps : (a : StreamAnswers) (o : OutputCtx) → Keeps o (add_audio_stream ops a ictx o).1
  unfolding add_audio_stream
  add_audio-Keeps a o = ground arith

  audio_encoder-Keeps :
      (e : EncoderAnswers) (o : OutputCtx) → Keeps o (open_audio_encoder e ictx o).1
  unfolding open_audio_encoder
  audio_encoder-Keeps e o = ground arith

  pub audio_output-Keeps :
      (e : EncoderAnswers) (s : StreamAnswers) (o : OutputCtx)
      → Keeps o (open_audio_output ops e s ictx o).1
  unfolding open_audio_output
  audio_output-Keeps e s o =
      let (left, o1) = open_audio_encoder e ictx o in
      elim (Option-cases left) [
        | inr (ret, h) ↦ rw (open_audio_output, h) (audio_encoder-Keeps e o)
        | inl h ↦
            let o2 = (add_audio_stream ops s ictx o1).1 in
            rw (open_audio_output, h)
              (Keeps-trans o o1 o2 (audio_encoder-Keeps e o) (add_audio-Keeps s o1))
      ]

  -- A stretch that leaves the function does so with a result that is not 0.
  pub video_encoder-Keeps :
      (a : OpenAnswers) (o : OutputCtx)
      → let (left, o') = open_video_encoder a ictx o in
        Keeps o o'
        × ((left ≡ none)
            → (ictx.has_vc ≡ false) ⊎ (needs_decoder o'.video_name ≡ false) ⊎ (o'.vc ≢ none))
        × ((ret : Ret) → left ≡ some ret → is_zero ret ≡ false)
  unfolding open_video_encoder
  video_encoder-Keeps a o = ground arith

  add_video_if-Keeps : (a : OpenAnswers) (o : OutputCtx) → Keeps o (add_video ops a ictx o).1
  unfolding add_video
  add_video_if-Keeps a o = ground (arith, add_video-Keeps a.video_stream o)

  remux-Keeps : (a : ℕ → StreamAnswers) (o : OutputCtx) → Keeps o (open_remux_output a ictx o).1
  unfolding open_remux_output
  remux-Keeps a o = copy_streams-Keeps a 0 (streams_of ictx.ic) o

  add_streams-Keeps : (a : OpenAnswers) (o : OutputCtx) → Keeps o (add_streams ops a ictx o).1
  unfolding add_streams encode_streams
  add_streams-Keeps a o =
      let (ret, o1) = add_video ops a ictx o in
      let o2 = (open_audio_output ops a.audio_encoder a.audio_stream ictx o1).1 in
      ground (
        arith,
        remux-Keeps a.remux o,
        add_video_if-Keeps a o,
        audio_output-Keeps a.audio_encoder a.audio_stream o1,
        Keeps-trans o o1 o2,
      )

pub write_header-Keeps : (a : OpenAnswers) (o : OutputCtx) → Keeps o (write_header a o).1
unfolding write_header
write_header-Keeps a o = ground arith

module _ (ops : TimeOps) (ictx : InputCtx) where
  pub finish_open-Keeps :
      (a : OpenAnswers) (o : OutputCtx)
      → let (left, o') = finish_open ops a ictx o in
        Keeps o o'
        × ((left ≡ none) → o'.initialized ≡ true)
        × ((ret : Ret) → left ≡ some ret → is_zero ret ≡ false)
  unfolding finish_open
  finish_open-Keeps a o =
      let (ret, o1) = add_streams ops a ictx o in
      let o2 = (write_header a o1).1 in
      ground (arith, add_streams-Keeps ops ictx a o, write_header-Keeps a o1, Keeps-trans o o1 o2)

  -- The function leaves with what can be freed, or goes on to its end.
  pub try_open-Outcome :
      (a : OpenAnswers) (o : OutputCtx)
      → IsAttached o
      → let (left, o') = try_open ops a ictx o in
        ((left ≡ none) → IsOpened ictx o')
        × ((ret : Ret) → left ≡ some ret → (is_zero ret ≡ false) × IsAttached o')
  unfolding try_open
  try_open-Outcome a o h =
      let o1 = new_muxer a o in
      let (left, o2) = open_video_encoder a ictx o1 in
      ground (arith, video_encoder-Keeps ops ictx a o1, finish_open-Keeps a o2)

-- Opening an output is all or nothing: open_output returns 0 with the output marked as initialized,
-- with its muxer, and with an encoder if its video is encoded from a decoder; or the result is not 0,
-- and the output holds no muxer, file, encoder or filter. A file is held at first only with a muxer.
pub open_output-Outcome :
    (ops : TimeOps) (a : OpenAnswers) (ictx : InputCtx) (o : OutputCtx)
    → IsAttached o
    → let (ret, o') = open_output ops a ictx o in
      ((ret ≡ done) × IsOpened ictx o') ⊎ ((is_zero ret ≡ false) × IsFreed o')
unfolding open_output
open_output-Outcome ops a ictx o h =
    let (left, o1) = try_open ops a ictx o in
    let (ends, leaves) = try_open-Outcome ops ictx a o h in
    elim (Option-cases left) [
      | inl e ↦ rw (open_output, e) (inl (refl, ends e))
      | inr (ret, e) ↦
          let (nonzero, attached) = leaves ret e in
          rw (open_output, e) (inr (nonzero, free_output-IsFreed o1 attached))
    ]
