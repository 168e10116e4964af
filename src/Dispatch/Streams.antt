-- ===== src/Dispatch/Streams.antt =====
-- The output streams that the streams of the input go to.
use lpms.Common.{
  ℕ, zero, suc, pos, ltb_ℤ, ◌==ℤ◌, ◌≡◌, refl, arith, ◌||◌, Option, none, some, List, [], ◌∷◌,
  if◌then◌else◌,
}
use lpms.Ret.{done}
use lpms.Media.{MediaType, video, audio, Stream, TimeOps}
use lpms.Codec.{InputCtx}
use lpms.Outlet.{OutputCtx, nth_stream, streams_of}
use lpms.Outlet.Held.{IsAttached}
use lpms.Outlet.Open.{OpenAnswers, open_output}
use lpms.Outlet.Layout.{kinds, kinds_of, all_kinds, IsPlain, open_output-kinds}
use lpms.Dispatch.{set_flags, Route, route_to}

-- A route leads to a stream of a kind.
abbrev pub LeadsTo : MediaType → Option Route → Type 0
LeadsTo k none = Unit {0}
LeadsTo k (some r) = r.ost.codec_type ≡ k

first_kind :
    (ss : List Stream) (k : MediaType) (ks : List MediaType)
    → kinds ss ≡ k ∷ ks
    → (nth_stream ss 0).codec_type ≡ k
first_kind [] k ks h = absurd (ground (arith, h))
first_kind (s ∷ ss) k ks h = ground (arith, h)

second_kind :
    (ss : List Stream) (j k : MediaType) (ks : List MediaType)
    → kinds ss ≡ j ∷ k ∷ ks
    → (nth_stream ss 1).codec_type ≡ k
second_kind [] j k ks h = absurd (ground (arith, h))
second_kind (s ∷ []) j k ks h = absurd (ground (arith, h))
second_kind (s ∷ t ∷ ss) j k ks h = ground (arith, h)

nth_kind :
    (ss ts : List Stream) (i : ℕ)
    → kinds ss ≡ kinds ts
    → (nth_stream ss i).codec_type ≡ (nth_stream ts i).codec_type
nth_kind [] [] i h = refl
nth_kind [] (t ∷ ts) i h = absurd (ground (arith, h))
nth_kind (s ∷ ss) [] i h = absurd (ground (arith, h))
nth_kind (s ∷ ss) (t ∷ ts) zero h = ground (arith, h)
nth_kind (s ∷ ss) (t ∷ ts) (suc i) h = nth_kind ss ts i (ground (arith, h))

-- The kind of the stream of the input: where streams are not all copied, video if it is the one
-- stream that counts as the video, and else audio.
abbrev pub kind_at : InputCtx → ℕ → Stream → MediaType
kind_at ictx i ist =
    if ictx.transmuxing
    then (nth_stream (streams_of ictx.ic) i).codec_type
    else if pos ist.index ==ℤ ictx.vi
    then video
    else audio

route_kind :
    (ictx : InputCtx) (o o' : OutputCtx) (i : ℕ) (ist : Stream)
    → kinds_of o' ≡ all_kinds ictx (set_flags ictx o)
    → o'.dv ≡ (set_flags ictx o).dv
    → o'.da ≡ (set_flags ictx o).da
    → LeadsTo (kind_at ictx i ist) (route_to ictx o' i ist)
unfolding route_to set_flags
route_kind ictx o o' i ist ks dv da =
    let ss = streams_of o'.oc in
    let audios : List MediaType =
      if ltb_ℤ ictx.ai (pos 0) || (set_flags ictx o).da then [] else audio ∷ [] in
    ground (
      arith,
      ks,
      dv,
      da,
      nth_kind ss (streams_of ictx.ic) i,
      first_kind ss video audios,
      first_kind ss audio [],
      second_kind ss video audio [],
    )

-- In an output that transcode_init prepared and open_output opened, the streams that the loop picks by
-- their places are the right ones: what the video of the input goes to is a stream of video, what
-- its audio goes to one of audio, and where all streams are copied, each goes to one of its own
-- kind. A file is held at first only with a muxer, and configuring the graph for audio gives 0 or an
-- error.
pub route_to-LeadsTo :
    (ops : TimeOps) (a : OpenAnswers) (ictx : InputCtx) (o : OutputCtx) (i : ℕ) (ist : Stream)
    → IsAttached o
    → IsPlain a.audio_encoder.graph.config_ret
    → (open_output ops a ictx (set_flags ictx o)).0 ≡ done
    → LeadsTo
        (kind_at ictx i ist)
        (route_to ictx (open_output ops a ictx (set_flags ictx o)).1 i ist)
unfolding set_flags
route_to-LeadsTo ops a ictx o i ist attached plain opened =
    let (ks, dv, da) = open_output-kinds ops a ictx (set_flags ictx o) attached plain opened in
    route_kind ictx o (open_output ops a ictx (set_flags ictx o)).1 i ist ks dv da
