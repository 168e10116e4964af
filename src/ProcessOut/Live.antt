-- ===== src/ProcessOut/Live.antt =====
-- The encoder that process_out is called with is not freed under its hands.
use lpms.Common.{
  ℕ, ◌≡◌, ◌≢◌, refl, ◌∙◌, arith, Bool, true, false, Option, none, some, List, [], ◌∷◌, inl, inr,
  All,
}
use lpms.Ret.{Ret, done}
use lpms.Media.{MediaType, video, audio, subtitle, Frame, TimeOps}
use lpms.Codec.{InputCtx}
use lpms.Filter.{filtergraph_read}
use lpms.Output.{
  OutState, Setting, Verdict, pass, skip, runaway, find_start, clip, clip_video, clip_audio,
  start_clip, set_gop, space_video, rescale, send_on, finish, stage,
}
use lpms.Outlet.{OutputCtx, Encoder}
use lpms.Encode.Kept.{KeepsEncoders, encode-KeepsEncoders}
use lpms.Feed.{
  Picture, Encodes, filter_of, set_filter, needs_reset, check_frame, put_frame, feed_end,
  feed_frame, filtergraph_write,
}
use lpms.ProcessOut.{
  SignAnswers, OutAnswers, returned, dangling, calc_signature, sign, is_live, Call, encode_next,
  end_frames, Next, again, over, take_verdict, take_frame, take_frames, lazy_filter, bypass,
  through_filter, process_out, is_given,
}
use lpms.ProcessOut.Ends.{Next-cases}

-- A frame of the size of the first.
abbrev Sized : Frame → Frame → Type 0
Sized f g = (g.width ≡ f.width) × (g.height ≡ f.height)

abbrev SizedOption : Frame → Option Frame → Type 0
SizedOption f none = Unit {0}
SizedOption f (some g) = Sized f g

abbrev SizedVerdict : Frame → Verdict → Type 0
SizedVerdict f (pass g) = Sized f g
SizedVerdict f skip = Unit {0}
SizedVerdict f runaway = Unit {0}

clip-Sized : (t : MediaType) (f : Frame) (o : OutState) → SizedOption f (clip t f o).0
unfolding clip clip_video clip_audio start_clip
clip-Sized video f o = ground arith
clip-Sized audio f o = ground arith
clip-Sized subtitle f o = ground arith

send_on-Sized :
    (ops : TimeOps) (s : Setting) (t : MediaType) (f : Frame) (o : OutState)
    → SizedVerdict f (send_on ops s t f o).0
unfolding send_on set_gop rescale space_video
send_on-Sized ops s t f o = ground arith

finish-Sized :
    (ops : TimeOps) (s : Setting) (t : MediaType) (f : Frame) (g : Option Frame) (o : OutState)
    → SizedOption f g
    → SizedVerdict f (finish ops s t g o).0
unfolding finish
finish-Sized ops s t f none o h = tt
finish-Sized ops s t f (some g) o h = ground (arith, h, send_on-Sized ops s t g o)

stage-Sized :
    (ops : TimeOps) (s : Setting) (t : MediaType) (f : Frame) (o : OutState)
    → SizedVerdict f (stage ops s t f o).0
unfolding stage
stage-Sized ops s t f o =
    let (g, o') = clip t f (find_start t f o) in
    finish-Sized ops s t f g o' (clip-Sized t f (find_start t f o))

-- The frame has the size of the encoder.
abbrev pub FitsEncoder : Call → Frame → Type 0
FitsEncoder c f = (f.width ≡ c.encoder.width) × (f.height ≡ c.encoder.height)

-- The loop goes on with the same encoders, or ends without a use of a freed one.
abbrev NextLive : OutputCtx → Next → Type 0
NextLive o (again calls o') = KeepsEncoders o o'
NextLive o (over ended o') = ended ≢ dangling

abbrev VerdictFits : Call → Verdict → Type 0
VerdictFits c (pass f) = FitsEncoder c f
VerdictFits c skip = Unit {0}
VerdictFits c runaway = Unit {0}

verdict-Fits :
    (c : Call) (f : Frame) (v : Verdict) → FitsEncoder c f → SizedVerdict f v → VerdictFits c v
verdict-Fits c f (pass g) h k = ground (arith, h, k)
verdict-Fits c f skip h k = tt
verdict-Fits c f runaway h k = tt

is_live-kept :
    (t : MediaType) (enc : Encoder) (o o' : OutputCtx)
    → KeepsEncoders o o'
    → is_live t enc o ≡ true
    → is_live t enc o' ≡ true
unfolding is_live
is_live-kept t enc o o' h live = ground (arith, h, live)

Keeps-trans : (a b c : OutputCtx) → KeepsEncoders a b → KeepsEncoders b c → KeepsEncoders a c
Keeps-trans a b c h k = record { vc = k.vc ∙ h.vc; ac = k.ac ∙ h.ac }

returned-≢ : (ret : Ret) → returned ret ≢ dangling
returned-≢ ret h = cc

module _ (c : Call) (a : OutAnswers) where
  sign-KeepsEncoders :
      (s : SignAnswers) (pool : Option ℕ) (o : OutputCtx) → KeepsEncoders o (sign s c.kind pool o)
  unfolding sign calc_signature
  sign-KeepsEncoders s pool o = ground arith

  encode_next-KeepsEncoders :
      (encodes : Encodes) (calls : ℕ) (frame : Frame) (o : OutputCtx)
      → FitsEncoder c frame
      → KeepsEncoders o (encode_next c encodes calls (some frame) o).1
  unfolding encode_next
  encode_next-KeepsEncoders encodes calls frame o (w, h) =
      encode-KeepsEncoders c.ops c.writer c.ost (encodes calls) frame c.encoder o w h

  verdict-NextLive :
      (calls : ℕ) (pool : Option ℕ) (v : Verdict) (o : OutputCtx)
      → VerdictFits c v
      → is_live c.kind c.encoder o ≡ true
      → NextLive o (take_verdict c a calls pool v o)
  unfolding take_verdict
  verdict-NextLive calls pool (pass frame) o fits live =
      let o' = sign (a.signs calls) c.kind pool o in
      let o'' = (encode_next c a.encodes calls (some frame) o').1 in
      rw live (
        Keeps-trans o o' o'' (sign-KeepsEncoders (a.signs calls) pool o)
          (encode_next-KeepsEncoders a.encodes calls frame o' fits))
  verdict-NextLive calls pool skip o fits live = record { vc = refl; ac = refl }
  verdict-NextLive calls pool runaway o fits live = rw live (returned-≢ _)

  frame-NextLive :
      (calls : ℕ) (p : Picture) (o : OutputCtx)
      → FitsEncoder c p.frame
      → is_live c.kind c.encoder o ≡ true
      → NextLive o (take_frame c a calls p o)
  unfolding take_frame
  frame-NextLive calls p o fits live =
      let f = (filtergraph_read done p.frame (filter_of c.kind o)).1 in
      let o1 = set_filter c.kind f o in
      let (v, s) = stage c.ops c.setting c.kind p.frame o1.out in
      let o2 : OutputCtx = record o1 { out = s } in
      let same : KeepsEncoders o o2 = ground arith in
      let v_fits =
        verdict-Fits c p.frame v fits (stage-Sized c.ops c.setting c.kind p.frame o1.out) in
      let live2 = is_live-kept c.kind c.encoder o o2 same live in
      ground (arith, same, verdict-NextLive calls p.pool v o2 v_fits live2)

  end_frames-live :
      (has_inf : Bool) (calls : ℕ) (o : OutputCtx)
      → is_live c.kind c.encoder o ≡ true
      → (end_frames c a has_inf calls o).0 ≢ dangling
  unfolding end_frames
  end_frames-live has_inf calls o live = ground (arith, live)

  frames-live :
      (has_inf : Bool) (calls : ℕ) (ps : List Picture) (o : OutputCtx)
      → All (λ (p : Picture). FitsEncoder c p.frame) ps
      → is_live c.kind c.encoder o ≡ true
      → (take_frames c a has_inf calls ps o).0 ≢ dangling
  unfolding take_frames
  frames-live has_inf calls [] o fits live = end_frames-live has_inf calls o live
  frames-live has_inf calls (p ∷ ps) o (fit, fits) live =
      elim (Next-cases (take_frame c a calls p o)) [
        | inl (calls', o', e) ↦
            let same = rw e at (frame-NextLive calls p o fit live) in
            rw (take_frames, e)
              (frames-live has_inf calls' ps o' fits (is_live-kept c.kind c.encoder o o' same live))
        | inr (ended, o', e) ↦ rw (take_frames, e) (rw e at (frame-NextLive calls p o fit live))
      ]

-- The graph is not set up again for the frame.
abbrev pub KeepsGraph : Call → OutAnswers → Option Picture → OutputCtx → Type 0
KeepsGraph c a none o = Unit {0}
KeepsGraph c a (some p) o = needs_reset a.feed.source_size p (filter_of c.kind o) ≡ false

feed-KeepsEncoders :
    (c : Call) (a : OutAnswers) (ictx : InputCtx) (inf : Option Picture) (o : OutputCtx)
    → KeepsGraph c a inf o
    → KeepsEncoders o (filtergraph_write c.ops c.writer a.encodes a.feed ictx c.kind inf o).octx
unfolding filtergraph_write feed_end feed_frame put_frame check_frame
feed-KeepsEncoders c a ictx none o h = ground arith
feed-KeepsEncoders c a ictx (some p) o h = ground (arith, h)

lazy-KeepsEncoders :
    (c : Call) (a : OutAnswers) (ictx : InputCtx) (inf : Option Picture) (o : OutputCtx)
    → KeepsEncoders o (lazy_filter c a ictx inf o).1
unfolding lazy_filter
lazy-KeepsEncoders c a ictx inf o = ground arith

-- process_out never uses an encoder that is freed, as long as the encoder that it is called with is
-- the one of the output, the graph is not set up again for the frame, and all frames that the graph
-- gives have the size of the encoder.
pub process_out-live :
    (c : Call) (a : OutAnswers) (ictx : InputCtx) (inf : Option Picture) (o : OutputCtx)
    → is_live c.kind c.encoder o ≡ true
    → KeepsGraph c a inf (lazy_filter c a ictx inf o).1
    → All (λ (p : Picture). FitsEncoder c p.frame) a.reads
    → (process_out c a ictx inf o).0 ≢ dangling
unfolding process_out through_filter bypass
process_out-live c a ictx inf o live keeps fits =
    let o' = (lazy_filter c a ictx inf o).1 in
    let fed = filtergraph_write c.ops c.writer a.encodes a.feed ictx c.kind inf o' in
    let live' = is_live-kept c.kind c.encoder o o' (lazy-KeepsEncoders c a ictx inf o) live in
    let live'' =
      is_live-kept c.kind c.encoder o' fed.octx (feed-KeepsEncoders c a ictx inf o' keeps) live' in
    ground (arith, frames-live c a (is_given inf) fed.calls a.reads fed.octx fits live'')
