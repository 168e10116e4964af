-- ===== src/ProcessOut/Stays.antt =====
-- process_out leaves the muxer and the flags of an output alone.
use lpms.Common.{ℕ, arith, refl, Bool, Option, none, some, List, [], ◌∷◌, inl, inr}
use lpms.Ret.{done}
use lpms.Media.{Frame}
use lpms.Codec.{InputCtx}
use lpms.Filter.{filtergraph_read}
use lpms.Output.{Verdict, pass, skip, runaway, stage}
use lpms.Outlet.{OutputCtx}
use lpms.Encode.Stays.{Stays, Stays-refl, Stays-trans, encode-Stays}
use lpms.Feed.{Picture, Encodes, filter_of, set_filter, filtergraph_write}
use lpms.Feed.Stays.{set_filter-Stays, filtergraph_write-Stays}
use lpms.ProcessOut.{
  SignAnswers, OutAnswers, calc_signature, sign, Call, encode_next, end_frames, Next, again, over,
  take_verdict, take_frame, take_frames, is_given, frame_of, lazy_filter, bypass, through_filter,
  process_out,
}
use lpms.ProcessOut.Ends.{Next-cases}

abbrev NextStays : OutputCtx → Next → Type 0
NextStays o (again calls o') = Stays o o'
NextStays o (over ended o') = Stays o o'

NextStays-trans : (a b : OutputCtx) (n : Next) → Stays a b → NextStays b n → NextStays a n
NextStays-trans a b (again calls o) h k = Stays-trans a b o h k
NextStays-trans a b (over ended o) h k = Stays-trans a b o h k

module _ (c : Call) (a : OutAnswers) where
  encode_next-Stays :
      (encodes : Encodes) (calls : ℕ) (frame : Option Frame) (o : OutputCtx)
      → Stays o (encode_next c encodes calls frame o).1
  unfolding encode_next
  encode_next-Stays encodes calls frame o =
      encode-Stays c.ops c.writer c.ost (encodes calls) frame c.encoder o

  sign-Stays : (s : SignAnswers) (pool : Option ℕ) (o : OutputCtx) → Stays o (sign s c.kind pool o)
  unfolding sign calc_signature
  sign-Stays s pool o = ground arith

  end_frames-Stays :
      (has_inf : Bool) (calls : ℕ) (o : OutputCtx) → Stays o (end_frames c a has_inf calls o).1
  unfolding end_frames
  end_frames-Stays has_inf calls o = ground (arith, encode_next-Stays a.encodes calls none o)

  verdict-NextStays :
      (calls : ℕ) (pool : Option ℕ) (v : Verdict) (o : OutputCtx)
      → NextStays o (take_verdict c a calls pool v o)
  unfolding take_verdict
  verdict-NextStays calls pool (pass frame) o =
      let o' = sign (a.signs calls) c.kind pool o in
      ground (
        arith,
        sign-Stays (a.signs calls) pool o,
        encode_next-Stays a.encodes calls (some frame) o',
      )
  verdict-NextStays calls pool skip o = Stays-refl o
  verdict-NextStays calls pool runaway o = ground (arith, sign-Stays (a.signs calls) pool o)

  frame-NextStays :
      (calls : ℕ) (p : Picture) (o : OutputCtx) → NextStays o (take_frame c a calls p o)
  unfolding take_frame
  frame-NextStays calls p o =
      let f = (filtergraph_read done p.frame (filter_of c.kind o)).1 in
      let o1 = set_filter c.kind f o in
      let (v, s) = stage c.ops c.setting c.kind p.frame o1.out in
      let o2 : OutputCtx = record o1 { out = s } in
      let n = take_verdict c a calls p.pool v o2 in
      let same : Stays o1 o2 = record {
        oc = refl;
        has_pb = refl;
        hw_type = refl;
        initialized = refl;
        dv = refl;
      } in
      let first = set_filter-Stays c.kind f o in
      ground (
        arith,
        first,
        NextStays-trans o o2 n (Stays-trans o o1 o2 first same)
            (verdict-NextStays calls p.pool v o2),
      )

  frames-Stays :
      (has_inf : Bool) (calls : ℕ) (ps : List Picture) (o : OutputCtx)
      → Stays o (take_frames c a has_inf calls ps o).1
  unfolding take_frames
  frames-Stays has_inf calls [] o = end_frames-Stays has_inf calls o
  frames-Stays has_inf calls (p ∷ ps) o = elim (Next-cases (take_frame c a calls p o)) [
    | inl (calls', o', e) ↦
        let rest = (take_frames c a has_inf calls' ps o').1 in
        rw (take_frames, e)
          (Stays-trans o o' rest (rw e at (frame-NextStays calls p o))
            (frames-Stays has_inf calls' ps o'))
    | inr (ended, o', e) ↦ rw (take_frames, e) (rw e at (frame-NextStays calls p o))
  ]

  lazy_filter-Stays :
      (ictx : InputCtx) (inf : Option Picture) (o : OutputCtx)
      → Stays o (lazy_filter c a ictx inf o).1
  unfolding lazy_filter
  lazy_filter-Stays ictx inf o = ground arith

-- process_out leaves the muxer and the flags of the output alone, however it ends.
pub process_out-Stays :
    (c : Call) (a : OutAnswers) (ictx : InputCtx) (inf : Option Picture) (o : OutputCtx)
    → Stays o (process_out c a ictx inf o).1
unfolding process_out through_filter bypass
process_out-Stays c a ictx inf o =
    let o1 = (lazy_filter c a ictx inf o).1 in
    let fed = filtergraph_write c.ops c.writer a.encodes a.feed ictx c.kind inf o1 in
    ground (
      arith,
      lazy_filter-Stays c a ictx inf o,
      encode_next-Stays c a a.encodes 0 (frame_of inf) o1,
      filtergraph_write-Stays c.ops c.writer a.encodes a.feed ictx c.kind inf o1,
      frames-Stays c a (is_given inf) fed.calls a.reads fed.octx,
    )
