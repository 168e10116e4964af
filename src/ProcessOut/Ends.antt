-- ===== src/ProcessOut/Ends.antt =====
-- How process_out ends.
use lpms.Common.{ℕ, ◌≡◌, ◌⊎◌, refl, arith, Bool, true, Option, none, List, [], ◌∷◌, inl, inr}
use lpms.Ret.{done, failed}
use lpms.Media.{Frame}
use lpms.Codec.{InputCtx}
use lpms.Output.{Verdict, pass, skip, runaway, stage}
use lpms.Outlet.{OutputCtx}
use lpms.Encode.Always.{encode-Fails}
use lpms.Feed.{Picture, Encodes, filter_of, set_filter, filtergraph_write}
use lpms.Filter.{filtergraph_read}
use lpms.ProcessOut.{
  OutAnswers, Ended, returned, dangling, Call, encode_next, end_frames, Next, again, over,
  take_verdict, take_frame, take_frames, is_given, frame_of, lazy_filter, bypass, through_filter,
  process_out,
}

-- A result that is returned is negative.
abbrev pub EndsFailed : Ended → Type 0
EndsFailed (returned ret) = failed ret ≡ true
EndsFailed dangling = Unit {0}

abbrev NextFailed : Next → Type 0
NextFailed (again calls o) = Unit {0}
NextFailed (over ended o) = EndsFailed ended

pub Next-cases :
    (n : Next)
    → ((calls : ℕ) × (o : OutputCtx) × (n ≡ again calls o))
      ⊎ ((ended : Ended) × (o : OutputCtx) × (n ≡ over ended o))
Next-cases (again calls o) = inl (calls, o, refl)
Next-cases (over ended o) = inr (ended, o, refl)

module _ (c : Call) (a : OutAnswers) where
  encode_next-Fails :
      (encodes : Encodes) (calls : ℕ) (frame : Option Frame) (o : OutputCtx)
      → failed (encode_next c encodes calls frame o).0 ≡ true
  unfolding encode_next
  encode_next-Fails encodes calls frame o =
      encode-Fails c.ops c.writer (encodes calls) c.ost frame c.encoder o

  end_frames-EndsFailed :
      (has_inf : Bool) (calls : ℕ) (o : OutputCtx) → EndsFailed (end_frames c a has_inf calls o).0
  unfolding end_frames
  end_frames-EndsFailed has_inf calls o = ground (arith, encode_next-Fails a.encodes calls none o)

  verdict-NextFailed :
      (calls : ℕ) (pool : Option ℕ) (v : Verdict) (o : OutputCtx)
      → NextFailed (take_verdict c a calls pool v o)
  unfolding take_verdict
  verdict-NextFailed calls pool (pass frame) o = ground arith
  verdict-NextFailed calls pool skip o = tt
  verdict-NextFailed calls pool runaway o = ground arith

  frame-NextFailed :
      (calls : ℕ) (p : Picture) (o : OutputCtx) → NextFailed (take_frame c a calls p o)
  unfolding take_frame
  frame-NextFailed calls p o =
      let f = (filtergraph_read done p.frame (filter_of c.kind o)).1 in
      let o1 = set_filter c.kind f o in
      let (v, s) = stage c.ops c.setting c.kind p.frame o1.out in
      ground (arith, verdict-NextFailed calls p.pool v (record o1 { out = s }))

  -- The loop goes on with any state.
  frames-EndsFailed :
      (has_inf : Bool) (calls : ℕ) (ps : List Picture) (o : OutputCtx)
      → EndsFailed (take_frames c a has_inf calls ps o).0
  unfolding take_frames
  frames-EndsFailed has_inf calls [] o = end_frames-EndsFailed has_inf calls o
  frames-EndsFailed has_inf calls (p ∷ ps) o = elim (Next-cases (take_frame c a calls p o)) [
    | inl (calls', o', e) ↦ rw (take_frames, e) (frames-EndsFailed has_inf calls' ps o')
    | inr (ended, o', e) ↦ rw (take_frames, e) (rw e at (frame-NextFailed calls p o))
  ]

-- process_out never returns 0 or more: where it returns, it is with an error, or with EAGAIN or the
-- end of the stream.
pub process_out-EndsFailed :
    (c : Call) (a : OutAnswers) (ictx : InputCtx) (inf : Option Picture) (o : OutputCtx)
    → EndsFailed (process_out c a ictx inf o).0
unfolding process_out through_filter bypass
process_out-EndsFailed c a ictx inf o =
    let o' = (lazy_filter c a ictx inf o).1 in
    let fed = filtergraph_write c.ops c.writer a.encodes a.feed ictx c.kind inf o' in
    ground (
      arith,
      encode_next-Fails c a a.encodes 0 (frame_of inf) o',
      frames-EndsFailed c a (is_given inf) fed.calls a.reads fed.octx,
    )
