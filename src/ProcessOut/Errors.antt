-- ===== src/ProcessOut/Errors.antt =====
-- Which errors come out of process_out.
use lpms.Common.{ℕ, ◌≡◌, ◌⊎◌, arith, true, false, Option, some, List, [], ◌∷◌, inl, inr}
use lpms.Ret.{err, done, failed, enc_runaway}
use lpms.Codec.{InputCtx}
use lpms.Filter.{filtergraph_read}
use lpms.Output.{Verdict, pass, skip, runaway, stage}
use lpms.Outlet.{OutputCtx}
use lpms.Feed.{Picture, filter_of, set_filter, filtergraph_write}
use lpms.ProcessOut.{
  OutAnswers, Ended, returned, dangling, Call, end_frames, Next, again, over, take_verdict,
  take_frame, take_frames, lazy_filter, through_filter, process_out,
}
use lpms.ProcessOut.Ends.{Next-cases}

-- The result is the graph's, or tells of a runaway.
abbrev pub IsFromGraph : OutAnswers → Ended → Type 0
IsFromGraph a (returned ret) = (ret ≡ err a.read_end) ⊎ (ret ≡ err enc_runaway)
IsFromGraph a dangling = Unit {0}

abbrev NextFromGraph : OutAnswers → Next → Type 0
NextFromGraph a (again calls o) = Unit {0}
NextFromGraph a (over ended o) = IsFromGraph a ended

module _ (c : Call) (a : OutAnswers) where
  verdict-NextFromGraph :
      (calls : ℕ) (pool : Option ℕ) (v : Verdict) (o : OutputCtx)
      → NextFromGraph a (take_verdict c a calls pool v o)
  unfolding take_verdict
  verdict-NextFromGraph calls pool (pass frame) o = ground arith
  verdict-NextFromGraph calls pool skip o = tt
  verdict-NextFromGraph calls pool runaway o = ground arith

  frame-NextFromGraph :
      (calls : ℕ) (p : Picture) (o : OutputCtx) → NextFromGraph a (take_frame c a calls p o)
  unfolding take_frame
  frame-NextFromGraph calls p o =
      let f = (filtergraph_read done p.frame (filter_of c.kind o)).1 in
      let o1 = set_filter c.kind f o in
      let (v, s) = stage c.ops c.setting c.kind p.frame o1.out in
      ground (arith, verdict-NextFromGraph calls p.pool v (record o1 { out = s }))

  frames-IsFromGraph :
      (calls : ℕ) (ps : List Picture) (o : OutputCtx)
      → IsFromGraph a (take_frames c a true calls ps o).0
  unfolding take_frames end_frames
  frames-IsFromGraph calls [] o = ground arith
  frames-IsFromGraph calls (p ∷ ps) o = elim (Next-cases (take_frame c a calls p o)) [
    | inl (calls', o', e) ↦ rw (take_frames, e) (frames-IsFromGraph calls' ps o')
    | inr (ended, o', e) ↦ rw (take_frames, e) (rw e at (frame-NextFromGraph calls p o))
  ]

-- An error of the encoder or of the muxer never comes out of process_out for a frame that went into
-- the filter graph: what the graph gave is the result, or that the encode ran away.
pub process_out-IsFromGraph :
    (c : Call) (a : OutAnswers) (ictx : InputCtx) (p : Picture) (o : OutputCtx)
    → (filter_of c.kind o).active ≡ true
    → failed (filtergraph_write c.ops c.writer a.encodes a.feed ictx c.kind (some p) o).ret ≡ false
    → IsFromGraph a (process_out c a ictx (some p) o).0
unfolding process_out through_filter lazy_filter
process_out-IsFromGraph c a ictx p o active good =
    let fed = filtergraph_write c.ops c.writer a.encodes a.feed ictx c.kind (some p) o in
    ground (arith, active, good, frames-IsFromGraph c a fed.calls a.reads fed.octx)
