-- ===== src/ProcessOut/Hardware.antt =====
-- The end of the input on a hardware encoder.
use lpms.Common.{
  ℕ, ap, ◌≡◌, refl, ◌∙◌, arith, Bool, true, false, not, ◌&&◌, Option, none, some, List, [], ◌∷◌,
  inl, inr,
}
use lpms.Ret.{done, is_eagain}
use lpms.Media.{HwType, is_hw, is_mediacodec, is_video, Frame}
use lpms.Codec.{InputCtx}
use lpms.Filter.{filtergraph_read}
use lpms.Output.{Verdict, pass, skip, runaway, stage}
use lpms.Outlet.{OutputCtx}
use lpms.Encode.Stays.{encode-Stays}
use lpms.Feed.{Picture, Encodes, filter_of, set_filter, put_frame, feed_end, filtergraph_write}
use lpms.ProcessOut.{
  SignAnswers, OutAnswers, Ended, returned, dangling, calc_signature, sign, Call, encode_next,
  end_frames, Next, again, over, take_verdict, take_frame, take_frames, lazy_filter, bypass,
  through_filter, process_out,
}
use lpms.ProcessOut.Ends.{Next-cases}

-- A hardware encoder that is kept open for the next segment.
abbrev pub stays_open : HwType → Bool
stays_open hw = is_hw hw && not (is_mediacodec hw)

abbrev pub EndsFlush : Ended → Type 0
EndsFlush (returned ret) = is_eagain ret ≡ false
EndsFlush dangling = Unit {0}

abbrev NextFlush : OutputCtx → Next → Type 0
NextFlush o (again calls o') = o'.hw_type ≡ o.hw_type
NextFlush o (over ended o') = EndsFlush ended

module _ (c : Call) (a : OutAnswers) where
  encode_next-hw_type :
      (encodes : Encodes) (calls : ℕ) (frame : Option Frame) (o : OutputCtx)
      → (encode_next c encodes calls frame o).1.hw_type ≡ o.hw_type
  unfolding encode_next
  encode_next-hw_type encodes calls frame o =
      (encode-Stays c.ops c.writer c.ost (encodes calls) frame c.encoder o).hw_type

  sign-hw_type :
      (s : SignAnswers) (pool : Option ℕ) (o : OutputCtx)
      → (sign s c.kind pool o).hw_type ≡ o.hw_type
  unfolding sign calc_signature
  sign-hw_type s pool o = ground arith

  end_frames-EndsFlush :
      (calls : ℕ) (o : OutputCtx)
      → stays_open o.hw_type ≡ true
      → EndsFlush (end_frames c a false calls o).0
  unfolding end_frames
  end_frames-EndsFlush calls o h = ground (arith, h)

  verdict-NextFlush :
      (calls : ℕ) (pool : Option ℕ) (v : Verdict) (o : OutputCtx)
      → NextFlush o (take_verdict c a calls pool v o)
  unfolding take_verdict
  verdict-NextFlush calls pool (pass frame) o =
      let o' = sign (a.signs calls) c.kind pool o in
      ground (
        arith,
        sign-hw_type (a.signs calls) pool o,
        encode_next-hw_type a.encodes calls (some frame) o',
      )
  verdict-NextFlush calls pool skip o = refl
  verdict-NextFlush calls pool runaway o = ground arith

  frame-NextFlush :
      (calls : ℕ) (p : Picture) (o : OutputCtx) → NextFlush o (take_frame c a calls p o)
  unfolding take_frame
  frame-NextFlush calls p o =
      let f = (filtergraph_read done p.frame (filter_of c.kind o)).1 in
      let o1 = set_filter c.kind f o in
      let (v, s) = stage c.ops c.setting c.kind p.frame o1.out in
      ground (arith, verdict-NextFlush calls p.pool v (record o1 { out = s }))

  frames-EndsFlush :
      (calls : ℕ) (ps : List Picture) (o : OutputCtx)
      → stays_open o.hw_type ≡ true
      → EndsFlush (take_frames c a false calls ps o).0
  unfolding take_frames
  frames-EndsFlush calls [] o h = end_frames-EndsFlush calls o h
  frames-EndsFlush calls (p ∷ ps) o h = elim (Next-cases (take_frame c a calls p o)) [
    | inl (calls', o', e) ↦
        let same = rw e at (frame-NextFlush calls p o) in
        rw (take_frames, e)
          (frames-EndsFlush calls' ps o' (ap (λ (t : HwType). stays_open t) same ∙ h))
    | inr (ended, o', e) ↦ rw (take_frames, e) (rw e at (frame-NextFlush calls p o))
  ]

feed_end-hw_type :
    (c : Call) (a : OutAnswers) (ictx : InputCtx) (o : OutputCtx)
    → is_eagain a.feed.write_ret ≡ false
    → let fed = filtergraph_write c.ops c.writer a.encodes a.feed ictx c.kind none o in
      (fed.octx.hw_type ≡ o.hw_type) × (is_eagain fed.ret ≡ false)
unfolding filtergraph_write feed_end put_frame
feed_end-hw_type c a ictx o h = ground (arith, h)

lazy_filter-none :
    (c : Call) (a : OutAnswers) (ictx : InputCtx) (o : OutputCtx)
    → lazy_filter c a ictx none o ≡ (done, o)
unfolding lazy_filter
lazy_filter-none c a ictx o = ground arith

-- At the end of the input, process_out does not ask to be called again for the video of a hardware
-- encoder that stays open, unless the source of the graph does: it never returns EAGAIN.
pub process_out-EndsFlush :
    (c : Call) (a : OutAnswers) (ictx : InputCtx) (o : OutputCtx)
    → is_video c.kind ≡ true
    → stays_open o.hw_type ≡ true
    → is_eagain a.feed.write_ret ≡ false
    → EndsFlush (process_out c a ictx none o).0
unfolding process_out through_filter bypass
process_out-EndsFlush c a ictx o v h plain =
    let fed = filtergraph_write c.ops c.writer a.encodes a.feed ictx c.kind none o in
    let (same, ends) = feed_end-hw_type c a ictx o plain in
    ground (
      arith,
      v,
      h,
      lazy_filter-none c a ictx o,
      ends,
      frames-EndsFlush c a fed.calls a.reads fed.octx (ap (λ (t : HwType). stays_open t) same ∙ h),
    )
