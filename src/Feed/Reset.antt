-- ===== src/Feed/Reset.antt =====
-- What a new set-up of the filter graph loses.
use lpms.Common.{
  ℕ, suc, ◌≤◌, ◌≡◌, refl, ap, arith, true, ◌&&◌, if◌then◌else◌, Option, none, some, List, [], ◌∷◌,
}
use lpms.Ret.{Ret, Code, done, failed}
use lpms.Media.{Rational, TimeOps, MediaType, Frame, is_video}
use lpms.Codec.{InputCtx}
use lpms.Filter.{GraphAnswers, filtergraph_read}
use lpms.Mux.{Writer}
use lpms.Outlet.{OutputCtx, Encoder}
use lpms.Encode.{EncodeAnswers}
use lpms.Encode.Always.{encode-Fails}
use lpms.Feed.{
  Picture, FeedAnswers, Encodes, Step, encode_drained, drain_graph, needs_reset, filter_of,
  set_up_again, reset_graph, check_frame, put_frame, feed_end, feed_frame, filtergraph_write,
}

set_up_again_calls :
    (vc_pool : Option ℕ) (graph : GraphAnswers) (ictx : InputCtx) (p : Picture) (s : Step)
    → (set_up_again vc_pool graph ictx p s).calls ≡ s.calls
unfolding set_up_again
set_up_again_calls vc_pool graph ictx p s = ground arith

module _ (ops : TimeOps) (writer : Writer) where
  encode_drained-Fails :
      (a : EncodeAnswers) (tb : Rational) (frame : Frame) (vc : Option Encoder) (o : OutputCtx)
      → failed (encode_drained ops writer a tb frame vc o).0 ≡ true
  unfolding encode_drained
  encode_drained-Fails a tb frame none o = refl
  encode_drained-Fails a tb frame (some enc) o = encode-Fails ops writer a _ (some _) enc _

  stops :
      (encodes : Encodes) (tb : Rational) (end : Code) (ret : Ret) (frames : List Frame) (calls : ℕ)
      (o : OutputCtx)
      → failed ret ≡ true
      → drain_graph ops writer encodes tb end ret frames calls o
        ≡ record { left = none; octx = o; calls = calls }
  unfolding drain_graph
  stops encodes tb end ret [] calls o h = ground (arith, h)
  stops encodes tb end ret (f ∷ fs) calls o h = ground (arith, h)

  -- The first frame alone is looked at.
  drain_graph_first :
      (encodes : Encodes) (tb : Rational) (end : Code) (ret : Ret) (frame : Frame)
      (frames : List Frame) (calls : ℕ) (o : OutputCtx)
      → drain_graph ops writer encodes tb end ret (frame ∷ frames) calls o
        ≡ drain_graph ops writer encodes tb end ret (frame ∷ []) calls o
  unfolding drain_graph
  drain_graph_first encodes tb end ret frame frames calls o =
      let vf = (filtergraph_read done frame o.vf).1 in
      let (ret', o') =
        encode_drained ops writer (encodes calls) tb frame o.vc (record o { vf = vf }) in
      let fails = encode_drained-Fails (encodes calls) tb frame o.vc (record o { vf = vf }) in
      let last : drain_graph ops writer encodes tb end ret' [] (suc calls) o'
          ≡ record { left = none; octx = o'; calls = suc calls } =
        stops encodes tb end ret' [] (suc calls) o' fails in
      let more = stops encodes tb end ret' frames (suc calls) o' fails in
      rw (drain_graph, more, last) refl

  drain_graph_calls :
      (encodes : Encodes) (tb : Rational) (end : Code) (ret : Ret) (frames : List Frame) (calls : ℕ)
      (o : OutputCtx)
      → (drain_graph ops writer encodes tb end ret frames calls o).calls ≤ suc calls
  unfolding drain_graph
  drain_graph_calls encodes tb end ret [] calls o = ground arith
  drain_graph_calls encodes tb end ret (frame ∷ frames) calls o =
      let vf = (filtergraph_read done frame o.vf).1 in
      let (ret', o') =
        encode_drained ops writer (encodes calls) tb frame o.vc (record o { vf = vf }) in
      let fails = encode_drained-Fails (encodes calls) tb frame o.vc (record o { vf = vf }) in
      ground (arith, stops encodes tb end ret' frames (suc calls) o' fails)

  reset_graph_first :
      (encodes : Encodes) (a : FeedAnswers) (frame : Frame) (frames : List Frame) (ictx : InputCtx)
      (p : Picture) (o : OutputCtx)
      → (reset_graph ops writer encodes (record a { drained = frame ∷ frames }) ictx p o
          ≡ reset_graph ops writer encodes (record a { drained = frame ∷ [] }) ictx p o)
        × ((reset_graph ops writer encodes (record a { drained = frame ∷ frames }) ictx p o).calls
            ≤ 1)
  unfolding reset_graph
  reset_graph_first encodes a frame frames ictx p o = (
    ap
        (λ (s : Step).
          if failed a.close_ret
          then record { left = some a.close_ret; octx = o; calls = 0 }
          else set_up_again a.vc_pool a.graph ictx p s)
        (drain_graph_first encodes a.sink_tb a.drain_end a.close_ret frame frames 0 o),
    ground (
      arith,
      drain_graph_calls encodes a.sink_tb a.drain_end a.close_ret (frame ∷ frames) 0 o,
      set_up_again_calls a.vc_pool a.graph ictx p
          (drain_graph ops writer encodes a.sink_tb a.drain_end a.close_ret (frame ∷ frames) 0 o),
    ),
  )

  check_frame_first :
      (encodes : Encodes) (a : FeedAnswers) (frame : Frame) (frames : List Frame) (ictx : InputCtx)
      (t : MediaType) (p : Picture) (o : OutputCtx)
      → (check_frame ops writer encodes (record a { drained = frame ∷ frames }) ictx t p o
          ≡ check_frame ops writer encodes (record a { drained = frame ∷ [] }) ictx t p o)
        × ((check_frame ops writer encodes (record a { drained = frame ∷ frames }) ictx t p o).calls
            ≤ 1)
  unfolding check_frame
  check_frame_first encodes a frame frames ictx t p o =
      let (same, few) = reset_graph_first encodes a frame frames ictx p o in
      (
        ap
            (λ (s : Step).
              if is_video t && needs_reset a.source_size p (filter_of t o)
              then s
              else record { left = none; octx = o; calls = 0 })
            same,
        ground (arith, few),
      )

feed_frame_calls :
    (write_ret : Ret) (t : MediaType) (frame : Frame) (s : Step)
    → (feed_frame write_ret t frame s).calls ≡ s.calls
unfolding feed_frame put_frame
feed_frame_calls write_ret t frame s = ground arith

feed_end_calls :
    (ops : TimeOps) (write_ret : Ret) (ictx : InputCtx) (t : MediaType) (o : OutputCtx)
    → (feed_end ops write_ret ictx t o).calls ≡ 0
unfolding feed_end put_frame
feed_end_calls ops write_ret ictx t o = ground arith

-- Where the frames of the input change and the graph is set up again, all frames that are still in it
-- but the first are lost: one is encoded at most, and nothing depends on the others.
pub filtergraph_write_loses :
    (ops : TimeOps) (writer : Writer) (encodes : Encodes) (a : FeedAnswers) (frame : Frame)
    (frames : List Frame) (ictx : InputCtx) (t : MediaType) (p : Picture) (o : OutputCtx)
    → let fed =
        filtergraph_write ops writer encodes
          (record a { drained = frame ∷ frames })
          ictx
          t
          (some p)
          o in
      (fed
        ≡ filtergraph_write ops writer encodes
            (record a { drained = frame ∷ [] })
            ictx
            t
            (some p)
            o)
      × (fed.calls ≤ 1)
unfolding filtergraph_write
filtergraph_write_loses ops writer encodes a frame frames ictx t p o =
    let (same, few) = check_frame_first ops writer encodes a frame frames ictx t p o in
    let checked =
      check_frame ops writer encodes (record a { drained = frame ∷ frames }) ictx t p o in
    (
      ap
          (λ (s : Step).
            if (filter_of t o).closed
            then record { ret = done; octx = o; into = none; calls = 0 }
            else feed_frame a.write_ret t p.frame s)
          same,
      ground (arith, few, feed_frame_calls a.write_ret t p.frame checked),
    )
