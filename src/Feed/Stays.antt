-- ===== src/Feed/Stays.antt =====
-- filtergraph_write leaves the muxer and the flags of an output alone.
use lpms.Common.{ℕ, suc, refl, arith, Option, none, some, List, [], ◌∷◌, pos, ◌==ℤ◌, if◌then◌else◌}
use lpms.Ret.{Ret, done, Code}
use lpms.Media.{Rational, MediaType, video, Frame, TimeOps, blank_frame}
use lpms.Codec.{InputCtx}
use lpms.Filter.{FilterCtx, filtergraph_read}
use lpms.Mux.{Writer}
use lpms.Output.{set_gop}
use lpms.Outlet.{OutputCtx, Encoder, nth_stream, streams_of}
use lpms.Encode.{EncodeAnswers, encode}
use lpms.Encode.Stays.{Stays, Stays-refl, Stays-trans, encode-Stays}
use lpms.Feed.{
  Picture, FeedAnswers, Encodes, set_filter, encode_drained, drain_graph, set_up_again, reset_graph,
  check_frame, put_frame, feed_end, feed_frame, filtergraph_write,
}

pub set_filter-Stays : (t : MediaType) (f : FilterCtx) (o : OutputCtx) → Stays o (set_filter t f o)
set_filter-Stays t f o = ground arith

module _ (ops : TimeOps) (writer : Writer) where
  encode_drained-Stays :
      (a : EncodeAnswers) (tb : Rational) (frame : Frame) (e : Option Encoder) (o : OutputCtx)
      → Stays o (encode_drained ops writer a tb frame e o).1
  unfolding encode_drained
  encode_drained-Stays a tb frame none o = Stays-refl o
  encode_drained-Stays a tb frame (some enc) o =
      let (f1, s) = set_gop video frame o.out in
      let o1 : OutputCtx = record o { out = s } in
      let ost = nth_stream (streams_of o.oc) o.vi in
      let same = ops.cmp_q tb enc.time_base ==ℤ pos 0 in
      let f2 = if same then f1 else record f1 { pts = ops.rescale_q f1.pts tb enc.time_base } in
      Stays-trans o o1 (encode ops writer a ost (some f2) enc o1).1
        (record { oc = refl; has_pb = refl; hw_type = refl; initialized = refl; dv = refl })
        (encode-Stays ops writer ost a (some f2) enc o1)

  drain_graph-Stays :
      (encodes : Encodes) (tb : Rational) (end : Code) (ret : Ret) (frames : List Frame) (calls : ℕ)
      (o : OutputCtx)
      → Stays o (drain_graph ops writer encodes tb end ret frames calls o).octx
  unfolding drain_graph
  drain_graph-Stays encodes tb end ret [] calls o =
      ground (arith, encode_drained-Stays (encodes calls) tb blank_frame o.vc o)
  drain_graph-Stays encodes tb end ret (frame ∷ frames) calls o =
      let (read, vf) = filtergraph_read done frame o.vf in
      let o1 : OutputCtx = record o { vf = vf } in
      let (ret', o2) = encode_drained ops writer (encodes calls) tb frame o.vc o1 in
      ground (
        arith,
        encode_drained-Stays (encodes calls) tb frame o.vc o1,
        drain_graph-Stays encodes tb end ret' frames (suc calls) o2,
      )

  check_frame-Stays :
      (encodes : Encodes) (a : FeedAnswers) (ictx : InputCtx) (t : MediaType) (p : Picture)
      (o : OutputCtx)
      → Stays o (check_frame ops writer encodes a ictx t p o).octx
  unfolding check_frame reset_graph set_up_again
  check_frame-Stays encodes a ictx t p o =
      ground (arith, drain_graph-Stays encodes a.sink_tb a.drain_end a.close_ret a.drained 0 o)

  pub filtergraph_write-Stays :
      (encodes : Encodes) (a : FeedAnswers) (ictx : InputCtx) (t : MediaType) (inf : Option Picture)
      (o : OutputCtx)
      → Stays o (filtergraph_write ops writer encodes a ictx t inf o).octx
  unfolding filtergraph_write feed_end feed_frame put_frame
  filtergraph_write-Stays encodes a ictx t none o = ground arith
  filtergraph_write-Stays encodes a ictx t (some p) o =
      ground (arith, check_frame-Stays encodes a ictx t p o)
