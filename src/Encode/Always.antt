-- ===== src/Encode/Always.antt =====
-- The result of `encode`.
use lpms.Common.{◌≡◌, refl, arith, true, Option, none, some, List, [], ◌∷◌}
use lpms.Ret.{failed, Code}
use lpms.Media.{Frame, Stream, TimeOps}
use lpms.Mux.{Writer}
use lpms.Outlet.{OutputCtx, Encoder}
use lpms.Encode.{
  Encoded, ReinitAnswers, EncodeAnswers, mux_encoded, drain, Chosen, goes_on, leaves, replace,
  reinit, choose, send, send_chosen, count_frame, encode,
}

-- The function leaves with an error only.
abbrev LeavesFailed : Chosen → Type 0
LeavesFailed (goes_on enc) = Unit {0}
LeavesFailed (leaves ret) = failed ret ≡ true

module _ (ops : TimeOps) (writer : Writer) (ost : Stream) where
  drain-Fails :
      (enc : Encoder) (end : Code) (es : List Encoded) (o : OutputCtx)
      → failed (drain ops writer ost enc end es o).0 ≡ true
  unfolding drain
  drain-Fails enc end [] o = refl
  drain-Fails enc end (e ∷ es) o =
      let o' = (mux_encoded ops writer ost enc o e).1 in ground (arith, drain-Fails enc end es o')

  send-Fails :
      (a : EncodeAnswers) (frame : Option Frame) (enc : Encoder) (o : OutputCtx)
      → failed (send ops writer a ost frame enc o).0 ≡ true
  unfolding send
  send-Fails a frame enc o = ground (arith, drain-Fails enc a.end a.packets o)

  choose-LeavesFailed :
      (r : ReinitAnswers) (frame : Frame) (enc : Encoder) (o : OutputCtx)
      → LeavesFailed (choose ops writer r ost frame enc o).0
  unfolding choose reinit replace
  choose-LeavesFailed r frame enc o = ground arith

  send_chosen-Fails :
      (a : EncodeAnswers) (frame : Frame) (c : Chosen) (o : OutputCtx)
      → LeavesFailed c
      → failed (send_chosen ops writer a ost frame c o).0 ≡ true
  unfolding send_chosen
  send_chosen-Fails a frame (leaves ret) o h = h
  send_chosen-Fails a frame (goes_on enc) o h = send-Fails a (some frame) enc (count_frame enc o)

-- encode never returns 0 or more: it ends with the result of the encoder that has nothing left to
-- give, EAGAIN or the end of the stream, or with an error.
pub encode-Fails :
    (ops : TimeOps) (writer : Writer) (a : EncodeAnswers) (ost : Stream) (frame : Option Frame)
    (enc : Encoder) (o : OutputCtx)
    → failed (encode ops writer a ost frame enc o).0 ≡ true
unfolding encode
encode-Fails ops writer a ost none enc o = send-Fails ops writer ost a none enc o
encode-Fails ops writer a ost (some frame) enc o =
    let (chosen, o1) = choose ops writer a.reinit ost frame enc o in
    let leaves_failed = choose-LeavesFailed ops writer ost a.reinit frame enc o in
    ground (
      arith,
      send-Fails ops writer ost a (some frame) enc o,
      send_chosen-Fails ops writer ost a frame chosen o1 leaves_failed,
    )
