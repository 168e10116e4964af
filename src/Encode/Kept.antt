-- ===== src/Encode/Kept.antt =====
-- `encode` keeps the encoder where the frame has its size.
use lpms.Common.{◌≡◌, refl, arith, Option, some, List, [], ◌∷◌}
use lpms.Ret.{Code}
use lpms.Media.{Frame, Stream, TimeOps}
use lpms.Mux.{Writer}
use lpms.Outlet.{OutputCtx, Encoder}
use lpms.Encode.{
  Encoded, EncodeAnswers, mux_encoded, drain, goes_on, choose, send, send_chosen, count_frame,
  encode,
}

-- The encoders of the output are the same.
pub record KeepsEncoders (o o' : OutputCtx) : Type 0 where
  pub vc : o'.vc ≡ o.vc
  pub ac : o'.ac ≡ o.ac

module _ (ops : TimeOps) (writer : Writer) (ost : Stream) where
  mux_encoded-KeepsEncoders :
      (enc : Encoder) (o : OutputCtx) (e : Encoded)
      → KeepsEncoders o (mux_encoded ops writer ost enc o e).1
  unfolding mux_encoded
  mux_encoded-KeepsEncoders enc o e = record { vc = refl; ac = refl }

  drain-KeepsEncoders :
      (enc : Encoder) (end : Code) (es : List Encoded) (o : OutputCtx)
      → KeepsEncoders o (drain ops writer ost enc end es o).1
  unfolding drain
  drain-KeepsEncoders enc end [] o = record { vc = refl; ac = refl }
  drain-KeepsEncoders enc end (e ∷ es) o =
      let o' = (mux_encoded ops writer ost enc o e).1 in
      ground (arith, drain-KeepsEncoders enc end es o', mux_encoded-KeepsEncoders enc o e)

  send-KeepsEncoders :
      (a : EncodeAnswers) (frame : Option Frame) (enc : Encoder) (o : OutputCtx)
      → KeepsEncoders o (send ops writer a ost frame enc o).1
  unfolding send
  send-KeepsEncoders a frame enc o = ground (arith, drain-KeepsEncoders enc a.end a.packets o)

  same_size :
      (a : EncodeAnswers) (frame : Frame) (enc : Encoder) (o : OutputCtx)
      → frame.width ≡ enc.width
      → frame.height ≡ enc.height
      → choose ops writer a.reinit ost frame enc o ≡ (goes_on enc, o)
  unfolding choose
  same_size a frame enc o w h = ground (arith, w, h)

  pub encode-KeepsEncoders :
      (a : EncodeAnswers) (frame : Frame) (enc : Encoder) (o : OutputCtx)
      → frame.width ≡ enc.width
      → frame.height ≡ enc.height
      → KeepsEncoders o (encode ops writer a ost (some frame) enc o).1
  unfolding encode send_chosen
  encode-KeepsEncoders a frame enc o w h = ground (
    arith,
    same_size a frame enc o w h,
    send-KeepsEncoders a (some frame) enc o,
    send-KeepsEncoders a (some frame) enc (count_frame enc o),
  )
