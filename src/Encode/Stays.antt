-- ===== src/Encode/Stays.antt =====
-- What `encode` leaves alone of an output.
use lpms.Common.{◌≡◌, refl, ◌∙◌, arith, Option, none, some, List, [], ◌∷◌}
use lpms.Ret.{Code}
use lpms.Media.{Frame, Stream, TimeOps}
use lpms.Mux.{Writer}
use lpms.Outlet.{OutputCtx, Encoder}
use lpms.Encode.{
  Encoded, ReinitAnswers, EncodeAnswers, mux_encoded, drain, flush_old, Chosen, goes_on, leaves,
  replace, reinit, choose, send, send_chosen, count_frame, encode,
}

-- The muxer, the file, the flags and the hardware of the output are the same.
pub record Stays (o o' : OutputCtx) : Type 0 where
  pub oc : o'.oc ≡ o.oc
  pub has_pb : o'.has_pb ≡ o.has_pb
  pub hw_type : o'.hw_type ≡ o.hw_type
  pub initialized : o'.initialized ≡ o.initialized
  pub dv : o'.dv ≡ o.dv

pub Stays-refl : (o : OutputCtx) → Stays o o
Stays-refl o = record { oc = refl; has_pb = refl; hw_type = refl; initialized = refl; dv = refl }

pub Stays-trans : (a b c : OutputCtx) → Stays a b → Stays b c → Stays a c
Stays-trans a b c h k = record {
  oc = k.oc ∙ h.oc;
  has_pb = k.has_pb ∙ h.has_pb;
  hw_type = k.hw_type ∙ h.hw_type;
  initialized = k.initialized ∙ h.initialized;
  dv = k.dv ∙ h.dv;
}

module _ (ops : TimeOps) (writer : Writer) (ost : Stream) where
  mux_encoded-Stays :
      (enc : Encoder) (o : OutputCtx) (e : Encoded) → Stays o (mux_encoded ops writer ost enc o e).1
  unfolding mux_encoded
  mux_encoded-Stays enc o e = record {
    oc = refl;
    has_pb = refl;
    hw_type = refl;
    initialized = refl;
    dv = refl;
  }

  drain-Stays :
      (enc : Encoder) (end : Code) (es : List Encoded) (o : OutputCtx)
      → Stays o (drain ops writer ost enc end es o).1
  unfolding drain
  drain-Stays enc end [] o = Stays-refl o
  drain-Stays enc end (e ∷ es) o =
      let o' = (mux_encoded ops writer ost enc o e).1 in
      ground (arith, drain-Stays enc end es o', mux_encoded-Stays enc o e)

  flush_old-Stays :
      (enc : Encoder) (es : List Encoded) (o : OutputCtx)
      → Stays o (flush_old ops writer ost enc es o)
  unfolding flush_old
  flush_old-Stays enc [] o = Stays-refl o
  flush_old-Stays enc (e ∷ es) o =
      let o' = (mux_encoded ops writer ost enc o e).1 in
      Stays-trans o o' (flush_old ops writer ost enc es o') (mux_encoded-Stays enc o e)
        (flush_old-Stays enc es o')

  choose-Stays :
      (r : ReinitAnswers) (frame : Frame) (enc : Encoder) (o : OutputCtx)
      → Stays o (choose ops writer r ost frame enc o).1
  unfolding choose reinit replace
  choose-Stays r frame enc o = ground (arith, flush_old-Stays enc r.flushed o)

  send-Stays :
      (a : EncodeAnswers) (frame : Option Frame) (enc : Encoder) (o : OutputCtx)
      → Stays o (send ops writer a ost frame enc o).1
  unfolding send
  send-Stays a frame enc o = ground (arith, drain-Stays enc a.end a.packets o)

  send_chosen-Stays :
      (a : EncodeAnswers) (frame : Frame) (c : Chosen) (o : OutputCtx)
      → Stays o (send_chosen ops writer a ost frame c o).1
  unfolding send_chosen
  send_chosen-Stays a frame (leaves ret) o = Stays-refl o
  send_chosen-Stays a frame (goes_on enc) o =
      let s = send-Stays a (some frame) enc (count_frame enc o) in
      record {
        oc = s.oc;
        has_pb = s.has_pb;
        hw_type = s.hw_type;
        initialized = s.initialized;
        dv = s.dv;
      }

  pub encode-Stays :
      (a : EncodeAnswers) (frame : Option Frame) (enc : Encoder) (o : OutputCtx)
      → Stays o (encode ops writer a ost frame enc o).1
  unfolding encode
  encode-Stays a none enc o = send-Stays a none enc o
  encode-Stays a (some frame) enc o =
      let (chosen, o1) = choose ops writer a.reinit ost frame enc o in
      ground (
        arith,
        choose-Stays a.reinit frame enc o,
        send-Stays a (some frame) enc o,
        send_chosen-Stays a frame chosen o1,
      )
