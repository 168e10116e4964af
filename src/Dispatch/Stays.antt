-- ===== src/Dispatch/Stays.antt =====
-- What serving and flushing the outputs leaves alone.
use lpms.Common.{
  ℕ, suc, ◌≡◌, refl, ap, arith, Bool, Option, some, List, [], ◌∷◌, map, Bool-cases, Option-cases,
  inl, inr, All, All-map, All-unmap,
}
use lpms.Media.{HwType, Packet, Stream, TimeOps}
use lpms.Codec.{InputCtx}
use lpms.Mux.{Writer}
use lpms.Outlet.{OutputCtx}
use lpms.Encode.Stays.{Stays, Stays-refl}
use lpms.ProcessOut.{Call}
use lpms.ProcessOut.Stays.{process_out-Stays}
use lpms.Dispatch.{
  route_to, send_copy, copy_packet, ServeAnswers, Item, Route, serve_stream, serve, stops,
  serve_all,
}

-- The part of an output that only opening and closing it changes.
pub record Outline : Type 0 where
  pub oc : Option (List Stream)
  pub has_pb : Bool
  pub hw_type : HwType
  pub initialized : Bool
  pub dv : Bool

abbrev pub outline : OutputCtx → Outline
outline o = record {
  oc = o.oc;
  has_pb = o.has_pb;
  hw_type = o.hw_type;
  initialized = o.initialized;
  dv = o.dv;
}

pub outline-eq : (o o' : OutputCtx) → Stays o o' → outline o' ≡ outline o
outline-eq o o' h =
    let oc = h.oc in
    let pb = h.has_pb in let hw = h.hw_type in let i = h.initialized in let dv = h.dv in cc

-- A predicate on outlines holds of all outputs, whose outlines are the same, if of all before.
pub All-outline :
    (P : Outline → Type 0) (os os' : List OutputCtx)
    → map outline os' ≡ map outline os
    → All (λ o. P (outline o)) os
    → All (λ o. P (outline o)) os'
All-outline P os os' e all =
    let Q : OutputCtx → Type 0 = λ o. P (outline o) in
    All-unmap Q P outline os' (λ o p. p) (rw e (All-map Q P outline os (λ o p. p) all))

module _ (ops : TimeOps) (writer : Writer) (ictx : InputCtx) where
  copy_packet-Stays :
      (clones : Bool) (p : Packet) (ist ost : Stream) (o : OutputCtx)
      → Stays o (copy_packet ops writer clones ictx p ist ost o).1
  unfolding copy_packet send_copy
  copy_packet-Stays clones p ist ost o = ground arith

  serve_stream-Stays :
      (a : ServeAnswers) (x : Item) (r : Route) (o : OutputCtx)
      → Stays o (serve_stream ops writer a ictx x r o).1
  unfolding serve_stream
  serve_stream-Stays a x r o = elim (Option-cases r.encoder) [
    | inl e ↦ rw (serve_stream, e) (copy_packet-Stays a.clones x.packet x.ist r.ost o)
    | inr (enc, e) ↦
        let c : Call = record {
          ops = ops;
          writer = writer;
          kind = r.ost.codec_type;
          ost = r.ost;
          encoder = enc;
          setting = a.setting;
        } in
        rw (serve_stream, e) ground (arith, process_out-Stays c a.out ictx (some x.picture) o)
  ]

  serve-Stays :
      (a : ServeAnswers) (x : Item) (o : OutputCtx) → Stays o (serve ops writer a ictx x o).1
  unfolding serve
  serve-Stays a x o = elim (Option-cases (route_to ictx o x.stream_index x.ist)) [
    | inl e ↦ rw (serve, e) (Stays-refl o)
    | inr (r, e) ↦ rw (serve, e) ground (arith, serve_stream-Stays a x r o)
  ]

  pub serve_all-outline :
      (answers : ℕ → ServeAnswers) (x : Item) (os : List OutputCtx)
      → map outline (serve_all ops writer answers ictx x os).1 ≡ map outline os
  unfolding serve_all
  serve_all-outline answers x [] = refl
  serve_all-outline answers x (o ∷ os) =
      let (ended, o') = serve ops writer (answers 0) ictx x o in
      let e = outline-eq o o' (serve-Stays (answers 0) x o) in
      let rest = serve_all-outline (λ i. answers (suc i)) x os in
      elim (Bool-cases (stops ended)) [
        | inl stop ↦ rw (serve_all, stop) (ap (λ k. k ∷ map outline os) e)
        | inr go ↦ rw (serve_all, go) cc
      ]
