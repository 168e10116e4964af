-- ===== src/Thread/Flushed.antt =====
-- What flushing the outputs leaves alone, and when it ends.
use lpms.Common.{
  ℕ, zero, suc, ◌≡◌, refl, ap, arith, Option, none, some, List, [], ◌∷◌, map, if◌then◌else◌,
  Bool-cases, Option-cases, inl, inr,
}
use lpms.Ret.{Ret}
use lpms.Media.{Stream, TimeOps}
use lpms.Codec.{InputCtx}
use lpms.Output.{Setting}
use lpms.Mux.{Writer}
use lpms.Outlet.{OutputCtx, Encoder, nth_stream}
use lpms.Encode.Stays.{Stays, Stays-refl, Stays-trans}
use lpms.ProcessOut.{OutAnswers, Ended, returned, dangling, Call, process_out}
use lpms.ProcessOut.Stays.{process_out-Stays}
use lpms.Dispatch.{goes_on, flush_loop}
use lpms.Dispatch.Stays.{outline, outline-eq}
use lpms.Thread.Flush.{
  FlushAnswers, Flushing, flush_stream, end_output, then_flush, flush_outputs, is_over, ret_of,
  put_first, flush_each,
}

abbrev FlushStays : OutputCtx → Flushing → Type 0
FlushStays o none = Unit
FlushStays o (some (ended, o')) = Stays o o'

FlushStays-trans : (a b : OutputCtx) (r : Flushing) → Stays a b → FlushStays b r → FlushStays a r
FlushStays-trans a b none h k = tt
FlushStays-trans a b (some (ended, o)) h k = Stays-trans a b o h k

flush_loop-Stays :
    (fuel : ℕ) (answers : ℕ → OutAnswers) (c : Call) (ictx : InputCtx) (o : OutputCtx)
    → FlushStays o (flush_loop fuel answers c ictx o)
unfolding flush_loop
flush_loop-Stays zero answers c ictx o = tt
flush_loop-Stays (suc fuel) answers c ictx o =
    let (ended, o') = process_out c (answers 0) ictx none o in
    let rest = flush_loop fuel (λ i. answers (suc i)) c ictx o' in
    let h = flush_loop-Stays fuel (λ i. answers (suc i)) c ictx o' in
    let first = process_out-Stays c (answers 0) ictx none o in
    elim (Bool-cases (goes_on ended)) [
      | inl e ↦ rw (flush_loop, e) (FlushStays-trans o o' rest first h)
      | inr e ↦ rw (flush_loop, e) first
    ]

then-Stays :
    (o : OutputCtx) (r : Flushing) (next : OutputCtx → Flushing)
    → FlushStays o r
    → ((o' : OutputCtx) → FlushStays o' (next o'))
    → FlushStays o (then_flush r next)
then-Stays o none next h k = tt
then-Stays o (some (dangling, o')) next h k = h
then-Stays o (some (returned ret, o')) next h k = FlushStays-trans o o' (next o') h (k o')

-- What is flushed has the outlines that it had.
abbrev pub SameOutlines : List OutputCtx → Option (Ended × List OutputCtx) → Type 0
SameOutlines os none = Unit
SameOutlines os (some (ended, os')) = map outline os' ≡ map outline os

module _ (fuel : ℕ) (ops : TimeOps) (writer : Writer) (ictx : InputCtx) where
  flush_stream-Stays :
      (answers : ℕ → OutAnswers) (s : Setting) (i : ℕ) (e : Option Encoder)
      (oc : Option (List Stream)) (o : OutputCtx)
      → FlushStays o (flush_stream fuel ops writer answers s ictx i e oc o)
  unfolding flush_stream
  flush_stream-Stays answers s i none oc o = Stays-refl o
  flush_stream-Stays answers s i (some enc) none o = Stays-refl o
  flush_stream-Stays answers s i (some enc) (some streams) o =
      let ost = nth_stream streams i in
      let c : Call = record {
        ops = ops;
        writer = writer;
        kind = ost.codec_type;
        ost = ost;
        encoder = enc;
        setting = s;
      } in
      flush_loop-Stays fuel answers c ictx o

  end_output-Stays : (ret : Ret) (o : OutputCtx) → Stays o (end_output ret o).1
  unfolding end_output
  end_output-Stays ret o = ground arith

  flush_outputs-Stays :
      (a : FlushAnswers) (o : OutputCtx) → FlushStays o (flush_outputs fuel ops writer a ictx o)
  unfolding flush_outputs
  flush_outputs-Stays a o =
      then-Stays o (flush_stream fuel ops writer a.video a.video_setting ictx 0 o.vc o.oc o) _
        (flush_stream-Stays a.video a.video_setting 0 o.vc o.oc o)
        λ o1.
          let i = if o1.dv then 0 else 1 in
          then-Stays o1 (flush_stream fuel ops writer a.audio a.audio_setting ictx i o1.ac o1.oc o1)
            _ (flush_stream-Stays a.audio a.audio_setting i o1.ac o1.oc o1)
            λ o2. end_output-Stays a.trailer_ret o2

  put_first-outline :
      (o o' : OutputCtx) (os : List OutputCtx) (r : Option (Ended × List OutputCtx))
      → outline o' ≡ outline o
      → SameOutlines os r
      → SameOutlines (o ∷ os) (put_first o' r)
  put_first-outline o o' os none h k = tt
  put_first-outline o o' os (some (ended, os')) h k = cc

  pub flush_each-outline :
      (answers : ℕ → FlushAnswers) (ret : Ret) (os : List OutputCtx)
      → SameOutlines os (flush_each fuel ops writer answers ictx ret os)
  unfolding flush_each
  flush_each-outline answers ret [] = refl
  flush_each-outline answers ret (o ∷ os) =
      elim (Option-cases (flush_outputs fuel ops writer (answers 0) ictx o)) [
        | inl e ↦ rw (flush_each, e) tt
        | inr ((ended, o'), e) ↦
            let same = outline-eq o o' (rw e at (flush_outputs-Stays (answers 0) o)) in
            let rest = flush_each fuel ops writer (λ i. answers (suc i)) ictx (ret_of ended) os in
            let k = flush_each-outline (λ i. answers (suc i)) (ret_of ended) os in
            elim (Bool-cases (is_over ended)) [
              | inl e' ↦ rw (flush_each, e, e') (ap (λ k. k ∷ map outline os) same)
              | inr e' ↦ rw (flush_each, e, e') (put_first-outline o o' os rest same k)
            ]
      ]
