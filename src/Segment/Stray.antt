-- ===== src/Segment/Stray.antt =====
-- Inputs at which the loop goes astray.
use lpms.Common.{
  ℤ, pos, ltb_ℤ, ◌==ℤ◌, negsuc, none, ◌≡◌, refl, arith, Bool, true, false, List, [], ◌∷◌,
}
use lpms.Ret.{is_zero, is_eof}
use lpms.Media.{TimeOps, Frame, blank_frame}
use lpms.Queue.{FifoApi, CloneAnswers}
use lpms.Codec.{Libav, InputCtx, demux_in}
use lpms.Decoder.{process_in, decode_in, next_packet, flush_in, flush_audio}
use lpms.Segment.{
  OutputState, all_initialized, opened, open_outputs, wants_open, from_decoder, goes, crashes,
  LoopState, fetch, pass_on, open_or_pass, route, round,
}

pub process_in-ends :
    (lib : Libav) (ops : TimeOps) (c : InputCtx) (frame : Frame) (index : ℤ)
    → c.has_vc ≡ false
    → c.has_ac ≡ false
    → c.blocked_pkt ≡ none
    → is_eof (lib.read c.calls).0 ≡ true
    → let t = process_in lib ops c frame index in (is_eof t.ret ≡ true) × (t.stream_index ≡ index)
unfolding process_in next_packet demux_in flush_in flush_audio
process_in-ends lib ops c frame index no_vc no_ac unblocked ends = ground arith

-- No output is opened where all are open.
open_outputs-done :
    (transmuxing : Bool) (wants : OutputState → Bool) (os : List OutputState)
    → all_initialized os ≡ true
    → let (result, set_outputs, os') = open_outputs transmuxing wants os in
      (result ≡ opened) × (set_outputs ≡ false) × (all_initialized os' ≡ true)
unfolding open_outputs
open_outputs-done transmuxing wants [] h = (refl, refl, refl)
open_outputs-done transmuxing wants (o ∷ os) h =
    ground (arith, open_outputs-done transmuxing wants os)

-- Where the outputs are open from an earlier segment and the input, which has no decoder, ends
-- before its first packet, the loop does not end: it goes on with the stream index -1.
pub round-goes_past_end :
    (api : FifoApi) (lib : Libav) (ops : TimeOps) (a : CloneAnswers) (st : LoopState api)
    → st.outputs_ready ≡ false
    → st.hit_eof ≡ false
    → all_initialized st.outputs ≡ true
    → st.ictx.has_vc ≡ false
    → st.ictx.has_ac ≡ false
    → st.ictx.blocked_pkt ≡ none
    → is_eof (lib.read st.ictx.calls).0 ≡ true
    → ((round api lib ops a st).fate ≡ goes) × ((fetch api lib ops st).turn.stream_index ≡ negsuc 0)
unfolding round fetch from_decoder route open_or_pass pass_on
round-goes_past_end api lib ops a st ready eof all no_vc no_ac unblocked ends =
    let t = process_in lib ops st.ictx blank_frame (negsuc 0) in
    let (at_end, index) =
      process_in-ends lib ops st.ictx blank_frame (negsuc 0) no_vc no_ac unblocked ends in
    let none_opened = open_outputs-done t.ctx.transmuxing (wants_open t.ctx t) st.outputs all in
    ground (arith, at_end, index, none_opened)

process_in-copies :
    (lib : Libav) (ops : TimeOps) (c : InputCtx) (frame : Frame) (index : ℤ)
    → c.has_vc ≡ false
    → c.has_ac ≡ false
    → c.transmuxing ≡ true
    → c.blocked_pkt ≡ none
    → is_zero (lib.read c.calls).0 ≡ true
    → let t = process_in lib ops c frame index in
      (is_zero t.ret ≡ true)
      × (t.stream_index ≡ pos (lib.read c.calls).1.stream_index)
      × (t.ctx.vi ≡ c.vi)
      × (t.ctx.transmuxing ≡ true)
unfolding process_in next_packet demux_in decode_in
process_in-copies lib ops c frame index no_vc no_ac copy unblocked ends = ground arith

-- A copy that starts with a packet of another stream than the one that counts as the video crashes:
-- the first output is not opened for it, and is used all the same.
pub round-derefs_null :
    (api : FifoApi) (lib : Libav) (ops : TimeOps) (a : CloneAnswers) (st : LoopState api)
    (o : OutputState) (os : List OutputState)
    → st.outputs_ready ≡ false
    → st.hit_eof ≡ false
    → st.outputs ≡ o ∷ os
    → o.initialized ≡ false
    → o.dv ≡ false
    → st.ictx.has_vc ≡ false
    → st.ictx.has_ac ≡ false
    → st.ictx.transmuxing ≡ true
    → st.ictx.blocked_pkt ≡ none
    → is_zero (lib.read st.ictx.calls).0 ≡ true
    → ltb_ℤ st.ictx.vi (pos 0) ≡ false
    → (pos (lib.read st.ictx.calls).1.stream_index ==ℤ st.ictx.vi) ≡ false
    → (round api lib ops a st).fate ≡ crashes
unfolding round fetch from_decoder route open_or_pass pass_on open_outputs wants_open
round-derefs_null api lib ops a st o os ready eof outs closed kept no_vc no_ac copy unblocked reads
      video other =
    let copies =
      process_in-copies lib ops st.ictx blank_frame (negsuc 0) no_vc no_ac copy unblocked reads in
    ground (arith, copies)
