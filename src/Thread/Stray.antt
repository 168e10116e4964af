-- ===== src/Thread/Stray.antt =====
-- An input at which the loop of `transcode` runs past its end.
use lpms.Common.{ℕ, suc, negsuc, none, ◌≡◌, refl, arith, true, false, List, [], ◌∷◌}
use lpms.Ret.{is_eof}
use lpms.Media.{TimeOps, blank_frame}
use lpms.Codec.{InputCtx}
use lpms.Decoder.{Turn}
use lpms.Outlet.{OutputCtx}
use lpms.Outlet.Open.{OpenAnswers}
use lpms.Queue.{FifoApi}
use lpms.Segment.{opened, crashes, Fetched, fetch, from_decoder}
use lpms.Segment.Stray.{process_in-ends}
use lpms.Thread.Loop.{
  World, RoundAnswers, Running, open_next, open_all, all_open, view, after_fetch, serve_index,
  serve_turn, open_or_serve, route_turn, loop_round,
}

-- No output is opened where all are open.
open_all-done :
    (ops : TimeOps) (answers : ℕ → OpenAnswers) (ictx : InputCtx) (t : Turn) (os : List OutputCtx)
    → all_open os ≡ true
    → let (result, set_outputs, os') = open_all ops answers ictx t os in
      (result ≡ opened) × (set_outputs ≡ false)
unfolding open_all open_next
open_all-done ops answers ictx t [] h = (refl, refl)
open_all-done ops answers ictx t (o ∷ os) h =
    ground (arith, h, open_all-done ops (λ i. answers (suc i)) ictx t os)

module _ (api : FifoApi) (w : World) (a : RoundAnswers) where
  -- The end of the file, with no stream.
  past_end :
      (f : Fetched api) (st : Running api)
      → is_eof f.turn.ret ≡ true
      → f.turn.stream_index ≡ negsuc 0
      → st.outputs_ready ≡ false
      → all_open st.outputs ≡ true
      → (route_turn api w a f st).0 ≡ crashes
  unfolding route_turn open_or_serve serve_turn serve_index
  past_end f st ends index ready all =
      let done = open_all-done w.ops a.opens st.ictx f.turn st.outputs all in
      ground (arith, ends, index, ready, done)

  -- Where the outputs are open from an earlier segment and the input, which has no decoder, ends
  -- before its first packet, the loop does not end: it uses the stream of index -1, which crashes.
  pub loop_round-past_end :
      (st : Running api)
      → st.outputs_ready ≡ false
      → st.hit_eof ≡ false
      → all_open st.outputs ≡ true
      → st.ictx.has_vc ≡ false
      → st.ictx.has_ac ≡ false
      → st.ictx.blocked_pkt ≡ none
      → is_eof (w.lib.read st.ictx.calls).0 ≡ true
      → (loop_round api w a st).0 ≡ crashes
  unfolding loop_round fetch from_decoder
  loop_round-past_end st ready eof all no_vc no_ac unblocked ends =
      let f = fetch api w.lib w.ops (view api st) in
      let (at_end, index) =
        process_in-ends w.lib w.ops st.ictx blank_frame (negsuc 0) no_vc no_ac unblocked ends in
      past_end f (after_fetch api f st) ground (arith, ready, eof, at_end) ground
        (arith, ready, eof, index) ready all
