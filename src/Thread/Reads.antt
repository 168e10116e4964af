-- ===== src/Thread/Reads.antt =====
-- What a round of the loop reads of an input without decoders.
use lpms.Common.{
  ℕ, suc, ◌≤◌, ◌≡◌, ◌⊎◌, arith, ℤ, negsuc, true, false, none, List, length, Bool-cases, inl, inr,
}
use lpms.Ret.{is_eof}
use lpms.Media.{TimeOps, Frame, blank_frame}
use lpms.Codec.{LibCall, Libav, InputCtx, demux_in}
use lpms.Decoder.{process_in, next_packet, decode_in, flush_in, flush_audio}
use lpms.Queue.{FifoApi, queue_read}
use lpms.Queue.Ownership.{HasMemory, contents}
use lpms.Queue.Refine.{IsCreated}
use lpms.Segment.{LoopState, Fetched, fetch, from_decoder, from_queue, or_frame, or_index}
use lpms.Segment.Fetch.{read_cases}

-- No stream is decoded, and no packet waits for a decoder.
pub record IsCopyOnly (c : InputCtx) : Type 0 where
  pub no_vc : c.has_vc ≡ false
  pub no_ac : c.has_ac ≡ false
  pub no_blocked : c.blocked_pkt ≡ none

-- The demuxer is at the end of the file after so many calls.
abbrev pub EndsAfter : Libav → ℕ → Type 0
EndsAfter lib n = (calls : List LibCall) → n ≤ length calls → is_eof (lib.read calls).0 ≡ true

process_in-reads :
    (lib : Libav) (ops : TimeOps) (n : ℕ) (c : InputCtx) (frame : Frame) (index : ℤ)
    → EndsAfter lib n
    → IsCopyOnly c
    → let t = process_in lib ops c frame index in
      IsCopyOnly t.ctx
      × (length t.ctx.calls ≡ suc (length c.calls))
      × (n ≤ length c.calls → is_eof t.ret ≡ true)
unfolding process_in next_packet demux_in decode_in flush_in flush_audio
process_in-reads lib ops n c frame index ends h = ground (arith, h, ends c.calls)

module _ (api : FifoApi) (room : HasMemory api) where
  -- The demuxer is read once, or the queue is.
  abbrev pub Reads : ℕ → LoopState api → Fetched api → Type 0
  Reads n st f =
      IsCopyOnly f.state.ictx
      × IsCreated api f.state.frame_queue
      × (((length f.state.ictx.calls ≡ suc (length st.ictx.calls))
            × (length (contents api f.state.frame_queue) ≡ length (contents api st.frame_queue))
            × (n ≤ length st.ictx.calls → is_eof f.turn.ret ≡ true))
          ⊎ ((st.outputs_ready ≡ true)
              × (length f.state.ictx.calls ≡ length st.ictx.calls)
              × (suc (length (contents api f.state.frame_queue))
                  ≡ length (contents api st.frame_queue))))

  pub fetch-Reads :
      (lib : Libav) (ops : TimeOps) (n : ℕ) (st : LoopState api)
      → EndsAfter lib n
      → IsCopyOnly st.ictx
      → IsCreated api st.frame_queue
      → (st.outputs_ready ≡ true) ⊎ (st.hit_eof ≡ false)
      → Reads n st (fetch api lib ops st)
  unfolding fetch from_decoder from_queue
  fetch-Reads lib ops n st ends plain made unseen = elim (Bool-cases st.outputs_ready) [
    | inl e ↦
        let out = (queue_read api st.frame_queue).0 in
        ground (
          arith,
          e,
          made,
          plain,
          read_cases api room st.frame_queue made,
          process_in-reads lib ops n st.ictx (or_frame out.frame) (or_index out.stream_index) ends
              plain,
        )
    | inr e ↦ ground (
      arith,
      e,
      made,
      unseen,
      process_in-reads lib ops n st.ictx blank_frame (negsuc 0) ends plain,
    )
  ]
