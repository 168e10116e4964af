-- ===== src/Dispatch/Flush.antt =====
-- The end of the loops of flush_outputs.
use lpms.Common.{ℕ, suc, ◌≡◌, refl, arith, true, false, none, some}
use lpms.Ret.{is_eagain}
use lpms.Media.{is_video}
use lpms.Codec.{InputCtx}
use lpms.Outlet.{OutputCtx}
use lpms.ProcessOut.{OutAnswers, Ended, Call, process_out}
use lpms.ProcessOut.Ends.{EndsFailed, process_out-EndsFailed}
use lpms.ProcessOut.Hardware.{stays_open, EndsFlush, process_out-EndsFlush}
use lpms.Dispatch.{goes_on, flush_loop}

stops_once : (ended : Ended) → EndsFailed ended → EndsFlush ended → goes_on ended ≡ false
stops_once ended failed flushed = ground (arith, failed, flushed)

-- On a hardware encoder that stays open, the loop of flush_outputs over the video ends after one call
-- of process_out, if the source of the graph does not ask to try again.
pub flush_loop_once :
    (fuel : ℕ) (answers : ℕ → OutAnswers) (c : Call) (ictx : InputCtx) (o : OutputCtx)
    → is_video c.kind ≡ true
    → stays_open o.hw_type ≡ true
    → is_eagain (answers 0).feed.write_ret ≡ false
    → flush_loop (suc fuel) answers c ictx o ≡ some (process_out c (answers 0) ictx none o)
unfolding flush_loop
flush_loop_once fuel answers c ictx o v h plain =
    let ended = (process_out c (answers 0) ictx none o).0 in
    let stop =
      stops_once ended (process_out-EndsFailed c (answers 0) ictx none o)
        (process_out-EndsFlush c (answers 0) ictx o v h plain) in
    rw (flush_loop, stop) refl
