-- ===== src/Input/Tests.antt =====
-- Tests and witnesses for opening the input.
use lpms.Common.{◌≡◌, refl}
use lpms.Ret.{err, unrecoverable}
use lpms.Input.{
  open_input, open_decoders, open_video_decoder, create_video, attach_video, start_video,
  fail_video, fail_open, reopen_demux,
}
use lpms.Input.Closed.{Outcome, open_input-Outcome, reopen_demux-Outcome}
use lpms.Input.Samples.{on_gpu, no_decoder}
use lpms.Decoder.Samples.{ctx}

unknown_is_unrecoverable : (open_input on_gpu no_decoder ctx).0 ≡ err unrecoverable
unfolding open_input open_decoders open_video_decoder create_video attach_video start_video
    fail_video fail_open
unknown_is_unrecoverable = refl

open_input-Outcome_example :
    Outcome on_gpu (open_input on_gpu no_decoder ctx)
    × ((open_input on_gpu no_decoder ctx).1.flush_pkt ≡ ctx.flush_pkt)
open_input-Outcome_example = open_input-Outcome on_gpu no_decoder ctx

reopen_demux-Outcome_example : Outcome on_gpu (reopen_demux on_gpu no_decoder ctx)
reopen_demux-Outcome_example = reopen_demux-Outcome on_gpu no_decoder ctx
