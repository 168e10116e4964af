-- ===== src/Decoder/Tests.antt =====
-- Tests and witnesses for the decoding functions.
use lpms.Common.{
  ◌+ℤ◌, ℕ, length, ltb, ◌==◌, if◌then◌else◌, pos, negsuc, nopts, ◌≡◌, refl, arith, true, false,
  some, [], ◌∷◌,
}
use lpms.Ret.{err, done, eof, eagain}
use lpms.Media.{Frame, blank_packet, blank_frame}
use lpms.Codec.{
  vc, lpms_send_packet, Libav, InputCtx, fixed_pts, best_pts, decoded_video_pts_step, demux_in,
  lpms_receive_frame, count_frame, fix_video_pts, rate_step,
}
use lpms.Decoder.{flush_rounds, flushes_video, process_in, next_packet}
use lpms.Decoder.Pts.{
  next_pts, Ascends, fixed_pts-eq-next_pts, GivesFrames64, KeepsLast, receive_all,
  receive_all-Ascends,
}
use lpms.Decoder.Flush.{flush_rounds-ends}
use lpms.Decoder.Count.{IsCounted, process_in-IsCounted}
use lpms.Decoder.Blocked.{process_in-blocked}
use lpms.Decoder.Samples.{ctx}
use lpms.Samples.{same_base, packet, frame}

-- A decoder that gives nothing back, behind a demuxer that is at its end.
abbrev silent : Libav
silent = record {
  send = λ l d p. done;
  receive = λ l d. (err eagain, blank_frame);
  read = λ l. (err eof, blank_packet);
  can_clone = λ l. true;
}

-- A decoder that takes no packet, behind a demuxer with one to give.
abbrev blocked : Libav
blocked = record silent {
  send = λ l d p. err eagain;
  read = λ l. (done, packet 0 (pos 40) (pos 40));
}

abbrev without_memory : Libav
without_memory = record blocked { can_clone = λ l. false }

-- Three packets are still in the decoder.
abbrev draining : InputCtx
draining = record ctx { pkt_diff = 3 }

-- A repeated timestamp, a sentinel, a missing one and a good one.
abbrev given_at : ℕ → Frame
given_at n =
    if n == 4
    then frame (negsuc 0)
    else if n == 6
    then frame nopts
    else if ltb n 3
    then frame (pos 40)
    else frame (pos 80)

abbrev giving : Libav
giving = record blocked { receive = λ l d. (done, given_at (length l)) }

giving-GivesFrames64 : GivesFrames64 giving
giving-GivesFrames64 l = ground arith

-- A packet is sent after each frame.
abbrev sends : ℕ → InputCtx → InputCtx
sends i c = (lpms_send_packet giving c vc (packet 0 (pos 0) (pos 0))).1

sends-KeepsLast : KeepsLast sends
unfolding lpms_send_packet
sends-KeepsLast i c = ground arith

receive_all_example :
    receive_all 5 giving same_base sends ctx ≡ pos 40 ∷ pos 41 ∷ pos 42 ∷ pos 80 ∷ []
unfolding lpms_send_packet receive_all lpms_receive_frame count_frame fix_video_pts fixed_pts
    best_pts decoded_video_pts_step rate_step ◌+ℤ◌
receive_all_example = refl

receive_all-Ascends_example : Ascends nopts (receive_all 5 giving same_base sends ctx)
receive_all-Ascends_example =
    receive_all-Ascends 5 giving same_base sends ctx giving-GivesFrames64 sends-KeepsLast
      (omega arith)

fixed_pts-eq-next_pts_example :
    fixed_pts same_base ctx (frame (pos 40))
    ≡ next_pts nopts
        (decoded_video_pts_step same_base ctx (frame (pos 40)))
        (best_pts (frame (pos 40)))
fixed_pts-eq-next_pts_example =
    fixed_pts-eq-next_pts same_base ctx (frame (pos 40)) (omega arith) (omega arith)

flush_rounds-ends_example : flushes_video (flush_rounds 39 silent same_base draining) ≡ false
flush_rounds-ends_example =
    flush_rounds-ends silent same_base 39 draining (λ l p. refl) (omega arith) (omega arith)

ctx-IsCounted : IsCounted ctx
ctx-IsCounted = record { diff_wide = omega arith; balance = refl }

process_in-IsCounted_example :
    IsCounted (process_in blocked same_base ctx blank_frame (negsuc 0)).ctx
process_in-IsCounted_example =
    process_in-IsCounted blocked same_base ctx blank_frame (negsuc 0) ctx-IsCounted

process_in-blocked_example :
    (process_in blocked same_base ctx blank_frame (negsuc 0)).ctx.blocked_pkt
    ≡ some (packet 0 (pos 40) (pos 40))
unfolding next_packet demux_in
process_in-blocked_example =
    process_in-blocked blocked same_base ctx blank_frame (negsuc 0) (λ l. refl)
