-- ===== src/Thread/Tests.antt =====
-- Tests and witnesses for a handle as a whole.
use lpms.Common.{none, ◌≢◌, arith, ◌≡◌, refl, true, false, Option, [], ◌∷◌, ◌+ℤ◌, All, inr, take}
use lpms.Ret.{done, failed, err, eof}
use lpms.Queue.{queue_write, add_pkt, add_frame, write_item, queue_read, read_fifo, hand_out}
use lpms.Queue.Samples.{list_fifo}
use lpms.Codec.{demux_in}
use lpms.Decoder.{process_in, next_packet, decode_in, flush_in, flush_audio}
use lpms.Filter.{needs_decoder}
use lpms.Input.{open_input, fail_open}
use lpms.Input.Closed.{IsClosed}
use lpms.Mux.{
  mux, mux_typed, mux_video, fix_ts, clamp_dts, repair_order, least_dts, to_stream, write,
}
use lpms.Outlet.Held.{IsFreed}
use lpms.Outlet.Open.{
  open_output, try_open, open_video_encoder, finish_open, add_streams, open_remux_output,
  copy_streams, write_header,
}
use lpms.Dispatch.{
  set_flags, count_decoded, route_to, copy_packet, is_clipped, send_copy, serve_stream, serve,
  serve_all, set_duration, keep_last,
}
use lpms.Session.{first_open, skip_decoder, init_input, reopen_input, check_format}
use lpms.Segment.{fetch, from_decoder, from_queue, item_of, output_frame, wants_open}
use lpms.Transmux.{transmux, transmux_line, set_offset, remember}
use lpms.Thread.{Thread, new_thread, transcode_stop}
use lpms.Thread.Init.{set_params, prepare, init_output, init_outputs, transcode_init}
use lpms.Thread.Loop.{
  open_next, open_all, place, serve_placed, serve_frame, serve_counted, serve_found, serve_index,
  serve_turn, hold_turn, open_or_serve, route_turn, loop_round, run_loop,
}
use lpms.Thread.Transcode.{Outcome, finish_loop, end_loop, transcode, open_first, lpms_transcode}
use lpms.Thread.Life.{Life, born, transcodes, IsSound, Life-IsSound, new_thread-AllIdle}
use lpms.Thread.Stop.{NothingKept, transcode_stop-Frees}
use lpms.Thread.Stranded.{Breaks, transcode_init-strands}
use lpms.Thread.Samples.{
  world, in_round, waiting, world-EndsAfter, copying, copies, opens, request, meets, thread_of,
  is_returned, ret_of, returned_lem,
}
use lpms.Outlet.Samples.{answers, input, output}
use lpms.Segment
use lpms.Segment.{crashes}
use lpms.Thread.Stray.{loop_round-past_end}
use lpms.Media.{blank_packet}
use lpms.Thread.Loop.{World, Running}
use lpms.Thread.Terminates.{run_loop-ends}
use lpms.Thread.Ends.{EndsWell, lpms_transcode-EndsWell}
use lpms.Samples.{same_base}

abbrev called : Option Outcome
called = lpms_transcode list_fifo 3 world request meets new_thread

-- The packet is queued, then copied, and at the end of the file the call returns.
ends : is_returned called ≡ true
unfolding lpms_transcode open_first first_open skip_decoder needs_decoder open_input fail_open
    transcode_init init_input reopen_input check_format init_outputs init_output prepare set_params
    set_flags transcode run_loop loop_round route_turn open_or_serve hold_turn serve_turn
    serve_index serve_found serve_counted serve_frame serve_placed place open_all fetch from_decoder
    from_queue item_of output_frame wants_open queue_write add_pkt add_frame write_item queue_read
    read_fifo hand_out process_in next_packet demux_in decode_in flush_in flush_audio open_output
    try_open open_video_encoder finish_open add_streams open_remux_output copy_streams write_header
    count_decoded set_duration keep_last route_to copy_packet is_clipped send_copy serve_stream
    serve serve_all transmux transmux_line set_offset remember mux mux_typed mux_video fix_ts
    clamp_dts repair_order least_dts to_stream write end_loop finish_loop open_next ◌+ℤ◌
ends = refl

returns_zero : ret_of called ≡ done
unfolding lpms_transcode open_first first_open skip_decoder needs_decoder open_input fail_open
    transcode_init init_input reopen_input check_format init_outputs init_output prepare set_params
    set_flags transcode run_loop loop_round route_turn open_or_serve hold_turn serve_turn
    serve_index serve_found serve_counted serve_frame serve_placed place open_all fetch from_decoder
    from_queue item_of output_frame wants_open queue_write add_pkt add_frame write_item queue_read
    read_fifo hand_out process_in next_packet demux_in decode_in flush_in flush_audio open_output
    try_open open_video_encoder finish_open add_streams open_remux_output copy_streams write_header
    count_decoded set_duration keep_last route_to copy_packet is_clipped send_copy serve_stream
    serve serve_all transmux transmux_line set_offset remember mux mux_typed mux_video fix_ts
    clamp_dts repair_order least_dts to_stream write end_loop finish_loop open_next ◌+ℤ◌
returns_zero = refl

after_call : Life list_fifo world (thread_of called)
after_call =
    transcodes 3 request meets new_thread (thread_of called) (ret_of called) born (λ e. refl)
      (returned_lem called ends)

Life-IsSound_example : IsSound (thread_of called)
Life-IsSound_example = Life-IsSound list_fifo world (thread_of called) after_call

transcode_stop-Frees_example :
    let t' = transcode_stop (thread_of called) in
    All IsFreed t'.outputs × IsClosed t'.handle.ictx × NothingKept t'.handle.ictx
transcode_stop-Frees_example = transcode_stop-Frees list_fifo world (thread_of called) after_call

-- A copy of which a segment failed.
abbrev failed_copy : Thread
failed_copy = record new_thread {
  handle = record new_thread.handle {
    initialized = true;
    nb_outputs = 1;
    ictx = record new_thread.handle.ictx { transmuxing = true };
  };
}

reopened : failed (init_input copying opens failed_copy.handle).0 ≡ false
unfolding init_input reopen_input check_format
reopened = refl

transcode_init-strands_example :
    let (ret, t') =
      transcode_init same_base (λ i. answers) copying opens (copies ∷ []) failed_copy in
    (failed ret ≡ false) × All (Breaks same_base t'.handle.ictx) (take 1 t'.outputs)
transcode_init-strands_example =
    transcode_init-strands same_base (λ i. answers) copying opens (copies ∷ []) failed_copy
      (new_thread-AllIdle list_fifo world) refl refl refl reopened

lpms_transcode-EndsWell_example : EndsWell list_fifo world new_thread called
lpms_transcode-EndsWell_example = lpms_transcode-EndsWell list_fifo world 3 request meets new_thread

-- The second segment of a copy, which has no packets.
abbrev at_end : World
at_end = record world { lib = record world.lib { read = λ calls. (err eof, blank_packet) } }

abbrev second_segment : Running list_fifo
second_segment = record waiting {
  ictx = record input { has_vc = false; has_ac = false };
  outputs = record output { initialized = true } ∷ [];
}

loop_round-past_end_example : (loop_round list_fifo at_end in_round second_segment).0 ≡ crashes
loop_round-past_end_example =
    loop_round-past_end list_fifo at_end in_round second_segment refl refl refl refl refl refl refl

-- The same, with an input that is not decoded.
abbrev undecoded : Running list_fifo
undecoded = record waiting { ictx = record input { has_vc = false; has_ac = false } }

run_loop-ends_example : run_loop list_fifo 5 world (λ i. in_round) undecoded ≢ none
run_loop-ends_example =
    run_loop-ends list_fifo (λ f x. refl) world 5 1 (λ i. in_round) undecoded
      (record {
        copies = record { no_vc = refl; no_ac = refl; no_blocked = refl };
        created = λ e. cc;
        unseen = inr refl;
        attached = (inr refl, tt);
      })
      (λ k i. inr refl) world-EndsAfter (omega arith)
