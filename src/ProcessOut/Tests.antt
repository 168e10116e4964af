-- ===== src/ProcessOut/Tests.antt =====
-- Tests and witnesses for process_out.
use lpms.Common.{◌+ℤ◌, ◌-ℤ◌, ◌≡◌, ◌≢◌, refl, true, false, none, some}
use lpms.Ret.{err, eagain, failed}
use lpms.Media.{cuda}
use lpms.Filter.{filtergraph_read}
use lpms.Output.{find_start, clip, clip_video, set_gop, stage, finish, send_on, rescale, is_runaway}
use lpms.Mux.{
  mux, to_stream, mux_typed, mux_video, fix_ts, repair_order, clamp_dts, write, least_dts,
}
use lpms.Outlet.Samples.{input}
use lpms.Encode.{
  encode, choose, reinit, replace, new_encoder, flush_old, mux_encoded, restore_ts, send,
  send_chosen, sends, drain,
}
use lpms.Encode.Samples.{opened}
use lpms.Feed.{filtergraph_write, feed_frame, put_frame, check_frame, needs_reset}
use lpms.Feed.Samples.{picture}
use lpms.ProcessOut.{
  returned, dangling, is_live, sign, encode_next, end_frames, take_verdict, take_frame, take_frames,
  lazy_filter, through_filter, process_out,
}
use lpms.ProcessOut.Ends.{EndsFailed, process_out-EndsFailed}
use lpms.ProcessOut.Errors.{IsFromGraph, process_out-IsFromGraph}
use lpms.ProcessOut.Hardware.{EndsFlush, process_out-EndsFlush}
use lpms.ProcessOut.Live.{KeepsGraph, process_out-live}
use lpms.ProcessOut.Samples.{call, gives_two, gives_bigger}

encodes_two :
    let (ended, o) = process_out call gives_two input (some picture) opened in
    (ended ≡ returned (err eagain)) × (o.out.frames ≡ 2)
unfolding process_out through_filter take_frames take_frame take_verdict end_frames encode_next
    is_live sign lazy_filter filtergraph_write feed_frame put_frame check_frame needs_reset
    filtergraph_read stage find_start clip clip_video set_gop finish send_on rescale is_runaway
    encode choose send send_chosen sends drain mux_encoded restore_ts mux to_stream mux_typed
    mux_video fix_ts repair_order clamp_dts write least_dts ◌+ℤ◌ ◌-ℤ◌
encodes_two = (refl, refl)

-- The first frame changes the encoder, and the second one meets the old one.
uses_freed_encoder : (process_out call gives_bigger input (some picture) opened).0 ≡ dangling
unfolding process_out through_filter take_frames take_frame take_verdict end_frames encode_next
    is_live sign lazy_filter filtergraph_write feed_frame put_frame check_frame needs_reset
    filtergraph_read stage find_start clip clip_video set_gop finish send_on rescale is_runaway
    encode choose reinit replace new_encoder flush_old send send_chosen sends drain mux_encoded
    restore_ts mux to_stream mux_typed mux_video fix_ts repair_order clamp_dts write least_dts ◌+ℤ◌
    ◌-ℤ◌
uses_freed_encoder = refl

process_out-EndsFailed_example :
    EndsFailed (process_out call gives_two input (some picture) opened).0
process_out-EndsFailed_example = process_out-EndsFailed call gives_two input (some picture) opened

-- The source of the graph is written to without an error.
feeds_graph :
    failed
      (filtergraph_write call.ops call.writer gives_two.encodes gives_two.feed input call.kind
        (some picture)
        opened).ret
    ≡ false
unfolding filtergraph_write feed_frame put_frame check_frame needs_reset
feeds_graph = refl

process_out-IsFromGraph_example :
    IsFromGraph gives_two (process_out call gives_two input (some picture) opened).0
process_out-IsFromGraph_example =
    process_out-IsFromGraph call gives_two input picture opened refl feeds_graph

process_out-EndsFlush_example :
    EndsFlush (process_out call gives_two input none (record opened { hw_type = cuda })).0
process_out-EndsFlush_example =
    process_out-EndsFlush call gives_two input (record opened { hw_type = cuda }) refl refl refl

encoder_is_live : is_live call.kind call.encoder opened ≡ true
unfolding is_live
encoder_is_live = refl

graph_is_kept :
    KeepsGraph call gives_two
      (some picture)
      (lazy_filter call gives_two input (some picture) opened).1
unfolding lazy_filter needs_reset
graph_is_kept = refl

process_out-live_example : (process_out call gives_two input (some picture) opened).0 ≢ dangling
process_out-live_example =
    process_out-live call gives_two input (some picture) opened encoder_is_live graph_is_kept
      ((refl, refl), ((refl, refl), tt))
