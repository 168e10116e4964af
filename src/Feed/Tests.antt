-- ===== src/Feed/Tests.antt =====
-- Tests and witnesses for filtergraph_write.
use lpms.Common.{pos, ◌+ℤ◌, ◌≡◌, ◌≤◌, refl, arith, none, some, [], ◌∷◌, inl}
use lpms.Ret.{done}
use lpms.Media.{video, audio}
use lpms.Filter.{
  int64_min, needs_decoder, init_video_filters, init_audio_filters, filtergraph_parser, free_filter,
}
use lpms.Encode.Samples.{opened, writes}
use lpms.Outlet.{
  OutputCtx, close_output, add_video_stream, add_audio_stream, set_times, set_audio_times,
}
use lpms.Outlet.Open.{
  open_audio_encoder, open_audio_output, open_video_encoder, add_video, encode_streams, add_streams,
  write_header, finish_open, try_open, open_output,
}
use lpms.Outlet.Samples.{answers, input}
use lpms.Feed.{
  ts_step, feed_end, put_frame, feed_frame, check_frame, needs_reset, filtergraph_write,
}
use lpms.Feed.Closed.{next_audio-lost}
use lpms.Feed.Reset.{filtergraph_write_loses}
use lpms.Feed.Samples.{encodes, feeding, bigger, picture, left_over}
use lpms.Samples.{same_base, frame}

-- Without an encoded frame the last frame goes in again, a duration later.
flushes :
    (filtergraph_write same_base writes encodes feeding
      (record input { last_frame_v = some (record (frame (pos 80)) { duration = pos 40 }) })
      video
      none
      (record opened { vf = record opened.vf { custom_pts = pos 80 } })).into
    ≡ some (record (frame (pos 120)) { duration = pos 40; opaque = int64_min })
unfolding filtergraph_write feed_end put_frame ts_step ◌+ℤ◌
flushes = refl

-- The frame goes in with its own PTS, which it carries along.
feeds :
    (filtergraph_write same_base writes encodes feeding input video (some picture) opened).into
    ≡ some (record (frame (pos 90)) { opaque = pos 90 })
unfolding filtergraph_write feed_frame put_frame check_frame needs_reset
feeds = refl

filtergraph_write_loses_example :
    let fed =
      filtergraph_write same_base writes encodes
        (record feeding { drained = frame (pos 60) ∷ left_over })
        input
        video
        (some bigger)
        opened in
    (fed
      ≡ filtergraph_write same_base writes encodes
          (record feeding { drained = frame (pos 60) ∷ [] })
          input
          video
          (some bigger)
          opened)
    × (fed.calls ≤ 1)
filtergraph_write_loses_example =
    filtergraph_write_loses same_base writes encodes feeding (frame (pos 60)) left_over input video
      bigger opened

abbrev encoded : OutputCtx
encoded = record opened { out = record opened.out { frames = 5 } }

abbrev after : OutputCtx
after =
    close_output (filtergraph_write same_base writes encodes feeding input audio none encoded).octx

opens_again : (open_output same_base answers input after).0 ≡ done
unfolding open_output try_open finish_open open_video_encoder add_streams encode_streams add_video
    add_video_stream add_audio_stream open_audio_output open_audio_encoder write_header set_times
    set_audio_times init_video_filters init_audio_filters filtergraph_parser needs_decoder
    filtergraph_write feed_end put_frame close_output free_filter
opens_again = refl

next_audio-lost_example :
    let next = (open_output same_base answers input after).1 in
    filtergraph_write same_base writes encodes feeding input audio (some picture) next
    ≡ record { ret = done; octx = next; into = none; calls = 0 }
next_audio-lost_example =
    next_audio-lost same_base writes encodes encodes feeding feeding input input answers
      (some picture) encoded (inl (λ e. absurd (ground (arith, e)))) refl refl (omega arith)
      opens_again
