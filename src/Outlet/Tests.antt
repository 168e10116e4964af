-- ===== src/Outlet/Tests.antt =====
-- Tests and witnesses for opening and closing an output.
use lpms.Common.{pos, nopts, ◌≡◌, ◌⊎◌, refl, true, false, [], ◌∷◌, inr}
use lpms.Ret.{err, done, is_zero, einval, outputs}
use lpms.Media.{video, audio}
use lpms.Filter.{
  needs_decoder, init_video_filters, init_audio_filters, filtergraph_parser, free_filter,
}
use lpms.Samples.{same_base}
use lpms.Outlet.{
  add_video_stream, add_audio_stream, set_times, set_audio_times, close_output, free_output,
}
use lpms.Outlet.Open.{
  open_audio_encoder, open_audio_output, open_video_encoder, add_video, encode_streams, add_streams,
  write_header, finish_open, try_open, open_output, reopen_output, readd_video,
}
use lpms.Outlet.Held.{IsFreed, IsOpened, open_output-Outcome}
use lpms.Outlet.Layout.{kinds_of}
use lpms.Outlet.Samples.{answers, input, output}

opens :
    let (ret, o) = open_output same_base answers input output in
    (ret ≡ done)
    × (kinds_of o ≡ video ∷ audio ∷ [])
    × (o.out.gop_pts_len ≡ pos 250)
    × (o.muxing.last_video_dts ≡ nopts)
    × (o.af.active ≡ true)
unfolding open_output try_open finish_open open_video_encoder add_streams encode_streams add_video
    add_video_stream add_audio_stream open_audio_output open_audio_encoder write_header set_times
    set_audio_times init_video_filters init_audio_filters filtergraph_parser needs_decoder
opens = (refl, refl, refl, refl, refl)

-- The encoder of the audio is not found.
fails :
    open_output same_base
      (record answers { audio_encoder = record answers.audio_encoder { finds_encoder = false } })
      input
      output
    ≡ (
      err einval,
      record output {
        vi = 0;
        muxing = record output.muxing { last_video_dts = nopts };
        out = record output.out { gop_pts_len = pos 250 };
      },
    )
unfolding open_output try_open finish_open open_video_encoder add_streams encode_streams add_video
    add_video_stream open_audio_output open_audio_encoder write_header set_times init_video_filters
    init_audio_filters filtergraph_parser needs_decoder free_output close_output free_filter
fails = refl

-- A file that cannot be opened again leaves the output half open.
reopens_halfway :
    let o = (reopen_output same_base (record answers { avio_ret = err outputs }) input output).1 in
    kinds_of o ≡ audio ∷ []
unfolding reopen_output readd_video add_audio_stream open_audio_output open_audio_encoder
    write_header set_audio_times init_audio_filters filtergraph_parser needs_decoder
reopens_halfway = refl

open_output-Outcome_example :
    let (ret, o) = open_output same_base answers input output in
    ((ret ≡ done) × IsOpened input o) ⊎ ((is_zero ret ≡ false) × IsFreed o)
open_output-Outcome_example = open_output-Outcome same_base answers input output (inr refl)
