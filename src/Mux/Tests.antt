-- ===== src/Mux/Tests.antt =====
-- Tests and witnesses for `mux`.
use lpms.Common.{pos, nopts, ◌+ℤ◌, ◌-ℤ◌, ◌≡◌, refl, arith, false, List, [], ◌∷◌}
use lpms.Ret.{done}
use lpms.Media.{video}
use lpms.Mux.{
  MuxState, Writer, Call, mux_all, fix_ts, mux, mux_typed, mux_video, mux_audio, write, clamp_dts,
  repair_order, to_stream, least_dts, middle,
}
use lpms.Mux.Session.{Tracks, dts_of, mux_all-Tracks}
use lpms.Samples.{same_base, thousandth, video_stream, audio_stream, packet}

abbrev writes : Writer
writes = λ log p. done

abbrev start : MuxState
start = record {
  drop_ts = pos 0;
  last_audio_dts = nopts;
  last_video_dts = nopts;
  nonstrict = false;
  written = [];
}

-- A late DTS and a repeated one, with audio between.
abbrev calls : List Call
calls =
    record { pkt = packet 0 (pos 40) (pos 50); tb = thousandth; ost = video_stream }
    ∷ record { pkt = packet 1 (pos 7) (pos 7); tb = thousandth; ost = audio_stream }
    ∷ record { pkt = packet 0 (pos 40) (pos 20); tb = thousandth; ost = video_stream }
    ∷ []

written_dts : dts_of 0 (mux_all same_base writes calls start).written ≡ pos 41 ∷ pos 40 ∷ []
unfolding mux_all mux mux_typed mux_video mux_audio write fix_ts clamp_dts repair_order to_stream
    least_dts middle ◌+ℤ◌ ◌-ℤ◌
written_dts = refl

start-Tracks : Tracks video 0 start
start-Tracks = record { remembers = refl; descends = tt }

mux_all-Tracks_example : Tracks video 0 (mux_all same_base writes calls start)
unfolding to_stream
mux_all-Tracks_example =
    mux_all-Tracks same_base writes video 0 calls start (λ e. cc)
      (ground arith, (ground arith, (ground arith, tt))) start-Tracks
