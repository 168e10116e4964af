-- ===== src/Filter/Tests.antt =====
-- Tests and witnesses for the filters.
use lpms.Common.{pos, ◌≡◌, refl, true, none, some, inr}
use lpms.Ret.{err, done, filter_flushed}
use lpms.Filter.{
  codec, no_filter, int64_min, needs_decoder, init_video_filters, init_audio_filters,
  init_signature_filters, filtergraph_read,
}
use lpms.Filter.Init.{IsSetUp, init-IsSetUp}
use lpms.Outlet.Samples.{graph}
use lpms.Samples.{thousandth, frame}

-- A flush frame counts as flushed only while the filter is being flushed.
reads_flush_frame :
    filtergraph_read done
      (record (frame (pos 3)) { opaque = int64_min })
      (record no_filter { flushing = true })
    ≡ (err filter_flushed, record no_filter { flushing = true; flushed = true })
unfolding filtergraph_read
reads_flush_frame = refl

needed : needs_decoder (codec 1) ≡ true
unfolding needs_decoder
needed = refl

init-IsSetUp_example :
    IsSetUp (init_video_filters (codec 1) true thousandth none none graph no_filter)
    × IsSetUp (init_audio_filters (codec 1) graph no_filter)
    × IsSetUp (init_signature_filters (codec 1) (some 3) none none graph no_filter)
init-IsSetUp_example =
    init-IsSetUp (codec 1) true (some 3) thousandth none none graph no_filter needed refl refl
      (inr refl)
