-- ===== src/Decoder/Samples.antt =====
-- The state of an input with a video and an audio stream, for tests and witnesses.
use lpms.Common.{pos, negsuc, nopts, false, true, none, some, [], ◌∷◌}
use lpms.Media.{no_hw}
use lpms.Codec.{InputCtx}
use lpms.Samples.{video_stream, audio_stream, packet}

abbrev pub ctx : InputCtx
ctx = record {
  ic = some (video_stream ∷ audio_stream ∷ []);
  has_vc = true;
  has_ac = true;
  vi = pos 0;
  ai = pos 1;
  dv = false;
  da = false;
  hw_type = no_hw;
  has_hw_device = false;
  transmuxing = false;
  flush_pkt = some (packet 0 (negsuc 0) (pos 0));
  flushed = false;
  flushing = false;
  pkt_diff = 0;
  sentinel_count = 0;
  last_video_pts = nopts;
  blocked_pkt = none;
  last_frame_v = none;
  last_frame_a = none;
  calls = [];
}
