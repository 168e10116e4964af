-- ===== src/Outlet/Samples.antt =====
-- An output, its input, and answers of libav, for tests and witnesses.
use lpms.Common.{pos, nopts, true, false, none, some, [], ◌∷◌}
use lpms.Ret.{done}
use lpms.Media.{no_hw}
use lpms.Codec.{InputCtx}
use lpms.Decoder.Samples.{ctx}
use lpms.Filter.{codec, no_filter, GraphAnswers}
use lpms.Output.{OutState}
use lpms.Outlet.{OutputCtx, Encoder, StreamAnswers}
use lpms.Outlet.Open.{EncoderAnswers, OpenAnswers}
use lpms.Samples.{thousandth, video_stream, audio_stream}

abbrev pub graph : GraphAnswers
graph = record {
  allocs_inouts = true;
  allocs_graph = true;
  layout_ret = done;
  src_ret = done;
  sink_ret = done;
  opt_ret = done;
  parse_ret = done;
  config_ret = done;
  allocs_frame = true;
}

abbrev pub encoder : Encoder
encoder = record { id = 1; time_base = thousandth; width = 16; height = 9; pool = none }

abbrev pub encoder_answers : EncoderAnswers
encoder_answers = record {
  graph = graph;
  finds_encoder = true;
  allocs_encoder = true;
  layout_ret = done;
  refs_pool = true;
  open_ret = done;
  ready = encoder;
}

abbrev pub stream_answers : StreamAnswers
stream_answers = record { allocs = true; params_ret = done; padding = false }

abbrev pub answers : OpenAnswers
answers = record {
  guesses_format = true;
  nofile = false;
  nonstrict = false;
  alloc_ret = done;
  vc_pool = none;
  video_encoder = encoder_answers;
  audio_encoder = record encoder_answers { ready = record encoder { id = 2 } };
  video_stream = stream_answers;
  audio_stream = stream_answers;
  remux = λ i. stream_answers;
  avio_ret = done;
  header_ret = done;
  signature = graph;
}

-- Video is stream 0 of the input, and audio stream 1.
abbrev pub input : InputCtx
input = record ctx {
  ic = some (video_stream ∷ audio_stream ∷ []);
  has_vc = true;
  has_ac = true;
  vi = pos 0;
  ai = pos 1;
  hw_type = no_hw;
  transmuxing = false;
}

abbrev pub counts : OutState
counts = record {
  gop_pts_len = pos 0;
  next_kf_pts = pos 0;
  clip_from = pos 0;
  clip_to = pos 0;
  clip_from_pts = pos 0;
  clip_to_pts = pos 0;
  clip_started = false;
  clip_start_pts = pos 0;
  clip_start_pts_found = false;
  clip_audio_from_pts = pos 0;
  clip_audio_to_pts = pos 0;
  clip_audio_start_pts = pos 0;
  clip_audio_start_pts_found = false;
  last_enc_pts = nopts;
  frames = 0;
  pixels = 0;
}

-- Video and audio are both encoded.
abbrev pub output : OutputCtx
output = record {
  initialized = false;
  video_name = codec 1;
  audio_name = codec 2;
  has_vfilters = true;
  sfilters = none;
  fps = none;
  gop_time = pos 250;
  oc = none;
  has_pb = false;
  vc = none;
  ac = none;
  vi = 0;
  ai = 0;
  dv = false;
  da = false;
  vf = no_filter;
  af = no_filter;
  sf = no_filter;
  hw_type = no_hw;
  muxing = record {
    drop_ts = pos 0;
    last_audio_dts = pos 0;
    last_video_dts = pos 0;
    nonstrict = false;
    written = [];
  };
  out = counts;
}
