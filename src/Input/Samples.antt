-- ===== src/Input/Samples.antt =====
-- Parameters and answers for opening an input, for tests and witnesses.
use lpms.Common.{pos, true, false, [], ◌∷◌}
use lpms.Ret.{err, done, unknown}
use lpms.Media.{cuda}
use lpms.Input.{HwConfig, InputParams, Answers}
use lpms.Samples.{video_stream}

abbrev pub on_gpu : InputParams
on_gpu = record { names_demuxer = false; hw_type = cuda; transmuxing = false }

abbrev pub cuda_config : HwConfig
cuda_config = record { by_device = true; device_type = cuda; pix_fmt = 117 }

-- All goes well but for the video decoder, which libav cannot open for a reason unknown.
abbrev pub no_decoder : Answers
no_decoder = record {
  finds_format = true;
  open_ret = done;
  streams = video_stream ∷ [];
  info_ret = done;
  best_video = pos 0;
  is_yuv420 = true;
  allocs_vc = true;
  vc_params_ret = done;
  device_ret = done;
  vc_open_ret = err unknown;
  configs = cuda_config ∷ [];
  best_audio = pos 1;
  allocs_ac = true;
  ac_params_ret = done;
  ac_open_ret = done;
  allocs_last_v = true;
  allocs_last_a = true;
}
