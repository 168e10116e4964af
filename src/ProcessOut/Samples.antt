-- ===== src/ProcessOut/Samples.antt =====
-- Calls of process_out, for tests and witnesses.
use lpms.Common.{none, some, [], ◌∷◌, false}
use lpms.Ret.{done, eagain}
use lpms.Media.{video}
use lpms.Encode.Samples.{writes}
use lpms.Outlet.Samples.{encoder, graph}
use lpms.Feed.Samples.{encodes, feeding, picture, bigger}
use lpms.ProcessOut.{Call, OutAnswers}
use lpms.Samples.{same_base, thousandth, video_stream}

abbrev pub call : Call
call = record {
  ops = same_base;
  writer = writes;
  kind = video;
  ost = video_stream;
  encoder = encoder;
  setting = record {
    filter_tb = thousandth;
    encoder_tb = thousandth;
    decoded = some 1;
    is_image2 = false;
  };
}

-- The graph gives two frames.
abbrev pub gives_two : OutAnswers
gives_two = record {
  vc_pool = none;
  graph = graph;
  feed = feeding;
  reads = picture ∷ picture ∷ [];
  read_end = eagain;
  encodes = encodes;
  signs = λ n. record { graph = graph; write_ret = done; get_ret = done };
}

-- The same, of another size than the encoder's.
abbrev pub gives_bigger : OutAnswers
gives_bigger = record gives_two { reads = bigger ∷ bigger ∷ [] }
