-- ===== src/Feed/Samples.antt =====
-- Answers of a filter graph, for tests and witnesses.
use lpms.Common.{pos, none, some, List, [], ◌∷◌}
use lpms.Ret.{done, eof}
use lpms.Media.{Frame}
use lpms.Encode.Samples.{encoding}
use lpms.Outlet.Samples.{graph}
use lpms.Feed.{Picture, FeedAnswers, Encodes}
use lpms.Samples.{thousandth, frame}

abbrev pub encodes : Encodes
encodes = λ n. encoding

abbrev pub feeding : FeedAnswers
feeding = record {
  source_size = some (16, 9);
  close_ret = done;
  drained = [];
  drain_end = eof;
  sink_tb = thousandth;
  vc_pool = none;
  graph = graph;
  write_ret = done;
}

-- A picture of another size than the graph was set up for.
abbrev pub bigger : Picture
bigger = record { frame = record (frame (pos 90)) { width = 32; height = 18 }; pool = none }

abbrev pub picture : Picture
picture = record { frame = frame (pos 90); pool = none }

abbrev pub left_over : List Frame
left_over = frame (pos 60) ∷ frame (pos 70) ∷ []
