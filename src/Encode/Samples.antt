-- ===== src/Encode/Samples.antt =====
-- Answers of an encoder, for tests and witnesses.
use lpms.Common.{pos, true, none, some, [], ◌∷◌}
use lpms.Ret.{done, eagain, eof}
use lpms.Mux.{Writer}
use lpms.Outlet.{OutputCtx}
use lpms.Outlet.Samples.{encoder, output}
use lpms.Encode.{EncodeAnswers}
use lpms.Samples.{video_stream, audio_stream, packet}

abbrev pub writes : Writer
writes = λ log p. done

-- An output that is open.
abbrev pub opened : OutputCtx
opened = record output {
  initialized = true;
  oc = some (video_stream ∷ audio_stream ∷ []);
  has_pb = true;
  vc = some encoder;
  ac = some (record encoder { id = 2 });
  vf = record output.vf { active = true };
  af = record output.af { active = true };
}

abbrev pub encoding : EncodeAnswers
encoding = record {
  reinit = record {
    finds_encoder = true;
    allocs_encoder = true;
    allocs_params = true;
    sink_pool = none;
    refs_pool = true;
    allocs_pkt = true;
    flushed = record { pkt = packet 0 (pos 20) (pos 20); opaque = pos 20 } ∷ [];
    flush_end = eof;
    open_ret = done;
    new_id = 3;
  };
  send_ret = done;
  allocs_pkt = true;
  packets = record { pkt = packet 0 (pos 30) (pos 30); opaque = pos 30 } ∷ [];
  end = eagain;
}
