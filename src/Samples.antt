-- ===== src/Samples.antt =====
-- Concrete data for the tests and the witnesses: libav operations that are plain functions, streams,
-- packets and frames.
use lpms.Common.{ℕ, ℤ, pos, negsuc, ◌/◌, true}
use lpms.Media.{Rational, video, audio, Packet, Frame, Stream, TimeOps, blank_frame}

abbrev pub half : ℤ → ℤ
half (pos n) = pos (n / 2)
half (negsuc n) = negsuc (n / 2)

-- Time bases that agree.
abbrev pub same_base : TimeOps
same_base = record {
  rescale_q = λ t a b. t;
  rescale_q_rnd = λ t a b. t;
  inv_q = λ r. r;
  cmp_q = λ a b. pos 0;
  rescale_ts = λ p a b. p;
}

-- A target whose tick is twice as long.
abbrev pub coarser_base : TimeOps
coarser_base = record {
  rescale_q = λ t a b. half t;
  rescale_q_rnd = λ t a b. half t;
  inv_q = λ r. r;
  cmp_q = λ a b. pos 1;
  rescale_ts = λ p a b. record p { pts = half p.pts; dts = half p.dts };
}

abbrev pub thousandth : Rational
thousandth = record { num = pos 1; den = pos 1000 }

abbrev pub video_stream : Stream
video_stream = record {
  index = 0;
  codec_type = video;
  time_base = thousandth;
  r_frame_rate = record { num = pos 25; den = pos 1 };
}

abbrev pub audio_stream : Stream
audio_stream = record {
  index = 1;
  codec_type = audio;
  time_base = thousandth;
  r_frame_rate = record { num = pos 0; den = pos 1 };
}

abbrev pub packet : ℕ → ℤ → ℤ → Packet
packet s pts dts = record {
  stream_index = s;
  pts = pts;
  dts = dts;
  duration = pos 10;
  key = true;
  payload = 7;
}

abbrev pub frame : ℤ → Frame
frame pts = record blank_frame { pts = pts; width = 16; height = 9 }
