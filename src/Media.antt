-- ===== src/Media.antt =====
-- The libav structures that the C core passes round, with the fields that it reads or writes, and
-- the arithmetic on time bases that it calls in libavutil.
use lpms.Common.{ℕ, ℤ, pos, nopts, Bool, true, false, ◌==◌}

-- AVRational
pub record Rational : Type 0 where
  pub num : ℤ
  pub den : ℤ

-- enum AVHWDeviceType; the types that the core does not name are told apart by a number.
pub data HwType : Type 0 where
  no_hw cuda mediacodec : HwType
  other_hw : ℕ → HwType

-- hw_type > AV_HWDEVICE_TYPE_NONE
abbrev pub is_hw : HwType → Bool
is_hw no_hw = false
is_hw _ = true

abbrev pub is_cuda : HwType → Bool
is_cuda cuda = true
is_cuda _ = false

abbrev pub is_mediacodec : HwType → Bool
is_mediacodec mediacodec = true
is_mediacodec _ = false

abbrev pub eq_hw : HwType → HwType → Bool
eq_hw no_hw no_hw = true
eq_hw cuda cuda = true
eq_hw mediacodec mediacodec = true
eq_hw (other_hw m) (other_hw n) = m == n
eq_hw _ _ = false

-- AVMediaType
pub data MediaType : Type 0 where
  video audio subtitle : MediaType

abbrev pub is_video : MediaType → Bool
is_video video = true
is_video audio = false
is_video subtitle = false

abbrev pub is_audio : MediaType → Bool
is_audio video = false
is_audio audio = true
is_audio subtitle = false

-- AVPacket. `payload` names the referenced bytes; `key` is AV_PKT_FLAG_KEY.
pub record Packet : Type 0 where
  pub stream_index : ℕ
  pub pts : ℤ
  pub dts : ℤ
  pub duration : ℤ
  pub key : Bool
  pub payload : ℕ

-- AVFrame. `intra` says that pict_type is AV_PICTURE_TYPE_I.
pub record Frame : Type 0 where
  pub pts : ℤ
  pub best_effort_timestamp : ℤ
  pub duration : ℤ
  pub width : ℕ
  pub height : ℕ
  pub nb_samples : ℕ
  pub opaque : ℤ
  pub intra : Bool
  pub payload : ℕ

-- AVStream, with the codec type of its codecpar.
pub record Stream : Type 0 where
  pub index : ℕ
  pub codec_type : MediaType
  pub time_base : Rational
  pub r_frame_rate : Rational

-- What the core calls in libavutil and libavcodec to convert timestamps. The code is not part of
-- the repository, so it is a parameter of the model.
pub record TimeOps : Type 0 where
  pub rescale_q : ℤ → Rational → Rational → ℤ
  pub rescale_q_rnd : ℤ → Rational → Rational → ℤ
  pub inv_q : Rational → Rational
  pub cmp_q : Rational → Rational → ℤ
  pub rescale_ts : Packet → Rational → Rational → Packet

-- What av_packet_unref leaves in a packet.
abbrev pub blank_packet : Packet
blank_packet = record {
  stream_index = 0;
  pts = nopts;
  dts = nopts;
  duration = pos 0;
  key = false;
  payload = 0;
}

-- What av_frame_unref leaves in a frame.
abbrev pub blank_frame : Frame
blank_frame = record {
  pts = nopts;
  best_effort_timestamp = nopts;
  duration = pos 0;
  width = 0;
  height = 0;
  nb_samples = 0;
  opaque = pos 0;
  intra = false;
  payload = 0;
}
