-- ===== src/Ret.antt =====
-- The `int` results of the C functions (ffmpeg/transcoder.c, ffmpeg/logging.h): a number from 0 up,
-- or a negative error code. libav's codes and the lpms_ERR_* tags are distinct negative numbers,
-- so each is a constructor of its own; `other` stands for every code that the program never names.
use lpms.Common.{ℕ, zero, suc, Bool, true, false, ◌==◌, if◌then◌else◌}

pub data Code : Type 0 where
  eof eagain einval enomem demuxer_not_found unknown : Code
  input_pixfmt input_codec input_nokf filters packet_only filter_flushed : Code
  outputs unrecoverable enc_runaway : Code
  other : ℕ → Code

pub data Ret : Type 0 where
  ok : ℕ → Ret
  err : Code → Ret

abbrev pub done : Ret
done = ok 0

-- ret < 0
abbrev pub failed : Ret → Bool
failed (ok n) = false
failed (err c) = true

-- !ret
abbrev pub is_zero : Ret → Bool
is_zero (ok n) = n == 0
is_zero (err c) = false

-- ret == AVERROR(EAGAIN)
abbrev pub is_eagain : Ret → Bool
is_eagain (err eagain) = true
is_eagain _ = false

-- ret == AVERROR_EOF
abbrev pub is_eof : Ret → Bool
is_eof (err eof) = true
is_eof _ = false

-- ret == AVERROR_UNKNOWN
abbrev pub is_unknown : Ret → Bool
is_unknown (err unknown) = true
is_unknown _ = false

-- ret == lpms_ERR_PACKET_ONLY
abbrev pub is_packet_only : Ret → Bool
is_packet_only (err packet_only) = true
is_packet_only _ = false

-- ret == lpms_ERR_INPUT_NOKF
abbrev pub is_nokf : Ret → Bool
is_nokf (err input_nokf) = true
is_nokf _ = false

-- ret == lpms_ERR_FILTER_FLUSHED
abbrev pub is_filter_flushed : Ret → Bool
is_filter_flushed (err filter_flushed) = true
is_filter_flushed _ = false

-- LPMS_ERR and LPMS_ERR_RETURN leave with `ret`, or with EINVAL where `ret` says success.
abbrev pub lpms_err : Ret → Ret
lpms_err (ok zero) = err einval
lpms_err (ok (suc n)) = ok (suc n)
lpms_err (err c) = err c

-- ret == AVERROR_EOF ? 0 : ret
abbrev pub eof_is_done : Ret → Ret
eof_is_done ret = if is_eof ret then done else ret
