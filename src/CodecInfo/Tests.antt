-- ===== src/CodecInfo/Tests.antt =====
-- Tests and witnesses for what lpms_get_codec_info tells.
use lpms.Common.{ℕ, ◌≡◌, ◌↔◌, refl, arith, none, some, List, [], ◌∷◌}
use lpms.Ret.{done, err, outputs}
use lpms.Samples.{thousandth}
use lpms.CodecInfo.{
  text, copy_name, CodecInfo, BestStream, Container, needs_bypass, streams_missing, internal_error,
  codec_name_of, first_status, put_format, put_video, put_audio, get_codec_info,
}
use lpms.CodecInfo.Names.{or_empty, get_codec_info-names}

-- Buffers of eight bytes, of which the caller fills seven.
abbrev buffer : List ℕ
buffer = 1 ∷ 1 ∷ 1 ∷ 1 ∷ 1 ∷ 1 ∷ 1 ∷ 0 ∷ []

abbrev blank : CodecInfo
blank = record {
  format_name = buffer;
  video_codec = buffer;
  audio_codec = buffer;
  audio_bit_rate = 0;
  pixel_format = none;
  width = 0;
  height = 0;
  fps = thousandth;
  dur = 0;
}

-- A video stream whose decoder found no picture, as in a segment of audio only.
abbrev h264 : BestStream
h264 = record {
  codec_name = some (104 ∷ 50 ∷ 54 ∷ 52 ∷ []);
  format = none;
  width = 0;
  height = 0;
  bit_rate = 0;
  r_frame_rate = thousandth;
}

abbrev aac : BestStream
aac = record h264 { codec_name = some (97 ∷ 97 ∷ 99 ∷ []); bit_rate = 64_000 }

abbrev container : Container
container = record {
  open_ret = done;
  info_ret = done;
  duration = some 2_500_000;
  format_name = some (116 ∷ 115 ∷ []);
  video = some h264;
  audio = some aac;
}

copies_names : copy_name buffer (97 ∷ 97 ∷ 99 ∷ []) ≡ 97 ∷ 97 ∷ 99 ∷ 0 ∷ 1 ∷ 1 ∷ 1 ∷ 0 ∷ []
unfolding copy_name
copies_names = refl

-- A name that is longer than the buffer's string takes the place of its final zero.
loses_terminator : copy_name (1 ∷ 0 ∷ []) (97 ∷ 97 ∷ 99 ∷ []) ≡ 97 ∷ 97 ∷ []
unfolding copy_name
loses_terminator = refl

asks_for_bypass : (get_codec_info container blank).0 ≡ needs_bypass
unfolding get_codec_info put_video put_audio put_format first_status
asks_for_bypass = refl

both_missing :
    (get_codec_info (record container { audio = none; video = none }) blank).0 ≡ streams_missing
unfolding get_codec_info put_video put_audio put_format first_status
both_missing = refl

fails_to_open :
    get_codec_info (record container { open_ret = err outputs }) blank ≡ (internal_error, blank)
unfolding get_codec_info
fails_to_open = refl

get_codec_info-names_example :
    let (status, out') = get_codec_info container blank in
    (text out'.video_codec ≡ or_empty (codec_name_of container.video))
    × (text out'.audio_codec ≡ or_empty (codec_name_of container.audio))
    × ((status ≡ streams_missing) ↔ ((container.video ≡ none) × (container.audio ≡ none)))
get_codec_info-names_example =
    get_codec_info-names container blank refl refl (omega arith, omega arith)
      (omega arith, omega arith)
