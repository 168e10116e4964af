-- ===== src/CodecInfo.antt =====
-- lpms_get_codec_info of ffmpeg/extras.c: what a container holds, told in a struct whose names are
-- buffers of the caller. A C string is the bytes of its buffer before the first zero.
pub mod Names
mod Tests
use lpms.Common.{
  ℕ, zero, suc, ◌+◌, ◌/◌, min, Bool, true, false, not, ◌&&◌, ◌||◌, Option, none, some, List, [],
  ◌∷◌, ◌++◌, if◌then◌else◌, ◌==◌, length, take, drop, set,
}
use lpms.Ret.{Ret, failed}
use lpms.Media.{Rational}

-- The string in a buffer, and strlen.
abbrev pub text : List ℕ → List ℕ
text [] = []
text (zero ∷ xs) = []
text (suc c ∷ xs) = suc c ∷ text xs

abbrev pub strlen : List ℕ → ℕ
strlen buf = length (text buf)

-- strncpy(buf, name, MIN(strlen(buf), strlen(name)) + 1), for a string `name`
unfoldable pub copy_name : List ℕ → List ℕ → List ℕ
copy_name buf name =
    let n = min (strlen buf) (length name) + 1 in take n (name ++ 0 ∷ []) ++ drop n buf

-- struct s_codec_info. The pixel format is `none` for AV_PIX_FMT_NONE.
pub record CodecInfo : Type 0 where
  pub format_name : List ℕ
  pub video_codec : List ℕ
  pub audio_codec : List ℕ
  pub audio_bit_rate : ℕ
  pub pixel_format : Option ℕ
  pub width : ℕ
  pub height : ℕ
  pub fps : Rational
  pub dur : ℕ

-- The best stream of a kind: the name of its decoder, and its codec parameters.
pub record BestStream : Type 0 where
  pub codec_name : Option (List ℕ)
  pub format : Option ℕ
  pub width : ℕ
  pub height : ℕ
  pub bit_rate : ℕ
  pub r_frame_rate : Rational

-- What libav answers; the duration is in microseconds, if it is known.
pub record Container : Type 0 where
  pub open_ret : Ret
  pub info_ret : Ret
  pub duration : Option ℕ
  pub format_name : Option (List ℕ)
  pub video : Option BestStream
  pub audio : Option BestStream

-- GET_CODEC_OK and its kin
pub data Status : Type 0 where
  internal_error codec_ok needs_bypass streams_missing : Status

abbrev is_there : Option BestStream → Bool
is_there none = false
is_there (some s) = true

abbrev lacks_format : Option ℕ → Bool
lacks_format none = true
lacks_format (some f) = false

abbrev pub codec_name_of : Option BestStream → Option (List ℕ)
codec_name_of none = none
codec_name_of (some s) = s.codec_name

unfoldable pub first_status : Container → Status
first_status c =
    if not (is_there c.audio) && not (is_there c.video) then streams_missing else codec_ok

unfoldable pub put_format : Container → CodecInfo → CodecInfo
put_format c out =
    let out' : CodecInfo = elim c.duration [
      | none ↦ out
      | some t ↦ record out { dur = t / 1_000_000 }
    ] in
    elim c.format_name [
      | none ↦ out'
      | some name ↦ record out' { format_name = copy_name out'.format_name name }
    ]

abbrev video_status : Container → BestStream → Status → Status
video_status c s status =
    if is_there c.audio && lacks_format s.format && s.height == 0 then needs_bypass else status

unfoldable pub put_video : Container → Status → CodecInfo → Status × CodecInfo
put_video c status out = elim c.video [
  | none ↦ (status, record out { video_codec = set out.video_codec 0 0 })
  | some s ↦ elim s.codec_name [
    | none ↦ (status, record out { video_codec = set out.video_codec 0 0 })
    | some name ↦ (
      video_status c s status,
      record out {
        video_codec = copy_name out.video_codec name;
        pixel_format = s.format;
        width = s.width;
        height = s.height;
        fps = s.r_frame_rate;
      },
    )
  ]
]

unfoldable pub put_audio : Container → CodecInfo → CodecInfo
put_audio c out = elim c.audio [
  | none ↦ record out { audio_codec = set out.audio_codec 0 0 }
  | some s ↦ elim s.codec_name [
    | none ↦ record out { audio_codec = set out.audio_codec 0 0 }
    | some name ↦ record out {
      audio_codec = copy_name out.audio_codec name;
      audio_bit_rate = s.bit_rate;
    }
  ]
]

unfoldable pub get_codec_info : Container → CodecInfo → Status × CodecInfo
get_codec_info c out =
    if failed c.open_ret || failed c.info_ret
    then (internal_error, out)
    else (let (status, out') = put_video c (first_status c) (put_format c out) in
        (status, put_audio c out'))
