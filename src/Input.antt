-- ===== src/Input.antt =====
-- Opening and closing the input: open_input, open_video_decoder, open_audio_decoder, free_input and
-- the choice of a hardware format, of ffmpeg/decoder.c. What libav answers on the way is a record of
-- answers, one for each call.
pub mod Closed
pub mod Format
pub mod Samples
mod Tests
use lpms.Common.{
  ℕ, ℤ, pos, nopts, ltb_ℤ, Bool, true, false, not, ◌&&◌, ◌||◌, Option, none, some, List, [], ◌∷◌,
  if◌then◌else◌, ◌==◌,
}
use lpms.Ret.{
  Ret, ok, err, done, failed, is_unknown, lpms_err, input_pixfmt, input_codec, unrecoverable,
  demuxer_not_found,
}
use lpms.Media.{HwType, is_hw, is_cuda, eq_hw, Stream, blank_frame}
use lpms.Codec.{InputCtx}

-- AVCodecHWConfig: whether its methods have HW_DEVICE_CTX, its device type and its pixel format.
pub record HwConfig : Type 0 where
  pub by_device : Bool
  pub device_type : HwType
  pub pix_fmt : ℕ

-- The configs of a codec in order; `none` is AV_PIX_FMT_NONE.
unfoldable pub hw2pixfmt : List HwConfig → HwType → Option ℕ
hw2pixfmt [] hw = none
hw2pixfmt (config ∷ configs) hw =
    let rest = hw2pixfmt configs hw in
    if config.by_device && eq_hw config.device_type hw then some config.pix_fmt else rest

abbrev eq_fmt : ℕ → Option ℕ → Bool
eq_fmt n none = false
eq_fmt n (some m) = n == m

-- The formats that the decoder offers end at AV_PIX_FMT_NONE.
unfoldable pub find_format : List ℕ → Option ℕ → Option ℕ
find_format [] hw_pix_fmt = none
find_format (p ∷ ps) hw_pix_fmt =
    let rest = find_format ps hw_pix_fmt in if eq_fmt p hw_pix_fmt then some p else rest

unfoldable pub get_hw_format : List HwConfig → HwType → List ℕ → Option ℕ
get_hw_format configs hw pix_fmts = find_format pix_fmts (hw2pixfmt configs hw)

-- The parts of `input_params` that opening looks at; a demuxer may be named.
pub record InputParams : Type 0 where
  pub names_demuxer : Bool
  pub hw_type : HwType
  pub transmuxing : Bool

-- What libav answers.
pub record Answers : Type 0 where
  pub finds_format : Bool
  pub open_ret : Ret
  pub streams : List Stream
  pub info_ret : Ret
  pub best_video : ℤ
  pub is_yuv420 : Bool
  pub allocs_vc : Bool
  pub vc_params_ret : Ret
  pub device_ret : Ret
  pub vc_open_ret : Ret
  pub configs : List HwConfig
  pub best_audio : ℤ
  pub allocs_ac : Bool
  pub ac_params_ret : Ret
  pub ac_open_ret : Ret
  pub allocs_last_v : Bool
  pub allocs_last_a : Bool

-- `flush_pkt` is not freed here.
unfoldable pub free_input : InputCtx → InputCtx
free_input c = record c {
  ic = none;
  has_vc = false;
  has_ac = false;
  has_hw_device = false;
  last_frame_v = none;
  last_frame_a = none;
  blocked_pkt = none;
}

unfoldable pub fail_video : Ret → InputCtx → Ret × InputCtx
fail_video ret c =
    let ret' = lpms_err ret in (if is_unknown ret' then err unrecoverable else ret', free_input c)

abbrev is_none : Option ℕ → Bool
is_none none = true
is_none (some n) = false

unfoldable pub start_video : InputParams → Answers → InputCtx → Ret × InputCtx
start_video p a c =
    if failed a.vc_open_ret
    then fail_video a.vc_open_ret c
    else if is_hw p.hw_type && is_none (hw2pixfmt a.configs c.hw_type)
    then fail_video (err input_codec) c
    else (done, c)

unfoldable pub attach_video : InputParams → Answers → InputCtx → Ret × InputCtx
attach_video p a c =
    if failed a.vc_params_ret
    then fail_video a.vc_params_ret c
    else if is_cuda p.hw_type
    then (if failed a.device_ret
        then fail_video a.device_ret c
        else start_video p a (record c { has_hw_device = true; hw_type = p.hw_type }))
    else start_video p a (record c { hw_type = p.hw_type })

unfoldable pub create_video : InputParams → Answers → InputCtx → Ret × InputCtx
create_video p a c =
    if is_hw p.hw_type && not a.is_yuv420
    then fail_video (err input_pixfmt) c
    else if a.allocs_vc
    then attach_video p a (record c { has_vc = true })
    else fail_video done c

unfoldable pub open_video_decoder : InputParams → Answers → InputCtx → Ret × InputCtx
open_video_decoder p a c =
    let c' = record c { vi = a.best_video } in
    if c'.dv || ltb_ℤ c'.vi (pos 0) then (done, c') else create_video p a c'

unfoldable pub fail_audio : Ret → InputCtx → Ret × InputCtx
fail_audio ret c = (lpms_err ret, free_input c)

unfoldable pub create_audio : Answers → InputCtx → Ret × InputCtx
create_audio a c =
    if not a.allocs_ac
    then fail_audio done c
    else if failed a.ac_params_ret
    then fail_audio a.ac_params_ret (record c { has_ac = true })
    else if failed a.ac_open_ret
    then fail_audio a.ac_open_ret (record c { has_ac = true })
    else (done, record c { has_ac = true })

unfoldable pub open_audio_decoder : Answers → InputCtx → Ret × InputCtx
open_audio_decoder a c =
    let c' = record c { ai = a.best_audio } in
    if c'.da || ltb_ℤ c'.ai (pos 0) then (done, c') else create_audio a c'

unfoldable pub fail_open : Ret → InputCtx → Ret × InputCtx
fail_open ret c = (lpms_err ret, free_input c)

unfoldable pub alloc_last_frames : Answers → InputCtx → Ret × InputCtx
alloc_last_frames a c =
    if not a.allocs_last_v
    then fail_open done c
    else if not a.allocs_last_a
    then fail_open done (record c { last_frame_v = some blank_frame })
    else (
      done,
      record c {
        last_frame_v = some blank_frame;
        last_frame_a = some blank_frame;
        last_video_pts = nopts;
      },
    )

unfoldable pub open_decoders : InputParams → Answers → InputCtx → Ret × InputCtx
open_decoders p a c =
    let (ret, c1) = open_video_decoder p a c in
    if failed ret
    then fail_open ret c1
    else (let (ret', c2) = open_audio_decoder a c1 in
        if failed ret' then fail_open ret' c2 else alloc_last_frames a c2)

unfoldable pub open_input : InputParams → Answers → InputCtx → Ret × InputCtx
open_input p a c =
    let c0 = record c { transmuxing = p.transmuxing } in
    let c1 = record c0 { ic = some a.streams } in
    if p.names_demuxer && not a.finds_format
    then fail_open (err demuxer_not_found) c0
    else if failed a.open_ret
    then fail_open a.open_ret c0
    else if failed a.info_ret
    then fail_open a.info_ret c1
    else if p.transmuxing
    then (done, c1)
    else open_decoders p a c1

-- lpms_transcode_reopen_demux
unfoldable pub reopen_demux : InputParams → Answers → InputCtx → Ret × InputCtx
reopen_demux p a c = open_input p a (free_input c)
