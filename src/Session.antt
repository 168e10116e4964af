-- ===== src/Session.antt =====
-- What a handle keeps from one segment to the next: the start of lpms_transcode, transcode_init and
-- transcode_shutdown of ffmpeg/transcoder.c, on the side of the input. The outputs are left to
-- Thread.
pub mod Reopen
pub mod Bounds
pub mod Copies
mod Tests
use lpms.Common.{
  ℕ, zero, suc, ℤ, pos, nopts, ltb_ℤ, Bool, true, false, not, ◌&&◌, ◌||◌, Option, none, some, List,
  [], ◌∷◌, if◌then◌else◌, ltb, ◌==◌, length, map,
}
use lpms.Ret.{Ret, err, done, failed, is_eof, eof_is_done, lpms_err, demuxer_not_found, outputs}
use lpms.Media.{is_hw, is_cuda}
use lpms.Codec.{InputCtx}
use lpms.Filter.{EncoderName, needs_decoder}
use lpms.Input.{
  InputParams, Answers, free_input, open_input, open_video_decoder, open_audio_decoder,
}

-- The part of `struct transcode_thread` that outlives a segment. `is_mpegts` and `has_pb` are about
-- the demuxer that is open: its format, and whether its file is open.
pub record Handle : Type 0 where
  pub initialized : Bool
  pub nb_outputs : ℕ
  pub ictx : InputCtx
  pub is_mpegts : Bool
  pub has_pb : Bool
  pub last_format : Option ℕ

-- Only a demuxer of mpegts is kept, with its file closed.
unfoldable pub shut_demuxer : Handle → Handle
shut_demuxer h = elim h.ictx.ic [
  | none ↦ h
  | some streams ↦
      if h.is_mpegts
      then record h { has_pb = false }
      else record h { ictx = record h.ictx { ic = none }; has_pb = false }
]

unfoldable pub reset_input : InputCtx → InputCtx
reset_input c = record c {
  flushed = false;
  flushing = false;
  pkt_diff = 0;
  sentinel_count = 0;
  flush_pkt = none;
  has_ac = false;
  has_vc = c.has_vc && is_hw c.hw_type;
}

unfoldable pub transcode_shutdown : Handle → Ret → Ret × Handle
transcode_shutdown h ret =
    let h' = shut_demuxer h in (eof_is_done ret, record h' { ictx = reset_input h'.ictx })

-- What libav answers to transcode_init, beside what it answers to open_input: the result of avio_open,
-- whether what it opens is mpegts, and the pixel format of the video stream.
pub record Reopening : Type 0 where
  pub answers : Answers
  pub avio_ret : Ret
  pub mpegts : Bool
  pub format : ℕ

-- A step of transcode_init: its result, whether the decoders are to be opened again, and the handle.
abbrev pub InitStep : Type 0
InitStep = Ret × Bool × Handle

unfoldable pub reopen_input : InputParams → Reopening → Handle → InitStep
reopen_input p r h = elim h.ictx.ic [
  | none ↦
      let a = r.answers in
      let h' = record h {
        ictx = record h.ictx { ic = some a.streams };
        has_pb = true;
        is_mpegts = r.mpegts;
      } in
      if p.names_demuxer && not a.finds_format
      then (err demuxer_not_found, false, h)
      else if failed a.open_ret
      then (a.open_ret, false, h)
      else if failed a.info_ret
      then (a.info_ret, false, h')
      else (done, not h.ictx.transmuxing, h')
  | some streams ↦
      if h.is_mpegts && not h.has_pb
      then (if failed r.avio_ret
          then (r.avio_ret, false, h)
          else (done, not h.ictx.transmuxing, record h { has_pb = true }))
      else (done, false, h)
]

abbrev eq_format : Option ℕ → ℕ → Bool
eq_format none n = false
eq_format (some m) n = m == n

abbrev is_unset : Option ℕ → Bool
is_unset none = true
is_unset (some n) = false

-- On CUDA a change of the pixel format closes the input and opens it again.
unfoldable pub check_format : InputParams → Reopening → Bool → Handle → InitStep
check_format p r reopen_decoders h =
    if is_cuda h.ictx.hw_type && not (ltb_ℤ h.ictx.vi (pos 0))
    then (let h' = record h { last_format = some r.format } in
        if is_unset h.last_format || eq_format h.last_format r.format
        then (done, reopen_decoders, h')
        else (let (ret, c) = open_input p r.answers (free_input h.ictx) in
            (ret, false, record h' { ictx = c; has_pb = true; is_mpegts = r.mpegts })))
    else (done, reopen_decoders, h)

unfoldable pub reopen_decoders : InputParams → Reopening → Handle → Ret × Handle
reopen_decoders p r h =
    let (ret, c) =
      if is_hw h.ictx.hw_type then (done, h.ictx) else open_video_decoder p r.answers h.ictx in
    if failed ret
    then (ret, record h { ictx = c })
    else (let (ret', c') = open_audio_decoder r.answers c in (ret', record h { ictx = c' }))

-- transcode_init up to its outputs, before the clean-up.
unfoldable pub init_input : InputParams → Reopening → Handle → Ret × Handle
init_input p r h0 =
    let h = record h0 { ictx = record h0.ictx { last_video_pts = nopts } } in
    let (ret1, reopen1, h1) = reopen_input p r h in
    if failed ret1
    then (ret1, h1)
    else (let (ret2, reopen2, h2) = check_format p r reopen1 h1 in
        if failed ret2 then (ret2, h2) else if reopen2 then reopen_decoders p r h2 else (done, h2))

unfoldable pub transcode_init : InputParams → Reopening → Handle → Ret × Handle
transcode_init p r h =
    let (ret, h') = init_input p r h in if failed ret then transcode_shutdown h' ret else (done, h')

abbrev pub max_outputs : ℕ
max_outputs = 10

-- The decoder of a kind is skipped: the flag is written at each output that does without it.
unfoldable pub skip_decoder : ℕ → List EncoderName → ℕ → Bool → Bool
skip_decoder nb_outputs [] seen flag = flag
skip_decoder nb_outputs (name ∷ names) seen flag =
    if needs_decoder name
    then skip_decoder nb_outputs names seen flag
    else skip_decoder nb_outputs names (suc seen) (suc seen == nb_outputs)

-- The names of the encoders of an output.
pub record OutputNames : Type 0 where
  pub video_name : EncoderName
  pub audio_name : EncoderName

-- The start of lpms_transcode, up to the call of transcode.
unfoldable pub first_open : InputParams → Reopening → List OutputNames → Handle → Ret × Handle
first_open p r params h =
    let n = length params in
    let videos = map (λ (o : OutputNames). o.video_name) params in
    let audios = map (λ (o : OutputNames). o.audio_name) params in
    if ltb max_outputs n
    then (err outputs, h)
    else (let c = record h.ictx {
      dv = skip_decoder n videos 0 h.ictx.dv;
      da = skip_decoder n audios 0 h.ictx.da;
    } in
        let (ret, c') = open_input p r.answers c in
        (
          ret,
          record h { nb_outputs = n; ictx = c'; has_pb = not (failed ret); is_mpegts = r.mpegts },
        ))

unfoldable pub begin_transcode :
    InputParams → Reopening → Reopening → List OutputNames → Handle → Ret × Handle
begin_transcode p r0 r params h =
    let (ret, h') = if h.initialized then (done, h) else first_open p r0 params h in
    if failed ret
    then (ret, h')
    else if h'.nb_outputs == length params
    then transcode_init p r h'
    else (err outputs, h')
