-- ===== src/Session/Copies.antt =====
-- An input that is copied stays one from one segment to the next.
use lpms.Common.{◌≡◌, arith, Bool, true, nopts}
use lpms.Codec.{InputCtx}
use lpms.Input.{
  InputParams, Answers, free_input, open_input, fail_open, open_video_decoder, create_video,
  attach_video, start_video, fail_video, open_audio_decoder, create_audio, fail_audio,
}
use lpms.Session.{Handle, Reopening, reopen_input, check_format, reopen_decoders, init_input}

abbrev IsCopied : Handle → Type 0
IsCopied h = h.ictx.transmuxing ≡ true

pub open_input-copies :
    (p : InputParams) (a : Answers) (c : InputCtx)
    → p.transmuxing ≡ true
    → (open_input p a c).1.transmuxing ≡ true
unfolding open_input fail_open free_input
open_input-copies p a c e = ground (arith, e)

reopen_input-copies :
    (p : InputParams) (r : Reopening) (h : Handle) → IsCopied h → IsCopied (reopen_input p r h).2
unfolding reopen_input
reopen_input-copies p r h e = ground (arith, e)

check_format-copies :
    (p : InputParams) (r : Reopening) (again : Bool) (h : Handle)
    → p.transmuxing ≡ true
    → IsCopied h
    → IsCopied (check_format p r again h).2
unfolding check_format
check_format-copies p r again h e copied =
    ground (arith, copied, open_input-copies p r.answers (free_input h.ictx) e)

video-copies :
    (p : InputParams) (a : Answers) (c : InputCtx)
    → (open_video_decoder p a c).1.transmuxing ≡ c.transmuxing
unfolding open_video_decoder create_video attach_video start_video fail_video free_input
video-copies p a c = ground arith

audio-copies : (a : Answers) (c : InputCtx) → (open_audio_decoder a c).1.transmuxing ≡ c.transmuxing
unfolding open_audio_decoder create_audio fail_audio free_input
audio-copies a c = ground arith

reopen_decoders-copies :
    (p : InputParams) (r : Reopening) (h : Handle) → IsCopied h → IsCopied (reopen_decoders p r h).1
unfolding reopen_decoders
reopen_decoders-copies p r h e =
    let c = (open_video_decoder p r.answers h.ictx).1 in
    ground (
      arith,
      e,
      video-copies p r.answers h.ictx,
      audio-copies r.answers c,
      audio-copies r.answers h.ictx,
    )

pub init_input-copies :
    (p : InputParams) (r : Reopening) (h : Handle)
    → p.transmuxing ≡ true
    → h.ictx.transmuxing ≡ true
    → (init_input p r h).1.ictx.transmuxing ≡ true
unfolding init_input
init_input-copies p r h e copied =
    let h0 : Handle = record h { ictx = record h.ictx { last_video_pts = nopts } } in
    let (ret1, again1, h1) = reopen_input p r h0 in
    let (ret2, again2, h2) = check_format p r again1 h1 in
    let one = reopen_input-copies p r h0 copied in
    let two = check_format-copies p r again1 h1 e one in
    ground (arith, one, two, reopen_decoders-copies p r h2 two)
