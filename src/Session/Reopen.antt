-- ===== src/Session/Reopen.antt =====
-- The input of a handle between segments: at rest, or ready for the next segment.
use lpms.Common.{
  ℕ, suc, ◌+◌, ◌<◌, pos, ◌≡◌, refl, sym, ap, ◌∙◌, nopts, ◌⊎◌, ◌≢◌, ◌<ℤ◌, arith, Bool, true, false,
  not, ◌&&◌, none, List, [], ◌∷◌, length, ◌==◌, Bool-cases, inl, inr,
}
use lpms.Ret.{eof_is_done, Ret, is_eof, failed, is_zero}
use lpms.Media.{is_hw}
use lpms.Codec.{InputCtx}
use lpms.Input.{
  InputParams, Answers, open_input, open_video_decoder, free_input, open_audio_decoder,
  create_audio, fail_audio, fail_open,
}
use lpms.Input.Closed.{Outcome, opens_or_closes, video_outcome, audio_outcome}
use lpms.Filter.{EncoderName, needs_decoder}
use lpms.Session.{
  skip_decoder, Handle, shut_demuxer, reset_input, transcode_shutdown, Reopening, reopen_input,
  check_format, reopen_decoders, init_input, transcode_init,
}

-- No file is open: there is no demuxer, or one of mpegts without its file. No decoder of audio is
-- open, and none of video but a hardware decoder. The state of the flush is reset.
pub record IsAtRest (h : Handle) : Type 0 where
  pub no_file : (h.ictx.ic ≡ none) ⊎ ((h.is_mpegts ≡ true) × (h.has_pb ≡ false))
  pub no_audio : h.ictx.has_ac ≡ false
  pub no_video : (h.ictx.has_vc ≡ false) ⊎ (is_hw h.ictx.hw_type ≡ true)
  pub not_flushed : h.ictx.flushed ≡ false
  pub not_flushing : h.ictx.flushing ≡ false
  pub no_packets : h.ictx.pkt_diff ≡ 0
  pub no_sentinels : h.ictx.sentinel_count ≡ 0
  pub no_flush_pkt : h.ictx.flush_pkt ≡ none

pub shutdown-IsAtRest : (h : Handle) (ret : Ret) → IsAtRest (transcode_shutdown h ret).1
unfolding transcode_shutdown shut_demuxer reset_input
shutdown-IsAtRest h ret = ground arith

abbrev pub all_skipped : List EncoderName → Bool
all_skipped [] = true
all_skipped (name ∷ names) = not (needs_decoder name) && all_skipped names

skip_decoder-short :
    (nb seen : ℕ) (names : List EncoderName)
    → seen + length names < nb
    → skip_decoder nb names seen false ≡ false
unfolding skip_decoder
skip_decoder-short nb seen [] h = refl
skip_decoder-short nb seen (x ∷ xs) h =
    let differs : (suc seen == nb) ≡ false = ground arith in
    elim (Bool-cases (needs_decoder x)) [
      | inl e ↦ rw (e, skip_decoder-short nb seen xs (omega arith)) refl
      | inr e ↦ rw (e, differs, skip_decoder-short nb (suc seen) xs (omega arith)) refl
    ]

skip_decoder-all :
    (nb seen : ℕ) (names : List EncoderName)
    → seen + length names ≡ nb
    → skip_decoder nb names seen (seen == nb) ≡ all_skipped names
unfolding skip_decoder
skip_decoder-all nb seen [] h = ground (arith, h)
skip_decoder-all nb seen (x ∷ xs) h =
    let differs : (seen == nb) ≡ false = ground arith in
    elim (Bool-cases (needs_decoder x)) [
      | inl e ↦ rw (e, differs, skip_decoder-short nb seen xs (omega arith)) refl
      | inr e ↦ rw (e, skip_decoder-all nb (suc seen) xs (omega arith)) refl
    ]

-- On a handle whose flag is not set yet, the decoder of a kind is skipped exactly if none of the
-- outputs, of which there is one at least, needs it.
pub skip_decoder-eq-all_skipped :
    (name : EncoderName) (names : List EncoderName)
    → skip_decoder (length (name ∷ names)) (name ∷ names) 0 false ≡ all_skipped (name ∷ names)
skip_decoder-eq-all_skipped name names =
    let n = length (name ∷ names) in
    let unseen : (0 == n) ≡ false = ground arith in
    ap (λ flag. skip_decoder n (name ∷ names) 0 flag) (sym unseen)
    ∙ skip_decoder-all n 0 (name ∷ names) (omega arith)

-- The file and the demuxer are open, and unless the input is only copied, so is the decoder of each
-- stream that was found and is not skipped; a hardware decoder of video is as it was.
pub record IsReady (h : Handle) : Type 0 where
  pub demuxer : h.ictx.ic ≢ none
  pub file : h.has_pb ≡ true
  pub video_decoder :
      (h.ictx.transmuxing ≡ true)
      ⊎ (is_hw h.ictx.hw_type ≡ true)
      ⊎ (h.ictx.dv ≡ true)
      ⊎ (h.ictx.vi <ℤ pos 0)
      ⊎ (h.ictx.has_vc ≡ true)
  pub audio_decoder :
      (h.ictx.transmuxing ≡ true)
      ⊎ (h.ictx.da ≡ true)
      ⊎ (h.ictx.ai <ℤ pos 0)
      ⊎ (h.ictx.has_ac ≡ true)

-- What reopening the demuxer leaves.
reopen_input-opens :
    (p : InputParams) (r : Reopening) (h : Handle)
    → (h.ictx.ic ≡ none) ⊎ ((h.is_mpegts ≡ true) × (h.has_pb ≡ false))
    → let (ret, again, h') = reopen_input p r h in
      (failed ret ≡ true)
      ⊎ ((h'.ictx.ic ≢ none) × (h'.has_pb ≡ true) × (again ≡ not h'.ictx.transmuxing))
unfolding reopen_input
reopen_input-opens p r h w = ground (arith, w)

abbrev Opens : Ret × InputCtx → Type 0
Opens (ret, c') =
    (failed ret ≡ true)
    ⊎ ((c'.ic ≢ none)
        × ((c'.transmuxing ≡ true)
            ⊎ (((c'.dv ≡ true) ⊎ (c'.vi <ℤ pos 0) ⊎ (c'.has_vc ≡ true))
                × ((c'.da ≡ true) ⊎ (c'.ai <ℤ pos 0) ⊎ (c'.has_ac ≡ true)))))

decoding_input :
    (p : InputParams) (out : Ret × InputCtx) → p.transmuxing ≡ false → Outcome p out → Opens out
decoding_input p (ret, c') e (inl h) = inl h.0
decoding_input p (ret, c') e (inr (_, h)) =
    inr (h.demuxer, inr (ground (arith, e, h.video_decoder), ground (arith, e, h.audio_decoder)))

copied_input :
    (p : InputParams) (a : Answers) (c : InputCtx) → p.transmuxing ≡ true → Opens (open_input p a c)
unfolding open_input fail_open free_input
copied_input p a c e = ground (arith, e)

open_input-Opens : (p : InputParams) (a : Answers) (c : InputCtx) → Opens (open_input p a c)
open_input-Opens p a c = elim (Bool-cases p.transmuxing) [
  | inl e ↦ copied_input p a c e
  | inr e ↦ decoding_input p (open_input p a c) e (opens_or_closes p a c)
]

check_format-opens :
    (p : InputParams) (r : Reopening) (again : Bool) (h : Handle)
    → h.ictx.ic ≢ none
    → h.has_pb ≡ true
    → again ≡ not h.ictx.transmuxing
    → let (ret, again', h') = check_format p r again h in
      (failed ret ≡ true)
      ⊎ ((h'.has_pb ≡ true)
          × (h'.ictx.ic ≢ none)
          × ((again' ≡ not h'.ictx.transmuxing) ⊎ IsReady h'))
unfolding check_format
check_format-opens p r again h opened file e =
    ground (arith, open_input-Opens p r.answers (free_input h.ictx))

audio_keeps_hw :
    (a : Answers) (c : InputCtx)
    → let (ret, c') = open_audio_decoder a c in
      (failed ret ≡ true) ⊎ ((c'.hw_type ≡ c.hw_type) × (c'.ic ≡ c.ic))
unfolding open_audio_decoder create_audio fail_audio
audio_keeps_hw a c = ground arith

reopen_decoders-IsReady :
    (p : InputParams) (r : Reopening) (h : Handle)
    → h.ictx.ic ≢ none
    → h.has_pb ≡ true
    → let (ret, h') = reopen_decoders p r h in (failed ret ≡ true) ⊎ IsReady h'
unfolding reopen_decoders
reopen_decoders-IsReady p r h opened file =
    let a = r.answers in
    let c1 = (open_video_decoder p a h.ictx).1 in
    elim (Bool-cases (is_hw h.ictx.hw_type)) [
      | inl e ↦ ground (arith, e, opened, file, audio_outcome p a h.ictx, audio_keeps_hw a h.ictx)
      | inr e ↦ ground (arith, e, opened, file, video_outcome p a h.ictx, audio_outcome p a c1)
    ]

init_input-IsReady :
    (p : InputParams) (r : Reopening) (h : Handle)
    → IsAtRest h
    → let (ret, h') = init_input p r h in (failed ret ≡ true) ⊎ IsReady h'
unfolding init_input
init_input-IsReady p r h w =
    let h0 : Handle = record h { ictx = record h.ictx { last_video_pts = nopts } } in
    let (ret1, again1, h1) = reopen_input p r h0 in
    let h2 = (check_format p r again1 h1).2 in
    elim (reopen_input-opens p r h0 w.no_file) [
      | inl bad ↦ ground (arith, bad)
      | inr (opened, file, e) ↦
          ground
            (arith, check_format-opens p r again1 h1 opened file e, reopen_decoders-IsReady p r h2)
    ]

pub shutdown_ret : (h : Handle) (ret : Ret) → (transcode_shutdown h ret).0 ≡ eof_is_done ret
unfolding transcode_shutdown
shutdown_ret h ret = refl

-- After a segment, whatever it left, transcode_init makes the input ready for the next one, or puts it
-- back to rest and returns its error; but an error that is the end of the file is returned as 0.
pub transcode_init-Outcome :
    (p : InputParams) (r : Reopening) (h : Handle) (ret : Ret)
    → let (ret', h') = transcode_init p r (transcode_shutdown h ret).1 in
      ((is_zero ret' ≡ true) × IsReady h')
      ⊎ (((failed ret' ≡ true) ⊎ (is_eof (init_input p r (transcode_shutdown h ret).1).0 ≡ true))
          × IsAtRest h')
unfolding transcode_init
transcode_init-Outcome p r h ret =
    let h0 = (transcode_shutdown h ret).1 in
    let (ret1, h1) = init_input p r h0 in
    ground (
      arith,
      init_input-IsReady p r h0 (shutdown-IsAtRest h ret),
      shutdown-IsAtRest h1 ret1,
      shutdown_ret h1 ret1,
    )
