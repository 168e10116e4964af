-- ===== src/Session/Bounds.antt =====
-- The number of outputs of a handle, which has places for ten.
use lpms.Common.{nopts, ◌≤◌, ◌≡◌, ◌⊎◌, arith, Bool, true, false, none, List, length}
use lpms.Ret.{Ret, err, done, eof, failed}
use lpms.Input.{InputParams}
use lpms.Session.{
  Handle, OutputNames, Reopening, shut_demuxer, reset_input, transcode_shutdown, reopen_input,
  check_format, reopen_decoders, init_input, transcode_init, first_open, begin_transcode,
}

reopen_input_count :
    (p : InputParams) (r : Reopening) (h : Handle)
    → (reopen_input p r h).2.nb_outputs ≡ h.nb_outputs
unfolding reopen_input
reopen_input_count p r h = ground arith

check_format_count :
    (p : InputParams) (r : Reopening) (again : Bool) (h : Handle)
    → (check_format p r again h).2.nb_outputs ≡ h.nb_outputs
unfolding check_format
check_format_count p r again h = ground arith

reopen_decoders_count :
    (p : InputParams) (r : Reopening) (h : Handle)
    → (reopen_decoders p r h).1.nb_outputs ≡ h.nb_outputs
unfolding reopen_decoders
reopen_decoders_count p r h = ground arith

pub shutdown_count :
    (h : Handle) (ret : Ret) → (transcode_shutdown h ret).1.nb_outputs ≡ h.nb_outputs
unfolding transcode_shutdown shut_demuxer
shutdown_count h ret = ground arith

pub init_input_count :
    (p : InputParams) (r : Reopening) (h : Handle) → (init_input p r h).1.nb_outputs ≡ h.nb_outputs
unfolding init_input
init_input_count p r h =
    let h0 : Handle = record h { ictx = record h.ictx { last_video_pts = nopts } } in
    let (ret1, again1, h1) = reopen_input p r h0 in
    let (ret2, again2, h2) = check_format p r again1 h1 in
    ground (
      arith,
      reopen_input_count p r h0,
      check_format_count p r again1 h1,
      reopen_decoders_count p r h2,
    )

init_count :
    (p : InputParams) (r : Reopening) (h : Handle)
    → (transcode_init p r h).1.nb_outputs ≡ h.nb_outputs
unfolding transcode_init
init_count p r h =
    let (ret, h') = init_input p r h in
    ground (arith, init_input_count p r h, shutdown_count h' ret)

-- Whatever parameters a caller gives and whatever they meet, a handle that has at most ten outputs
-- keeps at most ten, and it goes on to transcode only if they are as many as the parameters.
pub begin_transcode-bounded :
    (p : InputParams) (r0 r : Reopening) (params : List OutputNames) (h : Handle)
    → h.nb_outputs ≤ 10
    → let (ret, h') = begin_transcode p r0 r params h in
      (h'.nb_outputs ≤ 10) × ((failed ret ≡ true) ⊎ (h'.nb_outputs ≡ length params))
unfolding begin_transcode first_open
begin_transcode-bounded p r0 r params h few =
    ground (arith, few, init_count p r h, init_count p r (first_open p r0 params h).1)

-- Where no demuxer is open and it cannot be opened again because the file is at its end,
-- transcode_init returns 0, with no demuxer open.
pub transcode_init-hides_eof :
    (p : InputParams) (r : Reopening) (h : Handle)
    → h.ictx.ic ≡ none
    → p.names_demuxer ≡ false
    → r.answers.open_ret ≡ err eof
    → let (ret, h') = transcode_init p r h in (ret ≡ done) × (h'.ictx.ic ≡ none)
unfolding transcode_init init_input reopen_input transcode_shutdown shut_demuxer reset_input
transcode_init-hides_eof p r h closed unnamed ends = ground (arith, closed, unnamed, ends)
