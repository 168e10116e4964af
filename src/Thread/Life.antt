-- ===== src/Thread/Life.antt =====
-- The life of a handle, from lpms_transcode_new on: calls of lpms_transcode, lpms_transcode_reopen_demux
-- and lpms_transcode_discontinuity.
use lpms.Common.{
  ℕ, ◌≡◌, ◌⊎◌, refl, arith, Bool, true, false, not, Option, none, some, length, if_split, ◌==◌, inl,
  inr, All-replicate,
}
use lpms.Ret.{Ret, done, failed}
use lpms.Input.{InputParams, Answers, free_input, reopen_demux}
use lpms.Queue.{FifoApi}
use lpms.Session.{max_outputs}
use lpms.Outlet.Reopened.{IsIdle}
use lpms.Session.Copies.{open_input-copies}
use lpms.Thread.{Thread, new_thread, blank_output, transcode_discontinuity, transcode_reopen_demux}
use lpms.Thread.Init.{transcode_init}
use lpms.Thread.Kept.{IsKept, AllIdle, AllIdle-IsKept, transcode_init-IsKept}
use lpms.Thread.Loop.{World}
use lpms.Thread.Transcode.{
  Outcome, returns, breaks, used, transcode, mark_used, map_outcome, Request, RequestAnswers,
  open_first, lpms_transcode,
}
use lpms.Thread.Left.{Leaves, transcode-Leaves}

-- Between calls all outputs are idle, or the handle copies and those in use are open.
abbrev pub IsSound : Thread → Type 0
IsSound t =
    AllIdle t ⊎ ((t.handle.ictx.transmuxing ≡ true) × (t.handle.initialized ≡ true) × IsKept t)

-- A handle that copies is used to copy.
abbrev pub StaysCopy : Thread → InputParams → Type 0
StaysCopy t p = t.handle.ictx.transmuxing ≡ true → p.transmuxing ≡ true

pub IsSound-IsKept : (t : Thread) → IsSound t → IsKept t
IsSound-IsKept t (inl idle) = AllIdle-IsKept t idle
IsSound-IsKept t (inr (_, _, kept)) = kept

-- A handle that lpms_transcode goes on with.
abbrev CanStart : InputParams → Ret × Thread → Type 0
CanStart p (ret, t) =
    IsSound t × (AllIdle t ⊎ ((t.handle.ictx.transmuxing ≡ true) × (p.transmuxing ≡ true)))

can_start : (p : InputParams) (t : Thread) → IsSound t → StaysCopy t p → CanStart p (done, t)
can_start p t (inl idle) mode = (inl idle, inl idle)
can_start p t (inr (copied, old, kept)) mode = (inr (copied, old, kept), inr (copied, mode copied))

unused_idle : (t : Thread) → IsSound t → t.handle.initialized ≡ false → AllIdle t
unused_idle t (inl idle) e = idle
unused_idle t (inr (_, used, _)) e = absurd cc

abbrev SoundOutcome : Option Outcome → Type 0
SoundOutcome none = Unit
SoundOutcome (some breaks) = Unit
SoundOutcome (some (returns ret t)) = IsSound t

module _ (api : FifoApi) (w : World) where
  mark_used-SoundOutcome :
      (r : Option Outcome) → Leaves r → SoundOutcome (map_outcome api (mark_used api) r)
  mark_used-SoundOutcome none h = tt
  mark_used-SoundOutcome (some breaks) h = tt
  mark_used-SoundOutcome (some (returns ret t)) (inl idle) = inl idle
  mark_used-SoundOutcome (some (returns ret t)) (inr (copied, kept)) =
      inr (copied, refl, record { attached = kept.attached; spare = kept.spare })

  open_first-IsSound :
      (q : Request api) (a : RequestAnswers api) (t : Thread)
      → IsSound t
      → StaysCopy t q.input
      → CanStart q.input (open_first api q a t)
  unfolding open_first
  open_first-IsSound q a t h mode =
      if_split (CanStart q.input) t.handle.initialized _ _ (λ e. can_start q.input t h mode)
        λ e. let idle = unused_idle t h e in (inl idle, inl idle)

  lpms_transcode-SoundOutcome :
      (fuel : ℕ) (q : Request api) (a : RequestAnswers api) (t : Thread)
      → IsSound t
      → StaysCopy t q.input
      → SoundOutcome (lpms_transcode api fuel w q a t)
  unfolding lpms_transcode
  lpms_transcode-SoundOutcome fuel q a t h mode =
      let (ret1, t1) = open_first api q a t in
      let (sound1, mode1) = open_first-IsSound q a t h mode in
      let kept1 = IsSound-IsKept t1 sound1 in
      let (ret2, t2) = transcode_init w.ops a.reopens q.input a.again q.params t1 in
      if_split SoundOutcome (failed ret1) _ _ (λ e. sound1)
        λ e.
          if_split SoundOutcome (not (t1.handle.nb_outputs == length q.params)) _ _ (λ e. sound1)
            λ e.
              let n : t1.handle.nb_outputs ≡ length q.params = ground (arith, e) in
              let (kept2, ends) =
                transcode_init-IsKept w.ops a.reopens q.input a.again q.params t1 n kept1 mode1 in
              let r = transcode api fuel w a.transcoding a.queue q.decoded t2 in
              let ran = transcode-Leaves api w fuel a.transcoding a.queue q.decoded t2 kept2 in
              if_split SoundOutcome (failed ret2) _ _ (λ e. inl ground (arith, e, ends))
                λ e. mark_used-SoundOutcome r ran

  -- The handles that a caller can have, if one that copies is used to copy.
  pub data Life : Thread → Type 0 where
    born : Life new_thread
    transcodes :
        (fuel : ℕ) (q : Request api) (a : RequestAnswers api) (t t' : Thread) (ret : Ret)
        → Life t
        → StaysCopy t q.input
        → lpms_transcode api fuel w q a t ≡ some (returns ret t')
        → Life t'
    reopens :
        (p : InputParams) (a : Answers) (mpegts : Bool) (t : Thread)
        → Life t
        → StaysCopy t p
        → Life (transcode_reopen_demux p a mpegts t).1
    breaks_off : (t : Thread) → Life t → Life (transcode_discontinuity t)

  pub new_thread-AllIdle : AllIdle new_thread
  new_thread-AllIdle =
      All-replicate IsIdle max_outputs blank_output (record { no_oc = refl; no_pb = refl })

  reopen-IsSound :
      (p : InputParams) (a : Answers) (mpegts : Bool) (t : Thread)
      → IsSound t
      → StaysCopy t p
      → IsSound (transcode_reopen_demux p a mpegts t).1
  unfolding transcode_reopen_demux reopen_demux
  reopen-IsSound p a mpegts t (inl idle) mode = inl idle
  reopen-IsSound p a mpegts t (inr (copied, old, kept)) mode = inr (
    open_input-copies p a (free_input t.handle.ictx) (mode copied),
    old,
    record { attached = kept.attached; spare = kept.spare },
  )

  discontinuity-IsSound : (t : Thread) → IsSound t → IsSound (transcode_discontinuity t)
  unfolding transcode_discontinuity
  discontinuity-IsSound t (inl idle) = inl idle
  discontinuity-IsSound t (inr (copied, old, kept)) =
      inr (copied, old, record { attached = kept.attached; spare = kept.spare })

  -- Between the calls on a handle, whatever they met, no output holds a muxer or a file, or the handle
  -- copies; then each file has its muxer, and the outputs that are not in use hold neither. A handle
  -- that copies is used to copy.
  pub Life-IsSound : (t : Thread) → Life t → IsSound t
  Life-IsSound _ born = inl new_thread-AllIdle
  Life-IsSound _ (transcodes fuel q a t t' ret life mode e) =
      rw e at (lpms_transcode-SoundOutcome fuel q a t (Life-IsSound t life) mode)
  Life-IsSound _ (reopens p a mpegts t life mode) =
      reopen-IsSound p a mpegts t (Life-IsSound t life) mode
  Life-IsSound _ (breaks_off t life) = discontinuity-IsSound t (Life-IsSound t life)
