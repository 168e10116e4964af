-- ===== src/Thread/Stop.antt =====
-- What lpms_transcode_stop gives back after the life of a handle.
use lpms.Common.{
  ℕ, List, ltb, ◌≡◌, ◌⊎◌, refl, ◌∙◌, arith, true, not, ◌==◌, Option, none, some, length, if_split,
  inl, inr, All, All-map,
}
use lpms.Ret.{Ret, failed}
use lpms.Codec.{InputCtx}
use lpms.Input.{InputParams, Answers, free_input, open_input, reopen_demux}
use lpms.Input.Closed.{IsClosed, open_input-flush_pkt}
use lpms.Outlet.{free_output}
use lpms.Outlet.Held.{IsAttached, IsFreed, free_output-IsFreed}
use lpms.Queue.{FifoApi}
use lpms.Session.{Reopening, OutputNames, Handle, max_outputs, first_open}
use lpms.Session.Copies.{open_input-copies}
use lpms.Thread.{Thread, transcode_stop, transcode_discontinuity, transcode_reopen_demux}
use lpms.Thread.Init.{names_of, transcode_init}
use lpms.Thread.Loop.{World}
use lpms.Thread.Transcode.{
  Outcome, returns, breaks, transcode, mark_used, map_outcome, Request, RequestAnswers, open_first,
  lpms_transcode,
}
use lpms.Thread.Ends.{RanTo, transcode-RanTo, init-IsShut}
use lpms.Thread.Life.{
  IsSound-IsKept, StaysCopy, Life, born, transcodes, reopens, breaks_off, Life-IsSound,
}

-- No packet is kept for flushing the decoder, unless the input is copied.
abbrev pub NothingKept : InputCtx → Type 0
NothingKept c = (c.flush_pkt ≡ none) ⊎ (c.transmuxing ≡ true)

abbrev Stays : InputCtx → InputParams → Type 0
Stays c p = c.transmuxing ≡ true → p.transmuxing ≡ true

-- Opening keeps the packet, if there is one.
opened-NothingKept :
    (p : InputParams) (a : Answers) (c : InputCtx)
    → NothingKept c
    → Stays c p
    → NothingKept (open_input p a c).1
opened-NothingKept p a c (inl e) mode = inl (open_input-flush_pkt p a c ∙ e)
opened-NothingKept p a c (inr e) mode = inr (open_input-copies p a c (mode e))

abbrev HandleKept : Ret × Handle → Type 0
HandleKept (ret, h) = NothingKept h.ictx

first_open-NothingKept :
    (p : InputParams) (r : Reopening) (params : List OutputNames) (h : Handle)
    → NothingKept h.ictx
    → Stays h.ictx p
    → HandleKept (first_open p r params h)
unfolding first_open
first_open-NothingKept p r params h kept mode =
    if_split HandleKept (ltb max_outputs (length params)) _ _ (λ e. kept)
      λ e. opened-NothingKept p r.answers _ kept mode

abbrev ThreadKept : Ret × Thread → Type 0
ThreadKept (ret, t) = NothingKept t.handle.ictx

abbrev OutcomeKept : Option Outcome → Type 0
OutcomeKept none = Unit
OutcomeKept (some breaks) = Unit
OutcomeKept (some (returns ret t)) = NothingKept t.handle.ictx

module _ (api : FifoApi) (w : World) where
  open_first-NothingKept :
      (q : Request api) (a : RequestAnswers api) (t : Thread)
      → NothingKept t.handle.ictx
      → StaysCopy t q.input
      → ThreadKept (open_first api q a t)
  unfolding open_first
  open_first-NothingKept q a t kept mode =
      if_split ThreadKept t.handle.initialized _ _ (λ e. kept)
        λ e. first_open-NothingKept q.input a.first (names_of q.params) t.handle kept mode

  ran-NothingKept : (r : Option Outcome) → RanTo r → OutcomeKept (map_outcome api (mark_used api) r)
  ran-NothingKept none h = tt
  ran-NothingKept (some breaks) h = tt
  ran-NothingKept (some (returns ret t)) (inl shut) = inl shut.at_rest.no_flush_pkt
  ran-NothingKept (some (returns ret t)) (inr copied) = inr copied.copying

  lpms_transcode-NothingKept :
      (fuel : ℕ) (q : Request api) (a : RequestAnswers api) (t : Thread)
      → NothingKept t.handle.ictx
      → StaysCopy t q.input
      → OutcomeKept (lpms_transcode api fuel w q a t)
  unfolding lpms_transcode
  lpms_transcode-NothingKept fuel q a t kept mode =
      let (ret1, t1) = open_first api q a t in
      let kept1 = open_first-NothingKept q a t kept mode in
      let (ret2, t2) = transcode_init w.ops a.reopens q.input a.again q.params t1 in
      let r = transcode api fuel w a.transcoding a.queue q.decoded t2 in
      let ran = transcode-RanTo api w fuel a.transcoding a.queue q.decoded t2 in
      if_split OutcomeKept (failed ret1) _ _ (λ e. kept1)
        λ e.
          if_split OutcomeKept (not (t1.handle.nb_outputs == length q.params)) _ _ (λ e. kept1)
            λ e.
              if_split OutcomeKept (failed ret2) _ _
                (λ e. inl (init-IsShut api w q a t1 e).at_rest.no_flush_pkt)
                λ e. ran-NothingKept r ran

  Life-NothingKept : (t : Thread) → Life api w t → NothingKept t.handle.ictx
  unfolding transcode_reopen_demux transcode_discontinuity reopen_demux free_input
  Life-NothingKept _ born = inl refl
  Life-NothingKept _ (transcodes fuel q a t t' ret life mode e) =
      rw e at (lpms_transcode-NothingKept fuel q a t (Life-NothingKept t life) mode)
  Life-NothingKept _ (reopens p a mpegts t life mode) =
      opened-NothingKept p a (free_input t.handle.ictx) (Life-NothingKept t life) mode
  Life-NothingKept _ (breaks_off t life) = Life-NothingKept t life

  free_input-IsClosed : (c : InputCtx) → IsClosed (free_input c)
  unfolding free_input
  free_input-IsClosed c = ground arith

  -- After lpms_transcode_stop nothing is left of what a handle held, whatever its calls met: no output
  -- has a muxer, file, encoder or filter, the input has no demuxer, codec, device, last frame or
  -- blocked packet, and, unless the handle copies, no packet for flushing the decoder, which the calls
  -- before have given back. A handle that copies is used to copy.
  pub transcode_stop-Frees :
      (t : Thread)
      → Life api w t
      → let t' = transcode_stop t in
        All IsFreed t'.outputs × IsClosed t'.handle.ictx × NothingKept t'.handle.ictx
  unfolding transcode_stop free_input
  transcode_stop-Frees t life = (
    All-map IsAttached IsFreed free_output t.outputs free_output-IsFreed
        (IsSound-IsKept t (Life-IsSound api w t life)).attached,
    free_input-IsClosed t.handle.ictx,
    Life-NothingKept t life,
  )
