-- ===== src/Thread/Ends.antt =====
-- How a call of lpms_transcode ends.
use lpms.Common.{
  ap, length-map, ℕ, ◌≡◌, ◌⊎◌, refl, arith, true, false, not, ◌==◌, ltb, Option, none, some, List,
  length, Bool-cases, Option-cases, if_split, inl, inr,
}
use lpms.Ret.{Ret, err, done, failed, is_eof, eof_is_done, outputs, lpms_err}
use lpms.Codec.{InputCtx}
use lpms.Input.{InputParams}
use lpms.Input.Closed.{IsClosed, Outcome, opens_or_closes}
use lpms.Outlet.{OutputCtx}
use lpms.ProcessOut.{Ended, returned, dangling}
use lpms.Queue.{FifoApi, Queue}
use lpms.Dispatch.{Decoded}
use lpms.Session.{Handle, Reopening, OutputNames, max_outputs, first_open, init_input}
use lpms.Session.Reopen.{IsAtRest, shutdown-IsAtRest, shutdown_ret}
use lpms.Segment.{Fate, goes, finishes, crashes, stops}
use lpms.Thread.{Thread, transcode_shutdown}
use lpms.Thread.Flush.{FlushAnswers}
use lpms.Thread.Init.{names_of, OutputParams, init_outputs, transcode_init}
use lpms.Thread.Loop.{World, Running, run_loop}
use lpms.Thread.Transcode
use lpms.Thread.Transcode.{
  returns, breaks, TranscodeAnswers, with_used, shut, shut_flushed, start, after, finish_loop,
  end_loop, transcode, mark_used, map_outcome, Request, RequestAnswers, open_first, lpms_transcode,
}

-- Shut down: the input is at rest, and the end of the file is not an error.
pub record IsShut (ret : Ret) (t : Thread) : Type 0 where
  pub at_rest : IsAtRest t.handle
  pub no_eof : is_eof ret ≡ false

-- A copy that came to its end: the demuxer is closed.
pub record IsCopied (ret : Ret) (t : Thread) : Type 0 where
  pub zero : ret ≡ done
  pub copying : t.handle.ictx.transmuxing ≡ true
  pub no_ic : t.handle.ictx.ic ≡ none
  pub no_file : t.handle.has_pb ≡ false

-- The call was refused for its number of outputs, and the handle is as it was, or the input could not
-- be opened.
pub record IsRefused (before : Thread) (ret : Ret) (t : Thread) : Type 0 where
  pub error : failed ret ≡ true
  pub same : t.outputs ≡ before.outputs
  pub why : ((ret ≡ err outputs) × (t ≡ before)) ⊎ IsClosed t.handle.ictx

eof_is_done-no_eof : (ret : Ret) → is_eof (eof_is_done ret) ≡ false
eof_is_done-no_eof ret = ground arith

shutdown-IsShut :
    (t : Thread) (ret : Ret) → let (ret', t') = transcode_shutdown t ret in IsShut ret' t'
unfolding transcode_shutdown
shutdown-IsShut t ret = record {
  at_rest = shutdown-IsAtRest t.handle ret;
  no_eof = rw (shutdown_ret t.handle ret) (eof_is_done-no_eof ret);
}

abbrev pub ShutIfFailed : Ret × Thread → Type 0
ShutIfFailed (ret, t) = failed ret ≡ true → IsShut ret t

-- With an error the handle is as it was or the input is closed; else there are `n` outputs.
abbrev ClosedIfFailed : ℕ → Handle → Ret × Handle → Type 0
ClosedIfFailed n before (ret, h) =
    (failed ret ≡ true → ((ret ≡ err outputs) × (h ≡ before)) ⊎ IsClosed h.ictx)
    × (failed ret ≡ false → (h.nb_outputs == n) ≡ true)

abbrev LeftIfFailed : ℕ → Thread → Ret × Thread → Type 0
LeftIfFailed n before (ret, t) =
    (t.outputs ≡ before.outputs)
    × (failed ret ≡ true → ((ret ≡ err outputs) × (t ≡ before)) ⊎ IsClosed t.handle.ictx)
    × (failed ret ≡ false → (t ≡ before) ⊎ ((t.handle.nb_outputs == n) ≡ true))

out-IsClosed :
    (p : InputParams) (out : Ret × InputCtx) → Outcome p out → failed out.0 ≡ true → IsClosed out.1
out-IsClosed p out (inl (_, closed)) f = closed
out-IsClosed p out (inr (zero, _)) f = absurd ground (arith, zero, f)

first_open-Ends :
    (p : InputParams) (r : Reopening) (params : List OutputNames) (h : Handle)
    → ClosedIfFailed (length params) h (first_open p r params h)
unfolding first_open
first_open-Ends p r params h =
    if_split (ClosedIfFailed (length params) h) (ltb max_outputs (length params)) _ _
      (λ e. (λ f. inl (refl, refl), λ f. absurd cc))
      λ e. (λ f. inr (out-IsClosed p _ (opens_or_closes p r.answers _) f), λ f. ground arith)

-- How a call of `transcode` ends.
abbrev pub RanTo : Option Transcode.Outcome → Type 0
RanTo none = Unit
RanTo (some breaks) = Unit
RanTo (some (returns ret t)) = IsShut ret t ⊎ IsCopied ret t

module _ (api : FifoApi) (w : World) where
  flushed-RanTo : (t : Thread) (r : Option (Ended × List OutputCtx)) → RanTo (shut_flushed t r)
  unfolding shut_flushed
  flushed-RanTo t none = tt
  flushed-RanTo t (some (dangling, os)) = tt
  flushed-RanTo t (some (returned ret, os)) = inl (shutdown-IsShut (with_used os t) ret)

  end_loop-RanTo :
      (fuel : ℕ) (answers : ℕ → FlushAnswers) (fate : Fate) (st : Running api) (t : Thread)
      → RanTo (end_loop api fuel w answers fate st t)
  unfolding end_loop finish_loop
  end_loop-RanTo fuel answers goes st t = tt
  end_loop-RanTo fuel answers crashes st t = tt
  end_loop-RanTo fuel answers (stops ret) st t = inl (shutdown-IsShut (after api st t) ret)
  end_loop-RanTo fuel answers finishes st t =
      if_split RanTo st.ictx.transmuxing _ _
        (λ e. inr (record { zero = refl; copying = e; no_ic = refl; no_file = refl }))
        λ e. flushed-RanTo (after api st t) _

  pub transcode-RanTo :
      (fuel : ℕ) (a : TranscodeAnswers) (queue : Queue api) (d : Decoded) (t : Thread)
      → RanTo (transcode api fuel w a queue d t)
  unfolding transcode
  transcode-RanTo fuel a queue d t = elim (Bool-cases (not a.allocs)) [
    | inl e ↦ rw (transcode, e) (inl (shutdown-IsShut t (lpms_err done)))
    | inr e ↦ elim (Option-cases (run_loop api fuel w a.rounds (start api queue d t))) [
      | inl e' ↦ rw (transcode, e, e') tt
      | inr ((fate, st), e') ↦ rw (transcode, e, e') (end_loop-RanTo fuel a.flushes fate st t)
    ]
  ]

  abbrev pub EndsWell : Thread → Option Transcode.Outcome → Type 0
  EndsWell t none = Unit
  EndsWell t (some breaks) = Unit
  EndsWell t (some (returns ret t')) = IsRefused t ret t' ⊎ IsShut ret t' ⊎ IsCopied ret t'

  mark_used-EndsWell :
      (t : Thread) (r : Option Transcode.Outcome)
      → RanTo r
      → EndsWell t (map_outcome api (mark_used api) r)
  mark_used-EndsWell t none h = tt
  mark_used-EndsWell t (some breaks) h = tt
  mark_used-EndsWell t (some (returns ret t')) (inl h) =
      let k = h.at_rest in
      inr (
        inl (record {
          at_rest = record {
            no_file = k.no_file;
            no_audio = k.no_audio;
            no_video = k.no_video;
            not_flushed = k.not_flushed;
            not_flushing = k.not_flushing;
            no_packets = k.no_packets;
            no_sentinels = k.no_sentinels;
            no_flush_pkt = k.no_flush_pkt;
          };
          no_eof = h.no_eof;
        }))
  mark_used-EndsWell t (some (returns ret t')) (inr h) =
      inr
        (inr (record { zero = h.zero; copying = h.copying; no_ic = h.no_ic; no_file = h.no_file }))

  pub init-IsShut :
      (q : Request api) (a : RequestAnswers api) (t : Thread)
      → ShutIfFailed (transcode_init w.ops a.reopens q.input a.again q.params t)
  unfolding transcode_init
  init-IsShut q a t =
      let (ret, h) = init_input q.input a.again t.handle in
      let (ret', os) = init_outputs w.ops a.reopens h.initialized h.ictx q.params t.outputs in
      if_split ShutIfFailed (failed ret) _ _ (λ e f. shutdown-IsShut _ ret)
        λ e.
          if_split ShutIfFailed (failed ret') _ _ (λ e f. shutdown-IsShut _ ret') λ e f. absurd cc

  left_as_was :
      (t : Thread) (ret : Ret) (h : Handle)
      → ((ret ≡ err outputs) × (h ≡ t.handle)) ⊎ IsClosed h.ictx
      → let t' : Thread = record t { handle = h } in
        ((ret ≡ err outputs) × (t' ≡ t)) ⊎ IsClosed t'.handle.ictx
  left_as_was t ret h (inl (e, same)) = inl (e, ap (λ h'. record t { handle = h' }) same)
  left_as_was t ret h (inr closed) = inr closed

  open_first-Ends :
      (q : Request api) (a : RequestAnswers api) (t : Thread)
      → LeftIfFailed (length (names_of q.params)) t (open_first api q a t)
  unfolding open_first
  open_first-Ends q a t =
      let n = length (names_of q.params) in
      let (closed, counted) = first_open-Ends q.input a.first (names_of q.params) t.handle in
      if_split (LeftIfFailed n t) t.handle.initialized _ _
        (λ e. (refl, λ f. absurd cc, λ f. inl refl))
        λ e. (refl, λ f. left_as_was t _ _ (closed f), λ f. inr (counted f))

  -- Where lpms_transcode returns, it was refused with an error (the number of outputs is wrong, and the
  -- handle is in all as it was; or the input could not be opened and is closed, and the outputs are as
  -- they were); or the input is at rest, and the result is not the end of the file; or it copied to the
  -- end, returns 0, and the demuxer is closed.
  pub lpms_transcode-EndsWell :
      (fuel : ℕ) (q : Request api) (a : RequestAnswers api) (t : Thread)
      → EndsWell t (lpms_transcode api fuel w q a t)
  unfolding lpms_transcode
  lpms_transcode-EndsWell fuel q a t =
      let (ret1, t1) = open_first api q a t in
      let (same, why, counted) = open_first-Ends q a t in
      let (ret2, t2) = transcode_init w.ops a.reopens q.input a.again q.params t1 in
      if_split (EndsWell t) (failed ret1) _ _
        (λ e. inl (record { error = e; same = same; why = why e }))
        λ e0.
          if_split (EndsWell t) (not (t1.handle.nb_outputs == length q.params)) _ _
            (λ e.
              let as_was : t1 ≡ t = elim (counted e0) [
                | inl e' ↦ e'
                | inr e' ↦
                    absurd ground
                      (arith, e, e', length-map (λ (p : OutputParams). p.names) q.params)
              ] in
              inl (record { error = refl; same = same; why = inl (refl, as_was) }))
            λ e.
              if_split (EndsWell t) (failed ret2) _ _ (λ e. inr (inl (init-IsShut q a t1 e)))
                λ e.
                  mark_used-EndsWell t (transcode api fuel w a.transcoding a.queue q.decoded t2)
                    (transcode-RanTo fuel a.transcoding a.queue q.decoded t2)
