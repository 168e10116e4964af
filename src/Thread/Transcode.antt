-- ===== src/Thread/Transcode.antt =====
-- `transcode` and lpms_transcode of ffmpeg/transcoder.c.
use lpms.Common.{
  ℕ, Bool, true, false, not, Option, none, some, List, ◌++◌, if◌then◌else◌, take, drop, length,
  ◌==◌,
}
use lpms.Ret.{Ret, err, done, failed, lpms_err, eof, outputs}
use lpms.Queue.{FifoApi, Queue}
use lpms.Outlet.{OutputCtx}
use lpms.Outlet.Open.{OpenAnswers}
use lpms.ProcessOut.{Ended, returned, dangling}
use lpms.Dispatch.{Decoded}
use lpms.Input.{InputParams}
use lpms.Session.{Reopening, first_open}
use lpms.Segment.{Fate, goes, finishes, crashes, stops}
use lpms.Thread.{Thread, transcode_shutdown}
use lpms.Thread.Init.{OutputParams, names_of, transcode_init}
use lpms.Thread.Flush.{FlushAnswers, flush_each}
use lpms.Thread.Loop.{World, RoundAnswers, Running, run_loop}

-- A call returns, or uses what is not there.
pub data Outcome : Type 0 where
  returns : Ret → Thread → Outcome
  breaks : Outcome

-- What libav answers to a call of `transcode`: whether it gets its packet, frame and queue, and to its
-- rounds and flushes.
pub record TranscodeAnswers : Type 0 where
  pub allocs : Bool
  pub rounds : ℕ → RoundAnswers
  pub flushes : ℕ → FlushAnswers

abbrev pub used : Thread → List OutputCtx
used t = take t.handle.nb_outputs t.outputs

abbrev pub unused : Thread → List OutputCtx
unused t = drop t.handle.nb_outputs t.outputs

abbrev pub with_used : List OutputCtx → Thread → Thread
with_used os t = record t { outputs = os ++ unused t }

abbrev pub shut : Thread → Ret → Outcome
shut t ret = let (ret', t') = transcode_shutdown t ret in returns ret' t'

-- The demuxer of a copy is closed, with its file; the muxers stay open, and nothing else is given back.
abbrev pub leave_copy : Thread → Thread
leave_copy t = record t {
  handle = record t.handle { ictx = record t.handle.ictx { ic = none }; has_pb = false };
}

-- The handle is shut down with the outputs that were flushed.
unfoldable pub shut_flushed : Thread → Option (Ended × List OutputCtx) → Option Outcome
shut_flushed t none = none
shut_flushed t (some (dangling, os)) = some breaks
shut_flushed t (some (returned ret, os)) = some (shut (with_used os t) ret)

module _ (api : FifoApi) where
  abbrev pub start : Queue api → Decoded → Thread → Running api
  start queue decoded t = record {
    ictx = t.handle.ictx;
    lines = t.lines;
    outputs = used t;
    decoded = decoded;
    frame_queue = queue;
    outputs_ready = false;
    hit_eof = false;
  }

  -- The handle, with what the loop left.
  abbrev pub after : Running api → Thread → Thread
  after st t = record {
    handle = record t.handle { ictx = st.ictx };
    lines = st.lines;
    outputs = st.outputs ++ unused t;
  }

  -- The end of `transcode` once the input is at its end. Without outputs the end of the file is the
  -- result.
  unfoldable pub finish_loop :
      ℕ → World → (ℕ → FlushAnswers) → Running api → Thread → Option Outcome
  finish_loop fuel w answers st t =
      if st.ictx.transmuxing
      then some (returns done (leave_copy (after st t)))
      else shut_flushed (after st t)
          (flush_each fuel w.ops w.writer answers st.ictx (err eof) st.outputs)

  unfoldable pub end_loop :
      ℕ → World → (ℕ → FlushAnswers) → Fate → Running api → Thread → Option Outcome
  end_loop fuel w answers goes st t = none
  end_loop fuel w answers finishes st t = finish_loop fuel w answers st t
  end_loop fuel w answers crashes st t = some breaks
  end_loop fuel w answers (stops ret) st t = some (shut (after st t) ret)

  -- `queue` is what queue_create gives; `none` says that the fuel is used up.
  unfoldable pub transcode :
      ℕ → World → TranscodeAnswers → Queue api → Decoded → Thread → Option Outcome
  transcode fuel w a queue decoded t =
      if not a.allocs
      then some (shut t (lpms_err done))
      else elim (run_loop api fuel w a.rounds (start queue decoded t)) [
        | none ↦ none
        | some (fate, st) ↦ end_loop fuel w a.flushes fate st t
      ]

  -- A handle that was used once is initialized, whatever became of it.
  abbrev pub mark_used : Outcome → Outcome
  mark_used breaks = breaks
  mark_used (returns ret t) =
      returns ret (record t { handle = record t.handle { initialized = true } })

  abbrev pub map_outcome : (Outcome → Outcome) → Option Outcome → Option Outcome
  map_outcome f none = none
  map_outcome f (some x) = some (f x)

  -- What lpms_transcode is called with.
  pub record Request : Type 0 where
    pub input : InputParams
    pub params : List OutputParams
    pub decoded : Decoded

  -- What libav answers to it: when the input is opened first, when it is opened again, and then.
  pub record RequestAnswers : Type 0 where
    pub first : Reopening
    pub again : Reopening
    pub reopens : ℕ → OpenAnswers
    pub queue : Queue api
    pub transcoding : TranscodeAnswers

  -- The part of lpms_transcode that fills in a new handle.
  unfoldable pub open_first : Request → RequestAnswers → Thread → Ret × Thread
  open_first q a t =
      if t.handle.initialized
      then (done, t)
      else (let (ret, h) = first_open q.input a.first (names_of q.params) t.handle in
          (ret, record t { handle = h }))

  unfoldable pub lpms_transcode : ℕ → World → Request → RequestAnswers → Thread → Option Outcome
  lpms_transcode fuel w q a t =
      let (ret1, t1) = open_first q a t in
      let (ret2, t2) = transcode_init w.ops a.reopens q.input a.again q.params t1 in
      if failed ret1
      then some (returns ret1 t1)
      else if not (t1.handle.nb_outputs == length q.params)
      then some (returns (err outputs) t1)
      else if failed ret2
      then some (returns ret2 t2)
      else map_outcome mark_used (transcode fuel w a.transcoding a.queue q.decoded t2)
