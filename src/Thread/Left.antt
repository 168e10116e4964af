-- ===== src/Thread/Left.antt =====
-- What a call of `transcode` leaves of the outputs.
use lpms.Common.{
  ℕ, ◌≤◌, ◌≡◌, ◌⊎◌, refl, arith, true, not, Option, none, some, List, length, Bool-cases,
  Option-cases, inl, inr, All-take, length-take_le,
}
use lpms.Ret.{err, eof}
use lpms.Outlet.{OutputCtx}
use lpms.Outlet.Held.{IsAttached}
use lpms.ProcessOut.{Ended, returned, dangling}
use lpms.Queue.{FifoApi, Queue}
use lpms.Dispatch.{Decoded}
use lpms.Segment.{Fate, goes, finishes, crashes, stops}
use lpms.Thread.{Thread}
use lpms.Thread.Flush.{FlushAnswers, flush_each}
use lpms.Thread.Flushed.{SameOutlines, flush_each-outline}
use lpms.Thread.Kept.{IsKept, AllIdle, joined-IsKept, shutdown-AllIdle}
use lpms.Thread.Loop.{World, Running, run_loop}
use lpms.Thread.Looped.{Fits, outline-Fits, run_loop-Fits}
use lpms.Thread.Transcode.{
  Outcome, returns, breaks, TranscodeAnswers, used, unused, with_used, shut_flushed, start, after,
  finish_loop, end_loop, transcode,
}

-- A call of `transcode` leaves all outputs idle, or at the end of a copy those in use open.
abbrev pub Left : Thread → Type 0
Left t = AllIdle t ⊎ ((t.handle.ictx.transmuxing ≡ true) × IsKept t)

abbrev pub Leaves : Option Outcome → Type 0
Leaves none = Unit
Leaves (some breaks) = Unit
Leaves (some (returns ret t)) = Left t

module _ (api : FifoApi) (w : World) where
  after-IsKept :
      (n : ℕ) (st : Running api) (t : Thread)
      → Fits n st.outputs
      → n ≤ t.handle.nb_outputs
      → IsKept t
      → IsKept (after api st t)
  after-IsKept n st t fits few kept =
      let t' : Thread = record t {
        handle = record t.handle { ictx = st.ictx };
        lines = st.lines;
      } in
      joined-IsKept t' st.outputs (unused t) fits.attached (rw fits.number few) kept.spare

  flushed-Leaves :
      (n : ℕ) (st : Running api) (t : Thread) (r : Option (Ended × List OutputCtx))
      → Fits n st.outputs
      → n ≤ t.handle.nb_outputs
      → IsKept (after api st t)
      → SameOutlines st.outputs r
      → Leaves (shut_flushed (after api st t) r)
  unfolding shut_flushed
  flushed-Leaves n st t none fits few kept same = tt
  flushed-Leaves n st t (some (dangling, os)) fits few kept same = tt
  flushed-Leaves n st t (some (returned ret, os)) fits few kept same =
      let t' = after api st t in
      let fits' = outline-Fits n st.outputs os same fits in
      inl (
        shutdown-AllIdle (with_used os t') ret
          (joined-IsKept t' os (unused t') fits'.attached (rw fits'.number few) kept.spare))

  end_loop-Leaves :
      (fuel n : ℕ) (answers : ℕ → FlushAnswers) (fate : Fate) (st : Running api) (t : Thread)
      → Fits n st.outputs
      → n ≤ t.handle.nb_outputs
      → IsKept t
      → Leaves (end_loop api fuel w answers fate st t)
  unfolding end_loop finish_loop
  end_loop-Leaves fuel n answers goes st t fits few kept = tt
  end_loop-Leaves fuel n answers crashes st t fits few kept = tt
  end_loop-Leaves fuel n answers (stops ret) st t fits few kept =
      inl (shutdown-AllIdle (after api st t) ret (after-IsKept n st t fits few kept))
  end_loop-Leaves fuel n answers finishes st t fits few kept =
      let kept' = after-IsKept n st t fits few kept in
      let same = flush_each-outline fuel w.ops w.writer st.ictx answers (err eof) st.outputs in
      let r = flush_each fuel w.ops w.writer answers st.ictx (err eof) st.outputs in
      ground (arith, kept', flushed-Leaves n st t r fits few kept' same)

  pub transcode-Leaves :
      (fuel : ℕ) (a : TranscodeAnswers) (queue : Queue api) (d : Decoded) (t : Thread)
      → IsKept t
      → Leaves (transcode api fuel w a queue d t)
  unfolding transcode
  transcode-Leaves fuel a queue d t kept =
      let n = length (used t) in
      let fits : Fits n (used t) = record {
        attached = All-take IsAttached t.handle.nb_outputs t.outputs kept.attached;
        number = refl;
      } in
      let looped = run_loop-Fits api w fuel n a.rounds (start api queue d t) fits in
      let few = length-take_le t.handle.nb_outputs t.outputs in
      elim (Bool-cases (not a.allocs)) [
        | inl e ↦ rw (transcode, e) (inl (shutdown-AllIdle t _ kept))
        | inr e ↦ elim (Option-cases (run_loop api fuel w a.rounds (start api queue d t))) [
          | inl e' ↦ rw (transcode, e, e') tt
          | inr ((fate, st), e') ↦
              rw (transcode, e, e')
                (end_loop-Leaves fuel n a.flushes fate st t (rw e' at looped) few kept)
        ]
      ]
