-- ===== src/Thread/Steps.antt =====
-- How far a round of the loop brings it, once the item is fetched.
use lpms.Common.{
  ℕ, suc, ◌≤◌, ◌≡◌, ◌⊎◌, refl, ap, ◌∙◌, arith, Bool, true, false, not, List, [], ◌∷◌, length,
  length-append, if_split, inl, inr, All,
}
use lpms.Ret.{Ret, failed, is_eof}
use lpms.Media.{TimeOps}
use lpms.Codec.{InputCtx}
use lpms.Decoder.{Turn}
use lpms.Queue.{FifoApi, CloneAnswers}
use lpms.Queue.Ownership.{HasMemory, contents}
use lpms.Queue.Refine.{IsCreated}
use lpms.Outlet.{OutputCtx}
use lpms.Outlet.Ends.{open_output-Ends}
use lpms.Outlet.Held.{IsAttached}
use lpms.Outlet.Layout.{IsPlain}
use lpms.Outlet.Open.{OpenAnswers, open_output}
use lpms.Segment
use lpms.Segment.{OutputState, wants_open, is_opened, fate_of, Fate, goes, Fetched}
use lpms.Segment.Fetch.{hold-appends}
use lpms.Thread.Loop.{
  World, RoundAnswers, Running, state_of, Opened, open_next, open_all, all_open, hold_turn,
  serve_turn, open_or_serve,
}
use lpms.Thread.Looped.{SameInput, serve_turn-IsServed}
use lpms.Thread.Simulate.{of_running, fate_of-stops}

wants_at_eof :
    (c : InputCtx) (t : Turn) (s : OutputState) → is_eof t.ret ≡ true → wants_open c t s ≡ true
unfolding wants_open
wants_at_eof c t s e = ground (arith, e)

abbrev OpensAll : Opened → Type 0
OpensAll (result, set_outputs, os) = is_opened result ≡ true → all_open os ≡ true

open_next-OpensAll :
    (transmuxing wants : Bool) (o o' : OutputCtx) (ret : Ret) (os : List OutputCtx) (rest : Opened)
    → wants ≡ true
    → (failed ret ≡ true) ⊎ (o'.initialized ≡ true)
    → OpensAll rest
    → OpensAll (open_next transmuxing wants o (ret, o') os rest)
unfolding open_next
open_next-OpensAll transmuxing wants o o' ret os rest w ends all = ground (arith, w, ends, all)

-- At the end of the input all outputs are opened.
open_all-OpensAll :
    (ops : TimeOps) (answers : ℕ → OpenAnswers) (ictx : InputCtx) (t : Turn) (os : List OutputCtx)
    → is_eof t.ret ≡ true
    → All IsAttached os
    → ((i : ℕ) → IsPlain (answers i).video_encoder.graph.config_ret)
    → OpensAll (open_all ops answers ictx t os)
unfolding open_all
open_all-OpensAll ops answers ictx t [] e h plain = λ _. refl
open_all-OpensAll ops answers ictx t (o ∷ os) e h plain =
    let (ret, o') = open_output ops (answers 0) ictx o in
    let rest = open_all ops (λ i. answers (suc i)) ictx t os in
    let s = state_of ret o in
    open_next-OpensAll ictx.transmuxing (wants_open ictx t s) o o' ret os rest
      (wants_at_eof ictx t s e) (open_output-Ends ops ictx (answers 0) o h.0 (plain 0))
      (open_all-OpensAll ops (λ i. answers (suc i)) ictx t os e h.1 (λ i. plain (suc i)))

module _ (api : FifoApi) where
  -- Where the loop goes on, the input is the same, and one item more is held at most: none if the
  -- outputs are ready. After the end of the input they are.
  abbrev pub Steps : Fetched api → Running api → Fate × Running api → Type 0
  Steps f st (fate, st') =
      fate ≡ goes
      → SameInput st.ictx st'.ictx
        × IsCreated api st'.frame_queue
        × (st'.hit_eof ≡ st.hit_eof)
        × (((st'.outputs_ready ≡ true)
              × (length (contents api st'.frame_queue) ≡ length (contents api st.frame_queue)))
            ⊎ ((st.outputs_ready ≡ false)
                × (length (contents api st'.frame_queue)
                    ≤ suc (length (contents api st.frame_queue)))))
        × (is_eof f.turn.ret ≡ true → st'.outputs_ready ≡ true)

  held-Steps :
      (a : CloneAnswers) (f : Fetched api) (os : List OutputCtx) (ready : Bool) (st : Running api)
      → HasMemory api
      → IsCreated api st.frame_queue
      → st.outputs_ready ≡ false
      → (is_eof f.turn.ret ≡ true → ready ≡ true)
      → Steps f st (hold_turn api a f (record st { outputs = os; outputs_ready = ready }))
  unfolding hold_turn Segment.hold
  held-Steps a f os ready st room made waits eof e =
      let (made', same) = hold-appends api room a f (of_running api [] st) made in
      let grown = ap length (same e) ∙ length-append (contents api st.frame_queue) (f.item ∷ []) in
      ((refl, refl, refl, refl), made', refl, inr (waits, omega arith), eof)

  served-Steps :
      (w : World) (a : RoundAnswers) (f : Fetched api) (os : List OutputCtx) (ready : Bool)
      (st : Running api)
      → IsCreated api st.frame_queue
      → (ready ≡ true) ⊎ (st.outputs_ready ≡ false)
      → (is_eof f.turn.ret ≡ true → ready ≡ true)
      → Steps f st (serve_turn api w a f.turn (record st { outputs = os; outputs_ready = ready }))
  served-Steps w a f os ready st made kept eof e =
      let st2 : Running api = record st { outputs = os; outputs_ready = ready } in
      let (_, queue, same_ready, same_eof, input) = serve_turn-IsServed api w a f.turn st2 in
      let items = ap (λ q. length (contents api q)) queue in
      (
        input,
        rw queue made,
        same_eof,
        elim kept [ inl e' ↦ inl (same_ready ∙ e', items) | inr e' ↦ inr (e', omega arith) ],
        λ e'. same_ready ∙ eof e',
      )

  pub open_or_serve-Steps :
      (w : World) (a : RoundAnswers) (f : Fetched api) (st : Running api)
      → HasMemory api
      → IsCreated api st.frame_queue
      → All IsAttached st.outputs
      → ((i : ℕ) → IsPlain (a.opens i).video_encoder.graph.config_ret)
      → Steps f st (open_or_serve api w a f st)
  unfolding open_or_serve
  open_or_serve-Steps w a f st room made h plain =
      let (result, set_outputs, os) = open_all w.ops a.opens st.ictx f.turn st.outputs in
      let opens : (is_eof f.turn.ret ≡ true) → OpensAll (result, set_outputs, os) =
        λ e. open_all-OpensAll w.ops a.opens st.ictx f.turn st.outputs e h plain in
      if_split (Steps f st) st.outputs_ready _ _
        (λ e. served-Steps w a f st.outputs st.outputs_ready st made (inl e) (λ _. e))
        λ e.
          if_split (Steps f st) (not (is_opened result)) _ _
            (λ e' stops. absurd (fate_of-stops result ground (arith, e') stops))
            λ e'.
              let ok : is_opened result ≡ true = ground (arith, e') in
              if_split (Steps f st) set_outputs _ _
                (λ _. held-Steps a.clones f os (all_open os) st room made e (λ eof. opens eof ok))
                λ _. served-Steps w a f os (all_open os) st made (inr e) (λ eof. opens eof ok)
