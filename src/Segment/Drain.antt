-- ===== src/Segment/Drain.antt =====
-- The end of a segment: what is held is played out, and then the loop ends.
use mathlib.Core.Path.{ap₂}
use lpms.Common.{
  suc, ◌≡◌, refl, ap, ◌∙◌, arith, true, false, not, ◌||◌, List, [], ◌∷◌, ◌++◌, length, All, if_true,
  if_false,
}
use lpms.Ret.{failed, is_eof, is_packet_only, is_eagain}
use lpms.Media.{TimeOps}
use lpms.Queue.{Item, FifoApi, CloneAnswers}
use lpms.Queue.Ownership.{HasMemory}
use lpms.Queue.Refine.{IsCreated}
use lpms.Codec.{Libav}
use lpms.Segment.{
  goes, finishes, LoopState, Fetched, from_queue, fetch, pass_on, open_or_pass, route, round,
  rounds,
}
use lpms.Segment.Fetch.{held, read_cases}

-- The result with which the item was queued lets the loop go on.
abbrev pub IsOrdinary : Item → Type 0
IsOrdinary x =
    let ret = x.decoder_return in
    (is_eof ret ≡ false) × ((is_packet_only ret || is_eagain ret || not (failed ret)) ≡ true)

module _ (api : FifoApi) (room : HasMemory api) (lib : Libav) (ops : TimeOps) where
  abbrev Pops : LoopState api → Item → List Item → Fetched api → Type 0
  Pops st x l f =
      IsCreated api f.state.frame_queue
      × (f.state.outputs_ready ≡ true)
      × (held api f.state ≡ l)
      × (f.fresh ≡ false)
      × (f.item ≡ x)
      × (f.turn.ret ≡ x.decoder_return)

  fetch-Pops :
      (st : LoopState api) (x : Item) (l : List Item)
      → IsCreated api st.frame_queue
      → st.outputs_ready ≡ true
      → held api st ≡ x ∷ l
      → Pops st x l (fetch api lib ops st)
  unfolding fetch from_queue
  fetch-Pops st x l made e h = ground (arith, read_cases api room st.frame_queue made, e, h)

  -- A held item that is ordinary goes on to the encoders; the end of the input ends the loop.
  route-plays :
      (a : CloneAnswers) (st : LoopState api) (x : Item) (l : List Item) (f : Fetched api)
      → Pops st x l f
      → let r = route api a f in
        (is_eof x.decoder_return ≡ true → r ≡ pass_on api finishes f f.state)
        × (IsOrdinary x → r ≡ pass_on api goes f f.state)
  unfolding route open_or_pass
  route-plays a st x l f (made, ready, same, old, item, ret) = (
    λ e.
        if_true (is_eof f.turn.ret) _ _ (ap is_eof ret ∙ e)
        ∙ if_true f.state.outputs_ready _ _ ready,
    λ e.
        if_false (is_eof f.turn.ret) _ _ (ap is_eof ret ∙ e.0)
        ∙ if_true _ _ _ (ap (λ z. is_packet_only z || is_eagain z || not (failed z)) ret ∙ e.1)
        ∙ if_true f.state.outputs_ready _ _ ready,
  )

  -- While the FIFO finds memory: once the outputs are ready, a queue of items whose results let
  -- the loop go on, and of the end of the input after them, is played out in order, in one round
  -- for each item, without a call of process_in; and the last round ends the loop.
  pub rounds-drains :
      (a : CloneAnswers) (xs : List Item) (x : Item) (st : LoopState api)
      → IsCreated api st.frame_queue
      → st.outputs_ready ≡ true
      → held api st ≡ xs ++ x ∷ []
      → All IsOrdinary xs
      → is_eof x.decoder_return ≡ true
      → let r = rounds api (suc (length xs)) lib ops a st in
        (r.fate ≡ finishes) × (r.taken ≡ xs ++ x ∷ []) × (r.produced ≡ [])
  unfolding rounds round pass_on
  rounds-drains a [] x st made e h hs eof =
      let f = fetch api lib ops st in
      let pops = fetch-Pops st x [] made e h in
      let (_, _, _, old, item, _) = pops in
      rw ((route-plays a st x [] f pops).0 eof)
        (refl, ap (λ z. z ∷ []) item, if_false f.fresh _ _ old)
  rounds-drains a (y ∷ xs) x st made e h (hy, hs) eof =
      let f = fetch api lib ops st in
      let pops = fetch-Pops st y (xs ++ x ∷ []) made e h in
      let (made', ready, same, old, item, _) = pops in
      let (fate, taken, produced) = rounds-drains a xs x f.state made' ready same hs eof in
      rw ((route-plays a st y (xs ++ x ∷ []) f pops).1 hy)
        (fate, ap₂ ◌∷◌ item taken, ap₂ ◌++◌ (if_false f.fresh _ _ old) produced)
