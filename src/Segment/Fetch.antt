-- ===== src/Segment/Fetch.antt =====
-- What a round of the loop takes up, and what it adds to the queue.
use mathlib.Core.List.{append-nil}
use lpms.Common.{
  ◌≡◌, refl, arith, Bool, true, false, List, [], ◌∷◌, ◌++◌, Bool-cases, inl, inr, ◌⊎◌,
}
use lpms.Ret.{failed}
use lpms.Media.{TimeOps}
use lpms.Queue.{Item, FifoApi, CloneAnswers, Queue, ReadOut, queue_read, hand_out, Reply, get_reply}
use lpms.Queue.Ownership.{contents, HasMemory}
use lpms.Queue.Refine.{IsCreated, write-step, read-step, list_get}
use lpms.Codec.{Libav}
use lpms.Segment.{
  OutputState, all_initialized, is_opened, open_outputs, goes, LoopState, Fetched, from_decoder,
  from_queue, fetch, or_ret, produced_by, hold,
}

-- A loop over the outputs that finds none to open leaves them as they are.
pub open_outputs-set :
    (transmuxing : Bool) (wants : OutputState → Bool) (os : List OutputState)
    → (open_outputs transmuxing wants os).1 ≡ false
    → (all_initialized os ≡ true) × ((open_outputs transmuxing wants os).2 ≡ os)
unfolding open_outputs
open_outputs-set transmuxing wants [] h = (refl, refl)
open_outputs-set transmuxing wants (o ∷ os) h =
    ground (arith, open_outputs-set transmuxing wants os)

-- Outputs that are all wanted are all open, unless one of them fails.
pub open_outputs-all :
    (transmuxing : Bool) (wants : OutputState → Bool) (os : List OutputState)
    → ((o : OutputState) → wants o ≡ true)
    → is_opened (open_outputs transmuxing wants os).0 ≡ true
    → all_initialized (open_outputs transmuxing wants os).2 ≡ true
unfolding open_outputs
open_outputs-all transmuxing wants [] w h = refl
open_outputs-all transmuxing wants (o ∷ os) w h =
    ground (arith, w o, open_outputs-all transmuxing wants os w)

module _ (api : FifoApi) where
  abbrev pub held : LoopState api → List Item
  held st = contents api st.frame_queue

  -- Until the outputs are ready the end of the input is not seen, and what is held waits for an
  -- output that is not open.
  pub record IsWaiting (st : LoopState api) : Type 0 where
    pub created : IsCreated api st.frame_queue
    pub no_eof : (st.outputs_ready ≡ true) ⊎ (st.hit_eof ≡ false)
    pub waits : (st.outputs_ready ≡ true) ⊎ (held st ≡ []) ⊎ (all_initialized st.outputs ≡ false)

module _ (api : FifoApi) (room : HasMemory api) where
  -- A read gives the oldest item, or fails on the empty queue.
  abbrev ReadCase : List Item → List Item → ReadOut → Type 0
  ReadCase before after out =
      ((failed out.ret ≡ true) × (before ≡ []) × (after ≡ []))
      ⊎ ((failed out.ret ≡ false)
          × ◌≡◌ {A = List Item} before (
              record {
                pkt = out.pkt;
                frame = out.frame;
                decoder_return = or_ret out.decoder_return;
              }
              ∷ after))

  read_as_list :
      (out : ReadOut) (l after : List Item)
      → ◌≡◌ {A = Reply × List Item} (get_reply out, after) (list_get l)
      → ReadCase l after out
  unfolding hand_out
  read_as_list out [] after h = ground (arith, h)
  read_as_list out (x ∷ l) after h = ground (arith, h)

  pub read_cases :
      (q : Queue api)
      → IsCreated api q
      → let (out, q') = queue_read api q in
        IsCreated api q' × ReadCase (contents api q) (contents api q') out
  read_cases q h =
      let (made, same) = read-step api q room h in
      (
        made,
        read_as_list (queue_read api q).0 (contents api q) (contents api (queue_read api q).1) same,
      )

  -- What is fetched comes after all that is held, or is the oldest of it.
  abbrev pub FetchOf : LoopState api → Fetched api → Type 0
  FetchOf st f =
      IsCreated api f.state.frame_queue
      × (f.state.outputs ≡ st.outputs)
      × (f.state.outputs_ready ≡ st.outputs_ready)
      × (f.state.hit_eof ≡ st.hit_eof)
      × (((st.outputs_ready ≡ true)
            × (held api st ++ produced_by api f ≡ f.item ∷ held api f.state))
          ⊎ ((st.outputs_ready ≡ false) × (held api f.state ≡ held api st) × (f.fresh ≡ true)))

  pub fetch-FetchOf :
      (lib : Libav) (ops : TimeOps) (st : LoopState api)
      → IsWaiting api st
      → FetchOf st (fetch api lib ops st)
  unfolding fetch from_decoder from_queue
  fetch-FetchOf lib ops st w = elim (Bool-cases st.outputs_ready) [
    | inl e ↦
        ground (arith, e, w.created, read_cases st.frame_queue w.created, append-nil (held api st))
    | inr e ↦ ground (arith, e, w.created, w.no_eof)
  ]

  pub hold-appends :
      (a : CloneAnswers) (f : Fetched api) (st : LoopState api)
      → IsCreated api st.frame_queue
      → let r = hold api a f st in
        IsCreated api r.next.frame_queue
        × ((r.fate ≡ goes) → held api r.next ≡ held api st ++ f.item ∷ [])
  unfolding hold
  hold-appends a f st h =
      let (made, same) =
        write-step api st.frame_queue room h f.item.pkt f.item.frame f.item.decoder_return a in
      (made, λ e. ground (arith, same, e))
