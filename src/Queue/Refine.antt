-- ===== src/Queue/Refine.antt =====
-- A queue behaves as the list of the items that it holds.
use mathlib.Core.Path.{ap₂}
use lpms.Common.{
  ℕ, ◌+◌, ◌≡◌, refl, ap, ◌∙◌, arith, Bool, true, ◌&&◌, Option, none, some, List, [], ◌∷◌, ◌++◌,
  if◌then◌else◌, Bool-cases, Option-cases, inl, inr, ◌≢◌,
}
use lpms.Ret.{Ret, ok}
use lpms.Media.{Packet, Frame}
use lpms.Queue.{
  Item, FifoApi, CloneAnswers, Queue, write_item, add_frame, add_pkt, queue_write, hand_out,
  read_fifo, queue_read, Op, put, get, Reply, accepted, rejected, nothing_there, got, put_reply,
  get_reply, run,
}
use lpms.Queue.Ownership.{contents, HasMemory}

-- Whether the parts of an item that are there can be cloned.
abbrev pub can_clone : Option Packet → Option Frame → CloneAnswers → Bool
can_clone none none a = true
can_clone none (some f) a = a.frame_cloned
can_clone (some p) none a = a.pkt_cloned
can_clone (some p) (some f) a = a.pkt_cloned && a.frame_cloned

-- The specification: a list, oldest first.
abbrev pub list_put :
    List Item → Option Packet → Option Frame → Ret → CloneAnswers → Reply × List Item
list_put l p f dr a =
    if can_clone p f a
    then (accepted, l ++ record { pkt = p; frame = f; decoder_return = dr } ∷ [])
    else (rejected, l)

abbrev pub index_stored : Option Packet → Option ℕ
index_stored none = none
index_stored (some p) = some p.stream_index

abbrev pub list_get : List Item → Reply × List Item
list_get [] = (nothing_there, [])
list_get (x ∷ l) = (
  got (record {
    ret = ok 0;
    pkt = x.pkt;
    frame = x.frame;
    stream_index = index_stored x.pkt;
    decoder_return = some x.decoder_return;
  }),
  l,
)

abbrev pub list_run : List Item → List Op → List Reply
list_run l [] = []
list_run l (put p f dr a ∷ ops) = let (r, l') = list_put l p f dr a in r ∷ list_run l' ops
list_run l (get ∷ ops) = let (r, l') = list_get l in r ∷ list_run l' ops

module _ (api : FifoApi) where
  open api use {Fifo, items, write, read}

  write_item-put :
      (f : Fifo) (x : Item) (live : ℕ)
      → HasMemory api
      → let (ret, q') = write_item api f x live in
        ◌≡◌ {A = Reply × List Item} (put_reply ret, contents api q') (accepted, items f ++ x ∷ [])
  unfolding write_item
  write_item-put f x live room = ground (arith, room f x, api.write_lem f x)

  queue_write-put :
      (f : Fifo) (q : Queue api) (p : Option Packet) (fr : Option Frame) (dr : Ret)
      (a : CloneAnswers)
      → q.fifo ≡ some f
      → HasMemory api
      → let (ret, q') = queue_write api q p fr dr a in
        ◌≡◌ {A = Reply × List Item} (put_reply ret, contents api q') (list_put (items f) p fr dr a)
  unfolding queue_write add_pkt add_frame
  queue_write-put f q none none dr a e room = rw (e, queue_write) (write_item-put f _ q.live room)
  queue_write-put f q none (some fr) dr a e room = elim (Bool-cases a.frame_cloned) [
    | inl c ↦ rw (e, queue_write, c) (write_item-put f _ (q.live + 1) room)
    | inr c ↦ rw (e, queue_write, c) refl
  ]
  queue_write-put f q (some p) none dr a e room = elim (Bool-cases a.pkt_cloned) [
    | inl c ↦ rw (e, queue_write, c) (write_item-put f _ (q.live + 1) room)
    | inr c ↦ rw (e, queue_write, c) refl
  ]
  queue_write-put f q (some p) (some fr) dr a e room = ground (
    arith,
    e,
    write_item-put f (record { pkt = some p; frame = some fr; decoder_return = dr })
        (q.live + 1 + 1) room,
  )

  read_fifo-get :
      (f : Fifo) (xs : List Item) (live : ℕ)
      → items f ≡ xs
      → let (out, q') = read_fifo api f live in
        ◌≡◌ {A = Reply × List Item} (get_reply out, contents api q') (list_get xs)
  unfolding read_fifo hand_out
  read_fifo-get f [] live e = ground (arith, api.read_empty f e)
  read_fifo-get f (x ∷ xs) live e = ground (arith, api.read_lem f x xs e)

  queue_read-get :
      (f : Fifo) (q : Queue api)
      → q.fifo ≡ some f
      → let (out, q') = queue_read api q in
        ◌≡◌ {A = Reply × List Item} (get_reply out, contents api q') (list_get (items f))
  unfolding queue_read
  queue_read-get f q e = rw (e, queue_read) (read_fifo-get f (items f) q.live refl)

  -- queue_create has given a FIFO.
  abbrev pub IsCreated : Queue api → Type 0
  IsCreated q = q.fifo ≢ none

  write-IsCreated :
      (f : Fifo) (q : Queue api) (p : Option Packet) (fr : Option Frame) (dr : Ret)
      (a : CloneAnswers)
      → q.fifo ≡ some f
      → IsCreated (queue_write api q p fr dr a).1
  unfolding queue_write add_pkt add_frame write_item
  write-IsCreated f q p fr dr a e = ground (arith, e)

  read-IsCreated : (f : Fifo) (q : Queue api) → q.fifo ≡ some f → IsCreated (queue_read api q).1
  unfolding queue_read read_fifo
  read-IsCreated f q e = ground (arith, e)

module _ (api : FifoApi) (q : Queue api) (room : HasMemory api) (h : IsCreated api q) where
  pub write-step :
      (p : Option Packet) (fr : Option Frame) (dr : Ret) (a : CloneAnswers)
      → let (ret, q') = queue_write api q p fr dr a in
        IsCreated api q'
        × ◌≡◌ {A = Reply × List Item}
            (put_reply ret, contents api q')
            (list_put (contents api q) p fr dr a)
  write-step p fr dr a = elim (Option-cases q.fifo) [
    | inl e ↦ absurd (h e)
    | inr (f, e) ↦
        (write-IsCreated api f q p fr dr a e, queue_write-put api f q p fr dr a e room ∙ rw e)
  ]

  pub read-step :
      let (out, q') = queue_read api q in
      IsCreated api q'
      × ◌≡◌ {A = Reply × List Item} (get_reply out, contents api q') (list_get (contents api q))
  read-step = elim (Option-cases q.fifo) [
    | inl e ↦ absurd (h e)
    | inr (f, e) ↦ (read-IsCreated api f q e, queue_read-get api f q e ∙ rw e)
  ]

-- While the FIFO finds memory, no client can tell the queue from a list: a write whose clones
-- succeed appends its item and any other write changes nothing; a read succeeds unless the queue is
-- empty, and gives the packet and the frame of the oldest item, the decoder's result that was stored
-- with them, and the stream index of the packet, if there is one.
pub run-list_run :
    (api : FifoApi) (q : Queue api) (ops : List Op)
    → IsCreated api q
    → HasMemory api
    → (run api q ops).0 ≡ list_run (contents api q) ops
unfolding run
run-list_run api q [] h room = refl
run-list_run api q (put p fr dr a ∷ ops) h room =
    let (made, same) = write-step api q room h p fr dr a in
    ap₂ ◌∷◌ (ap (λ z. z.0) same) (
      run-list_run api (queue_write api q p fr dr a).1 ops made room
      ∙ ap (λ z. list_run z.1 ops) same)
run-list_run api q (get ∷ ops) h room =
    let (made, same) = read-step api q room h in
    ap₂ ◌∷◌ (ap (λ z. z.0) same)
      (run-list_run api (queue_read api q).1 ops made room ∙ ap (λ z. list_run z.1 ops) same)
