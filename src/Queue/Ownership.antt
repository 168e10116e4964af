-- ===== src/Queue/Ownership.antt =====
-- The structures that the queue allocates: each is held by the queue or has been freed.
use lpms.Common.{
  ℕ, zero, suc, ◌+◌, ◌-◌, ◌<◌, ◌≡◌, refl, ap, ◌∙◌, arith, Bool, true, false, Option, none, some,
  List, [], ◌∷◌, ◌++◌, length, Bool-cases, Option-cases, inl, inr,
}
use lpms.Ret.{Ret, failed}
use lpms.Media.{Packet, Frame}
use lpms.Queue.{
  Item, FifoApi, structs_of_pkt, structs, CloneAnswers, Queue, write_item, add_frame, add_pkt,
  queue_write, read_fifo, queue_read, drain, queue_free, Op, put, get, run,
}

abbrev pub structs_in : List Item → ℕ
structs_in [] = 0
structs_in (x ∷ xs) = structs x + structs_in xs

structs_in-append :
    (xs : List Item) (y : Item) → structs_in (xs ++ y ∷ []) ≡ structs_in xs + structs y
structs_in-append [] y = omega arith
structs_in-append (x ∷ xs) y = omega (arith, structs_in-append xs y)

module _ (api : FifoApi) where
  open api use {Fifo, items, write, read}

  -- What the queue holds, oldest first.
  abbrev pub contents_of : Option Fifo → List Item
  contents_of none = []
  contents_of (some f) = items f

  abbrev pub contents : Queue api → List Item
  contents q = contents_of q.fifo

  -- Nothing has leaked: every live structure is of an item in the queue.
  abbrev pub IsBalanced : Queue api → Type 0
  IsBalanced q = q.live ≡ structs_in (contents q)

  -- av_fifo_write finds room whenever it is called.
  abbrev pub HasMemory : Type 0
  HasMemory = (f : Fifo) (x : Item) → failed (write f x).0 ≡ false

  write_item-IsBalanced :
      (f : Fifo) (x : Item) (live : ℕ)
      → HasMemory
      → live ≡ structs_in (items f) + structs x
      → IsBalanced (write_item api f x live).1
  unfolding write_item
  write_item-IsBalanced f x live room h =
      h ∙ rw (api.write_lem f x (room f x), structs_in-append (items f) x)

  add_frame-IsBalanced :
      (f : Fifo) (p : Option Packet) (fr : Option Frame) (dr : Ret) (cloned : Bool) (live : ℕ)
      → HasMemory
      → live ≡ structs_in (items f) + structs_of_pkt p
      → IsBalanced (add_frame api f p fr dr cloned live).1
  unfolding add_frame
  add_frame-IsBalanced f p none dr cloned live room h =
      write_item-IsBalanced f _ live room (omega arith)
  add_frame-IsBalanced f p (some fr) dr true live room h =
      write_item-IsBalanced f _ (live + 1) room (omega arith)
  add_frame-IsBalanced f p (some fr) dr false live room h = omega arith

  add_pkt-IsBalanced :
      (f : Fifo) (p : Option Packet) (fr : Option Frame) (dr : Ret) (a : CloneAnswers) (live : ℕ)
      → HasMemory
      → live ≡ structs_in (items f)
      → IsBalanced (add_pkt api f p fr dr a live).1
  unfolding add_pkt
  add_pkt-IsBalanced f none fr dr a live room h =
      add_frame-IsBalanced f none fr dr a.frame_cloned live room (omega arith)
  add_pkt-IsBalanced f (some p) fr dr a live room h = elim (Bool-cases a.pkt_cloned) [
    | inl e ↦
        rw e (add_frame-IsBalanced f (some p) fr dr a.frame_cloned (live + 1) room (omega arith))
    | inr e ↦ rw e h
  ]

  -- While the FIFO finds memory, queue_write leaks nothing, also where a clone fails.
  write-IsBalanced :
      (q : Queue api) (p : Option Packet) (fr : Option Frame) (dr : Ret) (a : CloneAnswers)
      → HasMemory
      → IsBalanced q
      → IsBalanced (queue_write api q p fr dr a).1
  unfolding queue_write
  write-IsBalanced q p fr dr a room h = elim (Option-cases q.fifo) [
    | inl e ↦ rw (e, queue_write) h
    | inr (f, e) ↦ rw (e, queue_write) (add_pkt-IsBalanced f p fr dr a q.live room (rw e at h))
  ]

  read_fifo-IsBalanced :
      (f : Fifo) (xs : List Item) (live : ℕ)
      → items f ≡ xs
      → live ≡ structs_in xs
      → IsBalanced (read_fifo api f live).1
  unfolding read_fifo
  read_fifo-IsBalanced f [] live e h = ground (arith, api.read_empty f e, e)
  read_fifo-IsBalanced f (x ∷ xs) live e h =
      let r = api.read_lem f x xs e in ground (arith, r.0, ap structs r.1, ap structs_in r.2)

  read-IsBalanced : (q : Queue api) → IsBalanced q → IsBalanced (queue_read api q).1
  unfolding queue_read
  read-IsBalanced q h = elim (Option-cases q.fifo) [
    | inl e ↦ rw (e, queue_read) h
    | inr (f, e) ↦ rw (e, queue_read) (read_fifo-IsBalanced f (items f) q.live refl (rw e at h))
  ]

  run-IsBalanced :
      (q : Queue api) (ops : List Op) → HasMemory → IsBalanced q → IsBalanced (run api q ops).1
  unfolding run
  run-IsBalanced q [] room h = h
  run-IsBalanced q (put p f dr a ∷ ops) room h =
      run-IsBalanced (queue_write api q p f dr a).1 ops room (write-IsBalanced q p f dr a room h)
  run-IsBalanced q (get ∷ ops) room h =
      run-IsBalanced (queue_read api q).1 ops room (read-IsBalanced q h)

  drain-zero :
      (fuel : ℕ) (f : Fifo) (xs : List Item) (live : ℕ)
      → items f ≡ xs
      → length xs < fuel
      → live ≡ structs_in xs
      → drain api fuel f live ≡ some 0
  unfolding drain
  drain-zero zero f xs live e h b = elim h [ ]
  drain-zero (suc fuel) f [] live e h b = ground (arith, api.read_empty f e)
  drain-zero (suc fuel) f (x ∷ xs) live e h b =
      let r = api.read_lem f x xs e in
      ground
        (arith, r.0, ap structs r.1, drain-zero fuel (read f).2 xs (live - structs (read f).1) r.2)

  queue_free-zero :
      (fuel : ℕ) (q : Queue api)
      → length (contents q) < fuel
      → IsBalanced q
      → queue_free api fuel q ≡ some 0
  unfolding queue_free
  queue_free-zero fuel q h b = elim (Option-cases q.fifo) [
    | inl e ↦ rw (e, queue_free) (ap some (rw e at b))
    | inr (f, e) ↦
        rw (e, queue_free) (drain-zero fuel f (items f) q.live refl (rw e at h) (rw e at b))
  ]

-- While the FIFO finds memory, no sequence of reads and writes leaks: whatever clones fail on the
-- way, queue_free then ends (with fuel for one read more than there are items), and no structure
-- that the queue allocated is live.
pub run-queue_free :
    (api : FifoApi) (q : Queue api) (ops : List Op) (fuel : ℕ)
    → HasMemory api
    → IsBalanced api q
    → length (contents api (run api q ops).1) < fuel
    → queue_free api fuel (run api q ops).1 ≡ some 0
run-queue_free api q ops fuel room b h =
    queue_free-zero api fuel (run api q ops).1 h (run-IsBalanced api q ops room b)

-- Where av_fifo_write fails, queue_write forgets the clones that it made: the queue holds what it
-- held, and one structure more is live for the packet, and one for the frame.
pub queue_write-leaks :
    (api : FifoApi) (q : Queue api) (f : api.Fifo) (p : Packet) (fr : Frame) (dr : Ret)
    → q.fifo ≡ some f
    → IsBalanced api q
    → ((x : Item) → failed (api.write f x).0 ≡ true)
    → let (ret, q') =
        queue_write api q
          (some p)
          (some fr)
          dr
          (record { pkt_cloned = true; frame_cloned = true }) in
      (failed ret ≡ true)
      × (contents api q' ≡ contents api q)
      × (q'.live ≡ structs_in (contents api q') + 2)
unfolding queue_write add_pkt add_frame write_item
queue_write-leaks api q f p fr dr e b full =
    let x : Item = record { pkt = some p; frame = some fr; decoder_return = dr } in
    ground (arith, full x, api.write_full f x, e, ap structs_in (api.write_full f x (full x)))
