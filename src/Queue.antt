-- ===== src/Queue.antt =====
-- ffmpeg/queue.c: packets and frames held back until the outputs are open. libavutil's AVFifo is an
-- interface with its documented laws. `live` counts the packet and frame structures that the queue
-- has allocated and not freed.
pub mod Refine
pub mod Ownership
pub mod Samples
mod Tests
use lpms.Common.{
  ℕ, zero, suc, ◌+◌, ◌-◌, ℤ, pos, ◌≡◌, Bool, true, false, not, Option, none, some, List, [], ◌∷◌,
  ◌++◌, if◌then◌else◌,
}
use lpms.Ret.{Ret, ok, err, done, einval, failed}
use lpms.Media.{Packet, Frame}

-- queue_item
pub record Item : Type 0 where
  pub pkt : Option Packet
  pub frame : Option Frame
  pub decoder_return : Ret

-- An AVFifo of queue items that grows by itself, oldest item first. A write may still fail, for want
-- of memory, and then changes nothing; a read fails on the empty FIFO only.
pub record FifoApi : Type 1 where
  pub Fifo : Type 0
  pub items : Fifo → List Item
  pub write : Fifo → Item → Ret × Fifo
  pub read : Fifo → Ret × Item × Fifo
  pub write_lem :
      (f : Fifo) (x : Item) → failed (write f x).0 ≡ false → items (write f x).1 ≡ items f ++ x ∷ []
  pub write_full :
      (f : Fifo) (x : Item) → failed (write f x).0 ≡ true → items (write f x).1 ≡ items f
  pub read_empty : (f : Fifo) → items f ≡ [] → failed (read f).0 ≡ true
  pub read_lem :
      (f : Fifo) (x : Item) (xs : List Item)
      → items f ≡ x ∷ xs
      → (failed (read f).0 ≡ false) × ((read f).1 ≡ x) × (items (read f).2 ≡ xs)

-- One structure for each packet or frame that is there.
abbrev pub structs_of_pkt : Option Packet → ℕ
structs_of_pkt none = 0
structs_of_pkt (some p) = 1

abbrev pub structs_of_frame : Option Frame → ℕ
structs_of_frame none = 0
structs_of_frame (some f) = 1

abbrev pub structs : Item → ℕ
structs x = structs_of_pkt x.pkt + structs_of_frame x.frame

-- Whether av_packet_clone and av_frame_clone find the memory that they need.
pub record CloneAnswers : Type 0 where
  pub pkt_cloned : Bool
  pub frame_cloned : Bool

-- What queue_read hands out: `*out_pkt`, `*out_frame`, `*stream_index` and `*decoder_return`.
pub record ReadOut : Type 0 where
  pub ret : Ret
  pub pkt : Option Packet
  pub frame : Option Frame
  pub stream_index : Option ℕ
  pub decoder_return : Option Ret

abbrev pub nothing : Ret → ReadOut
nothing ret = record {
  ret = ret;
  pkt = none;
  frame = none;
  stream_index = none;
  decoder_return = none;
}

-- The contents move to the caller's packet and frame; the structures of the item are freed.
unfoldable pub hand_out : Item → ReadOut
hand_out x = record {
  ret = done;
  pkt = x.pkt;
  frame = x.frame;
  stream_index = elim x.pkt [ none ↦ none | some p ↦ some p.stream_index ];
  decoder_return = some x.decoder_return;
}

module _ (api : FifoApi) where
  open api use {Fifo, items, write, read}

  -- The queue, or NULL, and the structures that are live.
  pub record Queue : Type 0 where
    pub fifo : Option Fifo
    pub live : ℕ

  unfoldable pub write_item : Fifo → Item → ℕ → Ret × Queue
  write_item f x live = let (ret, f') = write f x in (ret, record { fifo = some f'; live = live })

  unfoldable pub add_frame : Fifo → Option Packet → Option Frame → Ret → Bool → ℕ → Ret × Queue
  add_frame f pkt none dr cloned live =
      write_item f (record { pkt = pkt; frame = none; decoder_return = dr }) live
  add_frame f pkt (some fr) dr cloned live =
      if cloned
      then write_item f (record { pkt = pkt; frame = some fr; decoder_return = dr }) (live + 1)
      else (err einval, record { fifo = some f; live = live - structs_of_pkt pkt })

  unfoldable pub add_pkt :
      Fifo → Option Packet → Option Frame → Ret → CloneAnswers → ℕ → Ret × Queue
  add_pkt f none frame dr a live = add_frame f none frame dr a.frame_cloned live
  add_pkt f (some p) frame dr a live =
      if a.pkt_cloned
      then add_frame f (some p) frame dr a.frame_cloned (live + 1)
      else (err einval, record { fifo = some f; live = live })

  unfoldable pub queue_write :
      Queue → Option Packet → Option Frame → Ret → CloneAnswers → Ret × Queue
  queue_write q pkt frame dr a = elim q.fifo [
    | none ↦ (err einval, q)
    | some f ↦ add_pkt f pkt frame dr a q.live
  ]

  unfoldable pub read_fifo : Fifo → ℕ → ReadOut × Queue
  read_fifo f live =
      let (ret, x, f') = read f in
      if failed ret
      then (nothing ret, record { fifo = some f; live = live })
      else (hand_out x, record { fifo = some f'; live = live - structs x })

  unfoldable pub queue_read : Queue → ReadOut × Queue
  queue_read q = elim q.fifo [ none ↦ (nothing (err einval), q) | some f ↦ read_fifo f q.live ]

  -- The loop of queue_free: reads until a read fails. `none` means that the fuel ran out.
  unfoldable pub drain : ℕ → Fifo → ℕ → Option ℕ
  drain zero f live = none
  drain (suc fuel) f live =
      let rest = drain fuel (read f).2 (live - structs (read f).1) in
      if failed (read f).0 then some live else rest

  -- queue_free: the structures that are live when the queue is gone.
  unfoldable pub queue_free : ℕ → Queue → Option ℕ
  queue_free fuel q = elim q.fifo [ none ↦ some q.live | some f ↦ drain fuel f q.live ]

-- A client's call, and what it sees of it.
pub data Op : Type 0 where
  put : Option Packet → Option Frame → Ret → CloneAnswers → Op
  get : Op

pub data Reply : Type 0 where
  accepted rejected nothing_there : Reply
  got : ReadOut → Reply

abbrev pub put_reply : Ret → Reply
put_reply ret = if failed ret then rejected else accepted

abbrev pub get_reply : ReadOut → Reply
get_reply out = if failed out.ret then nothing_there else got out

-- The calls in order: the replies, and the queue that is left.
unfoldable pub run : (api : FifoApi) → Queue api → List Op → List Reply × Queue api
run api q [] = ([], q)
run api q (put p f dr a ∷ ops) =
    let (ret, q') = queue_write api q p f dr a in
    let (replies, q'') = run api q' ops in (put_reply ret ∷ replies, q'')
run api q (get ∷ ops) =
    let (out, q') = queue_read api q in
    let (replies, q'') = run api q' ops in (get_reply out ∷ replies, q'')
