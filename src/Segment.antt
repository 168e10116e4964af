-- ===== src/Segment.antt =====
-- The first half of the loop of `transcode` in ffmpeg/transcoder.c: what comes from process_in is
-- held in the queue until every output is open, and then goes on to be encoded and muxed. Opening
-- an output is open_output of ffmpeg/encoder.c, of which only the result counts here.
pub mod Fetch
pub mod InOrder
pub mod Drain
pub mod Stray
mod Tests
use lpms.Common.{
  ℕ, zero, suc, ◌+◌, ℤ, pos, negsuc, ◌==ℤ◌, ltb_ℤ, Bool, true, false, not, ◌&&◌, ◌||◌, Option, none,
  some, List, [], ◌∷◌, ◌++◌, if◌then◌else◌, ltb,
}
use lpms.Ret.{Ret, ok, err, done, failed, is_eof, is_eagain, is_packet_only, lpms_err}
use lpms.Media.{Packet, Frame, TimeOps, blank_packet, blank_frame}
use lpms.Queue.{Item, FifoApi, CloneAnswers, Queue, ReadOut, queue_write, queue_read}
use lpms.Codec.{Libav, InputCtx}
use lpms.Decoder.{Turn, process_in}

-- An output: whether it is open, whether its video is dropped, and what open_output answers for it.
pub record OutputState : Type 0 where
  pub initialized : Bool
  pub dv : Bool
  pub open_ret : Ret

abbrev pub all_initialized : List OutputState → Bool
all_initialized [] = true
all_initialized (o ∷ os) = o.initialized && all_initialized os

-- An output is opened at a frame of the video, or at once if there is none, and at the end.
unfoldable pub wants_open : InputCtx → Turn → OutputState → Bool
wants_open c t o =
    not (ltb_ℤ c.vi (pos 0)) && t.stream_index ==ℤ c.vi
    || ltb_ℤ c.vi (pos 0)
    || o.dv
    || is_eof t.ret

-- How the loop over the outputs ends. A copied input sets a flag of each output that it finds not
-- initialized; for one that was not opened either, that is a null dereference.
pub data Opening : Type 0 where
  opened : Opening
  open_fails : Ret → Opening
  null_output : Opening

abbrev pub is_opened : Opening → Bool
is_opened opened = true
is_opened _ = false

-- The loop over the outputs: how it ends, `set_outputs`, and the outputs.
unfoldable pub open_outputs :
    Bool → (OutputState → Bool) → List OutputState → Opening × Bool × List OutputState
open_outputs transmuxing wants [] = (opened, false, [])
open_outputs transmuxing wants (o ∷ os) =
    let (result, set_outputs, os') = open_outputs transmuxing wants os in
    if o.initialized
    then (result, set_outputs, o ∷ os')
    else if not (wants o)
    then (if transmuxing then (null_output, true, o ∷ os) else (result, true, o ∷ os'))
    else if failed o.open_ret
    then (open_fails o.open_ret, true, o ∷ os)
    else (result, true, record o { initialized = true } ∷ os')

-- Whether the frame of a turn is queued: pure copies leave it empty.
unfoldable pub output_frame : InputCtx → Turn → Bool
output_frame c t =
    let has_frame = not (is_packet_only t.ret) in
    if t.stream_index ==ℤ c.vi
    then has_frame && ltb 0 t.frame.width && ltb 0 t.frame.height
    else if t.stream_index ==ℤ c.ai
    then has_frame && ltb 0 t.frame.nb_samples
    else has_frame

-- What is queued of a turn.
unfoldable pub item_of : InputCtx → Turn → Item
item_of c t = record {
  pkt = if is_eof t.ret then none else some t.pkt;
  frame = if output_frame c t then some t.frame else none;
  decoder_return = t.ret;
}

-- The loop goes on, breaks to flush the outputs, crashes, or stops with an error.
pub data Fate : Type 0 where
  goes finishes crashes : Fate
  stops : Ret → Fate

abbrev or_pkt : Option Packet → Packet
or_pkt none = blank_packet
or_pkt (some p) = p

abbrev pub or_frame : Option Frame → Frame
or_frame none = blank_frame
or_frame (some f) = f

abbrev pub or_index : Option ℕ → ℤ
or_index none = negsuc 0
or_index (some i) = pos i

abbrev pub or_ret : Option Ret → Ret
or_ret none = done
or_ret (some ret) = ret

abbrev pub fate_of : Opening → Fate
fate_of opened = goes
fate_of (open_fails ret) = stops ret
fate_of null_output = crashes

module _ (api : FifoApi) where
  pub record LoopState : Type 0 where
    pub ictx : InputCtx
    pub frame_queue : Queue api
    pub outputs : List OutputState
    pub outputs_ready : Bool
    pub hit_eof : Bool

  -- One round. `produced` is what process_in gave, `taken` what goes on to the encoders or ended
  -- the loop.
  pub record Round : Type 0 where
    pub produced : List Item
    pub taken : List Item
    pub fate : Fate
    pub next : LoopState

  -- What a round works on: the item, and the turn that it stands for.
  pub record Fetched : Type 0 where
    pub fresh : Bool
    pub item : Item
    pub turn : Turn
    pub state : LoopState

  -- process_in, on the frame and the stream index that the round has so far.
  unfoldable pub from_decoder : Libav → TimeOps → LoopState → Frame → ℤ → Fetched
  from_decoder lib ops st frame index =
      let t = process_in lib ops st.ictx frame index in
      record { fresh = true; item = item_of t.ctx t; turn = t; state = record st { ictx = t.ctx } }

  unfoldable pub from_queue : LoopState → ReadOut → Fetched
  from_queue st out = record {
    fresh = false;
    item = record { pkt = out.pkt; frame = out.frame; decoder_return = or_ret out.decoder_return };
    turn = record {
      ret = or_ret out.decoder_return;
      pkt = or_pkt out.pkt;
      frame = or_frame out.frame;
      stream_index = or_index out.stream_index;
      ctx = st.ictx;
    };
    state = st;
  }

  -- The queue is read first once the outputs are ready, or the input has ended.
  unfoldable pub fetch : Libav → TimeOps → LoopState → Fetched
  fetch lib ops st =
      if st.outputs_ready || st.hit_eof
      then (let (out, q) = queue_read api st.frame_queue in
          let st' = record st { frame_queue = q } in
          if not st.outputs_ready || failed out.ret
          then from_decoder lib ops st' (or_frame out.frame) (or_index out.stream_index)
          else from_queue st' out)
      else from_decoder lib ops st blank_frame (negsuc 0)

  abbrev produced_by : Fetched → List Item
  produced_by f = if f.fresh then f.item ∷ [] else []

  unfoldable pub pass_on : Fate → Fetched → LoopState → Round
  pass_on fate f st = record {
    produced = produced_by f;
    taken = f.item ∷ [];
    fate = fate;
    next = st;
  }

  unfoldable pub hold : CloneAnswers → Fetched → LoopState → Round
  hold a f st =
      let (ret, q) =
        queue_write api st.frame_queue f.item.pkt f.item.frame f.item.decoder_return a in
      record {
        produced = produced_by f;
        taken = [];
        fate = if failed ret then stops (lpms_err ret) else goes;
        next = record st { frame_queue = q };
      }

  unfoldable pub open_or_pass : CloneAnswers → Fetched → LoopState → Round
  open_or_pass a f st =
      if st.outputs_ready
      then pass_on goes f st
      else (let (result, set_outputs, os) =
            open_outputs st.ictx.transmuxing (wants_open st.ictx f.turn) st.outputs in
          let st' = record st { outputs = os; outputs_ready = all_initialized os } in
          if not (is_opened result)
          then pass_on (fate_of result) f st'
          else if set_outputs
          then hold a f st'
          else pass_on goes f st')

  unfoldable pub route : CloneAnswers → Fetched → Round
  route a f =
      let st = f.state in
      let ret = f.turn.ret in
      if is_eof ret
      then (if st.outputs_ready
          then pass_on finishes f st
          else open_or_pass a f (record st { hit_eof = true }))
      else if is_packet_only ret || is_eagain ret || not (failed ret)
      then open_or_pass a f st
      else pass_on (stops ret) f st

  unfoldable pub round : Libav → TimeOps → CloneAnswers → LoopState → Round
  round lib ops a st = route a (fetch lib ops st)

  abbrev idle : LoopState → Round
  idle st = record { produced = []; taken = []; fate = goes; next = st }

  abbrev pub then_round : Fate → Round → Round → Round
  then_round goes r rest = record rest {
    produced = r.produced ++ rest.produced;
    taken = r.taken ++ rest.taken;
  }
  then_round finishes r rest = r
  then_round crashes r rest = r
  then_round (stops ret) r rest = r

  -- Up to `n` rounds.
  unfoldable pub rounds : ℕ → Libav → TimeOps → CloneAnswers → LoopState → Round
  rounds zero lib ops a st = idle st
  rounds (suc n) lib ops a st =
      let r = round lib ops a st in let rest = rounds n lib ops a r.next in then_round r.fate r rest
