-- ===== src/Thread/Loop.antt =====
-- The loop of `transcode` of ffmpeg/transcoder.c as a whole: a round takes what process_in or the queue
-- gives, opens the outputs with open_output, holds it back or sends it on to each output.
use lpms.Common.{
  ℕ, zero, suc, ℤ, pos, negsuc, Bool, true, false, not, ◌&&◌, ◌||◌, Option, none, some, List, [],
  ◌∷◌, if◌then◌else◌, map, ◌+◌,
}
use lpms.Ret.{Ret, done, failed, is_eof, is_eagain, is_packet_only, lpms_err}
use lpms.Media.{is_video, Packet, Stream, TimeOps}
use lpms.Queue.{FifoApi, CloneAnswers, Queue, queue_write}
use lpms.Codec.{Libav, InputCtx, stream_at}
use lpms.Decoder.{Turn}
use lpms.Mux.{Writer}
use lpms.Outlet.{OutputCtx}
use lpms.Outlet.Open.{OpenAnswers, open_output}
use lpms.ProcessOut.{Ended, returned, dangling}
use lpms.Dispatch
use lpms.Dispatch.{Decoded, count_decoded, set_duration, keep_last, ServeAnswers, serve_all}
use lpms.Transmux.{Timeline, transmux}
use lpms.Segment.{
  OutputState, LoopState, wants_open, Opening, opened, open_fails, null_output, is_opened, Fate,
  goes, finishes, crashes, stops, fate_of, Fetched, fetch,
}

-- libav as the loop meets it: its decoders and demuxer, its time bases, and the muxer.
pub record World : Type 0 where
  pub lib : Libav
  pub ops : TimeOps
  pub writer : Writer

-- What libav answers in one round: to queue_write, and for each output to open_output and while it is
-- served; and the pool of GPU frames that the frame is from.
pub record RoundAnswers : Type 0 where
  pub clones : CloneAnswers
  pub opens : ℕ → OpenAnswers
  pub serves : ℕ → ServeAnswers
  pub pool : Option ℕ

-- What Segment knows of an output.
abbrev pub state_of : Ret → OutputCtx → OutputState
state_of ret o = record { initialized = o.initialized; dv = o.dv; open_ret = ret }

abbrev pub lacks_muxer : OutputCtx → Bool
lacks_muxer o = elim o.oc [ none ↦ true | some streams ↦ false ]

-- How the loop that opens the outputs ends, `set_outputs`, and the outputs.
abbrev pub Opened : Type 0
Opened = Opening × Bool × List OutputCtx

-- One output, with what open_output gives for it, and what the rest of the loop gives.
unfoldable pub open_next :
    Bool → Bool → OutputCtx → Ret × OutputCtx → List OutputCtx → Opened → Opened
open_next transmuxing wants o (ret, o') os (result, set_outputs, os') =
    if o.initialized
    then (result, set_outputs, o ∷ os')
    else if not wants
    then (if transmuxing && lacks_muxer o
        then (null_output, true, o ∷ os)
        else (result, true, o ∷ os'))
    else if failed ret
    then (open_fails ret, true, o' ∷ os)
    else (result, true, o' ∷ os')

unfoldable pub open_all : TimeOps → (ℕ → OpenAnswers) → InputCtx → Turn → List OutputCtx → Opened
open_all ops answers ictx t [] = (opened, false, [])
open_all ops answers ictx t (o ∷ os) =
    let rest = open_all ops (λ i. answers (suc i)) ictx t os in
    let (ret, o') = open_output ops (answers 0) ictx o in
    open_next ictx.transmuxing (wants_open ictx t (state_of ret o)) o (ret, o') os rest

abbrev pub all_open : List OutputCtx → Bool
all_open [] = true
all_open (o ∷ os) = o.initialized && all_open os

-- How a round ends after the outputs were served.
abbrev pub fate_of_served : Ended → Fate
fate_of_served dangling = crashes
fate_of_served (returned ret) = if Dispatch.stops (returned ret) then stops ret else goes

-- A packet of a copy on the timeline of its stream, or nothing if it comes too late.
unfoldable pub place : InputCtx → Packet → List Timeline → Option Packet × List Timeline
place ictx p lines = if ictx.transmuxing then transmux lines p else (some p, lines)

-- A copy counts packets of the video.
abbrev pub count_packet : InputCtx → Stream → Decoded → Decoded
count_packet ictx ist d =
    if ictx.transmuxing && is_video ist.codec_type then record d { frames = d.frames + 1 } else d

module _ (api : FifoApi) where
  -- The variables of the loop; `outputs` are those in use.
  pub record Running : Type 0 where
    pub ictx : InputCtx
    pub lines : List Timeline
    pub outputs : List OutputCtx
    pub decoded : Decoded
    pub frame_queue : Queue api
    pub outputs_ready : Bool
    pub hit_eof : Bool

  -- The loop as Segment sees it, whose outputs do not matter to `fetch`.
  abbrev pub view : Running → LoopState api
  view st = record {
    ictx = st.ictx;
    frame_queue = st.frame_queue;
    outputs = map (state_of done) st.outputs;
    outputs_ready = st.outputs_ready;
    hit_eof = st.hit_eof;
  }

  abbrev pub after_fetch : Fetched api → Running → Running
  after_fetch f st = record st { ictx = f.state.ictx; frame_queue = f.state.frame_queue }

  -- The item goes to each output, unless its packet came too late.
  unfoldable pub serve_placed :
      World → RoundAnswers → (Packet → Dispatch.Item) → Option Packet → Running → Fate × Running
  serve_placed w a item none st = (goes, st)
  serve_placed w a item (some pkt) st =
      let (ended, os) = serve_all w.ops w.writer a.serves st.ictx (item pkt) st.outputs in
      (fate_of_served ended, record st { outputs = os })

  -- The frame gets its duration and is kept as the last one, if it is there.
  unfoldable pub serve_frame :
      World → RoundAnswers → Turn → ℕ → Stream → Bool → Running → Fate × Running
  serve_frame w a t index ist has_frame st =
      let frame = if has_frame then set_duration w.ops ist t.frame else t.frame in
      let ictx = if has_frame then keep_last ist frame st.ictx else st.ictx in
      let (placed, lines) = place ictx t.pkt st.lines in
      let item : Packet → Dispatch.Item = λ pkt. record {
        stream_index = index;
        ist = ist;
        packet = pkt;
        picture = record { frame = frame; pool = a.pool };
        has_frame = has_frame;
      } in
      serve_placed w a item placed
        (record st { ictx = ictx; lines = lines; decoded = count_packet ictx ist st.decoded })

  unfoldable pub serve_counted :
      World → RoundAnswers → Turn → ℕ → Stream → Option (Bool × Decoded) → Running → Fate × Running
  serve_counted w a t index ist none st = (goes, st)
  serve_counted w a t index ist (some (has_frame, decoded)) st =
      serve_frame w a t index ist has_frame (record st { decoded = decoded })

  unfoldable pub serve_found :
      World → RoundAnswers → Turn → ℕ → Option Stream → Running → Fate × Running
  serve_found w a t index none st = (crashes, st)
  serve_found w a t index (some ist) st =
      let counted = count_decoded ist t.frame (not (is_packet_only t.ret)) st.decoded in
      serve_counted w a t index ist counted st

  -- The second half of the loop. An index that the input does not have is used all the same.
  unfoldable pub serve_index : World → RoundAnswers → Turn → ℤ → Running → Fate × Running
  serve_index w a t (negsuc n) st = (crashes, st)
  serve_index w a t (pos index) st = serve_found w a t index (stream_at st.ictx.ic (pos index)) st

  unfoldable pub serve_turn : World → RoundAnswers → Turn → Running → Fate × Running
  serve_turn w a t st = serve_index w a t t.stream_index st

  unfoldable pub hold_turn : CloneAnswers → Fetched api → Running → Fate × Running
  hold_turn a f st =
      let (ret, q) =
        queue_write api st.frame_queue f.item.pkt f.item.frame f.item.decoder_return a in
      (if failed ret then stops (lpms_err ret) else goes, record st { frame_queue = q })

  unfoldable pub open_or_serve : World → RoundAnswers → Fetched api → Running → Fate × Running
  open_or_serve w a f st =
      let (result, set_outputs, os) = open_all w.ops a.opens st.ictx f.turn st.outputs in
      let st' = record st { outputs = os; outputs_ready = all_open os } in
      if st.outputs_ready
      then serve_turn w a f.turn st
      else if not (is_opened result)
      then (fate_of result, st')
      else if set_outputs
      then hold_turn a.clones f st'
      else serve_turn w a f.turn st'

  unfoldable pub route_turn : World → RoundAnswers → Fetched api → Running → Fate × Running
  route_turn w a f st =
      let ret = f.turn.ret in
      if is_eof ret
      then (if st.outputs_ready
          then (finishes, st)
          else open_or_serve w a f (record st { hit_eof = true }))
      else if is_packet_only ret || is_eagain ret || not (failed ret)
      then open_or_serve w a f st
      else (stops ret, st)

  unfoldable pub loop_round : World → RoundAnswers → Running → Fate × Running
  loop_round w a st = let f = fetch api w.lib w.ops (view st) in route_turn w a f (after_fetch f st)

  -- What follows a round: the rest of them, if the loop goes on.
  abbrev pub then_run : Fate × Running → Option (Fate × Running) → Option (Fate × Running)
  then_run (goes, st) rest = rest
  then_run (finishes, st) rest = some (finishes, st)
  then_run (crashes, st) rest = some (crashes, st)
  then_run (stops ret, st) rest = some (stops ret, st)

  -- Up to `n` rounds; `none` says that the loop goes on.
  unfoldable pub run_loop : ℕ → World → (ℕ → RoundAnswers) → Running → Option (Fate × Running)
  run_loop zero w answers st = none
  run_loop (suc n) w answers st =
      let r = loop_round w (answers 0) st in
      let rest = run_loop n w (λ i. answers (suc i)) r.1 in then_run r rest
