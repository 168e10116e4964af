-- ===== src/Thread/Looped.antt =====
-- Which outputs hold a muxer and a file in the loop of `transcode`.
use lpms.Common.{
  ℕ, zero, suc, pos, negsuc, ◌≡◌, ◌≢◌, ◌⊎◌, refl, sym, ap, ◌∙◌, arith, Bool, true, false, Option,
  none, some, List, map, length, All, length-map, ℤ, if◌then◌else◌,
}
use lpms.Media.{Stream, Packet, Frame}
use lpms.Decoder.{Turn}
use lpms.Outlet.{OutputCtx}
use lpms.Outlet.Held.{IsAttached}
use lpms.Queue.{FifoApi}
use lpms.Dispatch.{Item, Decoded, keep_last, set_duration}
use lpms.Codec.{InputCtx}
use lpms.Dispatch.Stays.{Outline, outline, All-outline, serve_all-outline}
use lpms.Segment.{Fate, goes, finishes, crashes, stops, Fetched, fetch}
use lpms.Thread.Loop.{
  World, RoundAnswers, Running, open_all, all_open, serve_placed, serve_frame, serve_counted,
  serve_found, serve_index, serve_turn, then_run, hold_turn, open_or_serve, route_turn, loop_round,
  run_loop, view, after_fetch,
}
use lpms.Thread.Held.{open_all-IsAttached}

-- So many outputs, of which each that has a file has its muxer.
pub record Fits (n : ℕ) (os : List OutputCtx) : Type 0 where
  pub attached : All IsAttached os
  pub number : length os ≡ n

length-outline :
    (os os' : List OutputCtx) → map outline os' ≡ map outline os → length os' ≡ length os
length-outline os os' e = sym (length-map outline os') ∙ ap length e ∙ length-map outline os

pub outline-Fits :
    (n : ℕ) (os os' : List OutputCtx) → map outline os' ≡ map outline os → Fits n os → Fits n os'
outline-Fits n os os' e h = record {
  attached = All-outline (λ (k : Outline). (k.oc ≢ none) ⊎ (k.has_pb ≡ false)) os os' e h.attached;
  number = length-outline os os' e ∙ h.number;
}

-- The decoders, the packet that waits for one, and the calls of libav are the same.
abbrev pub SameInput : InputCtx → InputCtx → Type 0
SameInput c c' =
    (c'.has_vc ≡ c.has_vc)
    × (c'.has_ac ≡ c.has_ac)
    × (c'.blocked_pkt ≡ c.blocked_pkt)
    × (c'.calls ≡ c.calls)

keep-SameInput :
    (b : Bool) (ist : Stream) (f : Frame) (c : InputCtx)
    → SameInput c (if b then keep_last ist f c else c)
unfolding keep_last
keep-SameInput b ist f c = ground arith

module _ (api : FifoApi) (w : World) where
  -- Serving keeps the outlines of all outputs, and what is held.
  abbrev pub IsServed : Running api → Running api → Type 0
  IsServed st st' =
      (map outline st'.outputs ≡ map outline st.outputs)
      × (st'.frame_queue ≡ st.frame_queue)
      × (st'.outputs_ready ≡ st.outputs_ready)
      × (st'.hit_eof ≡ st.hit_eof)
      × SameInput st.ictx st'.ictx

  serve_placed-IsServed :
      (a : RoundAnswers) (item : Packet → Item) (placed : Option Packet) (st : Running api)
      → IsServed st (serve_placed api w a item placed st).1
  unfolding serve_placed
  serve_placed-IsServed a item none st = (refl, refl, refl, refl, (refl, refl, refl, refl))
  serve_placed-IsServed a item (some pkt) st = (
    serve_all-outline w.ops w.writer st.ictx a.serves (item pkt) st.outputs,
    refl,
    refl,
    refl,
    (refl, refl, refl, refl),
  )

  serve_counted-IsServed :
      (a : RoundAnswers) (t : Turn) (index : ℕ) (ist : Stream) (counted : Option (Bool × Decoded))
      (st : Running api)
      → IsServed st (serve_counted api w a t index ist counted st).1
  unfolding serve_counted serve_frame
  serve_counted-IsServed a t index ist none st = (refl, refl, refl, refl, (refl, refl, refl, refl))
  serve_counted-IsServed a t index ist (some (has_frame, decoded)) st =
      let frame = if has_frame then set_duration w.ops ist t.frame else t.frame in
      let (outlines, queue, ready, eof, (vc, ac, blocked, calls)) = serve_placed-IsServed a _ _ _ in
      let (vc', ac', blocked', calls') = keep-SameInput has_frame ist frame st.ictx in
      (outlines, queue, ready, eof, (vc ∙ vc', ac ∙ ac', blocked ∙ blocked', calls ∙ calls'))

  serve_found-IsServed :
      (a : RoundAnswers) (t : Turn) (index : ℕ) (found : Option Stream) (st : Running api)
      → IsServed st (serve_found api w a t index found st).1
  unfolding serve_found
  serve_found-IsServed a t index none st = (refl, refl, refl, refl, (refl, refl, refl, refl))
  serve_found-IsServed a t index (some ist) st = serve_counted-IsServed a t index ist _ st

  serve_index-IsServed :
      (a : RoundAnswers) (t : Turn) (index : ℤ) (st : Running api)
      → IsServed st (serve_index api w a t index st).1
  unfolding serve_index
  serve_index-IsServed a t (negsuc n) st = (refl, refl, refl, refl, (refl, refl, refl, refl))
  serve_index-IsServed a t (pos index) st = serve_found-IsServed a t index _ st

  pub serve_turn-IsServed :
      (a : RoundAnswers) (t : Turn) (st : Running api) → IsServed st (serve_turn api w a t st).1
  unfolding serve_turn
  serve_turn-IsServed a t st = serve_index-IsServed a t t.stream_index st

  open_or_serve-Fits :
      (n : ℕ) (a : RoundAnswers) (f : Fetched api) (st : Running api)
      → Fits n st.outputs
      → Fits n (open_or_serve api w a f st).1.outputs
  unfolding open_or_serve hold_turn
  open_or_serve-Fits n a f st h =
      let os = (open_all w.ops a.opens st.ictx f.turn st.outputs).2 in
      let st' : Running api = record st { outputs = os; outputs_ready = all_open os } in
      let (attached, number) =
        open_all-IsAttached w.ops a.opens st.ictx f.turn st.outputs h.attached in
      let fits : Fits n os = record { attached = attached; number = number ∙ h.number } in
      let now =
        outline-Fits n st.outputs (serve_turn api w a f.turn st).1.outputs
          (serve_turn-IsServed a f.turn st).0 h in
      let later =
        outline-Fits n os (serve_turn api w a f.turn st').1.outputs
          (serve_turn-IsServed a f.turn st').0 fits in
      ground (arith, h, now, later, fits)

  pub loop_round-Fits :
      (n : ℕ) (a : RoundAnswers) (st : Running api)
      → Fits n st.outputs
      → Fits n (loop_round api w a st).1.outputs
  unfolding loop_round route_turn
  loop_round-Fits n a st h =
      let f = fetch api w.lib w.ops (view api st) in
      let st1 = after_fetch api f st in
      ground (
        arith,
        h,
        open_or_serve-Fits n a f st1 h,
        open_or_serve-Fits n a f (record st1 { hit_eof = true }) h,
      )

  abbrev pub RunFits : ℕ → Option (Fate × Running api) → Type 0
  RunFits n none = Unit
  RunFits n (some (fate, st)) = Fits n st.outputs

  then_run-Fits :
      (n : ℕ) (r : Fate × Running api) (rest : Option (Fate × Running api))
      → Fits n r.1.outputs
      → RunFits n rest
      → RunFits n (then_run api r rest)
  then_run-Fits n (goes, st) rest h k = k
  then_run-Fits n (finishes, st) rest h k = h
  then_run-Fits n (crashes, st) rest h k = h
  then_run-Fits n (stops ret, st) rest h k = h

  pub run_loop-Fits :
      (fuel n : ℕ) (answers : ℕ → RoundAnswers) (st : Running api)
      → Fits n st.outputs
      → RunFits n (run_loop api fuel w answers st)
  unfolding run_loop
  run_loop-Fits zero n answers st h = tt
  run_loop-Fits (suc fuel) n answers st h =
      let (fate, st') = loop_round api w (answers 0) st in
      let fits = loop_round-Fits n (answers 0) st h in
      let rest = run_loop-Fits fuel n (λ i. answers (suc i)) st' fits in
      then_run-Fits n (fate, st') (run_loop api fuel w (λ i. answers (suc i)) st') fits rest
