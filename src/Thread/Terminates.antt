-- ===== src/Thread/Terminates.antt =====
-- The loop over an input without decoders comes to an end.
use lpms.Common.{
  ℕ, zero, suc, ◌+◌, ◌-◌, ◌*◌, ◌≤◌, ◌<◌, ◌≡◌, ◌≢◌, ◌⊎◌, refl, ap, ◌∙◌, arith, Bool, true, false,
  not, ◌||◌, Option, none, length, if◌then◌else◌, if_split, inl, inr, All,
}
use lpms.Ret.{failed, is_eof, is_eagain, is_packet_only}
use lpms.Codec.{InputCtx}
use lpms.Queue.{FifoApi}
use lpms.Queue.Ownership.{HasMemory, contents}
use lpms.Queue.Refine.{IsCreated}
use lpms.Outlet.Held.{IsAttached}
use lpms.Outlet.Layout.{IsPlain}
use lpms.Segment.{Fate, goes, finishes, crashes, stops, Fetched, fetch}
use lpms.Thread.Loop.{
  World, RoundAnswers, Running, view, after_fetch, open_or_serve, route_turn, loop_round, then_run,
  run_loop,
}
use lpms.Thread.Looped.{SameInput, loop_round-Fits}
use lpms.Thread.Reads.{IsCopyOnly, EndsAfter, Reads, fetch-Reads}
use lpms.Thread.Steps.{Steps, open_or_serve-Steps}

-- How many rounds are left at most, if the demuxer ends after `n` calls: before the outputs are ready a
-- round reads an item and holds it, and afterwards one plays it out.
abbrev pub rounds_left : ℕ → Bool → ℕ → ℕ → ℕ
rounds_left n ready calls held = if ready then n - calls + held + 1 else 2 * (n - calls) + held + 3

falls :
    (n : ℕ) (ready ready' eof : Bool) (c c1 h h1 h' : ℕ)
    → ((c1 ≡ suc c) × (h1 ≡ h) × (n ≤ c → eof ≡ true)) ⊎ ((ready ≡ true) × (c1 ≡ c) × (suc h1 ≡ h))
    → ((ready' ≡ true) × (h' ≡ h1)) ⊎ ((ready ≡ false) × (h' ≤ suc h1))
    → (eof ≡ true → ready' ≡ true)
    → (eof ≡ false) ⊎ (ready ≡ false)
    → rounds_left n ready' c1 h' < rounds_left n ready c h
falls n ready ready' eof c c1 h h1 h' reads steps opens ends = ground arith

module _ (api : FifoApi) (room : HasMemory api) (w : World) where
  -- What holds between the rounds.
  pub record CanEnd (st : Running api) : Type 0 where
    pub copies : IsCopyOnly st.ictx
    pub created : IsCreated api st.frame_queue
    pub unseen : (st.outputs_ready ≡ true) ⊎ (st.hit_eof ≡ false)
    pub attached : All IsAttached st.outputs

  abbrev pub fuel_of : ℕ → Running api → ℕ
  fuel_of n st =
      rounds_left n st.outputs_ready (length st.ictx.calls) (length (contents api st.frame_queue))

  -- A round that goes on leaves a loop that can end, with fewer rounds to go.
  abbrev Falls : ℕ → Running api → Fate × Running api → Type 0
  Falls n st (fate, st') =
      fate ≡ goes
      → IsCopyOnly st'.ictx
        × IsCreated api st'.frame_queue
        × ((st'.outputs_ready ≡ true) ⊎ (st'.hit_eof ≡ false))
        × (fuel_of n st' < fuel_of n st)

  same-IsCopyOnly : (c c' : InputCtx) → SameInput c c' → IsCopyOnly c → IsCopyOnly c'
  same-IsCopyOnly c c' (vc, ac, blocked, _) h = record {
    no_vc = vc ∙ h.no_vc;
    no_ac = ac ∙ h.no_ac;
    no_blocked = blocked ∙ h.no_blocked;
  }

  -- From the steps of the second part, on what was fetched.
  Steps-Falls :
      (n : ℕ) (f : Fetched api) (hit : Bool) (st : Running api) (x : Fate × Running api)
      → Reads api room n (view api st) f
      → Steps api f (record (after_fetch api f st) { hit_eof = hit }) x
      → (is_eof f.turn.ret ≡ false) ⊎ (st.outputs_ready ≡ false)
      → (is_eof f.turn.ret ≡ true) ⊎ (st.outputs_ready ≡ true) ⊎ (hit ≡ false)
      → Falls n st x
  Steps-Falls n f hit st (fate, st') (copies, made, reads) steps ends seen e =
      let (input, made', same_eof, items, opens) = steps e in
      (
        same-IsCopyOnly f.state.ictx st'.ictx input copies,
        made',
        ground (arith, seen, items, opens, same_eof),
        rw (ap length input.3) (
            falls n st.outputs_ready st'.outputs_ready (is_eof f.turn.ret) (length st.ictx.calls)
              (length f.state.ictx.calls) (length (contents api st.frame_queue))
              (length (contents api f.state.frame_queue)) (length (contents api st'.frame_queue))
              reads items opens ends),
      )

  route-Falls :
      (a : RoundAnswers) (n : ℕ) (f : Fetched api) (st : Running api)
      → CanEnd st
      → ((i : ℕ) → IsPlain (a.opens i).video_encoder.graph.config_ret)
      → Reads api room n (view api st) f
      → Falls n st (route_turn api w a f (after_fetch api f st))
  unfolding route_turn
  route-Falls a n f st h plain reads =
      let st1 = after_fetch api f st in
      let ret = f.turn.ret in
      let seen_at : Bool → Running api = λ hit. record st1 { hit_eof = hit } in
      let next : (hit : Bool) → Steps api f (seen_at hit) (open_or_serve api w a f (seen_at hit)) =
        λ hit. open_or_serve-Steps api w a f (seen_at hit) room reads.1 h.attached plain in
      if_split (Falls n st) (is_eof ret) _ _
        (λ e.
          if_split (Falls n st) st.outputs_ready _ _ (λ _ k. absurd cc)
            λ e'.
              Steps-Falls n f true st (open_or_serve api w a f (seen_at true)) reads (next true)
                (inr e') (inl e))
        λ e.
          if_split (Falls n st) (is_packet_only ret || is_eagain ret || not (failed ret)) _ _
            (λ _.
              Steps-Falls n f st.hit_eof st (open_or_serve api w a f (seen_at st.hit_eof)) reads
                (next st.hit_eof) (inl e) (inr h.unseen))
            λ _ k. absurd cc

  loop_round-Falls :
      (a : RoundAnswers) (n : ℕ) (st : Running api)
      → CanEnd st
      → ((i : ℕ) → IsPlain (a.opens i).video_encoder.graph.config_ret)
      → EndsAfter w.lib n
      → Falls n st (loop_round api w a st)
  unfolding loop_round
  loop_round-Falls a n st h plain ends =
      route-Falls a n (fetch api w.lib w.ops (view api st)) st h plain
        (fetch-Reads api room w.lib w.ops n (view api st) ends h.copies h.created h.unseen)

  then_run-ends :
      (r : Fate × Running api) (rest : Option (Fate × Running api))
      → ((r.0 ≡ goes) → rest ≢ none)
      → then_run api r rest ≢ none
  then_run-ends (goes, st) rest h = h refl
  then_run-ends (finishes, st) rest h = λ e. absurd cc
  then_run-ends (crashes, st) rest h = λ e. absurd cc
  then_run-ends (stops ret, st) rest h = λ e. absurd cc

  -- The loop of `transcode` over an input without decoders ends, whatever its outputs do: if the demuxer
  -- is at the end of the file from the `n`-th read on, then so many rounds are enough as are left by
  -- `fuel_of`, at most two for each read that is left, one for each item that is held, and three. The
  -- FIFO finds memory, a file is held only with a muxer, and configuring a graph for video gives 0 or an
  -- error.
  pub run_loop-ends :
      (fuel n : ℕ) (answers : ℕ → RoundAnswers) (st : Running api)
      → CanEnd st
      → ((k i : ℕ) → IsPlain ((answers k).opens i).video_encoder.graph.config_ret)
      → EndsAfter w.lib n
      → fuel_of n st ≤ fuel
      → run_loop api fuel w answers st ≢ none
  unfolding run_loop
  run_loop-ends zero n answers st h plain ends enough = absurd ground (arith, enough)
  run_loop-ends (suc fuel) n answers st h plain ends enough =
      let (fate, st') = loop_round api w (answers 0) st in
      let fall = loop_round-Falls (answers 0) n st h (plain 0) ends in
      let fits =
        loop_round-Fits api w (length st.outputs) (answers 0) st
          (record { attached = h.attached; number = refl }) in
      then_run-ends (fate, st') (run_loop api fuel w (λ i. answers (suc i)) st')
        λ e.
          let (copies, created, unseen, less) = fall e in
          run_loop-ends fuel n (λ i. answers (suc i)) st'
            (record {
              copies = copies;
              created = created;
              unseen = unseen;
              attached = fits.attached;
            })
            (λ k i. plain (suc k) i) ends (omega arith)
