-- ===== src/Thread/Served.antt =====
-- What the second half of the loop of `transcode` does with an item.
use lpms.Common.{
  ℕ, ℤ, pos, negsuc, ◌≡◌, ◌⊎◌, refl, arith, Bool, true, false, not, Option, none, some, List,
  if◌then◌else◌, Option-cases, inl, inr,
}
use lpms.Ret.{is_packet_only}
use lpms.Media.{Packet, Stream, Frame}
use lpms.Codec.{InputCtx, stream_at}
use lpms.Decoder.{Turn}
use lpms.Queue.{FifoApi}
use lpms.Dispatch.{Item, Decoded, count_decoded, set_duration, keep_last, serve_all}
use lpms.Transmux.{Timeline, transmux}
use lpms.Segment.{Fate, goes, crashes}
use lpms.Thread.Loop.{
  World, RoundAnswers, Running, place, fate_of_served, serve_placed, serve_frame, serve_counted,
  serve_found, serve_index, serve_turn,
}

-- A packet of a copy is moved to the timeline of its stream, or comes too late.
abbrev Placed : InputCtx → List Timeline → Packet → Option Packet → Type 0
Placed c lines p placed =
    ((c.transmuxing ≡ false) × (placed ≡ some p))
    ⊎ ((c.transmuxing ≡ true) × (placed ≡ (transmux lines p).0))

place-Placed :
    (b : Bool) (ist : Stream) (f : Frame) (c : InputCtx) (lines : List Timeline) (p : Packet)
    → Placed c lines p (place (if b then keep_last ist f c else c) p lines).0
unfolding place keep_last
place-Placed b ist f c lines p = ground arith

module _ (api : FifoApi) (w : World) (a : RoundAnswers) (t : Turn) (st : Running api) where
  -- What the outputs are given: a frame has its duration.
  abbrev pub item_for : ℕ → Stream → Bool → Packet → Item
  item_for index ist has_frame pkt = record {
    stream_index = index;
    ist = ist;
    packet = pkt;
    picture = record {
      frame = if has_frame then set_duration w.ops ist t.frame else t.frame;
      pool = a.pool;
    };
    has_frame = has_frame;
  }

  -- The item goes to the outputs, and the loop goes on if none of them stops it.
  abbrev pub GoesToAll : Item → Fate × Running api → Type 0
  GoesToAll item (fate, st') =
      let (ended, os) = serve_all w.ops w.writer a.serves st'.ictx item st.outputs in
      (fate ≡ fate_of_served ended) × (st'.outputs ≡ os)

  -- How an item is served: it crashes without a stream, a sentinel or a packet that comes too late
  -- leaves the outputs as they are, and any other goes to all outputs.
  pub data Serves (x : Fate × Running api) : Type 0 where
    no_stream : stream_at st.ictx.ic t.stream_index ≡ none → x.0 ≡ crashes → Serves x
    sentinel :
        (ist : Stream)
        → stream_at st.ictx.ic t.stream_index ≡ some ist
        → count_decoded ist t.frame (not (is_packet_only t.ret)) st.decoded ≡ none
        → x ≡ (goes, st)
        → Serves x
    late : x.0 ≡ goes → x.1.outputs ≡ st.outputs → Placed st.ictx st.lines t.pkt none → Serves x
    served :
        (index : ℕ) (ist : Stream) (has_frame : Bool) (decoded : Decoded) (pkt : Packet)
        → t.stream_index ≡ pos index
        → stream_at st.ictx.ic t.stream_index ≡ some ist
        → count_decoded ist t.frame (not (is_packet_only t.ret)) st.decoded
          ≡ some (has_frame, decoded)
        → Placed st.ictx st.lines t.pkt (some pkt)
        → GoesToAll (item_for index ist has_frame pkt) x
        → Serves x

  frame-Serves :
      (index : ℕ) (ist : Stream) (has_frame : Bool) (decoded : Decoded)
      → t.stream_index ≡ pos index
      → stream_at st.ictx.ic t.stream_index ≡ some ist
      → count_decoded ist t.frame (not (is_packet_only t.ret)) st.decoded
        ≡ some (has_frame, decoded)
      → Serves (serve_frame api w a t index ist has_frame (record st { decoded = decoded }))
  unfolding serve_frame serve_placed
  frame-Serves index ist has_frame decoded at found counted =
      let frame = if has_frame then set_duration w.ops ist t.frame else t.frame in
      let ictx = if has_frame then keep_last ist frame st.ictx else st.ictx in
      let placed = place-Placed has_frame ist frame st.ictx st.lines t.pkt in
      elim (Option-cases (place ictx t.pkt st.lines).0) [
        | inl e ↦ rw (serve_frame, e) (late refl refl (rw e at placed))
        | inr (pkt, e) ↦
            rw (serve_frame, e)
              (served index ist has_frame decoded pkt at found counted (rw e at placed)
                (refl, refl))
      ]

  found-Serves :
      (index : ℕ) (found : Option Stream)
      → t.stream_index ≡ pos index
      → stream_at st.ictx.ic t.stream_index ≡ found
      → Serves (serve_found api w a t index found st)
  unfolding serve_found serve_counted
  found-Serves index none at e = no_stream e refl
  found-Serves index (some ist) at e =
      elim (Option-cases (count_decoded ist t.frame (not (is_packet_only t.ret)) st.decoded)) [
        | inl e' ↦ rw (serve_found, e') (sentinel ist e e' refl)
        | inr ((has_frame, decoded), e') ↦
            rw (serve_found, e') (frame-Serves index ist has_frame decoded at e e')
      ]

  index-Serves :
      (index : ℤ)
      → t.stream_index ≡ index
      → stream_at st.ictx.ic t.stream_index ≡ stream_at st.ictx.ic index
      → Serves (serve_index api w a t index st)
  unfolding serve_index
  index-Serves (pos n) e found = found-Serves n _ e found
  index-Serves (negsuc n) e found = elim (Option-cases st.ictx.ic) [
    | inl e' ↦ no_stream ground (arith, found, e') refl
    | inr (ss, e') ↦ no_stream ground (arith, found, e') refl
  ]

  pub turn-Serves : Serves (serve_turn api w a t st)
  unfolding serve_turn
  turn-Serves = index-Serves t.stream_index refl refl
