-- ===== src/Thread/Simulate.antt =====
-- A round of the loop as a whole simulates one of the loop of Segment.
use lpms.Common.{◌≡◌, ◌≢◌, ◌⊎◌, refl, ap, arith, Bool, true, false, ◌&&◌, List, [], ◌∷◌, map}
use lpms.Queue.{FifoApi}
use lpms.Outlet.{OutputCtx}
use lpms.Dispatch.Stays.{Outline}
use lpms.Segment.{
  OutputState, LoopState, Opening, null_output, open_fails, is_opened, Fate, goes, fate_of, Fetched,
  Round,
}
use lpms.Segment
use lpms.Thread.Loop.{World, RoundAnswers, Running, open_all, all_open, after_fetch}
use lpms.Thread.Served.{Serves}
use lpms.Thread.Refine.{mark_of, mark}

abbrev first_marks : List (Bool × Bool) → Bool
first_marks [] = true
first_marks (m ∷ ms) = m.0 && first_marks ms

outputs_ready : (os : List OutputCtx) → all_open os ≡ first_marks (map mark os)
outputs_ready [] = refl
outputs_ready (o ∷ os) = ap (λ b. o.initialized && b) (outputs_ready os)

abbrev mark_in : Outline → Bool × Bool
mark_in k = (k.initialized, k.dv)

pub fate_of-stops : (r : Opening) → is_opened r ≡ false → fate_of r ≢ goes
fate_of-stops r e = ground (arith, e)

module _ (api : FifoApi) where
  -- The loop as Segment has it, with outputs of its own.
  abbrev pub of_running : List OutputState → Running api → LoopState api
  of_running ss st = record {
    ictx = st.ictx;
    frame_queue = st.frame_queue;
    outputs = ss;
    outputs_ready = st.outputs_ready;
    hit_eof = st.hit_eof;
  }

  abbrev with_state : List OutputState → Running api → Fetched api → Fetched api
  with_state ss st f = record f { state = of_running ss (after_fetch api f st) }

  -- The same is held, and the same outputs are open.
  pub record SameLoop (s : LoopState api) (st : Running api) : Type 0 where
    pub queue : s.frame_queue ≡ st.frame_queue
    pub ready : s.outputs_ready ≡ st.outputs_ready
    pub eof : s.hit_eof ≡ st.hit_eof
    pub marks : map mark_of s.outputs ≡ map mark st.outputs

  -- After the fetch that leaves `b`, and after the outputs were opened for it, if they were.
  abbrev pub IsOpenedFrom : World → RoundAnswers → Fetched api → Running api → Running api → Type 0
  IsOpenedFrom w a f b st =
      (st.ictx ≡ b.ictx)
      × (st.lines ≡ b.lines)
      × (st.decoded ≡ b.decoded)
      × ((st.outputs ≡ b.outputs)
          ⊎ (st.outputs ≡ (open_all w.ops a.opens b.ictx f.turn b.outputs).2))

  -- A round ends as the one of Segment does, unless that goes on with an item: the item that was
  -- fetched is then served to the outputs. Where the loop goes on, both have the same.
  pub record Simulates (w : World) (a : RoundAnswers) (f : Fetched api) (b : Running api)
      (r : Round api) (x : Fate × Running api) : Type 0 where
    pub fate : (r.fate ≡ x.0) ⊎ ((r.fate ≡ goes) × (r.taken ≢ []))
    pub serves :
        r.fate ≡ goes
        → r.taken ≢ []
        → (r.taken ≡ f.item ∷ [])
          × ((st : Running api) × SameLoop r.next st
              × IsOpenedFrom w a f b st
              × Serves api w a f.turn st x)
    pub state : (x.0 ≡ goes) → SameLoop r.next x.1
