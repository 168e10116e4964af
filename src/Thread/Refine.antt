-- ===== src/Thread/Refine.antt =====
-- The loop as a whole against the loop of Segment, which knows of an output only whether it is open.
use lpms.Common.{
  ℕ, suc, ◌≡◌, ◌⊎◌, refl, arith, Bool, true, not, none, List, [], ◌∷◌, if◌then◌else◌, map, All,
}
use lpms.Ret.{Ret, failed}
use lpms.Media.{TimeOps}
use lpms.Codec.{InputCtx}
use lpms.Decoder.{Turn}
use lpms.Outlet.{OutputCtx}
use lpms.Outlet.Ends.{open_output-Ends}
use lpms.Outlet.Held.{IsAttached}
use lpms.Outlet.Layout.{IsPlain}
use lpms.Outlet.Open.{OpenAnswers, open_output}
use lpms.Outlet.Reopened.{open_output-dv}
use lpms.Segment.{
  OutputState, Opening, null_output, open_fails, wants_open, open_outputs, is_opened,
}
use lpms.Thread.Loop.{state_of, Opened, open_next, open_all}

-- The outputs as Segment has them, each with what open_output will answer for it.
abbrev pub states : TimeOps → (ℕ → OpenAnswers) → InputCtx → List OutputCtx → List OutputState
states ops answers ictx [] = []
states ops answers ictx (o ∷ os) =
    state_of (open_output ops (answers 0) ictx o).0 o ∷ states ops (λ i. answers (suc i)) ictx os

-- Whether an output is open, and whether its video is dropped.
abbrev pub mark_of : OutputState → Bool × Bool
mark_of s = (s.initialized, s.dv)

abbrev pub mark : OutputCtx → Bool × Bool
mark o = (o.initialized, o.dv)

-- An output that is not open has no muxer, and configuring its graph gives 0 or an error.
abbrev pub IsFresh : OutputCtx → Type 0
IsFresh o = ((o.initialized ≡ true) ⊎ (o.oc ≡ none)) × IsAttached o

abbrev pub OpenedStates : Type 0
OpenedStates = Opening × Bool × List OutputState

-- The two loops end in the same way, and if none ends early, then with the same outputs open.
abbrev pub Agrees : OpenedStates → Opened → Type 0
Agrees (result', set', ss) (result, set_outputs, os) =
    (result' ≡ result)
    × (set' ≡ set_outputs)
    × ((is_opened result ≡ true) → map mark_of ss ≡ map mark os)

-- One output in the loop of Segment.
abbrev next_state : Bool → Bool → OutputState → List OutputState → OpenedStates → OpenedStates
next_state transmuxing wants s ss (result, set_outputs, ss') =
    if s.initialized
    then (result, set_outputs, s ∷ ss')
    else if not wants
    then (if transmuxing then (null_output, true, s ∷ ss) else (result, true, s ∷ ss'))
    else if failed s.open_ret
    then (open_fails s.open_ret, true, s ∷ ss)
    else (result, true, record s { initialized = true } ∷ ss')

open_next-Agrees :
    (transmuxing wants : Bool) (o o' : OutputCtx) (ret : Ret) (os : List OutputCtx)
    (ss : List OutputState) (rest : Opened) (rest_s : OpenedStates)
    → (o.initialized ≡ true) ⊎ (o.oc ≡ none)
    → (failed ret ≡ true) ⊎ (o'.initialized ≡ true)
    → o'.dv ≡ o.dv
    → Agrees rest_s rest
    → Agrees
        (next_state transmuxing wants (state_of ret o) ss rest_s)
        (open_next transmuxing wants o (ret, o') os rest)
unfolding open_next
open_next-Agrees transmuxing wants o o' ret os ss rest rest_s fresh ends dv agrees =
    ground (arith, fresh, ends, dv, agrees)

module _ (ops : TimeOps) (ictx : InputCtx) (t : Turn) where
  pub open_all-Agrees :
      (answers : ℕ → OpenAnswers) (os : List OutputCtx)
      → All IsFresh os
      → ((i : ℕ) → IsPlain (answers i).video_encoder.graph.config_ret)
      → Agrees
          (open_outputs ictx.transmuxing (wants_open ictx t) (states ops answers ictx os))
          (open_all ops answers ictx t os)
  unfolding open_all open_outputs
  open_all-Agrees answers [] fresh plain = (refl, refl, λ e. refl)
  open_all-Agrees answers (o ∷ os) fresh plain =
      let (ret, o') = open_output ops (answers 0) ictx o in
      let ss = states ops (λ i. answers (suc i)) ictx os in
      let rest = open_all ops (λ i. answers (suc i)) ictx t os in
      let rest_s = open_outputs ictx.transmuxing (wants_open ictx t) ss in
      open_next-Agrees ictx.transmuxing (wants_open ictx t (state_of ret o)) o o' ret os ss rest
        rest_s fresh.0.0 (open_output-Ends ops ictx (answers 0) o fresh.0.1 (plain 0))
        (open_output-dv ops ictx (answers 0) o)
        (open_all-Agrees (λ i. answers (suc i)) os fresh.1 (λ i. plain (suc i)))
