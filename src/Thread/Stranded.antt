-- ===== src/Thread/Stranded.antt =====
-- A copy after a segment of it that failed.
use lpms.Common.{
  ℕ, suc, ◌≡◌, ◌∙◌, refl, arith, true, false, none, List, [], ◌∷◌, length, take, All, All-weaken,
}
use lpms.Ret.{failed}
use lpms.Media.{TimeOps}
use lpms.Codec.{InputCtx}
use lpms.Input.{InputParams}
use lpms.Outlet.{OutputCtx}
use lpms.Outlet.Open.{OpenAnswers}
use lpms.Outlet.Reopened.{IsIdle}
use lpms.ProcessOut.{dangling}
use lpms.Mux.{Writer}
use lpms.Dispatch.{set_flags, Item, ServeAnswers, serve, route_to}
use lpms.Session.{Handle, Reopening, reopen_input, check_format, reopen_decoders, init_input}
use lpms.Session.Copies.{init_input-copies}
use lpms.Thread.{Thread}
use lpms.Thread.Init.{OutputParams, set_params, prepare, init_output, init_outputs, transcode_init}
use lpms.Thread.Kept.{AllIdle}

-- Marked as initialized, but without a muxer.
pub record IsStranded (o : OutputCtx) : Type 0 where
  pub marked : o.initialized ≡ true
  pub no_muxer : o.oc ≡ none

init_input-initialized :
    (p : InputParams) (r : Reopening) (h : Handle)
    → (init_input p r h).1.initialized ≡ h.initialized
unfolding init_input reopen_input check_format reopen_decoders
init_input-initialized p r h = ground arith

module _ (ops : TimeOps) (ictx : InputCtx) where
  init_output-IsStranded :
      (a : OpenAnswers) (p : OutputParams) (o : OutputCtx)
      → ictx.transmuxing ≡ true
      → IsIdle o
      → let (ret, o') = init_output ops a true ictx p o in (failed ret ≡ false) × IsStranded o'
  unfolding init_output prepare set_params set_flags
  init_output-IsStranded a p o copied idle = ground (arith, copied, idle)

  init_outputs-IsStranded :
      (answers : ℕ → OpenAnswers) (ps : List OutputParams) (os : List OutputCtx)
      → ictx.transmuxing ≡ true
      → All IsIdle os
      → let (ret, os') = init_outputs ops answers true ictx ps os in
        (failed ret ≡ false) × All IsStranded (take (length ps) os')
  unfolding init_outputs
  init_outputs-IsStranded answers [] os copied idle = (refl, tt)
  init_outputs-IsStranded answers (p ∷ ps) [] copied idle = (refl, tt)
  init_outputs-IsStranded answers (p ∷ ps) (o ∷ os) copied idle =
      let (goes_on, first) = init_output-IsStranded (answers 0) p o copied idle.0 in
      let (ends, rest) = init_outputs-IsStranded (λ i. answers (suc i)) ps os copied idle.1 in
      rw (init_outputs, goes_on) (ends, (first, rest))

-- The loop does not open the output, and the first packet for it uses a muxer that is NULL.
abbrev pub Breaks : TimeOps → InputCtx → OutputCtx → Type 0
Breaks ops ictx o =
    (o.initialized ≡ true)
    × ((writer : Writer) (a : ServeAnswers) (x : Item) → (serve ops writer a ictx x o).0 ≡ dangling)

IsStranded-Breaks :
    (ops : TimeOps) (ictx : InputCtx) (o : OutputCtx)
    → ictx.transmuxing ≡ true
    → IsStranded o
    → Breaks ops ictx o
unfolding serve route_to
IsStranded-Breaks ops ictx o copied h = (h.marked, λ writer a x. ground (arith, copied, h.no_muxer))

-- A handle that copies and that was shut down after an error goes wrong in the next segment: where the
-- input is opened again, transcode_init returns 0 with every output marked as open, though none has a
-- muxer, and the first packet that is served uses one that is NULL.
pub transcode_init-strands :
    (ops : TimeOps) (answers : ℕ → OpenAnswers) (p : InputParams) (r : Reopening)
    (params : List OutputParams) (t : Thread)
    → AllIdle t
    → t.handle.initialized ≡ true
    → t.handle.ictx.transmuxing ≡ true
    → p.transmuxing ≡ true
    → failed (init_input p r t.handle).0 ≡ false
    → let (ret, t') = transcode_init ops answers p r params t in
      (failed ret ≡ false) × All (Breaks ops t'.handle.ictx) (take (length params) t'.outputs)
unfolding transcode_init
transcode_init-strands ops answers p r params t idle old copied e goes_on =
    let h = (init_input p r t.handle).1 in
    let still = init_input-copies p r t.handle e copied in
    let (ends, stranded) = init_outputs-IsStranded ops h.ictx answers params t.outputs still idle in
    let os = (init_outputs ops answers true h.ictx params t.outputs).1 in
    let breaks =
      All-weaken IsStranded (Breaks ops h.ictx) (take (length params) os)
        (λ o. IsStranded-Breaks ops h.ictx o still) stranded in
    rw (transcode_init, goes_on, init_input-initialized p r t.handle ∙ old, ends) (refl, breaks)
