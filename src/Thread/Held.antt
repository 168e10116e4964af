-- ===== src/Thread/Held.antt =====
-- Which outputs hold a muxer and a file while a handle is used.
use lpms.Common.{
  ℕ, suc, ◌≡◌, ◌⊎◌, refl, arith, Bool, true, List, [], ◌∷◌, map, length, take, drop, Bool-cases,
  inl, inr, All, All-append, All-map,
}
use lpms.Ret.{Ret, failed}
use lpms.Media.{TimeOps}
use lpms.Codec.{InputCtx}
use lpms.Decoder.{Turn}
use lpms.Outlet.{OutputCtx, close_output}
use lpms.Outlet.Held.{IsAttached, open_output-Outcome}
use lpms.Outlet.Open.{OpenAnswers, open_output}
use lpms.Outlet.Reopened.{IsIdle, reopen_output-IsAttached}
use lpms.Dispatch.{set_flags}
use lpms.Session.Bounds.{shutdown_count}
use lpms.Thread.{Thread, shut_output, transcode_shutdown}
use lpms.Thread.Init.{OutputParams, set_params, prepare, init_output, init_outputs}
use lpms.Thread.Loop.{open_next, open_all}

shut_output-IsIdle : (o : OutputCtx) → IsAttached o → IsIdle (shut_output o)
unfolding shut_output close_output
shut_output-IsIdle o h = ground (arith, h)

-- Where each file in use has its muxer and the other outputs are idle, shutting down leaves all idle.
pub shutdown-All :
    (t : Thread) (ret : Ret)
    → All IsAttached (take t.handle.nb_outputs t.outputs)
    → All IsIdle (drop t.handle.nb_outputs t.outputs)
    → All IsIdle (transcode_shutdown t ret).1.outputs
unfolding transcode_shutdown
shutdown-All t ret h k =
    let used = take t.handle.nb_outputs t.outputs in
    rw (shutdown_count t.handle ret) (
      All-append IsIdle (map shut_output used) (drop t.handle.nb_outputs t.outputs)
        (All-map IsAttached IsIdle shut_output used shut_output-IsIdle h) k)

module _ (ops : TimeOps) where
  init_output-IsAttached :
      (a : OpenAnswers) (initialized : Bool) (ictx : InputCtx) (p : OutputParams) (o : OutputCtx)
      → IsAttached o
      → (ictx.transmuxing ≡ true) ⊎ IsIdle o
      → IsAttached (init_output ops a initialized ictx p o).1
  unfolding init_output prepare set_params set_flags
  init_output-IsAttached a initialized ictx p o h idle =
      ground (arith, h, idle, reopen_output-IsAttached ops ictx a (prepare initialized ictx p o))

  pub init_outputs-IsAttached :
      (answers : ℕ → OpenAnswers) (initialized : Bool) (ictx : InputCtx) (ps : List OutputParams)
      (os : List OutputCtx)
      → All IsAttached os
      → (ictx.transmuxing ≡ true) ⊎ All IsIdle os
      → All IsAttached (init_outputs ops answers initialized ictx ps os).1
  unfolding init_outputs
  init_outputs-IsAttached answers initialized ictx [] os h idle = h
  init_outputs-IsAttached answers initialized ictx (p ∷ ps) [] h idle = tt
  init_outputs-IsAttached answers initialized ictx (p ∷ ps) (o ∷ os) h idle =
      let first =
        init_output-IsAttached (answers 0) initialized ictx p o h.0 ground (arith, idle) in
      let rest =
        init_outputs-IsAttached (λ i. answers (suc i)) initialized ictx ps os h.1 ground
          (arith, idle) in
      elim (Bool-cases (failed (init_output ops (answers 0) initialized ictx p o).0)) [
        | inl e ↦ rw (init_outputs, e) (first, h.1)
        | inr e ↦ rw (init_outputs, e) (first, rest)
      ]

  -- The outputs past the parameters are left alone.
  pub init_outputs-drop :
      (answers : ℕ → OpenAnswers) (initialized : Bool) (ictx : InputCtx) (ps : List OutputParams)
      (os : List OutputCtx)
      → drop (length ps) (init_outputs ops answers initialized ictx ps os).1 ≡ drop (length ps) os
  unfolding init_outputs
  init_outputs-drop answers initialized ictx [] os = refl
  init_outputs-drop answers initialized ictx (p ∷ ps) [] = refl
  init_outputs-drop answers initialized ictx (p ∷ ps) (o ∷ os) =
      let rest = init_outputs-drop (λ i. answers (suc i)) initialized ictx ps os in
      elim (Bool-cases (failed (init_output ops (answers 0) initialized ictx p o).0)) [
        | inl e ↦ rw (init_outputs, e) refl
        | inr e ↦ rw (init_outputs, e) rest
      ]

  open_output-IsAttached :
      (a : OpenAnswers) (ictx : InputCtx) (o : OutputCtx)
      → IsAttached o
      → IsAttached (open_output ops a ictx o).1
  open_output-IsAttached a ictx o h = elim (open_output-Outcome ops a ictx o h) [
    | inl (_, opened) ↦ inl opened.muxer
    | inr (_, freed) ↦ inr freed.no_pb
  ]

  pub open_all-IsAttached :
      (answers : ℕ → OpenAnswers) (ictx : InputCtx) (t : Turn) (os : List OutputCtx)
      → All IsAttached os
      → let os' = (open_all ops answers ictx t os).2 in
        All IsAttached os' × (length os' ≡ length os)
  unfolding open_all open_next
  open_all-IsAttached answers ictx t [] h = (tt, refl)
  open_all-IsAttached answers ictx t (o ∷ os) h = ground (
    arith,
    h,
    open_output-IsAttached (answers 0) ictx o,
    open_all-IsAttached (λ i. answers (suc i)) ictx t os,
  )
