-- ===== src/Thread/Kept.antt =====
-- What a handle holds between the steps of a call of lpms_transcode.
use lpms.Common.{
  ℕ, ◌≤◌, ◌≡◌, ◌⊎◌, refl, true, false, List, ◌++◌, length, drop, Bool-cases, inl, inr, All,
  All-append, All-take, All-drop, All-weaken, All-drop-append,
}
use lpms.Ret.{Ret, failed}
use lpms.Media.{TimeOps}
use lpms.Input.{InputParams}
use lpms.Outlet.{OutputCtx}
use lpms.Outlet.Held.{IsAttached}
use lpms.Outlet.Open.{OpenAnswers}
use lpms.Outlet.Reopened.{IsIdle, IsIdle-IsAttached}
use lpms.Session.{Reopening, init_input}
use lpms.Session.Bounds.{init_input_count}
use lpms.Session.Copies.{init_input-copies}
use lpms.Thread.{Thread, transcode_shutdown}
use lpms.Thread.Held.{shutdown-All, init_outputs-IsAttached, init_outputs-drop}
use lpms.Thread.Init.{OutputParams, init_outputs, transcode_init}
use lpms.Thread.Transcode.{unused}

-- Each file has its muxer, and an output that is not in use holds neither.
pub record IsKept (t : Thread) : Type 0 where
  pub attached : All IsAttached t.outputs
  pub spare : All IsIdle (unused t)

abbrev pub AllIdle : Thread → Type 0
AllIdle t = All IsIdle t.outputs

pub AllIdle-IsKept : (t : Thread) → AllIdle t → IsKept t
AllIdle-IsKept t h = record {
  attached = All-weaken IsIdle IsAttached t.outputs IsIdle-IsAttached h;
  spare = All-drop IsIdle t.handle.nb_outputs t.outputs h;
}

-- Outputs that were worked on, and idle ones after them.
pub joined-IsKept :
    (t : Thread) (xs ys : List OutputCtx)
    → All IsAttached xs
    → length xs ≤ t.handle.nb_outputs
    → All IsIdle ys
    → IsKept (record t { outputs = xs ++ ys })
joined-IsKept t xs ys h few idle = record {
  attached = All-append IsAttached xs ys h (All-weaken IsIdle IsAttached ys IsIdle-IsAttached idle);
  spare = All-drop-append IsIdle t.handle.nb_outputs xs ys few idle;
}

pub shutdown-AllIdle : (t : Thread) (ret : Ret) → IsKept t → AllIdle (transcode_shutdown t ret).1
shutdown-AllIdle t ret h =
    shutdown-All t ret (All-take IsAttached t.handle.nb_outputs t.outputs h.attached) h.spare

same_spare :
    (a b c : ℕ) (os os' : List OutputCtx)
    → a ≡ b
    → b ≡ c
    → drop c os' ≡ drop c os
    → All IsIdle (drop b os)
    → All IsIdle (drop a os')
same_spare a b c os os' e f same h = rw (e, f, same) (rw f at h)

-- transcode_init leaves a handle that it can go on with; after an error all outputs are idle. A handle
-- that is not idle must be one that is copied, for a request to copy.
pub transcode_init-IsKept :
    (ops : TimeOps) (answers : ℕ → OpenAnswers) (p : InputParams) (r : Reopening)
    (params : List OutputParams) (t : Thread)
    → t.handle.nb_outputs ≡ length params
    → IsKept t
    → AllIdle t ⊎ ((t.handle.ictx.transmuxing ≡ true) × (p.transmuxing ≡ true))
    → let (ret, t') = transcode_init ops answers p r params t in
      IsKept t' × ((failed ret ≡ false) ⊎ AllIdle t')
unfolding transcode_init
transcode_init-IsKept ops answers p r params t n kept mode =
    let (ret, h) = init_input p r t.handle in
    let count : h.nb_outputs ≡ t.handle.nb_outputs = init_input_count p r t.handle in
    let t1 : Thread = record t { handle = h } in
    let kept1 : IsKept t1 = record { attached = kept.attached; spare = rw count kept.spare } in
    let (ret', os) = init_outputs ops answers h.initialized h.ictx params t.outputs in
    let t2 : Thread = record t1 { outputs = os } in
    let mode1 : (h.ictx.transmuxing ≡ true) ⊎ AllIdle t = elim mode [
      | inl idle ↦ inr idle
      | inr (copied, e) ↦ inl (init_input-copies p r t.handle e copied)
    ] in
    let kept2 : IsKept t2 = record {
      attached =
          init_outputs-IsAttached ops answers h.initialized h.ictx params t.outputs kept.attached
            mode1;
      spare =
          same_spare h.nb_outputs t.handle.nb_outputs (length params) t.outputs os count n
            (init_outputs-drop ops answers h.initialized h.ictx params t.outputs) kept.spare;
    } in
    elim (Bool-cases (failed ret)) [
      | inl e ↦
          let idle = shutdown-AllIdle t1 ret kept1 in
          rw (transcode_init, e) (AllIdle-IsKept (transcode_shutdown t1 ret).1 idle, inr idle)
      | inr e ↦ elim (Bool-cases (failed ret')) [
        | inl e' ↦
            let idle = shutdown-AllIdle t2 ret' kept2 in
            rw (transcode_init, e, e')
              (AllIdle-IsKept (transcode_shutdown t2 ret').1 idle, inr idle)
        | inr e' ↦ rw (transcode_init, e, e') (kept2, inl refl)
      ]
    ]
