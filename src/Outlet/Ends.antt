-- ===== src/Outlet/Ends.antt =====
-- open_output fails with an error, or returns 0.
use lpms.Common.{◌≡◌, ◌⊎◌, arith, true, some, Option-cases, inl, inr}
use lpms.Ret.{Ret, failed}
use lpms.Media.{TimeOps}
use lpms.Codec.{InputCtx}
use lpms.Filter.{init_video_filters, filtergraph_parser}
use lpms.Outlet.{OutputCtx}
use lpms.Outlet.Held.{IsAttached, open_output-Outcome}
use lpms.Outlet.Layout.{IsPlain}
use lpms.Outlet.Open.{
  OpenAnswers, new_muxer, open_video_encoder, finish_open, try_open, open_output,
}

module _ (ops : TimeOps) (ictx : InputCtx) (a : OpenAnswers) where
  video_encoder-fails :
      (o : OutputCtx) (ret : Ret)
      → IsPlain a.video_encoder.graph.config_ret
      → (open_video_encoder a ictx o).0 ≡ some ret
      → failed ret ≡ true
  unfolding open_video_encoder init_video_filters filtergraph_parser
  video_encoder-fails o ret h e = ground (arith, h, e)

  finish_open-fails :
      (o : OutputCtx) (ret : Ret) → (finish_open ops a ictx o).0 ≡ some ret → failed ret ≡ true
  unfolding finish_open
  finish_open-fails o ret e = ground (arith, e)

  try_open-fails :
      (o : OutputCtx) (ret : Ret)
      → IsPlain a.video_encoder.graph.config_ret
      → (try_open ops a ictx o).0 ≡ some ret
      → failed ret ≡ true
  unfolding try_open
  try_open-fails o ret h e =
      let (left, o2) = open_video_encoder a ictx (new_muxer a o) in
      elim (Option-cases left) [
        | inl e' ↦ ground (arith, e, e', finish_open-fails o2 ret)
        | inr (ret', e') ↦ ground (arith, e, e', video_encoder-fails (new_muxer a o) ret' h e')
      ]

  pub open_output-Ends :
      (o : OutputCtx)
      → IsAttached o
      → IsPlain a.video_encoder.graph.config_ret
      → let (ret, o') = open_output ops a ictx o in (failed ret ≡ true) ⊎ (o'.initialized ≡ true)
  unfolding open_output
  open_output-Ends o h config = elim (Option-cases (try_open ops a ictx o).0) [
    | inr (ret, e) ↦ inl (rw (open_output, e) (try_open-fails o ret config e))
    | inl e ↦ elim (open_output-Outcome ops a ictx o h) [
      | inl (_, opened) ↦ inr opened.marked
      | inr (nonzero, _) ↦ absurd ground (arith, nonzero, e)
    ]
  ]
