-- ===== src/Outlet/Reopened.antt =====
-- What reopen_output leaves, and that opening keeps the flag for the video.
use lpms.Common.{◌≡◌, refl, arith, false, none, inr}
use lpms.Media.{TimeOps}
use lpms.Codec.{InputCtx}
use lpms.Outlet.{OutputCtx, close_output, free_output}
use lpms.Outlet.Held.{
  IsAttached, Keeps, add_video-Keeps, audio_output-Keeps, write_header-Keeps, video_encoder-Keeps,
  finish_open-Keeps,
}
use lpms.Outlet.Open.{
  OpenAnswers, new_muxer, open_audio_output, open_video_encoder, try_open, open_output, readd_video,
  reopen_output,
}

-- No muxer or file is held.
pub record IsIdle (o : OutputCtx) : Type 0 where
  pub no_oc : o.oc ≡ none
  pub no_pb : o.has_pb ≡ false

pub IsIdle-IsAttached : (o : OutputCtx) → IsIdle o → IsAttached o
IsIdle-IsAttached o h = inr h.no_pb

pub close_output-IsIdle : (o : OutputCtx) → IsAttached o → IsIdle (close_output o)
unfolding close_output
close_output-IsIdle o h = ground (arith, h)

module _ (ops : TimeOps) (ictx : InputCtx) (a : OpenAnswers) where
  readd_video-Keeps : (o : OutputCtx) → Keeps o (readd_video ops a ictx o).1
  unfolding readd_video
  readd_video-Keeps o = ground (arith, add_video-Keeps ops ictx a.video_stream o)

  -- A muxer that is opened again keeps its file with it, also after a failure, which is left as it is.
  pub reopen_output-IsAttached :
      (o : OutputCtx) → IsIdle o → IsAttached (reopen_output ops a ictx o).1
  unfolding reopen_output
  reopen_output-IsAttached o idle =
      let o1 = new_muxer a o in
      let o2 = (readd_video ops a ictx o1).1 in
      let o3 = (open_audio_output ops a.audio_encoder a.audio_stream ictx o2).1 in
      ground (
        arith,
        idle,
        readd_video-Keeps o1,
        audio_output-Keeps ops ictx a.audio_encoder a.audio_stream o2,
        write_header-Keeps a o3,
      )

  try_open-dv : (o : OutputCtx) → (try_open ops a ictx o).1.dv ≡ o.dv
  unfolding try_open
  try_open-dv o =
      let o1 = new_muxer a o in
      let o2 = (open_video_encoder a ictx o1).1 in
      ground (arith, video_encoder-Keeps ops ictx a o1, finish_open-Keeps ops ictx a o2)

  free_output-dv : (o : OutputCtx) → (free_output o).dv ≡ o.dv
  unfolding free_output close_output
  free_output-dv o = refl

  pub open_output-dv : (o : OutputCtx) → (open_output ops a ictx o).1.dv ≡ o.dv
  unfolding open_output
  open_output-dv o =
      let (left, o1) = try_open ops a ictx o in ground (arith, try_open-dv o, free_output-dv o1)
