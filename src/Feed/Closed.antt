-- ===== src/Feed/Closed.antt =====
-- A filter that the end of a segment closes.
use lpms.Common.{inr, ◌<◌, ◌≡◌, ◌∙◌, ap, arith, true, false, Option, none}
use lpms.Ret.{done}
use lpms.Media.{TimeOps, MediaType, audio}
use lpms.Codec.{InputCtx}
use lpms.Filter.{FilterCtx}
use lpms.Mux.{Writer}
use lpms.Outlet.{OutputCtx, close_output}
use lpms.Outlet.Open.{OpenAnswers, open_output}
use lpms.Outlet.Held.{IsAttached}
use lpms.Outlet.Kept.{open_output-keeps_filter}
use lpms.Feed.{Picture, FeedAnswers, Encodes, filter_of, put_frame, feed_end, filtergraph_write}

module _ (ops : TimeOps) (writer : Writer) (encodes : Encodes) where
  -- A closed filter takes nothing in.
  pub closed_takes_nothing :
      (a : FeedAnswers) (ictx : InputCtx) (t : MediaType) (inf : Option Picture) (o : OutputCtx)
      → (filter_of t o).closed ≡ true
      → filtergraph_write ops writer encodes a ictx t inf o
        ≡ record { ret = done; octx = o; into = none; calls = 0 }
  unfolding filtergraph_write
  closed_takes_nothing a ictx t inf o h = ground (arith, h)

  -- The end of the input closes the filter if frames were encoded, and none was flushed.
  end_closes :
      (a : FeedAnswers) (ictx : InputCtx) (o : OutputCtx)
      → o.af.flushed ≡ false
      → 0 < o.out.frames
      → let o' = (filtergraph_write ops writer encodes a ictx audio none o).octx in
        (o'.af.closed ≡ true)
        × (o'.af.active ≡ o.af.active)
        × (o'.oc ≡ o.oc)
        × (o'.has_pb ≡ o.has_pb)
  unfolding filtergraph_write feed_end put_frame
  end_closes a ictx o h some_frames = ground (arith, h, some_frames)

close_output_af :
    (o : OutputCtx)
    → ((close_output o).af.closed ≡ o.af.closed)
      × ((close_output o).af.active ≡ o.af.active)
      × (IsAttached o → (close_output o).has_pb ≡ false)
unfolding close_output
close_output_af o = ground arith

-- The audio of a segment is lost after a segment that was encoded: the end of the first segment
-- closes the audio filter, close_output keeps it, and open_output does not set it up again, since
-- it is active; so no audio frame of the next segment goes into the filter. A file is held only
-- with a muxer, no flush frame came out, and frames were encoded.
pub next_audio-lost :
    (ops : TimeOps) (writer : Writer) (encodes encodes' : Encodes) (a a' : FeedAnswers)
    (ictx ictx' : InputCtx) (opening : OpenAnswers) (inf : Option Picture) (o : OutputCtx)
    → IsAttached o
    → o.af.active ≡ true
    → o.af.flushed ≡ false
    → 0 < o.out.frames
    → let ended = (filtergraph_write ops writer encodes a ictx audio none o).octx in
      (open_output ops opening ictx' (close_output ended)).0 ≡ done
      → let ended = (filtergraph_write ops writer encodes a ictx audio none o).octx in
        let next = (open_output ops opening ictx' (close_output ended)).1 in
        filtergraph_write ops writer encodes' a' ictx' audio inf next
        ≡ record { ret = done; octx = next; into = none; calls = 0 }
next_audio-lost ops writer encodes encodes' a a' ictx ictx' opening inf o attached active h
      some_frames opened =
    let ended = (filtergraph_write ops writer encodes a ictx audio none o).octx in
    let next = (open_output ops opening ictx' (close_output ended)).1 in
    let (closed, same, same_oc, same_pb) = end_closes ops writer encodes a ictx o h some_frames in
    let (closed', same', no_pb) = close_output_af ended in
    let still : IsAttached ended = ground (arith, attached, same_oc, same_pb) in
    let kept =
      open_output-keeps_filter ops opening ictx' (close_output ended) (inr (no_pb still))
        (same' ∙ same ∙ active) opened in
    closed_takes_nothing ops writer encodes' a' ictx' audio inf next
      (ap (λ (f : FilterCtx). f.closed) kept ∙ closed' ∙ closed)
