-- ===== src/Decoder/Pts.antt =====
-- fix_video_pts of ffmpeg/decoder.c: the timeline of decoded video frames.
use lpms.Common.{
  ◌∙◌, ℤ, pos, negsuc, ◌+ℤ◌, ◌≤ℤ◌, ◌<ℤ◌, one, nopts, ◌≡◌, ◌≢◌, arith, true, false, ℕ, zero, suc,
  Bool, not, ◌&&◌, ◌⊎◌, inl, inr, Option, none, some, List, [], ◌∷◌, if◌then◌else◌, is_nopts, leb_ℤ,
  +ℤ_parts, eq_of_parts,
}
use lpms.Media.{Frame, Stream, TimeOps}
use lpms.Codec.{
  InputCtx, rate_step, stream_at, decoded_video_pts_step, best_pts, fixed_pts, fix_video_pts,
  is_flush_frame, Libav, LibCall, vc, received, call, lpms_receive_frame, count_frame,
}
use lpms.Ret.{Ret, is_zero}

-- A timestamp field of 64 bits.
abbrev pub IsWide : ℤ → Type 0
IsWide t = nopts ≤ℤ t

pub record IsFrame64 (f : Frame) : Type 0 where
  pub pts_wide : IsWide f.pts
  pub guess_wide : IsWide f.best_effort_timestamp

rate_step-pos : (ops : TimeOps) (st : Option Stream) → pos 0 <ℤ rate_step ops st
unfolding rate_step
rate_step-pos ops none = omega arith
rate_step-pos ops (some st) = ground arith

pub step-pos : (ops : TimeOps) (c : InputCtx) (f : Frame) → pos 0 <ℤ decoded_video_pts_step ops c f
unfolding decoded_video_pts_step
step-pos ops c f = ground (arith, rate_step-pos ops (stream_at c.ic c.vi))

module _ (ops : TimeOps) (c : InputCtx) (f : Frame) where
  -- The PTS that a frame leaves with is past that of the frame before, and so is set.
  pub fixed_pts-after :
      IsFrame64 f → IsWide c.last_video_pts → c.last_video_pts <ℤ fixed_pts ops c f
  unfolding fixed_pts best_pts
  fixed_pts-after h w = ground (
    arith,
    step-pos ops c f,
    +ℤ_parts (decoded_video_pts_step ops c f) c.last_video_pts,
    +ℤ_parts c.last_video_pts one,
    +ℤ_parts c.last_video_pts (decoded_video_pts_step ops c f),
    eq_of_parts c.last_video_pts nopts,
    eq_of_parts f.pts nopts,
    eq_of_parts f.best_effort_timestamp nopts,
  )

-- The reference: a PTS that is known is raised to one tick past the last; a missing one is a step
-- past the last.
abbrev pub next_pts : ℤ → ℤ → ℤ → ℤ
next_pts last step best =
    if is_nopts best
    then (if is_nopts last then step else last +ℤ step)
    else if leb_ℤ (last +ℤ one) best
    then best
    else last +ℤ one

-- fix_video_pts gives each frame the PTS of the reference: a timestamp that is known (the frame's
-- own, or the decoder's guess) and past the last is kept, one that is late goes one tick past the
-- last, and one that is missing goes one frame step past the last.
pub fixed_pts-eq-next_pts :
    (ops : TimeOps) (c : InputCtx) (f : Frame)
    → IsFrame64 f
    → IsWide c.last_video_pts
    → fixed_pts ops c f ≡ next_pts c.last_video_pts (decoded_video_pts_step ops c f) (best_pts f)
unfolding fixed_pts best_pts
fixed_pts-eq-next_pts ops c f h w = ground (
  arith,
  step-pos ops c f,
  +ℤ_parts (decoded_video_pts_step ops c f) c.last_video_pts,
  +ℤ_parts c.last_video_pts one,
  +ℤ_parts c.last_video_pts (decoded_video_pts_step ops c f),
  eq_of_parts (decoded_video_pts_step ops c f +ℤ c.last_video_pts)
      (c.last_video_pts +ℤ decoded_video_pts_step ops c f),
  eq_of_parts f.pts (c.last_video_pts +ℤ one),
  eq_of_parts f.best_effort_timestamp (c.last_video_pts +ℤ one),
)

-- Each timestamp is past the one before it.
abbrev pub Ascends : ℤ → List ℤ → Type 0
Ascends last [] = Unit {0}
Ascends last (t ∷ ts) = (last <ℤ t) × Ascends t ts

-- Whatever the decoder gives has timestamps of 64 bits.
abbrev pub GivesFrames64 : Libav → Type 0
GivesFrames64 lib = (calls : List LibCall) → IsFrame64 (lib.receive calls vc).1

-- Whether the decoder gives a video frame that is not the answer to a sentinel.
abbrev pub gives_frame : Ret → Frame → Bool
gives_frame ret f = is_zero ret && not (is_flush_frame f)

-- What is done after each call, such as sending a packet, leaves the last PTS alone.
abbrev pub KeepsLast : (ℕ → InputCtx → InputCtx) → Type 0
KeepsLast between = (i : ℕ) (c : InputCtx) → (between i c).last_video_pts ≡ c.last_video_pts

-- The PTS of the video frames that `n` calls of lpms_receive_frame give, oldest first, with what is done
-- between them. A call that fails gives none, and what comes back for a sentinel is not one.
unfoldable pub receive_all : ℕ → Libav → TimeOps → (ℕ → InputCtx → InputCtx) → InputCtx → List ℤ
receive_all zero lib ops between c = []
receive_all (suc n) lib ops between c =
    let (ret, given) = lib.receive c.calls vc in
    let (_, f, c') = lpms_receive_frame lib ops c vc in
    let rest = receive_all n lib ops (λ i. between (suc i)) (between 0 c') in
    if gives_frame ret given then f.pts ∷ rest else rest

receive-last :
    (lib : Libav) (ops : TimeOps) (c : InputCtx)
    → GivesFrames64 lib
    → IsWide c.last_video_pts
    → let (ret, given) = lib.receive c.calls vc in
      let (_, f, c') = lpms_receive_frame lib ops c vc in
      ((gives_frame ret given ≡ true) × (c'.last_video_pts ≡ f.pts) × (c.last_video_pts <ℤ f.pts))
      ⊎ ((gives_frame ret given ≡ false) × (c'.last_video_pts ≡ c.last_video_pts))
unfolding lpms_receive_frame count_frame fix_video_pts
receive-last lib ops c wide last =
    let (ret, given) = lib.receive c.calls vc in
    let c' = call (received vc ret given.pts) c in
    let after = fixed_pts-after ops c' given (wide c.calls) last in ground (arith, after)

Ascends-from : {last last' : ℤ} (ts : List ℤ) → last ≡ last' → Ascends last ts → Ascends last' ts
Ascends-from ts e h = rw e at h

-- Whatever the decoder answers to lpms_receive_frame (errors, sentinels, and frames whose timestamps
-- are missing, equal or falling), the video frames that are no sentinels leave with set timestamps
-- that rise strictly from the last one on, also if between the calls the context changes otherwise
-- than in its last PTS. The decoder's timestamps are of 64 bits.
pub receive_all-Ascends :
    (n : ℕ) (lib : Libav) (ops : TimeOps) (between : ℕ → InputCtx → InputCtx) (c : InputCtx)
    → GivesFrames64 lib
    → KeepsLast between
    → IsWide c.last_video_pts
    → Ascends c.last_video_pts (receive_all n lib ops between c)
unfolding receive_all
receive_all-Ascends zero lib ops between c wide keeps last = tt
receive_all-Ascends (suc n) lib ops between c wide keeps last =
    let (_, f, c') = lpms_receive_frame lib ops c vc in
    let next =
      receive_all-Ascends n lib ops (λ i. between (suc i)) (between 0 c') wide
        (λ i. keeps (suc i)) in
    let kept = keeps 0 c' in
    let rest = receive_all n lib ops (λ i. between (suc i)) (between 0 c') in
    elim (receive-last lib ops c wide last) [
      | inl (given, same, after) ↦
          rw (receive_all, given)
            (after, Ascends-from rest (kept ∙ same) (next ground (arith, kept, same, after)))
      | inr (given, same) ↦
          rw (receive_all, given)
            (Ascends-from rest (kept ∙ same) (next ground (arith, kept, same, last)))
    ]

-- A late frame behind the timestamp -2 leaves with -1, the mark of a flush frame.
pub fix_video_pts-collides :
    (ops : TimeOps) (c : InputCtx) (f : Frame)
    → c.last_video_pts ≡ negsuc 1
    → IsFrame64 f
    → best_pts f ≢ nopts
    → best_pts f ≤ℤ c.last_video_pts
    → is_flush_frame (fix_video_pts ops c f).0 ≡ true
unfolding fix_video_pts fixed_pts ◌+ℤ◌
fix_video_pts-collides ops c f e h set late = ground (arith, eq_of_parts (best_pts f) nopts)
