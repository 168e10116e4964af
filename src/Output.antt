-- ===== src/Output.antt =====
-- What process_out of ffmpeg/encoder.c does to a frame that comes out of the filter graph, before it
-- is encoded: the clipping to a part of the input, the forced key frames, the change of time base
-- and the guard against runaway encodes; and the count of encoded frames in `encode`.
pub mod Clip
pub mod Guard
mod Tests
use lpms.Common.{
  ℕ, ◌+◌, ◌*◌, ℤ, pos, ◌+ℤ◌, ◌-ℤ◌, ltb_ℤ, leb_ℤ, ◌==ℤ◌, one, is_nopts, Bool, true, false, not, ◌&&◌,
  Option, none, some, List, [], ◌∷◌, if◌then◌else◌, ltb, ◌==◌,
}
use lpms.Media.{Rational, MediaType, video, audio, subtitle, is_video, is_audio, Frame, TimeOps}

-- The part of `struct output_ctx` that the stage works on. A number that the code tests for zero
-- stands as itself; a flag as a Boolean.
pub record OutState : Type 0 where
  pub gop_pts_len : ℤ
  pub next_kf_pts : ℤ
  pub clip_from : ℤ
  pub clip_to : ℤ
  pub clip_from_pts : ℤ
  pub clip_to_pts : ℤ
  pub clip_started : Bool
  pub clip_start_pts : ℤ
  pub clip_start_pts_found : Bool
  pub clip_audio_from_pts : ℤ
  pub clip_audio_to_pts : ℤ
  pub clip_audio_start_pts : ℤ
  pub clip_audio_start_pts_found : Bool
  pub last_enc_pts : ℤ
  pub frames : ℕ
  pub pixels : ℕ

-- The frame goes on to the encoder, is skipped, or stops the encode.
pub data Verdict : Type 0 where
  pass : Frame → Verdict
  skip : Verdict
  runaway : Verdict

-- What the stage knows of its surroundings: the time bases of the filter and the encoder, the frames
-- decoded so far (`none` without a count), and whether the input is an image sequence.
pub record Setting : Type 0 where
  pub filter_tb : Rational
  pub encoder_tb : Rational
  pub decoded : Option ℕ
  pub is_image2 : Bool

abbrev pub is_set : ℤ → Bool
is_set x = not (x ==ℤ pos 0)

-- The PTS of the first frame of each kind is where clipping counts from.
unfoldable pub find_start : MediaType → Frame → OutState → OutState
find_start video f o =
    if o.clip_start_pts_found
    then o
    else record o { clip_start_pts = f.pts; clip_start_pts_found = true }
find_start audio f o =
    if o.clip_audio_start_pts_found
    then o
    else record o { clip_audio_start_pts = f.pts; clip_audio_start_pts_found = true }
find_start subtitle f o = o

-- Where the clip starts and ends, in the PTS of the filter.
abbrev pub video_from : OutState → ℤ
video_from o = o.clip_from_pts +ℤ o.clip_start_pts

abbrev pub video_to : OutState → ℤ
video_to o = o.clip_to_pts +ℤ o.clip_start_pts

abbrev pub audio_from : OutState → ℤ
audio_from o = o.clip_audio_from_pts +ℤ o.clip_audio_start_pts

abbrev pub audio_to : OutState → ℤ
audio_to o = o.clip_audio_to_pts +ℤ o.clip_audio_start_pts

-- The first frame of a video clip is a key frame, and the next one is due a GOP later.
unfoldable pub start_clip : Frame → OutState → Frame × OutState
start_clip f o = if o.clip_started then (f, o) else (
  record f { intra = true },
  record o {
    clip_started = true;
    next_kf_pts = if is_set o.gop_pts_len then f.pts +ℤ o.gop_pts_len else o.next_kf_pts;
  },
)

unfoldable pub clip_video : Frame → OutState → Option Frame × OutState
clip_video f o =
    if is_set o.clip_to && o.clip_start_pts_found && ltb_ℤ (video_to o) f.pts
    then (none, o)
    else if is_set o.clip_from
    then (if ltb_ℤ f.pts (video_from o)
        then (none, o)
        else (let (f', o') = start_clip f o in
            (some (record f' { pts = f'.pts -ℤ video_from o' }), o')))
    else (some f, o)

-- Audio waits for the first video frame of the clip.
unfoldable pub clip_audio : Frame → OutState → Option Frame × OutState
clip_audio f o =
    if is_set o.clip_to && o.clip_audio_start_pts_found && ltb_ℤ (audio_to o) f.pts
    then (none, o)
    else if is_set o.clip_from_pts && not o.clip_started
    then (none, o)
    else if is_set o.clip_from
    then (if ltb_ℤ f.pts (audio_from o)
        then (none, o)
        else (some (record f { pts = f.pts -ℤ audio_from o }), o))
    else (some f, o)

unfoldable pub clip : MediaType → Frame → OutState → Option Frame × OutState
clip video f o = clip_video f o
clip audio f o = clip_audio f o
clip subtitle f o = (if is_set o.clip_from_pts && not o.clip_started then none else some f, o)

-- A key frame is forced where one is due.
unfoldable pub set_gop : MediaType → Frame → OutState → Frame × OutState
set_gop t f o =
    if is_video t && is_set o.gop_pts_len && leb_ℤ o.next_kf_pts f.pts
    then (record f { intra = true }, record o { next_kf_pts = f.pts +ℤ o.gop_pts_len })
    else (f, o)

-- Where the time bases differ, frames that fall on one tick of the encoder are moved apart.
unfoldable pub space_video : TimeOps → Setting → Frame → OutState → Frame × OutState
space_video ops s f o =
    if not (is_nopts o.last_enc_pts) && leb_ℤ f.pts o.last_enc_pts
    then (let pts = o.last_enc_pts +ℤ one in
        (
          record f { pts = pts; opaque = ops.rescale_q pts s.encoder_tb s.filter_tb },
          record o { last_enc_pts = pts },
        ))
    else (f, record o { last_enc_pts = f.pts })

unfoldable pub rescale : TimeOps → Setting → MediaType → Frame → OutState → Frame × OutState
rescale ops s t f o =
    if ops.cmp_q s.filter_tb s.encoder_tb ==ℤ pos 0
    then (f, o)
    else (let f' = record f { pts = ops.rescale_q f.pts s.filter_tb s.encoder_tb } in
        if is_video t then space_video ops s f' o else (f', o))

-- More than 25 encoded frames for each decoded one.
unfoldable pub is_runaway : Setting → MediaType → OutState → Bool
is_runaway s t o = elim s.decoded [
  | none ↦ false
  | some n ↦ is_video t && ltb 0 n && not s.is_image2 && ltb (25 * n) (o.frames + 1)
]

unfoldable pub send_on : TimeOps → Setting → MediaType → Frame → OutState → Verdict × OutState
send_on ops s t f o =
    let (f1, o1) = set_gop t f o in
    let (f2, o2) = rescale ops s t f1 o1 in
    if is_runaway s t o2 then (runaway, o2) else (pass f2, o2)

unfoldable pub finish : TimeOps → Setting → MediaType → Option Frame → OutState → Verdict × OutState
finish ops s t none o = (skip, o)
finish ops s t (some f) o = send_on ops s t f o

unfoldable pub stage : TimeOps → Setting → MediaType → Frame → OutState → Verdict × OutState
stage ops s t f o = let (f', o') = clip t f (find_start t f o) in finish ops s t f' o'

-- `encode` makes the first video frame a key frame and counts frames and pixels.
unfoldable pub count_encoded : MediaType → Frame → OutState → Frame × OutState
count_encoded t f o =
    if is_video t
    then (
      record f { intra = if o.frames == 0 then true else f.intra },
      record o { frames = o.frames + 1; pixels = o.pixels + f.width * f.height },
    )
    else (f, o)

unfoldable pub count_verdict : MediaType → Verdict → OutState → Verdict × OutState
count_verdict t (pass f) o = let (f', o') = count_encoded t f o in (pass f', o')
count_verdict t skip o = (skip, o)
count_verdict t runaway o = (runaway, o)

-- The stage, and the count if the frame is encoded: what reaches the encoder.
unfoldable pub out_step : TimeOps → Setting → MediaType → Frame → OutState → Verdict × OutState
out_step ops s t f o = let (v, o') = stage ops s t f o in count_verdict t v o'

abbrev pub collect : Verdict → OutState → List Frame × OutState → List Frame × OutState
collect (pass f) o rest = (f ∷ rest.0, rest.1)
collect skip o rest = rest
collect runaway o rest = ([], o)

-- The stage over frames of one kind that come out of the filter graph one after another while no more
-- are decoded, up to a runaway: those that are passed on to the encoder, oldest first.
unfoldable pub out_all :
    TimeOps → Setting → MediaType → List Frame → OutState → List Frame × OutState
out_all ops s t [] o = ([], o)
out_all ops s t (f ∷ fs) o =
    let (v, o') = out_step ops s t f o in let rest = out_all ops s t fs o' in collect v o' rest
