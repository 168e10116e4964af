-- ===== src/Output/Clip.antt =====
-- Clipping: which frames are kept, and where the key frames fall.
use lpms.Common.{
  ℤ, pos, ◌+ℤ◌, ◌-ℤ◌, ◌≤ℤ◌, ◌<ℤ◌, leb_ℤ, ◌≡◌, arith, Bool, true, false, not, ◌&&◌, none, some,
  if◌then◌else◌, ◌∙◌, parts_of_eq, int_laws,
}
use lpms.Media.{video, audio, Frame}
use lpms.Output.{
  OutState, is_set, find_start, video_from, video_to, audio_from, audio_to, start_clip, clip_video,
  clip_audio, clip, set_gop,
}

-- Both ends of the clip are given.
abbrev pub HasEnds : OutState → Type 0
HasEnds o = (is_set o.clip_from ≡ true) × (is_set o.clip_to ≡ true)

abbrev pub within : ℤ → ℤ → ℤ → Bool
within from to t = leb_ℤ from t && leb_ℤ t to

-- Of an output with both ends of the clip given, a video frame is kept exactly if its PTS lies between
-- the ends, counted from the first video frame. It then has its PTS counted from the start of the
-- clip, and is a key frame if it is the first.
pub clip_video-within :
    (f : Frame) (o : OutState)
    → HasEnds o
    → let o' = find_start video f o in
      (clip video f o').0 ≡ (
        if within (video_from o') (video_to o') f.pts
        then some (record f {
          pts = f.pts -ℤ video_from o';
          intra = if o.clip_started then f.intra else true;
        })
        else none)
unfolding clip clip_video find_start start_clip
clip_video-within f o h = ground arith

-- An audio frame is kept exactly if its PTS lies between the ends, counted from the first audio
-- frame, and the clip of the video has started (where the clip's start is not 0 in the video's
-- time base); its PTS is then counted from the start of the clip.
pub clip_audio-within :
    (f : Frame) (o : OutState)
    → HasEnds o
    → let o' = find_start audio f o in
      (clip audio f o').0 ≡ (
        if within (audio_from o') (audio_to o') f.pts
          && not (is_set o.clip_from_pts && not o.clip_started)
        then some (record f { pts = f.pts -ℤ audio_from o' })
        else none)
unfolding clip clip_audio find_start
clip_audio-within f o h = ground arith

first_frame :
    (f f' : Frame) (o : OutState)
    → is_set o.clip_from ≡ true
    → o.clip_started ≡ false
    → pos 0 <ℤ o.gop_pts_len
    → (clip video f (find_start video f o)).0 ≡ some f'
    → let o' = (clip video f (find_start video f o)).1 in
      (f'.pts ≡ f.pts -ℤ video_from (find_start video f o))
      × (o'.next_kf_pts ≡ f.pts +ℤ o.gop_pts_len)
      × (f'.intra ≡ true)
unfolding clip clip_video find_start start_clip
first_frame f f' o set fresh gop kept = ground arith

set_gop-early :
    (f : Frame) (o : OutState)
    → f.pts <ℤ o.next_kf_pts
    → (set_gop video f o).1.next_kf_pts ≡ o.next_kf_pts
unfolding set_gop
set_gop-early f o h = ground arith

-- The first frame of a clip is a key frame, but the next one is due too late: not a GOP after it, but
-- a GOP and the whole stretch that was clipped away.
pub first_gop-late :
    (f f' : Frame) (o : OutState)
    → is_set o.clip_from ≡ true
    → o.clip_started ≡ false
    → pos 0 <ℤ o.gop_pts_len
    → pos 0 ≤ℤ video_from (find_start video f o)
    → (clip video f (find_start video f o)).0 ≡ some f'
    → (f'.intra ≡ true)
      × ((set_gop video f' (clip video f (find_start video f o)).1).1.next_kf_pts
          ≡ f'.pts +ℤ o.gop_pts_len +ℤ video_from (find_start video f o))
first_gop-late f f' o set fresh gop ahead kept =
    let from = video_from (find_start video f o) in
    let o' = (clip video f (find_start video f o)).1 in
    let first = first_frame f f' o set fresh gop kept in
    (
      first.2,
      set_gop-early f' o' (
            omega (
              int_laws,
              parts_of_eq f'.pts (f.pts -ℤ from) first.0,
              parts_of_eq o'.next_kf_pts (f.pts +ℤ o.gop_pts_len) first.1,
            ))
          ∙ first.1
          ∙ rw first.0 (omega int_laws),
    )
