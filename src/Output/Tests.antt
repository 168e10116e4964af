-- ===== src/Output/Tests.antt =====
-- Tests and witnesses for the stage between filter and encoder.
use lpms.Common.{
  ◌+◌, ◌*◌, ◌≤◌, pos, nopts, ◌+ℤ◌, ◌-ℤ◌, ◌≡◌, refl, arith, true, false, some, List, [], ◌∷◌, length,
  map,
}
use lpms.Media.{video, Frame}
use lpms.Output.{
  OutState, Setting, find_start, clip, clip_video, start_clip, set_gop, out_all, out_step, stage,
  finish, send_on, rescale, space_video, is_runaway, count_verdict, count_encoded,
}
use lpms.Output.Clip.{clip_video-within, first_gop-late}
use lpms.Output.Guard.{Spaced, out_all-Spaced, out_all-IsBounded}
use lpms.Samples.{same_base, coarser_base, thousandth, frame}

abbrev fresh : OutState
fresh = record {
  gop_pts_len = pos 50;
  next_kf_pts = pos 0;
  clip_from = pos 0;
  clip_to = pos 0;
  clip_from_pts = pos 0;
  clip_to_pts = pos 0;
  clip_started = false;
  clip_start_pts = pos 0;
  clip_start_pts_found = false;
  clip_audio_from_pts = pos 0;
  clip_audio_to_pts = pos 0;
  clip_audio_start_pts = pos 0;
  clip_audio_start_pts_found = false;
  last_enc_pts = nopts;
  frames = 0;
  pixels = 0;
}

-- From 100 to 200 after the start, which was at 10.
abbrev clipping : OutState
clipping = record fresh {
  clip_from = pos 100;
  clip_to = pos 200;
  clip_from_pts = pos 100;
  clip_to_pts = pos 200;
  clip_start_pts = pos 10;
  clip_start_pts_found = true;
  clip_audio_from_pts = pos 100;
  clip_audio_to_pts = pos 200;
  clip_audio_start_pts = pos 10;
  clip_audio_start_pts_found = true;
}

abbrev setting : Setting
setting = record {
  filter_tb = thousandth;
  encoder_tb = thousandth;
  decoded = some 1;
  is_image2 = false;
}

-- Two frames on one tick of the encoder.
abbrev close_frames : List Frame
close_frames = frame (pos 40) ∷ frame (pos 41) ∷ frame (pos 60) ∷ []

close_pts :
    map (λ f. f.pts) (out_all coarser_base setting video close_frames fresh).0
    ≡ pos 20 ∷ pos 21 ∷ pos 30 ∷ []
unfolding out_all out_step stage finish send_on find_start clip clip_video start_clip set_gop
    rescale space_video is_runaway count_verdict count_encoded ◌+ℤ◌
close_pts = refl

clip_video-within_example :
    (clip video (frame (pos 150)) clipping).0
    ≡ some (record (frame (pos 150)) { pts = pos 40; intra = true })
unfolding find_start ◌+ℤ◌ ◌-ℤ◌
clip_video-within_example = clip_video-within (frame (pos 150)) clipping (refl, refl)

-- The frame becomes 40; its GOP of 50 should end at 90, and ends at 200.
first_gop-late_example :
    (true ≡ true)
    × ((set_gop video
          (record (frame (pos 150)) { pts = pos 40; intra = true })
          (clip video
            (frame (pos 150))
            (find_start video (frame (pos 150)) clipping)).1).1.next_kf_pts
        ≡ pos 40 +ℤ pos 50 +ℤ pos 110)
unfolding find_start clip clip_video start_clip ◌+ℤ◌ ◌-ℤ◌
first_gop-late_example =
    first_gop-late (frame (pos 150)) (record (frame (pos 150)) { pts = pos 40; intra = true })
      clipping refl refl (omega arith) (omega arith) refl

out_all-Spaced_example : Spaced nopts (out_all coarser_base setting video close_frames fresh).0
out_all-Spaced_example = out_all-Spaced coarser_base setting close_frames fresh refl

out_all-IsBounded_example :
    let (out, o') = out_all same_base setting video close_frames fresh in
    (o'.frames ≤ 25 * 1) × (length out + 0 ≡ o'.frames)
out_all-IsBounded_example =
    out_all-IsBounded same_base setting 1 refl (omega arith) refl close_frames fresh (omega arith)
