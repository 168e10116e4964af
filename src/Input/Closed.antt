-- ===== src/Input/Closed.antt =====
-- What the input holds after opening it, and after a failure to.
use lpms.Common.{pos, ◌≡◌, ◌⊎◌, arith, true, false, none, some, ◌<ℤ◌, ◌≢◌}
use lpms.Ret.{Ret, failed, is_zero}
use lpms.Codec.{InputCtx}
use lpms.Input.{
  InputParams, Answers, free_input, fail_video, start_video, attach_video, create_video,
  open_video_decoder, fail_audio, create_audio, open_audio_decoder, fail_open, alloc_last_frames,
  open_decoders, open_input, reopen_demux,
}

-- No demuxer, codec, device, last frame or blocked packet is held. `flush_pkt` is not meant.
pub record IsClosed (c : InputCtx) : Type 0 where
  pub no_ic : c.ic ≡ none
  pub no_vc : c.has_vc ≡ false
  pub no_ac : c.has_ac ≡ false
  pub no_device : c.has_hw_device ≡ false
  pub no_last_v : c.last_frame_v ≡ none
  pub no_last_a : c.last_frame_a ≡ none
  pub no_blocked : c.blocked_pkt ≡ none

-- The demuxer is open, and unless the input is only copied, each stream that was found and is not
-- dropped has its decoder, and the frames for flushing are there.
pub record IsOpened (p : InputParams) (c : InputCtx) : Type 0 where
  pub demuxer : c.ic ≢ none
  pub video_decoder : (p.transmuxing ≡ true) ⊎ (c.dv ≡ true) ⊎ (c.vi <ℤ pos 0) ⊎ (c.has_vc ≡ true)
  pub audio_decoder : (p.transmuxing ≡ true) ⊎ (c.da ≡ true) ⊎ (c.ai <ℤ pos 0) ⊎ (c.has_ac ≡ true)
  pub last_v : (p.transmuxing ≡ true) ⊎ (c.last_frame_v ≢ none)
  pub last_a : (p.transmuxing ≡ true) ⊎ (c.last_frame_a ≢ none)

abbrev pub Outcome : InputParams → Ret × InputCtx → Type 0
Outcome p (ret, c) = ((failed ret ≡ true) × IsClosed c) ⊎ ((is_zero ret ≡ true) × IsOpened p c)

module _ (p : InputParams) (a : Answers) (c : InputCtx) where
  -- Opening the video decoder closes everything, or leaves the rest alone.
  pub video_outcome :
      let (ret, c') = open_video_decoder p a c in
      ((failed ret ≡ true) × IsClosed c')
      ⊎ ((failed ret ≡ false)
          × (c'.ic ≡ c.ic)
          × (c'.da ≡ c.da)
          × ((c'.dv ≡ true) ⊎ (c'.vi <ℤ pos 0) ⊎ (c'.has_vc ≡ true)))
  unfolding open_video_decoder create_video attach_video start_video fail_video free_input
  video_outcome = ground arith

  pub audio_outcome :
      let (ret, c') = open_audio_decoder a c in
      ((failed ret ≡ true) × IsClosed c')
      ⊎ ((failed ret ≡ false)
          × (c'.ic ≡ c.ic)
          × (c'.dv ≡ c.dv)
          × (c'.vi ≡ c.vi)
          × (c'.has_vc ≡ c.has_vc)
          × ((c'.da ≡ true) ⊎ (c'.ai <ℤ pos 0) ⊎ (c'.has_ac ≡ true)))
  unfolding open_audio_decoder create_audio fail_audio free_input
  audio_outcome = ground arith

open_decoders-Outcome :
    (p : InputParams) (a : Answers) (c : InputCtx)
    → c.ic ≢ none
    → p.transmuxing ≡ false
    → Outcome p (open_decoders p a c)
unfolding open_decoders alloc_last_frames fail_open free_input
open_decoders-Outcome p a c h ht =
    let c1 = (open_video_decoder p a c).1 in
    ground (arith, video_outcome p a c, audio_outcome p a c1)

pub opens_or_closes : (p : InputParams) (a : Answers) (c : InputCtx) → Outcome p (open_input p a c)
unfolding open_input fail_open free_input
opens_or_closes p a c =
    let c1 : InputCtx = record c { transmuxing = p.transmuxing; ic = some a.streams } in
    ground (arith, open_decoders-Outcome p a c1)

module _ (p : InputParams) (a : Answers) (c : InputCtx) where
  video-flush_pkt : (open_video_decoder p a c).1.flush_pkt ≡ c.flush_pkt
  unfolding open_video_decoder create_video attach_video start_video fail_video free_input
  video-flush_pkt = ground arith

  audio-flush_pkt : (open_audio_decoder a c).1.flush_pkt ≡ c.flush_pkt
  unfolding open_audio_decoder create_audio fail_audio free_input
  audio-flush_pkt = ground arith

decoders-flush_pkt :
    (p : InputParams) (a : Answers) (c : InputCtx) → (open_decoders p a c).1.flush_pkt ≡ c.flush_pkt
unfolding open_decoders alloc_last_frames fail_open free_input
decoders-flush_pkt p a c =
    let c1 = (open_video_decoder p a c).1 in
    ground (arith, video-flush_pkt p a c, audio-flush_pkt p a c1)

pub open_input-flush_pkt :
    (p : InputParams) (a : Answers) (c : InputCtx) → (open_input p a c).1.flush_pkt ≡ c.flush_pkt
unfolding open_input fail_open free_input
open_input-flush_pkt p a c =
    let c1 : InputCtx = record c { transmuxing = p.transmuxing; ic = some a.streams } in
    ground (arith, decoders-flush_pkt p a c1)

-- Opening the input, again or for the first time, is all or nothing: it fails with an error code and
-- holds no demuxer, codec, device, last frame or blocked packet, or it returns 0 with the demuxer
-- open, and unless the input is only copied, with a decoder for each stream that was found and is not
-- dropped, and with the frames for flushing. Either way the packet that is kept for flushing the
-- decoder stays as it was.
pub open_input-Outcome :
    (p : InputParams) (a : Answers) (c : InputCtx)
    → Outcome p (open_input p a c) × ((open_input p a c).1.flush_pkt ≡ c.flush_pkt)
open_input-Outcome p a c = (opens_or_closes p a c, open_input-flush_pkt p a c)

-- So is lpms_transcode_reopen_demux.
pub reopen_demux-Outcome :
    (p : InputParams) (a : Answers) (c : InputCtx) → Outcome p (reopen_demux p a c)
unfolding reopen_demux
reopen_demux-Outcome p a c = opens_or_closes p a (free_input c)
