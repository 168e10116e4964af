-- ===== src/Decoder/Count.antt =====
-- `pkt_diff` of `struct input_ctx`: the count of packets that the video decoder holds.
use lpms.Common.{
  ℕ, ℤ, negsuc, ◌+◌, ◌%◌, ◌^◌, ◌<◌, ◌≡◌, ◌==ℤ◌, arith, true, not, ◌&&◌, List, [], ◌∷◌,
  if◌then◌else◌, Option-cases, inl, inr,
}
use lpms.Ret.{is_zero}
use lpms.Media.{Packet, Frame, TimeOps}
use lpms.Codec.{
  Libav, LibCall, sent, received, Decoder, vc, ac, InputCtx, is_vc, lpms_send_packet,
  lpms_receive_frame, count_frame, fix_video_pts, send_flush_pkt, send_flush_with, demux_in,
}
use lpms.Decoder.{
  keep_flush_pkt, hold_blocked, receive_after_send, stop_decoding, decode_with, decode_in,
  flush_video, flush_audio, flush_in, next_packet, process_in,
}

-- The packets that the video decoder took, sentinels apart, among the calls made.
abbrev pub packets_in : List LibCall → ℕ
packets_in [] = 0
packets_in (sent d r ∷ l) = (if is_vc d && is_zero r then 1 else 0) + packets_in l
packets_in (_ ∷ l) = packets_in l

-- The frames that it gave back, sentinels apart.
abbrev pub frames_in : List LibCall → ℕ
frames_in [] = 0
frames_in (received d r t ∷ l) =
    (if is_vc d && is_zero r && not (t ==ℤ negsuc 0) then 1 else 0) + frames_in l
frames_in (_ ∷ l) = frames_in l

-- `pkt_diff` is the packets less the frames, in 16 bits.
pub record IsCounted (c : InputCtx) : Type 0 where
  pub diff_wide : c.pkt_diff < 2 ^ 16
  pub balance : (c.pkt_diff + frames_in c.calls) % 2 ^ 16 ≡ packets_in c.calls % 2 ^ 16

module _ (lib : Libav) (ops : TimeOps) (c : InputCtx) (h : IsCounted c) where
  send-IsCounted : (d : Decoder) (p : Packet) → IsCounted (lpms_send_packet lib c d p).1
  unfolding lpms_send_packet
  send-IsCounted d p = ground arith

  receive-IsCounted : (d : Decoder) → IsCounted (lpms_receive_frame lib ops c d).2
  unfolding lpms_receive_frame count_frame fix_video_pts
  receive-IsCounted d = ground arith

  flush_pkt-IsCounted : IsCounted (send_flush_pkt lib c).1
  unfolding send_flush_pkt send_flush_with
  flush_pkt-IsCounted = elim (Option-cases c.flush_pkt) [
    | inl e ↦ ground (arith, e)
    | inr (p, e) ↦ ground (arith, e)
  ]

  keep-IsCounted : (d : Decoder) (p : Packet) → IsCounted (keep_flush_pkt c d p)
  unfolding keep_flush_pkt
  keep-IsCounted d p = ground arith

  hold-IsCounted : (p : Packet) → IsCounted (hold_blocked lib c p).1
  unfolding hold_blocked
  hold-IsCounted p = ground arith

  audio-IsCounted : (p : Packet) (f : Frame) (i : ℤ) → IsCounted (flush_audio lib c p f i).ctx
  unfolding flush_audio
  audio-IsCounted p f i = ground arith

  next-IsCounted : IsCounted (next_packet lib c).2
  unfolding next_packet demux_in
  next-IsCounted = ground arith

module _ (lib : Libav) (ops : TimeOps) where
  decode_with-IsCounted :
      (c : InputCtx) (d : Decoder) (p : Packet) (f : Frame)
      → IsCounted c
      → IsCounted (decode_with lib ops c d p f).ctx
  unfolding decode_with receive_after_send stop_decoding
  decode_with-IsCounted c d p f h =
      let sent_it =
        send-IsCounted lib ops (keep_flush_pkt c d p) (keep-IsCounted lib ops c h d p) d p in
      let held =
        hold-IsCounted lib ops (lpms_send_packet lib (keep_flush_pkt c d p) d p).1 sent_it p in
      ground (arith, receive-IsCounted lib ops _ sent_it d, receive-IsCounted lib ops _ held d)

  flush_video-IsCounted :
      (c : InputCtx) (p : Packet) (f : Frame) (i : ℤ)
      → IsCounted c
      → IsCounted (flush_video lib ops c p f i).1.ctx
  unfolding flush_video
  flush_video-IsCounted c p f i h =
      let sent_it = flush_pkt-IsCounted lib ops (record c { flushing = true }) (ground arith) in
      ground (arith, receive-IsCounted lib ops _ sent_it vc)

  flush_in-IsCounted :
      (c : InputCtx) (p : Packet) (f : Frame) (i : ℤ)
      → IsCounted c
      → IsCounted (flush_in lib ops c p f i).ctx
  unfolding flush_in
  flush_in-IsCounted c p f i h =
      let t = (flush_video lib ops c p f i).1 in
      let video = flush_video-IsCounted c p f i h in
      ground (
        arith,
        video,
        audio-IsCounted lib ops t.ctx video p t.frame t.stream_index,
        audio-IsCounted lib ops c h p f i,
      )

  decode_in-IsCounted :
      (c : InputCtx) (p : Packet) (f : Frame)
      → IsCounted c
      → IsCounted (decode_in lib ops c p f).ctx
  unfolding decode_in
  decode_in-IsCounted c p f h =
      ground (arith, decode_with-IsCounted c vc p f h, decode_with-IsCounted c ac p f h)

-- Whatever the demuxer and the decoders answer, a call of process_in keeps `pkt_diff` in step: it is
-- the number of packets that the video decoder took, less the frames that it gave back (sentinels
-- apart in both), modulo 2^16.
pub process_in-IsCounted :
    (lib : Libav) (ops : TimeOps) (c : InputCtx) (frame : Frame) (index : ℤ)
    → IsCounted c
    → IsCounted (process_in lib ops c frame index).ctx
unfolding process_in
process_in-IsCounted lib ops c frame index h =
    let c' = next-IsCounted lib ops c h in
    ground (
      arith,
      c',
      flush_in-IsCounted lib ops _ (next_packet lib c).1 frame index c',
      decode_in-IsCounted lib ops _ (next_packet lib c).1 frame c',
    )
