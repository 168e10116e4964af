-- ===== src/Decoder/Blocked.antt =====
-- The packet that process_in of ffmpeg/decoder.c holds back while a decoder drains.
use lpms.Common.{
  ℤ, ◌≡◌, arith, true, false, List, Option, none, some, ◌==ℤ◌, ◌&&◌, if◌then◌else◌, Option-cases,
  inl, inr,
}
use lpms.Ret.{is_eagain, failed}
use lpms.Media.{Packet, Frame, TimeOps}
use lpms.Codec.{
  Libav, LibCall, InputCtx, Decoder, vc, ac, lpms_send_packet, lpms_receive_frame, count_frame,
  fix_video_pts, send_flush_pkt, send_flush_with, demux_in,
}
use lpms.Decoder.{
  keep_flush_pkt, hold_blocked, receive_after_send, stop_decoding, decode_with, decode_in,
  flush_video, flush_audio, flush_in, next_packet, process_in, index_of,
}

-- av_packet_clone finds the memory that it needs.
abbrev pub CanClone : Libav → Type 0
CanClone lib = (l : List LibCall) → lib.can_clone l ≡ true

module _ (lib : Libav) (ops : TimeOps) (c : InputCtx) where
  next-none : (next_packet lib c).2.blocked_pkt ≡ none
  unfolding next_packet demux_in
  next-none = elim (Option-cases c.blocked_pkt) [
    | inl e ↦ ground (arith, e)
    | inr (p, e) ↦ ground (arith, e)
  ]

  receive-blocked : (d : Decoder) → (lpms_receive_frame lib ops c d).2.blocked_pkt ≡ c.blocked_pkt
  unfolding lpms_receive_frame count_frame fix_video_pts
  receive-blocked d = ground arith

  send-blocked :
      (d : Decoder) (p : Packet)
      → let out = lpms_send_packet lib (keep_flush_pkt c d p) d p in
        (out.1.blocked_pkt ≡ c.blocked_pkt) × (out.0 ≡ lib.send c.calls d (some p))
  unfolding lpms_send_packet keep_flush_pkt
  send-blocked d p = ground arith

  flush_pkt-blocked : (send_flush_pkt lib c).1.blocked_pkt ≡ c.blocked_pkt
  unfolding send_flush_pkt send_flush_with
  flush_pkt-blocked = elim (Option-cases c.flush_pkt) [
    | inl e ↦ ground (arith, e)
    | inr (p, e) ↦ ground (arith, e)
  ]

module _ (lib : Libav) (ops : TimeOps) (c : InputCtx) (p : Packet) (f : Frame) where
  flush_video-blocked : (i : ℤ) → (flush_video lib ops c p f i).1.ctx.blocked_pkt ≡ c.blocked_pkt
  unfolding flush_video
  flush_video-blocked i =
      let r : InputCtx = record c { flushing = true } in
      ground
        (arith, flush_pkt-blocked lib ops r, receive-blocked lib ops (send_flush_pkt lib r).1 vc)

  flush_audio-blocked : (i : ℤ) → (flush_audio lib c p f i).ctx.blocked_pkt ≡ c.blocked_pkt
  unfolding flush_audio
  flush_audio-blocked i = ground arith

  decode_with-blocked :
      (d : Decoder)
      → CanClone lib
      → c.blocked_pkt ≡ none
      → (decode_with lib ops c d p f).ctx.blocked_pkt
        ≡ (if is_eagain (lib.send c.calls d (some p)) then some p else none)
  unfolding decode_with receive_after_send stop_decoding hold_blocked
  decode_with-blocked d can e =
      let c' = (lpms_send_packet lib (keep_flush_pkt c d p) d p).1 in
      ground (
        arith,
        send-blocked lib ops c d p,
        can c'.calls,
        receive-blocked lib ops c' d,
        receive-blocked lib ops (hold_blocked lib c' p).1 d,
      )

-- What is held after a packet was offered to the decoder of its stream, if it has one.
abbrev pub held_after : Libav → InputCtx → Packet → Option Packet
held_after lib c p =
    let i = index_of c p.stream_index in
    if i ==ℤ c.vi && c.has_vc
    then (if is_eagain (lib.send c.calls vc (some p)) then some p else none)
    else if i ==ℤ c.ai && c.has_ac
    then (if is_eagain (lib.send c.calls ac (some p)) then some p else none)
    else none

module _ (lib : Libav) (ops : TimeOps) where
  decode_in-blocked :
      (c : InputCtx) (p : Packet) (f : Frame)
      → CanClone lib
      → c.blocked_pkt ≡ none
      → (decode_in lib ops c p f).ctx.blocked_pkt ≡ held_after lib c p
  unfolding decode_in
  decode_in-blocked c p f can e = ground (
    arith,
    decode_with-blocked lib ops c p f vc can e,
    decode_with-blocked lib ops c p f ac can e,
  )

  flush_in-blocked :
      (c : InputCtx) (p : Packet) (f : Frame) (i : ℤ)
      → (flush_in lib ops c p f i).ctx.blocked_pkt ≡ c.blocked_pkt
  unfolding flush_in
  flush_in-blocked c p f i =
      let t = (flush_video lib ops c p f i).1 in
      ground (
        arith,
        flush_video-blocked lib ops c p f i,
        flush_audio-blocked lib ops t.ctx p t.frame t.stream_index,
        flush_audio-blocked lib ops c p f i,
      )

-- If packets can be cloned, process_in loses no packet to a decoder that must drain first: after
-- the call, the held packet is the one of this call if its decoder answered EAGAIN, and none
-- otherwise (also where there was no packet to decode).
pub process_in-blocked :
    (lib : Libav) (ops : TimeOps) (c : InputCtx) (frame : Frame) (index : ℤ)
    → CanClone lib
    → let (ret, p, c') = next_packet lib c in
      (process_in lib ops c frame index).ctx.blocked_pkt
      ≡ (if failed ret then none else held_after lib c' p)
unfolding process_in
process_in-blocked lib ops c frame index can =
    let p = (next_packet lib c).1 in
    let c' = (next_packet lib c).2 in
    ground (
      arith,
      next-none lib ops c,
      flush_in-blocked lib ops c' p frame index,
      decode_in-blocked lib ops c' p frame can (next-none lib ops c),
    )

-- Where the packet of a call of decode_in cannot be cloned, its decoder's EAGAIN is the result,
-- and the packet is held nowhere.
pub decode_with-loses :
    (lib : Libav) (ops : TimeOps) (c : InputCtx) (d : Decoder) (p : Packet) (f : Frame)
    → is_eagain (lib.send c.calls d (some p)) ≡ true
    → c.blocked_pkt ≡ none
    → ((l : List LibCall) → lib.can_clone l ≡ false)
    → let t = decode_with lib ops c d p f in (is_eagain t.ret ≡ true) × (t.ctx.blocked_pkt ≡ none)
unfolding decode_with stop_decoding hold_blocked
decode_with-loses lib ops c d p f again e cannot =
    let c' = (lpms_send_packet lib (keep_flush_pkt c d p) d p).1 in
    ground (arith, send-blocked lib ops c d p, cannot c'.calls)
