-- ===== src/Decoder/Flush.antt =====
-- flush_in of ffmpeg/decoder.c: draining the video decoder with sentinel packets ends.
use lpms.Common.{
  ℕ, zero, suc, ℤ, negsuc, ◌+◌, ◌-◌, ◌*◌, ◌^◌, ◌≤◌, ◌<◌, ◌≡◌, ◌⊎◌, inl, inr, arith, true, false,
  List, some, Bool-cases, Option-cases,
}
use lpms.Ret.{is_eagain, failed}
use lpms.Media.{Packet, Frame, TimeOps, blank_packet, blank_frame}
use lpms.Codec.{
  Libav, LibCall, InputCtx, vc, lpms_receive_frame, count_frame, fix_video_pts, send_flush_pkt,
  send_flush_with, sentinel_max,
}
use lpms.Decoder.{flush_video, flush_audio, flush_in, flushes_video, flush_rounds}

-- The decoder takes every sentinel: it is never still being reset.
abbrev pub TakesSentinels : Libav → Type 0
TakesSentinels lib = (l : List LibCall) (p : Packet) → is_eagain (lib.send l vc (some p)) ≡ false

-- The counters of the flush, within their 16 bits and with sentinels to spare.
pub record HasRoom (c : InputCtx) : Type 0 where
  pub diff_wide : c.pkt_diff < 2 ^ 16
  pub few_sentinels : c.sentinel_count ≤ sentinel_max

-- Each packet that is still out may take ten calls; nine more give up.
abbrev pub rounds_left : InputCtx → ℕ
rounds_left c = 10 * c.pkt_diff + (9 - c.sentinel_count)

module _ (lib : Libav) (ops : TimeOps) where
  -- A sentinel that is taken is counted.
  send_flush_pkt-counts :
      (c : InputCtx) (p : Packet)
      → is_eagain (lib.send c.calls vc (some p)) ≡ false
      → c.sentinel_count ≤ sentinel_max
      → let c' = (send_flush_with lib c p).1 in
        (c'.sentinel_count ≡ c.sentinel_count + 1)
        × (c'.pkt_diff ≡ c.pkt_diff)
        × (c'.flushing ≡ c.flushing)
  unfolding send_flush_with
  send_flush_pkt-counts c p h few = ground arith

  -- A frame that comes back lowers the count of packets and starts the sentinels over.
  receive-progress :
      (c : InputCtx)
      → c.flushing ≡ true
      → 0 < c.pkt_diff
      → c.pkt_diff < 2 ^ 16
      → let c' = (lpms_receive_frame lib ops c vc).2 in
        ((c'.pkt_diff ≡ c.pkt_diff - 1) × (c'.sentinel_count ≡ 0))
        ⊎ ((c'.pkt_diff ≡ c.pkt_diff) × (c'.sentinel_count ≡ c.sentinel_count))
  unfolding lpms_receive_frame count_frame fix_video_pts
  receive-progress c hf pos wide = ground arith

  abbrev Progress : InputCtx → InputCtx → Type 0
  Progress c c' = (flushes_video c' ≡ false) ⊎ (HasRoom c' × (rounds_left c' < rounds_left c))

  -- The sentinel is sent: what the state is before the frame is read.
  sentinel_sent :
      (c : InputCtx)
      → TakesSentinels lib
      → HasRoom c
      → c.flushed ≡ false
      → let (ret, c') = send_flush_pkt lib (record c { flushing = true }) in
        ((failed ret ≡ true) × (is_eagain ret ≡ false))
        ⊎ ((failed ret ≡ false)
            × (c'.sentinel_count ≡ c.sentinel_count + 1)
            × (c'.pkt_diff ≡ c.pkt_diff)
            × (c'.flushing ≡ true)
            × (c'.flushed ≡ false))
  unfolding send_flush_pkt send_flush_with
  sentinel_sent c takes r hf = elim (Option-cases c.flush_pkt) [
    | inl e ↦ ground (arith, e)
    | inr (p, e) ↦ ground (arith, e, takes c.calls p)
  ]

  flush_video-Progress :
      (c : InputCtx) (pkt : Packet) (frame : Frame) (index : ℤ)
      → TakesSentinels lib
      → HasRoom c
      → flushes_video c ≡ true
      → Progress c (flush_video lib ops c pkt frame index).1.ctx
  unfolding flush_video
  flush_video-Progress c pkt frame index takes r h = ground (
    arith,
    sentinel_sent c takes r,
    receive-progress (send_flush_pkt lib (record c { flushing = true })).1,
  )

  flush_audio-keeps :
      (c : InputCtx) (pkt : Packet) (frame : Frame) (index : ℤ)
      → let c' = (flush_audio lib c pkt frame index).ctx in
        (c'.pkt_diff ≡ c.pkt_diff)
        × (c'.sentinel_count ≡ c.sentinel_count)
        × (c'.flushed ≡ c.flushed)
        × (c'.has_vc ≡ c.has_vc)
  unfolding flush_audio
  flush_audio-keeps c pkt frame index = ground arith

  flush_in-Progress :
      (c : InputCtx) (pkt : Packet) (frame : Frame) (index : ℤ)
      → TakesSentinels lib
      → HasRoom c
      → flushes_video c ≡ true
      → Progress c (flush_in lib ops c pkt frame index).ctx
  unfolding flush_in
  flush_in-Progress c pkt frame index takes r h =
      let t = (flush_video lib ops c pkt frame index).1 in
      ground (
        arith,
        flush_video-Progress c pkt frame index takes r h,
        flush_audio-keeps t.ctx pkt t.frame t.stream_index,
      )

  flush_in-done :
      (c : InputCtx) (pkt : Packet) (frame : Frame) (index : ℤ)
      → flushes_video c ≡ false
      → flushes_video (flush_in lib ops c pkt frame index).ctx ≡ false
  unfolding flush_in
  flush_in-done c pkt frame index h = ground (arith, flush_audio-keeps c pkt frame index)

  flush_rounds-done :
      (n : ℕ) (c : InputCtx)
      → flushes_video c ≡ false
      → flushes_video (flush_rounds n lib ops c) ≡ false
  unfolding flush_rounds
  flush_rounds-done zero c h = h
  flush_rounds-done (suc n) c h =
      flush_rounds-done n _ (flush_in-done c blank_packet blank_frame (negsuc 0) h)

-- If the video decoder takes every sentinel, then whatever frames it gives back or keeps, it is
-- drained after ten calls of flush_in for each packet still inside, and nine more: no later call
-- sends it a sentinel.
pub flush_rounds-ends :
    (lib : Libav) (ops : TimeOps) (n : ℕ) (c : InputCtx)
    → TakesSentinels lib
    → HasRoom c
    → rounds_left c ≤ n
    → flushes_video (flush_rounds n lib ops c) ≡ false
unfolding flush_rounds
flush_rounds-ends lib ops zero c takes r h = absurd (omega (arith, r.few_sentinels))
flush_rounds-ends lib ops (suc n) c takes r h = elim (Bool-cases (flushes_video c)) [
  | inr over ↦
      flush_rounds-done lib ops n _
        (flush_in-done lib ops c blank_packet blank_frame (negsuc 0) over)
  | inl more ↦ elim (flush_in-Progress lib ops c blank_packet blank_frame (negsuc 0) takes r more) [
    | inl over ↦ flush_rounds-done lib ops n _ over
    | inr (r', less) ↦ flush_rounds-ends lib ops n _ takes r' (omega arith)
  ]
]
