-- ===== src/Decoder.antt =====
-- decode_in, flush_in and process_in of ffmpeg/decoder.c: the turns of the input loop, which each
-- read a packet and decode it, or drain the decoders at the end of the input.
pub mod Pts
pub mod Flush
pub mod Count
pub mod Blocked
pub mod Samples
mod Tests
use lpms.Common.{
  ℕ, zero, suc, ℤ, pos, negsuc, ◌+◌, ◌-◌, ◌%◌, ◌^◌, ◌+ℤ◌, ltb_ℤ, leb_ℤ, ◌==ℤ◌, one, nopts, is_nopts,
  Bool, true, false, not, ◌&&◌, ◌||◌, Option, none, some, List, [], ◌∷◌, if◌then◌else◌, ltb, leb,
  ◌==◌, get_elem?,
}
use lpms.Ret.{
  Ret, ok, err, done, failed, is_zero, is_eagain, is_eof, lpms_err, Code, input_nokf, packet_only,
  eof,
}
use lpms.Media.{HwType, Rational, Packet, Frame, Stream, TimeOps, blank_packet, blank_frame}
use lpms.Codec.{
  Decoder, is_vc, LibCall, Libav, InputCtx, sentinel_max, inc16, dec16, is_flush_frame, call,
  stream_at, lpms_send_packet, rate_step, decoded_video_pts_step, best_pts, fixed_pts,
  fix_video_pts, count_frame, lpms_receive_frame, send_flush_with, send_flush_pkt, demux_in, vc, ac,
  sent, sent_flush, sent_null, received, demuxed, cloned,
}

-- What one call of decode_in, flush_in or process_in leaves: its result, `*pkt`, `*frame`,
-- `*stream_index` and the state.
pub record Turn : Type 0 where
  pub ret : Ret
  pub pkt : Packet
  pub frame : Frame
  pub stream_index : ℤ
  pub ctx : InputCtx

-- streams[i]->index. The demuxer gives packets of streams that it has.
abbrev pub index_of : InputCtx → ℕ → ℤ
index_of c i = elim (stream_at c.ic (pos i)) [ none ↦ pos i | some st ↦ pos st.index ]

-- The sentinel for the flush is a copy of each key frame's packet, with PTS -1. (A copy that fails
-- is a null dereference in the code, and is not modelled.)
unfoldable pub keep_flush_pkt : InputCtx → Decoder → Packet → InputCtx
keep_flush_pkt c dec pkt =
    if pkt.key && is_vc dec
    then record c { flush_pkt = some (record pkt { pts = negsuc 0 }) }
    else c

-- After EAGAIN the packet is held back until the decoder has drained. `false` where it cannot be.
unfoldable pub hold_blocked : Libav → InputCtx → Packet → Bool × InputCtx
hold_blocked lib c pkt = elim c.blocked_pkt [
  | some _ ↦ (false, c)
  | none ↦
      if lib.can_clone c.calls
      then (true, record (call cloned c) { blocked_pkt = some pkt })
      else (false, call cloned c)
]

unfoldable pub receive_after_send : Libav → TimeOps → InputCtx → Decoder → Packet → Turn
receive_after_send lib ops c dec pkt =
    let (ret, f, c') = lpms_receive_frame lib ops c dec in
    record {
      ret = if is_eagain ret then err packet_only else ret;
      pkt = pkt;
      frame = f;
      stream_index = pos pkt.stream_index;
      ctx = c';
    }

unfoldable pub stop_decoding : Ret → InputCtx → Packet → Frame → Turn
stop_decoding ret c pkt frame = record {
  ret = lpms_err ret;
  pkt = pkt;
  frame = frame;
  stream_index = pos pkt.stream_index;
  ctx = c;
}

unfoldable pub decode_with : Libav → TimeOps → InputCtx → Decoder → Packet → Frame → Turn
decode_with lib ops c dec pkt frame =
    let (ret, c') = lpms_send_packet lib (keep_flush_pkt c dec pkt) dec pkt in
    if is_eagain ret
    then (let (held, c'') = hold_blocked lib c' pkt in
        if held then receive_after_send lib ops c'' dec pkt else stop_decoding ret c'' pkt frame)
    else if failed ret
    then stop_decoding ret c' pkt frame
    else receive_after_send lib ops c' dec pkt

-- A packet that is not decoded is passed on, or dropped if its stream is not used.
unfoldable pub decode_in : Libav → TimeOps → InputCtx → Packet → Frame → Turn
decode_in lib ops c pkt frame =
    let i = index_of c pkt.stream_index in
    let passed : Turn = record {
      ret = done;
      pkt = pkt;
      frame = frame;
      stream_index = pos pkt.stream_index;
      ctx = c;
    } in
    if i ==ℤ c.vi && c.has_vc
    then decode_with lib ops c vc pkt frame
    else if i ==ℤ c.ai && c.has_ac
    then decode_with lib ops c ac pkt frame
    else if pos pkt.stream_index ==ℤ c.vi || pos pkt.stream_index ==ℤ c.ai || c.transmuxing
    then passed
    else record passed { pkt = blank_packet }

unfoldable pub flush_audio : Libav → InputCtx → Packet → Frame → ℤ → Turn
flush_audio lib c pkt frame index =
    if c.has_ac
    then (let c' = call sent_null c in
        let (ret, f) = lib.receive c'.calls ac in
        record {
          ret = if is_zero ret then ret else err eof;
          pkt = pkt;
          frame = f;
          stream_index = c.ai;
          ctx = call (received ac ret f.pts) c';
        })
    else record { ret = err eof; pkt = pkt; frame = frame; stream_index = index; ctx = c }

-- The video half of flush_in: a sentinel is sent and a frame is read. The Boolean says to return.
unfoldable pub flush_video : Libav → TimeOps → InputCtx → Packet → Frame → ℤ → Bool × Turn
flush_video lib ops c pkt frame index =
    let (sent_ret, c1) = send_flush_pkt lib (record c { flushing = true }) in
    if not (is_eagain sent_ret) && failed sent_ret
    then (
      true,
      record {
        ret = sent_ret;
        pkt = pkt;
        frame = frame;
        stream_index = index;
        ctx = record c1 { flushed = true };
      },
    )
    else (let (ret, f, c2) = lpms_receive_frame lib ops c1 vc in
        let out : Turn = record {
          ret = ret;
          pkt = pkt;
          frame = f;
          stream_index = c2.vi;
          ctx = c2;
        } in
        if not (c2.pkt_diff == 0)
          && leb c2.sentinel_count sentinel_max
          && (is_zero ret || is_eagain ret)
        then (true, out)
        else (is_zero ret, record out { ctx = record c2 { flushed = true } }))

abbrev pub flushes_video : InputCtx → Bool
flushes_video c = c.has_vc && not c.flushed && ltb 0 c.pkt_diff

unfoldable pub flush_in : Libav → TimeOps → InputCtx → Packet → Frame → ℤ → Turn
flush_in lib ops c pkt frame index =
    if flushes_video c
    then (let (return, t) = flush_video lib ops c pkt frame index in
        if return then t else flush_audio lib t.ctx pkt t.frame t.stream_index)
    else flush_audio lib c pkt frame index

-- The next packet is the one that was held back, or comes from the demuxer.
unfoldable pub next_packet : Libav → InputCtx → Ret × Packet × InputCtx
next_packet lib c = elim c.blocked_pkt [
  | some held ↦ (done, held, record c { blocked_pkt = none })
  | none ↦ demux_in lib c
]

unfoldable pub process_in : Libav → TimeOps → InputCtx → Frame → ℤ → Turn
process_in lib ops c frame index =
    let (ret, pkt, c') = next_packet lib c in
    if is_eof ret
    then flush_in lib ops c' pkt frame index
    else if failed ret
    then record { ret = lpms_err ret; pkt = pkt; frame = frame; stream_index = index; ctx = c' }
    else decode_in lib ops c' pkt frame

-- The state after `n` calls of flush_in, as the transcoder loop makes them at the end of the input.
-- The caller clears its frame before each.
unfoldable pub flush_rounds : ℕ → Libav → TimeOps → InputCtx → InputCtx
flush_rounds zero lib ops c = c
flush_rounds (suc n) lib ops c =
    flush_rounds n lib ops (flush_in lib ops c blank_packet blank_frame (negsuc 0)).ctx
