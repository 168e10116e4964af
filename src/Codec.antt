-- ===== src/Codec.antt =====
-- The decoding half of `struct input_ctx` of ffmpeg/decoder.h, and the functions of ffmpeg/decoder.c
-- that send one packet to a decoder, receive one frame from it and read one packet from the demuxer.
-- The demuxer and the codecs of libav are a parameter: what they answer may depend on all the calls
-- made before, which the state keeps in `calls`, newest first.
use lpms.Common.{
  ℕ, ℤ, pos, negsuc, ◌+◌, ◌-◌, ◌%◌, ◌^◌, ◌+ℤ◌, ltb_ℤ, leb_ℤ, ◌==ℤ◌, one, is_nopts, Bool, true,
  false, not, ◌&&◌, Option, none, some, List, ◌∷◌, if◌then◌else◌, get_elem?,
}
use lpms.Ret.{Ret, err, done, is_zero, is_eagain, input_nokf}
use lpms.Media.{HwType, Packet, Frame, Stream, TimeOps}

-- The decoder of a call: ictx->vc or ictx->ac.
pub data Decoder : Type 0 where
  vc ac : Decoder

abbrev pub is_vc : Decoder → Bool
is_vc vc = true
is_vc ac = false

-- A call of libav, with its result; a received frame with its PTS.
pub data LibCall : Type 0 where
  sent : Decoder → Ret → LibCall
  sent_flush : Ret → LibCall
  sent_null : LibCall
  received : Decoder → Ret → ℤ → LibCall
  demuxed : Ret → LibCall
  cloned : LibCall

-- avcodec_send_packet, avcodec_receive_frame, av_read_frame, and whether av_packet_clone succeeds.
pub record Libav : Type 0 where
  pub send : List LibCall → Decoder → Option Packet → Ret
  pub receive : List LibCall → Decoder → Ret × Frame
  pub read : List LibCall → Ret × Packet
  pub can_clone : List LibCall → Bool

-- `struct input_ctx`. A codec context is there or not; `ic` holds the streams of the open demuxer.
pub record InputCtx : Type 0 where
  pub ic : Option (List Stream)
  pub has_vc : Bool
  pub has_ac : Bool
  pub vi : ℤ
  pub ai : ℤ
  pub dv : Bool
  pub da : Bool
  pub hw_type : HwType
  pub has_hw_device : Bool
  pub transmuxing : Bool
  pub flush_pkt : Option Packet
  pub flushed : Bool
  pub flushing : Bool
  pub pkt_diff : ℕ
  pub sentinel_count : ℕ
  pub last_video_pts : ℤ
  pub blocked_pkt : Option Packet
  pub last_frame_v : Option Frame
  pub last_frame_a : Option Frame
  pub calls : List LibCall

abbrev pub sentinel_max : ℕ
sentinel_max = 8

-- uint16_t x++ and x--
abbrev pub inc16 : ℕ → ℕ
inc16 x = (x + 1) % 2 ^ 16

abbrev pub dec16 : ℕ → ℕ
dec16 x = (x + (2 ^ 16 - 1)) % 2 ^ 16

-- frame->pts == -1
abbrev pub is_flush_frame : Frame → Bool
is_flush_frame f = f.pts ==ℤ negsuc 0

abbrev pub call : LibCall → InputCtx → InputCtx
call e c = record c { calls = e ∷ c.calls }

-- ic->streams[i], for an index that may be negative.
abbrev pub stream_at : Option (List Stream) → ℤ → Option Stream
stream_at none i = none
stream_at (some streams) (pos n) = get_elem? streams n
stream_at (some streams) (negsuc n) = none

unfoldable pub lpms_send_packet : Libav → InputCtx → Decoder → Packet → Ret × InputCtx
lpms_send_packet lib c dec pkt =
    let ret = lib.send c.calls dec (some pkt) in
    let c' = call (sent dec ret) c in
    (ret, if is_zero ret && is_vc dec then record c' { pkt_diff = inc16 c.pkt_diff } else c')

-- One frame of the stream's rate in its time base, if it has a rate.
unfoldable pub rate_step : TimeOps → Option Stream → ℤ
rate_step ops none = one
rate_step ops (some st) =
    if ltb_ℤ (pos 0) st.r_frame_rate.num && ltb_ℤ (pos 0) st.r_frame_rate.den
    then (let step = ops.rescale_q one (ops.inv_q st.r_frame_rate) st.time_base in
        if ltb_ℤ (pos 0) step then step else one)
    else one

unfoldable pub decoded_video_pts_step : TimeOps → InputCtx → Frame → ℤ
decoded_video_pts_step ops c f =
    if ltb_ℤ (pos 0) f.duration then f.duration else rate_step ops (stream_at c.ic c.vi)

-- The PTS that a frame brings, or the decoder's guess.
unfoldable pub best_pts : Frame → ℤ
best_pts f = if is_nopts f.pts then f.best_effort_timestamp else f.pts

unfoldable pub fixed_pts : TimeOps → InputCtx → Frame → ℤ
fixed_pts ops c f =
    let step = decoded_video_pts_step ops c f in
    let synthesized = is_nopts (best_pts f) in
    let pts =
      if synthesized
      then (if is_nopts c.last_video_pts then step else step +ℤ c.last_video_pts)
      else best_pts f in
    if not (is_nopts c.last_video_pts) && leb_ℤ pts c.last_video_pts
    then c.last_video_pts +ℤ (if synthesized then step else one)
    else pts

unfoldable pub fix_video_pts : TimeOps → InputCtx → Frame → Frame × InputCtx
fix_video_pts ops c f =
    let pts = fixed_pts ops c f in (record f { pts = pts }, record c { last_video_pts = pts })

-- A video frame that is no sentinel is counted and its PTS is fixed.
unfoldable pub count_frame : TimeOps → InputCtx → Frame → Frame × InputCtx
count_frame ops c f =
    let (f', c') = fix_video_pts ops c f in
    (
      f',
      record c' {
        pkt_diff = dec16 c.pkt_diff;
        sentinel_count = if c.flushing then 0 else c.sentinel_count;
      },
    )

unfoldable pub lpms_receive_frame : Libav → TimeOps → InputCtx → Decoder → Ret × Frame × InputCtx
lpms_receive_frame lib ops c dec =
    let (ret, f) = lib.receive c.calls dec in
    let c' = call (received dec ret f.pts) c in
    if is_vc dec && is_zero ret && not (is_flush_frame f)
    then (let (f', c'') = count_frame ops c' f in (ret, f', c''))
    else (ret, f, c')

unfoldable pub send_flush_with : Libav → InputCtx → Packet → Ret × InputCtx
send_flush_with lib c pkt =
    let ret = lib.send c.calls vc (some pkt) in
    let c' = call (sent_flush ret) c in
    (ret, if is_eagain ret then c' else record c' { sentinel_count = inc16 c.sentinel_count })

unfoldable pub send_flush_pkt : Libav → InputCtx → Ret × InputCtx
send_flush_pkt lib c =
    if c.flushed
    then (done, c)
    else elim c.flush_pkt [ none ↦ (err input_nokf, c) | some pkt ↦ send_flush_with lib c pkt ]

unfoldable pub demux_in : Libav → InputCtx → Ret × Packet × InputCtx
demux_in lib c = let (ret, pkt) = lib.read c.calls in (ret, pkt, call (demuxed ret) c)
