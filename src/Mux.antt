-- ===== src/Mux.antt =====
-- `mux` of ffmpeg/encoder.c: the packets handed to the muxer and the repair of their timestamps.
-- A call returns its result beside the new state of the output.
pub mod Order
pub mod Session
mod Tests
use lpms.Common.{
  ℕ, ℤ, pos, ◌+ℤ◌, ◌-ℤ◌, ltb_ℤ, leb_ℤ, ◌==ℤ◌, one, is_nopts, Bool, true, false, not, ◌&&◌, List, [],
  ◌∷◌, if◌then◌else◌,
}
use lpms.Ret.{Ret, done}
use lpms.Media.{Rational, MediaType, video, audio, subtitle, Packet, Stream, TimeOps}

-- The part of `struct output_ctx` that `mux` works on. `nonstrict` is AVFMT_TS_NONSTRICT of the
-- output format. `written` holds the packets handed to av_interleaved_write_frame, newest first.
pub record MuxState : Type 0 where
  pub drop_ts : ℤ
  pub last_audio_dts : ℤ
  pub last_video_dts : ℤ
  pub nonstrict : Bool
  pub written : List Packet

-- av_interleaved_write_frame: its result may depend on all that was written before.
abbrev pub Writer : Type 0
Writer = List Packet → Packet → Ret

-- FFMIN3 and FFMAX3
abbrev pub min_ℤ : ℤ → ℤ → ℤ
min_ℤ a b = if ltb_ℤ b a then b else a

abbrev pub max_ℤ : ℤ → ℤ → ℤ
max_ℤ a b = if ltb_ℤ b a then a else b

-- a + b + c - FFMIN3(a, b, c) - FFMAX3(a, b, c)
unfoldable pub middle : ℤ → ℤ → ℤ → ℤ
middle a b c = a +ℤ b +ℤ c -ℤ min_ℤ (min_ℤ a b) c -ℤ max_ℤ (max_ℤ a b) c

-- A packet whose DTS is past its PTS gets the middle of PTS, DTS and the next DTS for both.
unfoldable pub repair_order : ℤ → Packet → Packet
repair_order last pkt =
    if not (is_nopts pkt.dts) && not (is_nopts pkt.pts) && ltb_ℤ pkt.pts pkt.dts
    then (let mid = middle pkt.pts pkt.dts (last +ℤ one) in record pkt { pts = mid; dts = mid })
    else pkt

-- last + !(flags & AVFMT_TS_NONSTRICT)
unfoldable pub least_dts : Bool → ℤ → ℤ
least_dts nonstrict last = last +ℤ (if nonstrict then pos 0 else one)

-- A DTS that is not monotonic is raised, and the PTS with it if it was not below.
unfoldable pub clamp_dts : Bool → ℤ → Packet → Packet
clamp_dts nonstrict last pkt =
    if not (is_nopts pkt.dts) && not (is_nopts last) && ltb_ℤ pkt.dts (least_dts nonstrict last)
    then record pkt {
      pts = if leb_ℤ pkt.dts pkt.pts then max_ℤ pkt.pts (least_dts nonstrict last) else pkt.pts;
      dts = least_dts nonstrict last;
    }
    else pkt

unfoldable pub fix_ts : Bool → ℤ → Packet → Packet
fix_ts nonstrict last pkt = clamp_dts nonstrict last (repair_order last pkt)

-- The packet in the time base of its output stream.
unfoldable pub to_stream : TimeOps → Packet → Rational → Stream → Packet
to_stream ops pkt tb ost =
    let p = record pkt { stream_index = ost.index } in
    if ops.cmp_q tb ost.time_base ==ℤ pos 0 then p else ops.rescale_ts p tb ost.time_base

unfoldable pub write : Writer → Packet → MuxState → Ret × MuxState
write writer pkt m = (writer m.written pkt, record m { written = pkt ∷ m.written })

unfoldable pub mux_video : Writer → Packet → MuxState → Ret × MuxState
mux_video writer pkt m =
    let fixed = fix_ts m.nonstrict m.last_video_dts pkt in
    write writer fixed (record m { last_video_dts = fixed.dts })

-- The first PTS after a reset of `drop_ts` is preroll: packets with it are dropped, unless it is 0.
unfoldable pub mux_audio : Writer → Packet → MuxState → Ret × MuxState
mux_audio writer pkt m =
    let drop = if is_nopts m.drop_ts then pkt.pts else m.drop_ts in
    let m' = record m { drop_ts = drop } in
    if not (pkt.pts ==ℤ pos 0) && pkt.pts ==ℤ drop
    then (done, m')
    else (let fixed = fix_ts m.nonstrict m.last_audio_dts pkt in
        write writer fixed (record m' { last_audio_dts = fixed.dts }))

unfoldable pub mux_typed : Writer → MediaType → Packet → MuxState → Ret × MuxState
mux_typed writer video pkt m = mux_video writer pkt m
mux_typed writer audio pkt m = mux_audio writer pkt m
mux_typed writer subtitle pkt m = write writer pkt m

unfoldable pub mux : TimeOps → Writer → Packet → Rational → Stream → MuxState → Ret × MuxState
mux ops writer pkt tb ost m = mux_typed writer ost.codec_type (to_stream ops pkt tb ost) m

-- One call of `mux`: the packet, its time base and the output stream.
pub record Call : Type 0 where
  pub pkt : Packet
  pub tb : Rational
  pub ost : Stream

-- The calls of a session, oldest first.
unfoldable pub mux_all : TimeOps → Writer → List Call → MuxState → MuxState
mux_all ops writer [] m = m
mux_all ops writer (c ∷ cs) m = mux_all ops writer cs (mux ops writer c.pkt c.tb c.ost m).1
