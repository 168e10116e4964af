-- ===== src/Segmenter.antt =====
-- lpms_rtmp2hls of ffmpeg/extras.c: the packets that an RTMP stream gives to the HLS muxer. What
-- libav answers on the way is a record of answers.
pub mod Order
mod Tests
use lpms.Common.{
  ℕ, ℤ, pos, ◌-ℤ◌, leb_ℤ, ◌==ℤ◌, nopts, is_nopts, Bool, true, false, not, ◌&&◌, ◌||◌, Option, none,
  some, List, [], ◌∷◌, if◌then◌else◌, ◌==◌,
}
use lpms.Ret.{Ret, ok, failed, is_zero, is_eof, eof_is_done}
use lpms.Media.{Rational, Packet, TimeOps}

-- The video and the audio stream of the input, which are streams 0 and 1 of the output, and the time
-- bases on both sides, by the index in the output.
pub record Streams : Type 0 where
  pub video_index : ℕ
  pub audio_index : ℕ
  pub ist_tb : ℕ → Rational
  pub ost_tb : ℕ → Rational

-- prev_ts and got_video_kf
pub record HlsState : Type 0 where
  pub prev_video : ℤ
  pub prev_audio : ℤ
  pub got_video_kf : Bool

abbrev pub start : HlsState
start = record { prev_video = nopts; prev_audio = nopts; got_video_kf = false }

abbrev pub prev_of : ℕ → HlsState → ℤ
prev_of i st = if i == 0 then st.prev_video else st.prev_audio

abbrev pub set_prev : ℕ → ℤ → HlsState → HlsState
set_prev i t st = if i == 0 then record st { prev_video = t } else record st { prev_audio = t }

-- A packet that is written, beside the packet of the input that it was, on the stream of the output.
pub record Sent : Type 0 where
  pub source : Packet
  pub out : Packet

unfoldable pub remap : Streams → Packet → Option Packet
remap ss p =
    if p.stream_index == ss.video_index
    then some (record p { stream_index = 0 })
    else if p.stream_index == ss.audio_index
    then some (record p { stream_index = 1 })
    else none

-- A duration that is missing is the distance to the packet before.
unfoldable pub rescale : TimeOps → Streams → ℤ → Packet → Packet
rescale ops ss prev q =
    let ist_tb = ss.ist_tb q.stream_index in
    let ost_tb = ss.ost_tb q.stream_index in
    let before = if is_nopts prev then q.dts else prev in
    let duration = if q.duration ==ℤ pos 0 then q.dts -ℤ before else q.duration in
    record q {
      pts = ops.rescale_q_rnd q.pts ist_tb ost_tb;
      dts = ops.rescale_q_rnd q.dts ist_tb ost_tb;
      duration = ops.rescale_q duration ist_tb ost_tb;
    }

-- Nothing is sent before the first key frame of the video, and no packet that is late.
unfoldable pub segment_mapped : TimeOps → Streams → Packet → HlsState → Option Sent × HlsState
segment_mapped ops ss q st =
    let prev = prev_of q.stream_index st in
    let got_video_kf = st.got_video_kf || (q.stream_index == 0 && is_nopts prev && q.key) in
    let st' = record st { got_video_kf = got_video_kf } in
    if not got_video_kf
    then (none, st')
    else if not (is_nopts prev) && leb_ℤ q.dts prev
    then (none, st')
    else (
      some (record { source = q; out = rescale ops ss prev q }),
      set_prev q.stream_index q.dts st',
    )

unfoldable pub segment_packet : TimeOps → Streams → Packet → HlsState → Option Sent × HlsState
segment_packet ops ss p st = elim (remap ss p) [
  | none ↦ (none, st)
  | some q ↦ segment_mapped ops ss q st
]

-- av_interleaved_write_frame, whose result may depend on the packets written before, newest first.
abbrev pub HlsWriter : Type 0
HlsWriter = List Sent → Sent → Ret

-- r2h_err: a result that does not tell of the error becomes 1.
abbrev pub r2h_err : Ret → Ret
r2h_err ret = if is_zero ret then ok 1 else ret

-- The loop over what av_read_frame gives: packets, then a result with no packet. The result of the
-- function, and what is written, oldest first.
unfoldable pub segment_loop :
    TimeOps → Streams → HlsWriter → Ret → Ret → List Packet → List Sent → HlsState → Ret × List Sent
segment_loop ops ss writer last trailer [] before st = (
  if is_eof last then (if failed trailer then r2h_err trailer else trailer) else r2h_err last,
  [],
)
segment_loop ops ss writer last trailer (p ∷ ps) before st =
    let (out, st') = segment_packet ops ss p st in
    elim out [
      | none ↦ segment_loop ops ss writer last trailer ps before st'
      | some sent ↦
          let ret = writer before sent in
          if failed ret
          then (r2h_err ret, sent ∷ [])
          else (let (result, rest) =
                segment_loop ops ss writer last trailer ps (sent ∷ before) st' in
              (result, sent ∷ rest))
    ]

-- What libav answers before the loop, to the calls in their order: `setup` are the results that stop
-- the function if they are errors, `false` stands for NULL.
pub record HlsAnswers : Type 0 where
  pub open_ret : Ret
  pub info_ret : Ret
  pub guesses_format : Bool
  pub alloc_ret : Ret
  pub best_video : Ret
  pub best_audio : Ret
  pub allocs_video : Bool
  pub allocs_audio : Bool
  pub header_ret : Ret
  pub allocs_pkt : Bool
  pub packets : List Packet
  pub last : Ret
  pub trailer_ret : Ret

abbrev pub or_zero : Ret → ℕ
or_zero (ok n) = n
or_zero _ = 0

-- lpms_rtmp2hls: the first error of the set-up, or the loop.
unfoldable pub setup : HlsAnswers → Option Ret
setup a =
    if failed a.open_ret
    then some a.open_ret
    else if failed a.info_ret
    then some a.info_ret
    else if not a.guesses_format
    then some (r2h_err a.info_ret)
    else if failed a.alloc_ret
    then some a.alloc_ret
    else if failed a.best_video || failed a.best_audio || not a.allocs_video || not a.allocs_audio
    then some (r2h_err a.alloc_ret)
    else if failed a.header_ret
    then some a.header_ret
    else if not a.allocs_pkt
    then some (r2h_err a.header_ret)
    else none

unfoldable pub rtmp2hls :
    TimeOps → (ℕ → Rational) → (ℕ → Rational) → HlsWriter → HlsAnswers → Ret × List Sent
rtmp2hls ops ist_tb ost_tb writer a = elim (setup a) [
  | some ret ↦ (eof_is_done ret, [])
  | none ↦
      let ss : Streams = record {
        video_index = or_zero a.best_video;
        audio_index = or_zero a.best_audio;
        ist_tb = ist_tb;
        ost_tb = ost_tb;
      } in
      let (ret, sents) = segment_loop ops ss writer a.last a.trailer_ret a.packets [] start in
      (eof_is_done ret, sents)
]
