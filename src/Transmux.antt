-- ===== src/Transmux.antt =====
-- The timestamps of packets that are copied from several inputs into one output: the transmuxing
-- part of `transcode`, handle_discontinuity and lpms_transcode_discontinuity of
-- ffmpeg/transcoder.c. The arrays `last_duration`, `last_dts`, `dts_diff` and `discontinuity` of
-- `struct input_ctx` are one list of records, indexed by stream.
pub mod Order
pub mod Offset
mod Tests
use lpms.Common.{
  ℕ, zero, suc, ℤ, pos, negsuc, ◌+ℤ◌, ◌-ℤ◌, ltb_ℤ, leb_ℤ, ◌==ℤ◌, Bool, true, false, not, ◌&&◌,
  Option, none, some, List, [], ◌∷◌, map, if◌then◌else◌, ltb, get_or, set, replicate,
}
use lpms.Media.{Packet}

pub record Timeline : Type 0 where
  pub last_duration : ℤ
  pub last_dts : ℤ
  pub dts_diff : ℤ
  pub discontinuity : Bool

abbrev pub max_output_size : ℕ
max_output_size = 10

-- As lpms_transcode_new leaves it.
abbrev pub fresh_line : Timeline
fresh_line = record {
  last_duration = pos 0;
  last_dts = negsuc 0;
  dts_diff = pos 0;
  discontinuity = false;
}

abbrev pub fresh_lines : List Timeline
fresh_lines = replicate max_output_size fresh_line

-- The offset that joins the packet to the end of what came before, after a discontinuity.
unfoldable pub set_offset : Timeline → ℤ → Timeline
set_offset t dts =
    if t.discontinuity
    then record t { dts_diff = t.last_dts +ℤ t.last_duration -ℤ dts; discontinuity = false }
    else t

abbrev pub shift : Timeline → Packet → Packet
shift t pkt = record pkt { pts = pkt.pts +ℤ t.dts_diff; dts = pkt.dts +ℤ t.dts_diff }

unfoldable pub remember : Timeline → Packet → Timeline
remember t pkt = record t {
  last_dts = pkt.dts;
  last_duration = if pkt.duration ==ℤ pos 0 then t.last_duration else pkt.duration;
}

-- The packet of a stream: shifted, or dropped where its DTS would not rise.
unfoldable pub transmux_line : Timeline → Packet → Option Packet × Timeline
transmux_line t pkt =
    let t' = set_offset t pkt.dts in
    let pkt' = shift t' pkt in
    if ltb_ℤ (negsuc 0) t'.last_dts && leb_ℤ pkt'.dts t'.last_dts
    then (none, t')
    else (some pkt', remember t' pkt')

-- Streams past the arrays are passed on as they are.
unfoldable pub transmux : List Timeline → Packet → Option Packet × List Timeline
transmux ts pkt =
    if ltb pkt.stream_index max_output_size
    then (let (out, t) = transmux_line (get_or ts pkt.stream_index fresh_line) pkt in
        (out, set ts pkt.stream_index t))
    else (some pkt, ts)

unfoldable pub handle_line : Timeline → Packet → Packet × Timeline
handle_line t pkt =
    let t' = set_offset t pkt.dts in let pkt' = shift t' pkt in (pkt', remember t' pkt')

-- The function of that name, which the loop does not call.
unfoldable pub handle_discontinuity : List Timeline → Packet → Packet × List Timeline
handle_discontinuity ts pkt =
    if ltb pkt.stream_index max_output_size
    then (let (out, t) = handle_line (get_or ts pkt.stream_index fresh_line) pkt in
        (out, set ts pkt.stream_index t))
    else (pkt, ts)

-- lpms_transcode_discontinuity marks every stream.
unfoldable pub mark_discontinuity : List Timeline → List Timeline
mark_discontinuity = map λ (t : Timeline). record t { discontinuity = true }

abbrev pub emit : Option Packet → List Packet → List Packet
emit none rest = rest
emit (some q) rest = q ∷ rest

-- The packets of a segment in order: those that are written, oldest first, and the state.
unfoldable pub transmux_all : List Timeline → List Packet → List Packet × List Timeline
transmux_all ts [] = ([], ts)
transmux_all ts (p ∷ ps) =
    let (out, ts') = transmux ts p in
    let (rest, ts'') = transmux_all ts' ps in (emit out rest, ts'')
