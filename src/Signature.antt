-- ===== src/Signature.antt =====
-- The comparison of two videos in ffmpeg/extras.c: get_matchinfo, is_valid_md5data and
-- lpms_compare_video_bybuffer. An MD5 sum of 16 bytes is a number. A demuxer's output is the list of
-- its streams and packets, with the result that ends it.
pub mod Collect
pub mod Match
pub mod File
pub mod Padding
mod Tests
use Prim.Native.Nat.{bit_xor}
use lpms.Common.{
  ℕ, zero, suc, ◌+◌, ◌-◌, ◌%◌, ◌^◌, min, ℤ, pos_part, neg_part, Bool, true, false, not, ◌&&◌, ◌||◌,
  Option, none, some, List, [], ◌∷◌, ◌++◌, if◌then◌else◌, ltb, leb, ◌==◌, length, get_or, set, take,
  replicate,
}
use lpms.Ret.{Ret, ok, err, done, failed, is_eof, lpms_err}
use lpms.Media.{MediaType, video, audio, subtitle}

-- struct match_info. `pmd5array` holds `md5allocsize` sums; NULL is the empty list.
pub record MatchInfo : Type 0 where
  pub width : ℕ
  pub height : ℕ
  pub bit_rate : ℕ
  pub packetcount : ℕ
  pub timestamp : ℕ
  pub md5allocsize : ℕ
  pub apacketcount : ℕ
  pub pmd5array : List ℕ

abbrev pub max_amismatch : ℕ
max_amismatch = 10

abbrev pub inc_md5_count : ℕ
inc_md5_count = 300

abbrev pub max_md5_count : ℕ
max_md5_count = 30000

abbrev pub empty_info : MatchInfo
empty_info = record {
  width = 0;
  height = 0;
  bit_rate = 0;
  packetcount = 0;
  timestamp = 0;
  md5allocsize = 0;
  apacketcount = 0;
  pmd5array = [];
}

-- What get_matchinfo reads of a stream's codec parameters.
pub record StreamInfo : Type 0 where
  pub codec_type : MediaType
  pub width : ℕ
  pub height : ℕ
  pub bit_rate : ℕ

-- What it reads of a packet; `md5` is the sum of its bytes.
pub record PacketInfo : Type 0 where
  pub stream_index : ℕ
  pub pts : ℤ
  pub size : ℕ
  pub md5 : ℕ

-- The last video stream gives the picture, the last audio stream gives `audioid`.
unfoldable pub scan_streams : ℕ → List StreamInfo → MatchInfo → Option ℕ → MatchInfo × Option ℕ
scan_streams i [] info audioid = (info, audioid)
scan_streams i (s ∷ ss) info audioid = elim s.codec_type [
  | video ↦
      scan_streams (suc i) ss
        (record info { width = s.width; height = s.height; bit_rate = s.bit_rate }) audioid
  | audio ↦ scan_streams (suc i) ss info (some i)
  | subtitle ↦ scan_streams (suc i) ss info audioid
]

-- The bits of an int64_t as a uint64_t.
abbrev pub to_u64 : ℤ → ℕ
to_u64 t = (pos_part t + (2 ^ 64 - neg_part t)) % 2 ^ 64

-- A larger array: what was there, then 300 sums that are not written yet (0 stands for any).
unfoldable pub grow : MatchInfo → MatchInfo
grow info = record info {
  md5allocsize = info.md5allocsize + inc_md5_count;
  pmd5array = take info.md5allocsize info.pmd5array ++ replicate inc_md5_count 0;
}

-- The sum goes to the place `apacketcount - 1`; a write out of bounds would change nothing.
unfoldable pub put_md5 : ℕ → MatchInfo → MatchInfo
put_md5 md5 info = record info { pmd5array = set info.pmd5array (info.apacketcount - 1) md5 }

unfoldable pub add_md5 : ℕ → MatchInfo → MatchInfo
add_md5 md5 info =
    let counted = record info { apacketcount = info.apacketcount + 1 } in
    put_md5 md5 (if ltb info.md5allocsize (info.apacketcount + 1) then grow counted else counted)

abbrev pub is_audio_packet : Option ℕ → PacketInfo → Bool
is_audio_packet none p = false
is_audio_packet (some i) p = p.stream_index == i && ltb 0 p.size

unfoldable pub add_packet : Option ℕ → PacketInfo → MatchInfo → MatchInfo
add_packet audioid p info =
    let counted = record info {
      packetcount = info.packetcount + 1;
      timestamp = bit_xor info.timestamp (to_u64 p.pts);
    } in
    if is_audio_packet audioid p && ltb info.apacketcount max_md5_count
    then add_md5 p.md5 counted
    else counted

unfoldable pub add_packets : Option ℕ → List PacketInfo → MatchInfo → MatchInfo
add_packets audioid [] info = info
add_packets audioid (p ∷ ps) info = add_packets audioid ps (add_packet audioid p info)

-- What a buffer demuxes to. `opened` is the result of the calls up to avformat_find_stream_info and
-- av_packet_alloc, `last` the result of the av_read_frame that gives no packet.
pub record Demuxed : Type 0 where
  pub opened : Ret
  pub streams : List StreamInfo
  pub packets : List PacketInfo
  pub last : Ret

unfoldable pub get_matchinfo : Demuxed → Ret × MatchInfo
get_matchinfo d =
    if failed d.opened
    then (d.opened, empty_info)
    else (let (info, audioid) = scan_streams 0 d.streams empty_info none in
        let info' = add_packets audioid d.packets info in
        (if is_eof d.last then done else lpms_err d.last, info'))

-- Whether one of the `n` sums from place `j` on is `md5`.
unfoldable pub scan : List ℕ → ℕ → ℕ → ℕ → Bool
scan sums md5 zero j = false
scan sums md5 (suc n) j = get_or sums j 0 == md5 || scan sums md5 n (j + 1)

-- max(0, i - scanscope) and min(count, i + scanscope)
abbrev pub window_start : ℕ → ℕ → ℕ
window_start i scope = i - scope

abbrev pub window_end : ℕ → ℕ → ℕ → ℕ
window_end count i scope = min count (i + scope)

unfoldable pub has_match : MatchInfo → MatchInfo → ℕ → ℕ → Bool
has_match first second scope i =
    scan second.pmd5array (get_or first.pmd5array i 0)
      (window_end second.apacketcount i scope - window_start i scope) (window_start i scope)

-- The packets of `first` among the `n` from `i` on that have a match in `second`.
unfoldable pub count_matches : MatchInfo → MatchInfo → ℕ → ℕ → ℕ → ℕ
count_matches first second scope zero i = 0
count_matches first second scope (suc n) i =
    (if has_match first second scope i then 1 else 0) + count_matches first second scope n (i + 1)

unfoldable pub compare_ordered : MatchInfo → MatchInfo → Bool
compare_ordered first second =
    let packetdiff = second.apacketcount - first.apacketcount in
    if ltb max_amismatch packetdiff
    then false
    else ltb (first.apacketcount - count_matches first second (packetdiff + 1) first.apacketcount 0)
        max_amismatch

unfoldable pub is_valid_md5data : MatchInfo → MatchInfo → Bool
is_valid_md5data info1 info2 =
    if ltb info1.apacketcount info2.apacketcount
    then compare_ordered info1 info2
    else compare_ordered info2 info1

-- 0 for a match, 1 for none, or an error.
unfoldable pub compare_video_bybuffer : Demuxed → Demuxed → Ret
compare_video_bybuffer d1 d2 =
    let (ret1, info1) = get_matchinfo d1 in
    let (ret2, info2) = get_matchinfo d2 in
    if failed ret1
    then ret1
    else if failed ret2
    then ret2
    else if not (info1.width == info2.width)
        || not (info1.height == info2.height)
        || not (is_valid_md5data info1 info2)
    then ok 1
    else ret2
