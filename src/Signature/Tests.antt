-- ===== src/Signature/Tests.antt =====
-- Tests and witnesses for the comparison of videos.
use lpms.Common.{
  ℕ, zero, suc, ◌<◌, ◌≤◌, ◌+◌, ◌^◌, true, some, pos, ◌≡◌, refl, arith, false, List, [], ◌∷◌, length,
  get_or,
}
use lpms.Ret.{err, done, eof, enomem}
use lpms.Media.{video, audio}
use lpms.Signature.{
  MatchInfo, empty_info, StreamInfo, PacketInfo, Demuxed, get_matchinfo, scan_streams, add_packets,
  add_packet, add_md5, grow, put_md5, compare_video_bybuffer,
}
use lpms.Signature.File.{
  padding, ulp, round_to, to_float, padded_length, File, get_filesize, get_filebuffer,
  compare_video_bypath,
}
use lpms.Signature.Padding.{get_filebuffer-Fits}
use lpms.Signature.Collect.{Holds, get_matchinfo-Holds}
use lpms.Signature.Match.{Drops, nil, keep, skip, Apart, compare_video_bybuffer-Drops}

abbrev picture : StreamInfo
picture = record { codec_type = video; width = 640; height = 360; bit_rate = 1000 }

abbrev sound : StreamInfo
sound = record { codec_type = audio; width = 0; height = 0; bit_rate = 100 }

abbrev audio_packet : ℕ → PacketInfo
audio_packet md5 = record { stream_index = 1; pts = pos md5; size = 100; md5 = md5 }

abbrev whole : Demuxed
whole = record {
  opened = done;
  streams = picture ∷ sound ∷ [];
  packets = audio_packet 11 ∷ audio_packet 12 ∷ audio_packet 13 ∷ [];
  last = err eof;
}

-- The second audio packet is lost.
abbrev lossy : Demuxed
lossy = record whole { packets = audio_packet 11 ∷ audio_packet 13 ∷ [] }

sums_of_whole : (get_matchinfo whole).1.apacketcount ≡ 3
unfolding get_matchinfo scan_streams add_packets add_packet add_md5 grow put_md5
sums_of_whole = refl

get_matchinfo-Holds_example : Holds (get_matchinfo whole).1 (11 ∷ 12 ∷ 13 ∷ [])
unfolding scan_streams
get_matchinfo-Holds_example = get_matchinfo-Holds whole refl

lossy-Drops : Drops 1 (11 ∷ 13 ∷ []) (11 ∷ 12 ∷ 13 ∷ [])
lossy-Drops = keep 11 (skip 12 (keep 13 nil))

compare_video_bybuffer-Drops_example :
    (compare_video_bybuffer lossy whole ≡ done) × (compare_video_bybuffer whole lossy ≡ done)
unfolding get_matchinfo scan_streams add_packets add_packet add_md5 grow put_md5
compare_video_bybuffer-Drops_example =
    compare_video_bybuffer-Drops lossy whole 1 (refl, refl) (refl, refl) refl refl lossy-Drops
      (omega arith)

-- The numbers from `k` down to 1, from `b` on.
abbrev count_down : ℕ → ℕ → List ℕ
count_down b zero = []
count_down b (suc k) = b ∷ count_down b k

abbrev info_of : List ℕ → MatchInfo
info_of l = record empty_info { md5allocsize = length l; apacketcount = length l; pmd5array = l }

info-Holds : (b : ℕ) → Holds (info_of (count_down b 12)) (count_down b 12)
info-Holds b = record {
  count = refl;
  allocated = refl;
  fits = omega arith;
  bounded = omega arith;
  written = refl;
}

count_down-get_or : (b k i : ℕ) → i < k → get_or (count_down b k) i 0 ≡ b
count_down-get_or b zero i h = elim h [ ]
count_down-get_or b (suc k) zero h = refl
count_down-get_or b (suc k) (suc i) h = count_down-get_or b k i (omega arith)

length-count_down : (b k : ℕ) → length (count_down b k) ≡ k
length-count_down b zero = refl
length-count_down b (suc k) = omega (arith, length-count_down b k)

apart_example : Apart (count_down 5 12) (count_down 6 12)
apart_example i j a b e = omega (arith, count_down-get_or 5 12 i a, count_down-get_or 6 12 j b, e)

abbrev small_file : File
small_file = record {
  is_unnamed = false;
  opens = true;
  opens_again = true;
  size = 1000;
  allocs = true;
  is_read = true;
}

small_file-read : get_filebuffer small_file ≡ some (record { length = 1000; allocated = 1088 })
unfolding get_filebuffer get_filesize padded_length to_float round_to ulp
small_file-read = refl

get_filebuffer-Fits_example :
    (1000 ≤ 1088)
    × (1000 < 2 ^ 31 → ◌≡◌ {A = ℕ} 1000 1000)
    × (1000 < 2 ^ 24 → 1000 + padding ≤ 1088)
get_filebuffer-Fits_example =
    get_filebuffer-Fits small_file (record { length = 1000; allocated = 1088 }) small_file-read

-- One byte past 16 MiB, the padding is one byte short.
short_padding : padded_length (2 ^ 24 + 1) + 1 ≡ 2 ^ 24 + 1 + padding
unfolding padded_length to_float round_to ulp
short_padding = refl

empty_file :
    compare_video_bypath (record small_file { size = 0 }) small_file whole whole ≡ err enomem
unfolding compare_video_bypath get_filebuffer get_filesize
empty_file = refl
