-- ===== src/Segmenter/Tests.antt =====
-- Tests and witnesses for the segmenter.
use lpms.Common.{pos, nopts, ◌-ℤ◌, ◌≡◌, refl, arith, true, false, List, [], ◌∷◌}
use lpms.Ret.{ok, err, done, eof, outputs}
use lpms.Media.{Packet}
use lpms.Samples.{same_base, thousandth, packet}
use lpms.Segmenter.{
  HlsWriter, HlsAnswers, setup, rtmp2hls, segment_loop, segment_packet, segment_mapped, remap,
  rescale,
}
use lpms.Segmenter.Order.{Rises, StartsAtKey, dts_of, rtmp2hls-Rises}

abbrev writes : HlsWriter
writes = λ before x. done

-- Audio is stream 0 of the input, and video stream 3. The first audio comes too soon, and the last
-- video packet is late.
abbrev packets : List Packet
packets =
    packet 0 (pos 5) (pos 5)
    ∷ record (packet 3 (pos 6) (pos 6)) { key = false }
    ∷ record (packet 3 (pos 8) (pos 7)) { duration = pos 0 }
    ∷ packet 0 (pos 9) (pos 9)
    ∷ packet 2 (pos 9) (pos 9)
    ∷ record (packet 3 (pos 11) (pos 10)) { duration = pos 0 }
    ∷ packet 3 (pos 10) (pos 10)
    ∷ []

abbrev answers : HlsAnswers
answers = record {
  open_ret = done;
  info_ret = done;
  guesses_format = true;
  alloc_ret = done;
  best_video = ok 3;
  best_audio = ok 0;
  allocs_video = true;
  allocs_audio = true;
  header_ret = done;
  allocs_pkt = true;
  packets = packets;
  last = err eof;
  trailer_ret = done;
}

sends_three : rtmp2hls same_base (λ i. thousandth) (λ i. thousandth) writes answers ≡ (
  done,
  record {
    source = record (packet 0 (pos 8) (pos 7)) { duration = pos 0 };
    out = record (packet 0 (pos 8) (pos 7)) { duration = pos 0 };
  }
      ∷ record { source = packet 1 (pos 9) (pos 9); out = packet 1 (pos 9) (pos 9) }
      ∷ record {
        source = record (packet 0 (pos 11) (pos 10)) { duration = pos 0 };
        out = record (packet 0 (pos 11) (pos 10)) { duration = pos 3 };
      }
      ∷ [],
)
unfolding rtmp2hls setup segment_loop segment_packet segment_mapped remap rescale ◌-ℤ◌
sends_three = refl

stops_at_error :
    (rtmp2hls same_base (λ i. thousandth) (λ i. thousandth) (λ before x. err outputs) answers).0
    ≡ err outputs
unfolding rtmp2hls setup segment_loop segment_packet segment_mapped remap rescale ◌-ℤ◌
stops_at_error = refl

-- Without a stream of a kind, the function ends with 1, which tells of an error.
no_audio :
    rtmp2hls same_base
      (λ i. thousandth)
      (λ i. thousandth)
      writes
      (record answers { best_audio = err outputs })
    ≡ (ok 1, [])
unfolding rtmp2hls setup
no_audio = refl

rtmp2hls-Rises_example :
    let sents = (rtmp2hls same_base (λ i. thousandth) (λ i. thousandth) writes answers).1 in
    Rises nopts (dts_of 1 sents) × StartsAtKey false sents
rtmp2hls-Rises_example =
    rtmp2hls-Rises same_base (λ i. thousandth) (λ i. thousandth) writes answers 1 (omega arith)
