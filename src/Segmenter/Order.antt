-- ===== src/Segmenter/Order.antt =====
-- The order of the packets that the segmenter writes, and where it starts.
use lpms.Common.{
  ℕ, ℤ, nopts, ◌<ℤ◌, ◌≤◌, ◌≡◌, ◌⊎◌, refl, arith, Bool, true, false, Option, none, some, List, [],
  ◌∷◌, if◌then◌else◌, ◌==◌, Bool-cases, Option-cases, inl, inr, is_nopts,
}
use lpms.Ret.{Ret, failed}
use lpms.Media.{Rational, Packet, TimeOps}
use lpms.Segmenter.{
  Streams, HlsState, start, prev_of, Sent, remap, segment_mapped, segment_packet, HlsWriter,
  segment_loop, HlsAnswers, setup, or_zero, rtmp2hls,
}

-- The DTS in the input of what is written to stream `s`, oldest first.
abbrev pub dts_of : ℕ → List Sent → List ℤ
dts_of s [] = []
dts_of s (x ∷ xs) = if x.source.stream_index == s then x.source.dts ∷ dts_of s xs else dts_of s xs

-- Each DTS is past the one before, if that is set.
abbrev pub Rises : ℤ → List ℤ → Type 0
Rises last [] = Unit {0}
Rises last (d ∷ ds) = ((last ≡ nopts) ⊎ (last <ℤ d)) × Rises d ds

-- The first packet written is a key frame of the video, unless the video has started.
abbrev pub StartsAtKey : Bool → List Sent → Type 0
StartsAtKey true xs = Unit {0}
StartsAtKey false [] = Unit {0}
StartsAtKey false (x ∷ xs) = (x.source.stream_index ≡ 0) × (x.source.key ≡ true)

-- What one packet does to stream `s`: nothing, or a packet is sent to another stream, or one past the
-- last is sent and remembered.
abbrev Fits : ℕ → HlsState → Option Sent → HlsState → Type 0
Fits s st none st' = prev_of s st' ≡ prev_of s st
Fits s st (some x) st' =
    (((x.source.stream_index == s) ≡ false) × (prev_of s st' ≡ prev_of s st))
    ⊎ (((x.source.stream_index == s) ≡ true)
        × (prev_of s st' ≡ x.source.dts)
        × ((prev_of s st ≡ nopts) ⊎ (prev_of s st <ℤ x.source.dts)))

-- A packet is sent only after a key frame of the video, or is one.
abbrev FollowsKey : HlsState → Option Sent → HlsState → Type 0
FollowsKey st none st' = st'.got_video_kf ≡ st.got_video_kf
FollowsKey st (some x) st' =
    (st'.got_video_kf ≡ true)
    × ((st.got_video_kf ≡ true) ⊎ ((x.source.stream_index ≡ 0) × (x.source.key ≡ true)))

is_nopts→nopts : (t : ℤ) → is_nopts t ≡ true → t ≡ nopts
is_nopts→nopts t h = ground arith

module _ (ops : TimeOps) (ss : Streams) where
  segment_mapped-Fits :
      (s : ℕ) (q : Packet) (st : HlsState)
      → s ≤ 1
      → q.stream_index ≤ 1
      → let (out, st') = segment_mapped ops ss q st in Fits s st out st'
  unfolding segment_mapped
  segment_mapped-Fits s q st h hq = ground (arith, is_nopts→nopts (prev_of s st))

  segment_mapped-FollowsKey :
      (q : Packet) (st : HlsState)
      → let (out, st') = segment_mapped ops ss q st in FollowsKey st out st'
  unfolding segment_mapped
  segment_mapped-FollowsKey q st = ground arith

  remap_below : (p q : Packet) → remap ss p ≡ some q → q.stream_index ≤ 1
  unfolding remap
  remap_below p q h = ground arith

  segment_packet-Fits :
      (s : ℕ) (p : Packet) (st : HlsState)
      → s ≤ 1
      → let (out, st') = segment_packet ops ss p st in Fits s st out st' × FollowsKey st out st'
  unfolding segment_packet
  segment_packet-Fits s p st h = elim (Option-cases (remap ss p)) [
    | inl e ↦ rw (segment_packet, e) (refl, refl)
    | inr (q, e) ↦
        rw (segment_packet, e)
          (segment_mapped-Fits s q st h (remap_below p q e), segment_mapped-FollowsKey q st)
  ]

StartsAtKey-nil : (b : Bool) → StartsAtKey b []
StartsAtKey-nil true = tt
StartsAtKey-nil false = tt

StartsAtKey-cons :
    (st st' : HlsState) (x : Sent) (rest : List Sent) (b : Bool)
    → st.got_video_kf ≡ b
    → FollowsKey st (some x) st'
    → StartsAtKey b (x ∷ rest)
StartsAtKey-cons st st' x rest true e h = tt
StartsAtKey-cons st st' x rest false e (_, inl h) = absurd (ground (arith, e, h))
StartsAtKey-cons st st' x rest false e (_, inr h) = h

Rises-cons :
    (s : ℕ) (st st' : HlsState) (x : Sent) (rest : List Sent)
    → Fits s st (some x) st'
    → Rises (prev_of s st') (dts_of s rest)
    → Rises (prev_of s st) (dts_of s (x ∷ rest))
Rises-cons s st st' x rest (inl (e, same)) h = rw (e, ← same) h
Rises-cons s st st' x rest (inr (e, now, past)) h = rw e (past, rw now at h)

module _ (ops : TimeOps) (ss : Streams) where
  -- The loop, on one stream.
  segment_loop-Rises :
      (writer : HlsWriter) (last trailer : Ret) (ps : List Packet) (before : List Sent)
      (st : HlsState) (s : ℕ)
      → s ≤ 1
      → let sents = (segment_loop ops ss writer last trailer ps before st).1 in
        Rises (prev_of s st) (dts_of s sents) × StartsAtKey st.got_video_kf sents
  unfolding segment_loop
  segment_loop-Rises writer last trailer [] before st s h = (tt, StartsAtKey-nil st.got_video_kf)
  segment_loop-Rises writer last trailer (p ∷ ps) before st s h =
      let (out, st') = segment_packet ops ss p st in
      let (fits, key) = segment_packet-Fits ops ss s p st h in
      elim (Option-cases out) [
        | inl e ↦
            let (rises, starts) = segment_loop-Rises writer last trailer ps before st' s h in
            rw (segment_loop, e) (rw (rw e at fits) at rises, rw (rw e at key) at starts)
        | inr (x, e) ↦ elim (Bool-cases (failed (writer before x))) [
          | inl bad ↦
              rw (segment_loop, e, bad)
                (
                  Rises-cons s st st' x [] (rw e at fits) tt,
                  StartsAtKey-cons st st' x [] st.got_video_kf refl (rw e at key),
                )
          | inr good ↦
              let (rises, starts) =
                segment_loop-Rises writer last trailer ps (x ∷ before) st' s h in
              let sents = (segment_loop ops ss writer last trailer ps (x ∷ before) st').1 in
              rw (segment_loop, e, good)
                (
                  Rises-cons s st st' x sents (rw e at fits) rises,
                  StartsAtKey-cons st st' x sents st.got_video_kf refl (rw e at key),
                )
        ]
      ]

unset : (s : ℕ) → prev_of s start ≡ nopts
unset s = ground arith

-- What lpms_rtmp2hls writes to each of its two streams has DTS (in the time base of the input) that
-- rise strictly, while they are set; and the first packet of all is a key frame of the video.
pub rtmp2hls-Rises :
    (ops : TimeOps) (ist_tb ost_tb : ℕ → Rational) (writer : HlsWriter) (a : HlsAnswers) (s : ℕ)
    → s ≤ 1
    → let sents = (rtmp2hls ops ist_tb ost_tb writer a).1 in
      Rises nopts (dts_of s sents) × StartsAtKey false sents
unfolding rtmp2hls
rtmp2hls-Rises ops ist_tb ost_tb writer a s h = elim (Option-cases (setup a)) [
  | inr (ret, e) ↦ rw (rtmp2hls, e) (tt, tt)
  | inl e ↦
      let ss : Streams = record {
        video_index = or_zero a.best_video;
        audio_index = or_zero a.best_audio;
        ist_tb = ist_tb;
        ost_tb = ost_tb;
      } in
      let (rises, starts) =
        segment_loop-Rises ops ss writer a.last a.trailer_ret a.packets [] start s h in
      rw (rtmp2hls, e) (rw (unset s) at rises, starts)
]
