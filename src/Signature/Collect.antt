-- ===== src/Signature/Collect.antt =====
-- The growing array of MD5 sums in get_matchinfo of ffmpeg/extras.c.
use Prim.Native.Nat.{bit_xor}
use mathlib.Core.List.{append_assoc, append-nil}
use lpms.Common.{
  ℕ, zero, suc, ◌+◌, ◌-◌, ◌≤◌, ◌<◌, ◌≡◌, refl, ap, sym, ◌∙◌, arith, true, false, ◌&&◌, Option, none,
  some, List, [], ◌∷◌, ◌++◌, length, take, set, replicate, if◌then◌else◌, ltb, length-append,
  length-set, length-take, length-replicate, Bool-cases, inl, inr,
}
use lpms.Ret.{failed, is_eof, done}
use lpms.Signature.{
  MatchInfo, empty_info, PacketInfo, StreamInfo, Demuxed, inc_md5_count, max_md5_count, grow,
  put_md5, add_md5, is_audio_packet, add_packet, add_packets, scan_streams, get_matchinfo, to_u64,
}

-- The sums of the audio packets, in order.
abbrev pub audio_sums : Option ℕ → List PacketInfo → List ℕ
audio_sums a [] = []
audio_sums a (p ∷ ps) = if is_audio_packet a p then p.md5 ∷ audio_sums a ps else audio_sums a ps

-- The array is as large as its size says, the sums written are in front, and no more than fit.
pub record Holds (info : MatchInfo) (l : List ℕ) : Type 0 where
  pub count : info.apacketcount ≡ length l
  pub allocated : length info.pmd5array ≡ info.md5allocsize
  pub fits : length l ≤ info.md5allocsize
  pub bounded : length l ≤ max_md5_count
  pub written : take (length l) info.pmd5array ≡ l

take-set : (xs : List ℕ) (n m : ℕ) → n < length xs → take (suc n) (set xs n m) ≡ take n xs ++ m ∷ []
take-set [] n m h = absurd (omega arith)
take-set (x ∷ xs) zero m h = refl
take-set (x ∷ xs) (suc n) m h = ap (◌∷◌ x) (take-set xs n m (omega arith))

take-grown :
    (xs ys : List ℕ) (n a : ℕ) → n ≤ a → a ≡ length xs → take n (take a xs ++ ys) ≡ take n xs
take-grown xs ys zero a h e = refl
take-grown xs ys (suc n) zero h e = absurd (omega arith)
take-grown [] ys (suc n) (suc a) h e = absurd (omega arith)
take-grown (x ∷ xs) ys (suc n) (suc a) h e =
    ap (◌∷◌ x) (take-grown xs ys n a (omega arith) (omega arith))

module _ (info : MatchInfo) (l : List ℕ) where
  -- With room for one more, a sum goes behind those that are there.
  put_md5-Holds :
      (m : ℕ)
      → info.apacketcount ≡ suc (length l)
      → length info.pmd5array ≡ info.md5allocsize
      → length l < info.md5allocsize
      → length l < max_md5_count
      → take (length l) info.pmd5array ≡ l
      → Holds (put_md5 m info) (l ++ m ∷ [])
  unfolding put_md5
  put_md5-Holds m hc ha hf hb hw =
      let n : info.apacketcount - 1 ≡ length l = omega arith in
      let len : length (l ++ m ∷ []) ≡ suc (length l) = omega (arith, length-append l (m ∷ [])) in
      record {
        count = hc ∙ sym len;
        allocated = length-set info.pmd5array (info.apacketcount - 1) m ∙ ha;
        fits = omega (arith, len);
        bounded = omega (arith, len);
        written =
            rw (len, n)
              (take-set info.pmd5array (length l) m (omega arith) ∙ ap (λ k. k ++ m ∷ []) hw);
      }

grow-sizes :
    (info : MatchInfo)
    → length info.pmd5array ≡ info.md5allocsize
    → length (grow info).pmd5array ≡ (grow info).md5allocsize
unfolding grow
grow-sizes info h = omega (
  arith,
  length-append (take info.md5allocsize info.pmd5array) (replicate inc_md5_count 0),
  length-take info.md5allocsize info.pmd5array,
  length-replicate {A = ℕ} inc_md5_count 0,
)

add_md5-Holds :
    (m : ℕ) (info : MatchInfo) (l : List ℕ)
    → length l < max_md5_count
    → Holds info l
    → Holds (add_md5 m info) (l ++ m ∷ [])
unfolding add_md5 grow
add_md5-Holds m info l hb h = elim (Bool-cases (ltb info.md5allocsize (info.apacketcount + 1))) [
  | inl full ↦ rw full (
      put_md5-Holds _ l m (omega (arith, h.count)) (grow-sizes info h.allocated)
        (omega (arith, h.fits)) hb
        (take-grown info.pmd5array (replicate inc_md5_count 0) (length l) info.md5allocsize h.fits
            (sym h.allocated)
          ∙ h.written))
  | inr room ↦ rw room (
      put_md5-Holds _ l m (omega (arith, h.count)) h.allocated (ground (arith, h.count, h.fits)) hb
        h.written)
]

take_exact : (n : ℕ) (l r : List ℕ) → length l ≡ n → take n (l ++ r) ≡ l
take_exact zero [] r e = refl
take_exact zero (x ∷ l) r e = absurd (omega arith)
take_exact (suc n) [] r e = absurd (omega arith)
take_exact (suc n) (x ∷ l) r e = ap (◌∷◌ x) (take_exact n l r (omega arith))

take_all : (n : ℕ) (l : List ℕ) → length l ≤ n → take n l ≡ l
take_all zero [] h = refl
take_all zero (x ∷ l) h = absurd (omega arith)
take_all (suc n) [] h = refl
take_all (suc n) (x ∷ l) h = ap (◌∷◌ x) (take_all n l (omega arith))

-- One packet: its sum is kept if it is audio and there is room below the limit.
add_packet-Holds :
    (a : Option ℕ) (p : PacketInfo) (info : MatchInfo) (l : List ℕ)
    → Holds info l
    → Holds
        (add_packet a p info)
        (if is_audio_packet a p && ltb (length l) max_md5_count then l ++ p.md5 ∷ [] else l)
unfolding add_packet
add_packet-Holds a p info l h =
    rw h.count (elim (Bool-cases (is_audio_packet a p && ltb (length l) max_md5_count)) [
      | inl keep ↦ rw keep (add_md5-Holds p.md5 _ l (ground (arith, keep)) same)
      | inr skip ↦ rw skip same
    ])
  where
    counted : MatchInfo
    counted = record info {
      packetcount = info.packetcount + 1;
      timestamp = bit_xor info.timestamp (to_u64 p.pts);
      apacketcount = length l;
    }

    same : Holds counted l
    same = record {
      count = refl;
      allocated = h.allocated;
      fits = h.fits;
      bounded = h.bounded;
      written = h.written;
    }

add_packets-Holds :
    (a : Option ℕ) (ps : List PacketInfo) (info : MatchInfo) (l : List ℕ)
    → Holds info l
    → Holds (add_packets a ps info) (take max_md5_count (l ++ audio_sums a ps))
unfolding add_packets
add_packets-Holds a [] info l h = rw (append-nil, take_all max_md5_count l h.bounded) h
add_packets-Holds a (p ∷ ps) info l h = elim (Bool-cases (is_audio_packet a p)) [
  | inr other ↦
      rw other (
        add_packets-Holds a ps (add_packet a p info) l
          (rw other at (add_packet-Holds a p info l h)))
  | inl sound ↦ elim (Bool-cases (ltb (length l) max_md5_count)) [
    | inl room ↦
        rw (sound, ← append_assoc l (p.md5 ∷ []) (audio_sums a ps))
          (add_packets-Holds a ps (add_packet a p info) (l ++ p.md5 ∷ [])
            (rw (sound, room) at (add_packet-Holds a p info l h)))
    | inr full ↦
        let len : length l ≡ max_md5_count = ground (arith, full, h.bounded) in
        rw
          (
            sound,
            take_exact max_md5_count l (p.md5 ∷ audio_sums a ps) len,
            ← take_exact max_md5_count l (audio_sums a ps) len,
          )
          (add_packets-Holds a ps (add_packet a p info) l
            (rw (sound, full) at (add_packet-Holds a p info l h)))
  ]
]

scan_streams-Holds :
    (i : ℕ) (ss : List StreamInfo) (info : MatchInfo) (a : Option ℕ)
    → Holds info []
    → Holds (scan_streams i ss info a).0 []
unfolding scan_streams
scan_streams-Holds i [] info a h = h
scan_streams-Holds i (s ∷ ss) info a h = ground (
  arith,
  scan_streams-Holds (suc i) ss
      (record info { width = s.width; height = s.height; bit_rate = s.bit_rate }) a
      (record {
        count = h.count;
        allocated = h.allocated;
        fits = h.fits;
        bounded = h.bounded;
        written = h.written;
      }),
  scan_streams-Holds (suc i) ss info (some i) h,
  scan_streams-Holds (suc i) ss info a h,
)

empty-Holds : Holds empty_info []
empty-Holds = record {
  count = refl;
  allocated = refl;
  fits = omega arith;
  bounded = omega arith;
  written = refl;
}

-- The audio stream that get_matchinfo picks.
abbrev pub audio_stream : Demuxed → Option ℕ
audio_stream d = (scan_streams 0 d.streams empty_info none).1

-- After get_matchinfo, the array of sums holds exactly the sums of the first 30000 audio packets in
-- order (fewer, if there are fewer), their number is counted, and the array was always large enough:
-- it has the allocated size, which the sums do not exceed.
pub get_matchinfo-Holds :
    (d : Demuxed)
    → failed d.opened ≡ false
    → Holds (get_matchinfo d).1 (take max_md5_count (audio_sums (audio_stream d) d.packets))
unfolding get_matchinfo
get_matchinfo-Holds d h = rw h (
    add_packets-Holds (audio_stream d) d.packets (scan_streams 0 d.streams empty_info none).0 []
      (scan_streams-Holds 0 d.streams empty_info none empty-Holds))

pub get_matchinfo-ret :
    (d : Demuxed) → failed d.opened ≡ false → is_eof d.last ≡ true → (get_matchinfo d).0 ≡ done
unfolding get_matchinfo
get_matchinfo-ret d h e = ground arith
