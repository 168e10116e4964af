-- ===== src/Signature/Match.antt =====
-- is_valid_md5data of ffmpeg/extras.c: which pairs of recordings match.
use lpms.Common.{
  ℕ, zero, suc, ◌+◌, ◌-◌, ◌≤◌, ◌<◌, min, max, ◌≡◌, ◌≢◌, refl, ap, sym, ◌∙◌, arith, true, false,
  List, [], ◌∷◌, length, get_or, take, ◌==◌, Bool-cases, inl, inr,
}
use lpms.Ret.{failed, is_eof, done}
use lpms.Signature.Collect.{Holds, audio_sums, audio_stream, get_matchinfo-Holds, get_matchinfo-ret}
use lpms.Signature.{
  MatchInfo, Demuxed, max_md5_count, get_matchinfo, compare_video_bybuffer, scan, has_match,
  count_matches, compare_ordered, is_valid_md5data, max_amismatch, window_start,
}

-- `xs` is `ys` without `n` of its packets.
pub data Drops : ℕ → List ℕ → List ℕ → Type 0 where
  nil : Drops 0 [] []
  keep : {n : ℕ} {xs ys : List ℕ} (x : ℕ) → Drops n xs ys → Drops n (x ∷ xs) (x ∷ ys)
  skip : {n : ℕ} {xs ys : List ℕ} (y : ℕ) → Drops n xs ys → Drops (suc n) xs (y ∷ ys)

-- The place in `ys` of the packet that stands at `i` in `xs`: at most `n` further on.
record Moved (n : ℕ) (xs ys : List ℕ) (i : ℕ) : Type 0 where
  by : ℕ
  near : by ≤ n
  inside : i + by < length ys
  same : get_or ys (i + by) 0 ≡ get_or xs i 0

Drops-length : {n : ℕ} {xs ys : List ℕ} → Drops n xs ys → length ys ≡ length xs + n
Drops-length nil = omega arith
Drops-length (keep x d) = omega (arith, Drops-length d)
Drops-length (skip y d) = omega (arith, Drops-length d)

get_or-suc : (xs : List ℕ) (x i j : ℕ) → j ≡ suc i → get_or (x ∷ xs) j 0 ≡ get_or xs i 0
get_or-suc xs x i j e = rw e

Drops-Moved : {n : ℕ} {xs ys : List ℕ} → Drops n xs ys → (i : ℕ) → i < length xs → Moved n xs ys i
Drops-Moved nil i h = absurd (omega arith)
Drops-Moved (keep x d) zero h = record {
  by = 0;
  near = omega arith;
  inside = omega arith;
  same = refl;
}
Drops-Moved (keep {ys = ys} x d) (suc i) h =
    let m = Drops-Moved d i (omega arith) in
    record {
      by = m.by;
      near = m.near;
      inside = omega (arith, m.inside);
      same = get_or-suc ys x (i + m.by) (suc i + m.by) (omega arith) ∙ m.same;
    }
Drops-Moved (skip {ys = ys} y d) i h =
    let m = Drops-Moved d i h in
    record {
      by = suc m.by;
      near = omega (arith, m.near);
      inside = omega (arith, m.inside);
      same = get_or-suc ys y (i + m.by) (i + suc m.by) (omega arith) ∙ m.same;
    }

-- A scan finds a sum that stands in its range.
scan_finds :
    (sums : List ℕ) (md5 n j k : ℕ)
    → j ≤ k
    → k < j + n
    → get_or sums k 0 ≡ md5
    → scan sums md5 n j ≡ true
unfolding scan
scan_finds sums md5 zero j k h1 h2 e = absurd (omega arith)
scan_finds sums md5 (suc n) j k h1 h2 e = elim (Bool-cases (j == k)) [
  | inl here ↦ let at : j ≡ k = ground (arith, here) in ground (arith, ap (λ t. get_or sums t 0) at)
  | inr on ↦ ground (arith, on, scan_finds sums md5 n (j + 1) k)
]

get_or-take : (k : ℕ) (xs : List ℕ) (i : ℕ) → i < k → get_or (take k xs) i 0 ≡ get_or xs i 0
get_or-take zero xs i h = elim h [ ]
get_or-take (suc k) [] i h = refl
get_or-take (suc k) (x ∷ xs) zero h = refl
get_or-take (suc k) (x ∷ xs) (suc i) h = get_or-take k xs i (omega arith)

Holds-get_or :
    (info : MatchInfo) (l : List ℕ) (i : ℕ)
    → Holds info l
    → i < length l
    → get_or info.pmd5array i 0 ≡ get_or l i 0
Holds-get_or info l i h lt =
    sym (get_or-take (length l) info.pmd5array i lt) ∙ ap (λ (k : List ℕ). get_or k i 0) h.written

module _ (first second : MatchInfo) (xs ys : List ℕ) (h1 : Holds first xs)
    (h2 : Holds second ys) where
  has_match-Moved :
      (n i : ℕ) → i < length xs → Moved n xs ys i → has_match first second (n + 1) i ≡ true
  unfolding has_match
  has_match-Moved n i lt m =
      scan_finds second.pmd5array (get_or first.pmd5array i 0) _ (window_start i (n + 1)) (i + m.by)
        (omega (arith, m.near)) (omega (arith, m.near, m.inside, h2.count))
        (Holds-get_or second ys (i + m.by) h2 m.inside
          ∙ m.same
          ∙ sym (Holds-get_or first xs i h1 lt))

  count_matches-all :
      (n : ℕ)
      → Drops n xs ys
      → (k i : ℕ) → i + k ≤ length xs
      → count_matches first second (n + 1) k i ≡ k
  unfolding count_matches
  count_matches-all n d zero i h = refl
  count_matches-all n d (suc k) i h =
      let lt : i < length xs = omega arith in
      ground (
        arith,
        has_match-Moved n i lt (Drops-Moved d i lt),
        count_matches-all n d k (i + 1) (omega arith),
      )

  compare_ordered-Drops :
      (n : ℕ) → Drops n xs ys → n ≤ max_amismatch → compare_ordered first second ≡ true
  unfolding compare_ordered
  compare_ordered-Drops n d small =
      let diff : second.apacketcount - first.apacketcount ≡ n =
        omega (arith, h1.count, h2.count, Drops-length d) in
      let all : count_matches first second (n + 1) first.apacketcount 0 ≡ first.apacketcount =
        count_matches-all n d first.apacketcount 0 (omega (arith, h1.count)) in
      rw (diff, all) (ground arith)

Drops-eq : {n : ℕ} {xs ys : List ℕ} → Drops n xs ys → n ≡ 0 → xs ≡ ys
Drops-eq nil e = refl
Drops-eq (keep x d) e = ap (◌∷◌ x) (Drops-eq d e)
Drops-eq (skip y d) e = absurd (omega arith)

Drops-refl : (xs : List ℕ) → Drops 0 xs xs
Drops-refl [] = nil
Drops-refl (x ∷ xs) = keep x (Drops-refl xs)

-- A recording that lost up to ten audio packets, anywhere, matches the whole one, in either order of
-- the arguments.
pub is_valid_md5data-Drops :
    (info1 info2 : MatchInfo) (xs ys : List ℕ) (n : ℕ)
    → Holds info1 xs
    → Holds info2 ys
    → Drops n xs ys
    → n ≤ max_amismatch
    → (is_valid_md5data info1 info2 ≡ true) × (is_valid_md5data info2 info1 ≡ true)
unfolding is_valid_md5data
is_valid_md5data-Drops info1 info2 xs ys zero h1 h2 d small =
    let same = Drops-eq d refl in
    let here = compare_ordered-Drops info1 info2 xs ys h1 h2 0 d small in
    let there =
      compare_ordered-Drops info2 info1 ys xs h2 h1 0 (rw same (Drops-refl ys)) (omega arith) in
    ground (arith, here, there)
is_valid_md5data-Drops info1 info2 xs ys (suc n) h1 h2 d small =
    let less : info1.apacketcount < info2.apacketcount =
      omega (arith, h1.count, h2.count, Drops-length d) in
    ground (arith, less, compare_ordered-Drops info1 info2 xs ys h1 h2 (suc n) d small)

-- No packet of one recording is a packet of the other.
abbrev pub Apart : List ℕ → List ℕ → Type 0
Apart xs ys = (i j : ℕ) → i < length xs → j < length ys → get_or xs i 0 ≢ get_or ys j 0

scan_misses :
    (sums : List ℕ) (md5 n j : ℕ)
    → ((k : ℕ) → j ≤ k → k < j + n → get_or sums k 0 ≢ md5)
    → scan sums md5 n j ≡ false
unfolding scan
scan_misses sums md5 zero j h = refl
scan_misses sums md5 (suc n) j h = ground (
  arith,
  h j (omega arith) (omega arith),
  scan_misses sums md5 n (j + 1) (λ k a b. h k (omega arith) (omega arith)),
)

module _ (first second : MatchInfo) (xs ys : List ℕ) (h1 : Holds first xs)
    (h2 : Holds second ys) where
  has_match-Apart :
      (scope i : ℕ) → Apart xs ys → i < length xs → has_match first second scope i ≡ false
  unfolding has_match
  has_match-Apart scope i apart lt =
      scan_misses second.pmd5array (get_or first.pmd5array i 0) _ (window_start i scope) λ k a b e.
        let inside : k < length ys = omega (arith, h2.count) in
        apart i k lt inside
          (sym (Holds-get_or first xs i h1 lt) ∙ sym e ∙ Holds-get_or second ys k h2 inside)

  count_matches-zero :
      (scope k i : ℕ) → Apart xs ys → i + k ≤ length xs → count_matches first second scope k i ≡ 0
  unfolding count_matches
  count_matches-zero scope zero i apart h = refl
  count_matches-zero scope (suc k) i apart h = ground (
    arith,
    has_match-Apart scope i apart (omega arith),
    count_matches-zero scope k (i + 1) apart (omega arith),
  )

  compare_ordered-Apart :
      Apart xs ys → max_amismatch ≤ length xs → compare_ordered first second ≡ false
  unfolding compare_ordered
  compare_ordered-Apart apart long = ground (
    arith,
    h1.count,
    count_matches-zero (second.apacketcount - first.apacketcount + 1) first.apacketcount 0 apart
        (omega (arith, h1.count)),
  )

-- Two recordings of at least ten audio packets each with no packet in common do not match.
pub is_valid_md5data-Apart :
    (info1 info2 : MatchInfo) (xs ys : List ℕ)
    → Holds info1 xs
    → Holds info2 ys
    → Apart xs ys
    → max_amismatch ≤ length xs
    → max_amismatch ≤ length ys
    → is_valid_md5data info1 info2 ≡ false
unfolding is_valid_md5data
is_valid_md5data-Apart info1 info2 xs ys h1 h2 apart long1 long2 = ground (
  arith,
  compare_ordered-Apart info1 info2 xs ys h1 h2 apart long1,
  compare_ordered-Apart info2 info1 ys xs h2 h1 (λ i j a b e. apart j i b a (sym e)) long2,
)

-- With fewer than ten audio packets in the shorter recording, and at most ten more in the other,
-- any two recordings match, whatever their packets are.
pub is_valid_md5data-short :
    (info1 info2 : MatchInfo)
    → min info1.apacketcount info2.apacketcount < max_amismatch
    → max info1.apacketcount info2.apacketcount
      ≤ min info1.apacketcount info2.apacketcount + max_amismatch
    → is_valid_md5data info1 info2 ≡ true
unfolding is_valid_md5data compare_ordered
is_valid_md5data-short info1 info2 short near = ground arith

-- lpms_compare_video_bybuffer answers 0 for two buffers that demux to their ends, show pictures of
-- one size, and have the same audio up to ten packets that one of them lost (among the first
-- 30000).
pub compare_video_bybuffer-Drops :
    (d1 d2 : Demuxed) (n : ℕ)
    → (failed d1.opened ≡ false) × (failed d2.opened ≡ false)
    → (is_eof d1.last ≡ true) × (is_eof d2.last ≡ true)
    → (get_matchinfo d1).1.width ≡ (get_matchinfo d2).1.width
    → (get_matchinfo d1).1.height ≡ (get_matchinfo d2).1.height
    → Drops n
        (take max_md5_count (audio_sums (audio_stream d1) d1.packets))
        (take max_md5_count (audio_sums (audio_stream d2) d2.packets))
    → n ≤ max_amismatch
    → (compare_video_bybuffer d1 d2 ≡ done) × (compare_video_bybuffer d2 d1 ≡ done)
unfolding compare_video_bybuffer
compare_video_bybuffer-Drops d1 d2 n opened ended w h d small =
    let valid =
      is_valid_md5data-Drops (get_matchinfo d1).1 (get_matchinfo d2).1 _ _ n
        (get_matchinfo-Holds d1 opened.0) (get_matchinfo-Holds d2 opened.1) d small in
    ground
      (arith, valid, get_matchinfo-ret d1 opened.0 ended.0, get_matchinfo-ret d2 opened.1 ended.1)
