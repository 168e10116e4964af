-- ===== src/Transmux/Order.antt =====
-- The order of the DTS that transmuxing writes.
use lpms.Common.{
  ℕ, ℤ, pos, ◌<ℤ◌, ◌≡◌, ◌⊎◌, refl, ap, ◌∙◌, arith, true, false, Option, none, some, List, [], ◌∷◌,
  if◌then◌else◌, ltb, ◌==◌, ◌<◌, length, get_or, length-set, get_or-set_self, get_or-set_ne,
  Bool-cases, inl, inr,
}
use lpms.Media.{Packet}
use lpms.Transmux.{
  Timeline, max_output_size, fresh_line, set_offset, shift, remember, transmux_line, transmux, emit,
  transmux_all,
}

-- The DTS of the packets of one stream, oldest first.
abbrev pub dts_of : ℕ → List Packet → List ℤ
dts_of s [] = []
dts_of s (p ∷ ps) = if p.stream_index == s then p.dts ∷ dts_of s ps else dts_of s ps

-- From a DTS that is not negative on, each is past the one before.
abbrev pub Rises : ℤ → List ℤ → Type 0
Rises last [] = Unit {0}
Rises last (d ∷ ds) = ((last <ℤ pos 0) ⊎ (last <ℤ d)) × Rises d ds

abbrev pub line_of : ℕ → List Timeline → Timeline
line_of s ts = get_or ts s fresh_line

-- The packet of a stream goes out shifted, past the last DTS if that is not negative, and is then
-- the last; or it is dropped, and the last DTS stays.
transmux_line-cases :
    (t : Timeline) (p : Packet)
    → let (out, t') = transmux_line t p in
      let q = shift (set_offset t p.dts) p in
      ((out ≡ none) × (t'.last_dts ≡ t.last_dts))
      ⊎ ((out ≡ some q) × (t'.last_dts ≡ q.dts) × ((t.last_dts <ℤ pos 0) ⊎ (t.last_dts <ℤ q.dts)))
unfolding transmux_line set_offset remember
transmux_line-cases t p = ground arith

-- The streams other than that of the packet keep their state.
transmux-other :
    (ts : List Timeline) (p : Packet) (s : ℕ)
    → (p.stream_index == s) ≡ false
    → line_of s (transmux ts p).1 ≡ line_of s ts
unfolding transmux
transmux-other ts p s h = ground (
  arith,
  get_or-set_ne ts p.stream_index s (transmux_line (get_or ts p.stream_index fresh_line) p).1
      fresh_line,
)

transmux-same :
    (ts : List Timeline) (p : Packet) (s : ℕ)
    → length ts ≡ max_output_size
    → s < max_output_size
    → p.stream_index ≡ s
    → let (out, t) = transmux_line (line_of s ts) p in
      ((transmux ts p).0 ≡ out) × (line_of s (transmux ts p).1 ≡ t)
unfolding transmux
transmux-same ts p s hl hs e =
    rw e
      (ground (arith, get_or-set_self ts s (transmux_line (get_or ts s fresh_line) p).1 fresh_line))

transmux-length : (ts : List Timeline) (p : Packet) → length (transmux ts p).1 ≡ length ts
unfolding transmux
transmux-length ts p =
    ground (
      arith,
      length-set ts p.stream_index (transmux_line (get_or ts p.stream_index fresh_line) p).1,
    )

transmux-index :
    (ts : List Timeline) (p : Packet)
    → ((transmux ts p).0 ≡ none)
      ⊎ ((q : Packet) × ((transmux ts p).0 ≡ some q) × (q.stream_index ≡ p.stream_index))
unfolding transmux
transmux-index ts p = elim (Bool-cases (ltb p.stream_index max_output_size)) [
  | inr far ↦ rw far (inr (p, refl, refl))
  | inl near ↦ rw near (elim (transmux_line-cases (get_or ts p.stream_index fresh_line) p) [
    | inl dropped ↦ inl dropped.0
    | inr kept ↦ inr (_, kept.0, refl)
  ])
]

-- What one packet may do to a stream: nothing, or write a DTS that is then the last.
data Wrote (s : ℕ) (out : Option Packet) (last last' : ℤ) : Type 0 where
  dropped : out ≡ none → last' ≡ last → Wrote s out last last'
  elsewhere :
      (q : Packet)
      → out ≡ some q
      → (q.stream_index == s) ≡ false
      → last' ≡ last
      → Wrote s out last last'
  here :
      (q : Packet)
      → out ≡ some q
      → (q.stream_index == s) ≡ true
      → last' ≡ q.dts
      → (last <ℤ pos 0) ⊎ (last <ℤ q.dts)
      → Wrote s out last last'

emit-Rises :
    (s : ℕ) (out : Option Packet) (last last' : ℤ) (rest : List Packet)
    → Wrote s out last last'
    → Rises last' (dts_of s rest)
    → Rises last (dts_of s (emit out rest))
emit-Rises s out last last' rest (dropped e l) h = rw (e, ← l) h
emit-Rises s out last last' rest (elsewhere q e o l) h = rw (e, o, ← l) h
emit-Rises s out last last' rest (here q e o l past) h = rw (e, o) (past, rw l at h)

transmux-Wrote :
    (ts : List Timeline) (p : Packet) (s : ℕ)
    → length ts ≡ max_output_size
    → s < max_output_size
    → Wrote s (transmux ts p).0 (line_of s ts).last_dts (line_of s (transmux ts p).1).last_dts
transmux-Wrote ts p s hl hs = elim (Bool-cases (p.stream_index == s)) [
  | inr other ↦
      let keep = ap (λ (t : Timeline). t.last_dts) (transmux-other ts p s other) in
      elim (transmux-index ts p) [
        | inl gone ↦ dropped gone keep
        | inr (q, out, at) ↦ elsewhere q out (rw at other) keep
      ]
  | inl mine ↦
      let same = transmux-same ts p s hl hs (ground (arith, mine)) in
      let last = ap (λ (t : Timeline). t.last_dts) same.1 in
      elim (transmux_line-cases (line_of s ts) p) [
        | inl (gone, l) ↦ dropped (same.0 ∙ gone) (last ∙ l)
        | inr (out, l, past) ↦ here _ (same.0 ∙ out) mine (last ∙ l) past
      ]
]

-- However the inputs are cut and whatever their offsets, the DTS written to each of the first ten
-- streams by a segment rises strictly from the last one on, once that is not negative.
pub transmux_all-Rises :
    (ps : List Packet) (ts : List Timeline) (s : ℕ)
    → length ts ≡ max_output_size
    → s < max_output_size
    → Rises (line_of s ts).last_dts (dts_of s (transmux_all ts ps).0)
unfolding transmux_all
transmux_all-Rises [] ts s hl hs = tt
transmux_all-Rises (p ∷ ps) ts s hl hs =
    emit-Rises s (transmux ts p).0 _ _ (transmux_all (transmux ts p).1 ps).0
      (transmux-Wrote ts p s hl hs)
      (transmux_all-Rises ps (transmux ts p).1 s (transmux-length ts p ∙ hl) hs)
