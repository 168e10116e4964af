-- ===== src/Transmux/Offset.antt =====
-- The offsets by which transmuxing joins its inputs.
use lpms.Common.{
  ℕ, zero, suc, ℤ, pos, ◌+ℤ◌, ◌-ℤ◌, ◌≤ℤ◌, ◌<ℤ◌, nopts, ◌≡◌, refl, ◌∙◌, arith, true, false, none,
  some, List, [], ◌∷◌, ◌<◌, length, lt→ltb, +ℤ_parts, parts_of_eq, int_laws,
}
use lpms.Media.{Packet}
use lpms.Transmux.{
  Timeline, max_output_size, set_offset, remember, transmux_line, transmux, handle_line,
  handle_discontinuity, mark_discontinuity,
}
use lpms.Transmux.Order.{line_of}

get_or-mark :
    (ts : List Timeline) (s : ℕ)
    → s < length ts
    → line_of s (mark_discontinuity ts) ≡ record (line_of s ts) { discontinuity = true }
unfolding mark_discontinuity
get_or-mark [] s h = absurd (omega arith)
get_or-mark (t ∷ ts) zero h = refl
get_or-mark (t ∷ ts) (suc s) h = get_or-mark ts s (omega arith)

-- The end of what was written to a stream: its last DTS and the duration of that packet.
abbrev pub end_of : Timeline → ℤ
end_of t = t.last_dts +ℤ t.last_duration

add-sub : (d e : ℤ) → d +ℤ (e -ℤ d) ≡ e
add-sub d e = omega int_laws

join_line :
    (t : Timeline) (p : Packet)
    → pos 0 <ℤ t.last_duration
    → (transmux_line (record t { discontinuity = true }) p).0
      ≡ some (record p { pts = p.pts +ℤ (end_of t -ℤ p.dts); dts = end_of t })
unfolding transmux_line set_offset
join_line t p h = ground (arith, add-sub p.dts (end_of t), +ℤ_parts t.last_dts t.last_duration)

drop_line :
    (t : Timeline) (p : Packet)
    → t.last_duration ≡ pos 0
    → pos 0 ≤ℤ t.last_dts
    → (transmux_line (record t { discontinuity = true }) p).0 ≡ none
unfolding transmux_line set_offset
drop_line t p h k = ground (arith, add-sub p.dts (end_of t), +ℤ_parts t.last_dts t.last_duration)

transmux-out :
    (ts : List Timeline) (p : Packet)
    → p.stream_index < max_output_size
    → (transmux ts p).0 ≡ (transmux_line (line_of p.stream_index ts) p).0
unfolding transmux
transmux-out ts p h = rw (lt→ltb p.stream_index max_output_size h)

module _ (ts : List Timeline) (p : Packet) (sized : length ts ≡ max_output_size)
    (near : p.stream_index < max_output_size) where
  -- After lpms_transcode_discontinuity, the first packet of each stream whose last packet had a
  -- duration follows on: its DTS is the last DTS and that duration, its PTS moves along, and the
  -- rest of it is unchanged.
  pub discontinuity_joins :
      pos 0 <ℤ (line_of p.stream_index ts).last_duration
      → (transmux (mark_discontinuity ts) p).0
        ≡ some (record p {
          pts = p.pts +ℤ (end_of (line_of p.stream_index ts) -ℤ p.dts);
          dts = end_of (line_of p.stream_index ts);
        })
  discontinuity_joins h =
      transmux-out (mark_discontinuity ts) p near
      ∙ rw (get_or-mark ts p.stream_index (omega arith)) (join_line (line_of p.stream_index ts) p h)

  -- If no packet of the stream ever had a duration, and its last DTS is not negative, the first
  -- packet after a discontinuity is dropped, whatever its timestamps.
  pub discontinuity_drops :
      (line_of p.stream_index ts).last_duration ≡ pos 0
      → pos 0 ≤ℤ (line_of p.stream_index ts).last_dts
      → (transmux (mark_discontinuity ts) p).0 ≡ none
  discontinuity_drops h k =
      transmux-out (mark_discontinuity ts) p near
      ∙ rw (get_or-mark ts p.stream_index (omega arith))
          (drop_line (line_of p.stream_index ts) p h k)

-- Where the loop writes a packet, handle_discontinuity would give the same packet and state.
pub transmux-handle :
    (ts : List Timeline) (p q : Packet)
    → (transmux ts p).0 ≡ some q
    → handle_discontinuity ts p ≡ (q, (transmux ts p).1)
unfolding transmux handle_discontinuity transmux_line handle_line
transmux-handle ts p q e = ground arith

line_shift :
    (t : Timeline) (p q : Packet)
    → (transmux_line t p).0 ≡ some q
    → let t' = (transmux_line t p).1 in
      (q.dts ≡ p.dts +ℤ t'.dts_diff)
      × (q.pts ≡ p.pts +ℤ t'.dts_diff)
      × (t'.discontinuity ≡ false)
      × ((t.discontinuity ≡ false) → t'.dts_diff ≡ t.dts_diff)
unfolding transmux_line remember set_offset
line_shift t p q e = ground arith

sub-shift : (a b d : ℤ) → b +ℤ d -ℤ (a +ℤ d) ≡ b -ℤ a
sub-shift a b d = omega int_laws

-- The offset is fixed at a discontinuity and then stays: two packets of a stream that are written
-- one after the other, with none marked between, keep their distance in DTS and in PTS.
pub transmux_line-distance :
    (t : Timeline) (p1 p2 q1 q2 : Packet)
    → (transmux_line t p1).0 ≡ some q1
    → (transmux_line (transmux_line t p1).1 p2).0 ≡ some q2
    → (q2.dts -ℤ q1.dts ≡ p2.dts -ℤ p1.dts) × (q2.pts -ℤ q1.pts ≡ p2.pts -ℤ p1.pts)
transmux_line-distance t p1 p2 q1 q2 e1 e2 =
    let s1 = line_shift t p1 q1 e1 in
    let s2 = line_shift (transmux_line t p1).1 p2 q2 e2 in
    let d = s2.3 s1.2 in
    (
      rw (s1.0, s2.0, d) (sub-shift p1.dts p2.dts (transmux_line t p1).1.dts_diff),
      rw (s1.1, s2.1, d) (sub-shift p1.pts p2.pts (transmux_line t p1).1.dts_diff),
    )

-- A packet without a PTS gets one: where the offset of its stream is negative, a PTS below the
-- least 64-bit number.
pub transmux_line-nopts :
    (t : Timeline) (p q : Packet)
    → (transmux_line t p).0 ≡ some q
    → p.pts ≡ nopts
    → (transmux_line t p).1.dts_diff <ℤ pos 0
    → q.pts <ℤ nopts
transmux_line-nopts t p q e none_set below =
    let s = line_shift t p q e in
    omega (
      arith,
      parts_of_eq q.pts (p.pts +ℤ (transmux_line t p).1.dts_diff) s.1,
      parts_of_eq p.pts nopts none_set,
      +ℤ_parts p.pts (transmux_line t p).1.dts_diff,
    )
