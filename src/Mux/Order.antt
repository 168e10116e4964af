-- ===== src/Mux/Order.antt =====
-- The order of the timestamps that `mux` writes.
use lpms.Common.{
  ℤ, pos, ◌+ℤ◌, ◌≤ℤ◌, ◌<ℤ◌, int_laws, one, nopts, ◌≡◌, arith, Bool, +ℤ_parts, eq_of_parts,
}
use lpms.Media.{Packet}
use lpms.Mux.{repair_order, middle, least_dts, clamp_dts, fix_ts}

-- The middle value of a late DTS, its PTS and a third value lies between the first two.
pub middle_between : (a b c : ℤ) → a <ℤ b → (a ≤ℤ middle a b c) × (middle a b c ≤ℤ b)
unfolding middle
middle_between a b c h = grind int_laws

-- An `int64_t` timestamp that is set.
abbrev pub IsSet64 : ℤ → Type 0
IsSet64 t = nopts <ℤ t

module _ (ns : Bool) (last : ℤ) (p : Packet) where
  repair_order-dts : nopts ≤ℤ p.pts → IsSet64 p.dts → IsSet64 (repair_order last p).dts
  unfolding repair_order
  repair_order-dts hp hd =
      ground (arith, middle_between p.pts p.dts (last +ℤ one), eq_of_parts p.pts nopts)

  repair_order-ordered :
      IsSet64 p.dts → IsSet64 p.pts → (repair_order last p).dts ≤ℤ (repair_order last p).pts
  unfolding repair_order
  repair_order-ordered hd hp = ground (arith, middle_between p.pts p.dts (last +ℤ one))

  least_dts-ge : last ≤ℤ least_dts ns last
  unfolding least_dts
  least_dts-ge = ground (arith, +ℤ_parts last one, +ℤ_parts last (pos 0))

  clamp_dts-IsSet64 : nopts ≤ℤ last → IsSet64 p.dts → IsSet64 (clamp_dts ns last p).dts
  unfolding clamp_dts
  clamp_dts-IsSet64 hl hd = ground (arith, least_dts-ge)

  clamp_dts-least : IsSet64 last → IsSet64 p.dts → least_dts ns last ≤ℤ (clamp_dts ns last p).dts
  unfolding clamp_dts
  clamp_dts-least hl hd = ground (arith, least_dts-ge)

  clamp_dts-ordered : p.dts ≤ℤ p.pts → (clamp_dts ns last p).dts ≤ℤ (clamp_dts ns last p).pts
  unfolding clamp_dts
  clamp_dts-ordered h = ground (arith, least_dts-ge)

module _ (ns : Bool) (last : ℤ) (p : Packet) where
  pub fix_ts-IsSet64 :
      nopts ≤ℤ last → nopts ≤ℤ p.pts → IsSet64 p.dts → IsSet64 (fix_ts ns last p).dts
  unfolding fix_ts
  fix_ts-IsSet64 hl hp hd =
      clamp_dts-IsSet64 ns last (repair_order last p) hl (repair_order-dts ns last p hp hd)

  pub fix_ts-least :
      IsSet64 last → nopts ≤ℤ p.pts → IsSet64 p.dts → least_dts ns last ≤ℤ (fix_ts ns last p).dts
  unfolding fix_ts
  fix_ts-least hl hp hd =
      clamp_dts-least ns last (repair_order last p) hl (repair_order-dts ns last p hp hd)

  -- A packet with both timestamps set goes out with its DTS no later than its PTS.
  pub fix_ts-ordered :
      IsSet64 p.dts → IsSet64 p.pts → (fix_ts ns last p).dts ≤ℤ (fix_ts ns last p).pts
  unfolding fix_ts
  fix_ts-ordered hd hp =
      clamp_dts-ordered ns last (repair_order last p) (repair_order-ordered ns last p hd hp)

  -- A packet that is in order already goes out as it came.
  pub fix_ts-keeps :
      IsSet64 last → p.dts ≤ℤ p.pts → least_dts ns last ≤ℤ p.dts → fix_ts ns last p ≡ p
  unfolding fix_ts clamp_dts repair_order
  fix_ts-keeps hl ho hd = ground arith
