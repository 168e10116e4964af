-- ===== src/Transmux/Tests.antt =====
-- Tests and witnesses for transmuxing.
use lpms.Common.{pos, ◌+ℤ◌, ◌-ℤ◌, ◌≡◌, refl, arith, true, List, [], ◌∷◌, set}
use lpms.Media.{Packet}
use lpms.Transmux.{
  Timeline, fresh_line, fresh_lines, set_offset, remember, transmux_line, transmux, transmux_all,
  mark_discontinuity,
}
use lpms.Transmux.Order.{Rises, dts_of, transmux_all-Rises}
use lpms.Samples.{packet}

-- A stream of which the packet at 100, of duration 10, was written last.
abbrev running : Timeline
running = record fresh_line { last_dts = pos 100; last_duration = pos 10 }

abbrev lines : List Timeline
lines = set fresh_lines 0 running

-- The same, with no duration known.
abbrev lines_without_duration : List Timeline
lines_without_duration = set fresh_lines 0 (record running { last_duration = pos 0 })

-- A segment that starts over at 5.
abbrev segment : List Packet
segment = packet 0 (pos 5) (pos 5) ∷ packet 0 (pos 7) (pos 7) ∷ packet 1 (pos 3) (pos 3) ∷ []

joined : dts_of 0 (transmux_all (mark_discontinuity lines) segment).0 ≡ pos 110 ∷ pos 112 ∷ []
unfolding transmux_all transmux transmux_line set_offset remember mark_discontinuity ◌+ℤ◌ ◌-ℤ◌
joined = refl

transmux_all-Rises_example : Rises (pos 100) (dts_of 0 (transmux_all lines segment).0)
transmux_all-Rises_example = transmux_all-Rises segment lines 0 refl (omega arith)

abbrev marked : Timeline
marked = record running { discontinuity = true }
