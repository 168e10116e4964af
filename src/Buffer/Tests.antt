-- ===== src/Buffer/Tests.antt =====
-- Tests and witnesses for the reads of a buffer.
use lpms.Common.{◌+◌, ◌≡◌, refl, none, some, [], ◌∷◌}
use lpms.Buffer.{BufferData, read_packet, read_to_end}

abbrev five : BufferData
five = record { bytes = 7 ∷ 0 ∷ 7 ∷ 1 ∷ 9 ∷ [] }

-- Three bytes, then the two that are left, then the end.
three_reads : read_to_end 3 (λ i. 3 + i) 0 five ≡ some five.bytes
unfolding read_to_end read_packet
three_reads = refl

two_reads_are_too_few : read_to_end 2 (λ i. 3) 0 five ≡ none
unfolding read_to_end read_packet
two_reads_are_too_few = refl
