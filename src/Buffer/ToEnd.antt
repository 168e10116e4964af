-- ===== src/Buffer/ToEnd.antt =====
-- All of the buffer is read, in order.
use lpms.Common.{ℕ, min, length}
use lpms.Buffer.{BufferData}

module _ (bd : BufferData) (size : ℕ) where
  abbrev part : ℕ
  part = min size (length bd.bytes)
