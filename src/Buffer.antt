-- ===== src/Buffer.antt =====
-- read_packet of ffmpeg/extras.c, by which libav reads a video in memory, and the reads until it
-- says that the buffer is at its end.
pub mod ToEnd
mod Tests
use lpms.Common.{
  ℕ, zero, suc, ◌+◌, min, Option, none, some, List, [], ◌∷◌, ◌++◌, if◌then◌else◌, ◌==◌, length,
  take, drop,
}
use lpms.Ret.{Ret, ok, err, eof, is_eof}

-- struct buffer_data: the bytes from `ptr` on, `size` of them.
pub record BufferData : Type 0 where
  pub bytes : List ℕ

-- The result, the bytes that are copied to `buf`, and the buffer.
unfoldable pub read_packet : BufferData → ℕ → Ret × List ℕ × BufferData
read_packet bd buf_size =
    let n = min buf_size (length bd.bytes) in
    if n == 0
    then (err eof, [], bd)
    else (ok n, take n bd.bytes, record { bytes = drop n bd.bytes })

-- How many bytes the caller finds in `buf`: what the result says.
abbrev pub count_of : Ret → ℕ
count_of (ok n) = n
count_of (err c) = 0

-- Reads until the end, the `i`-th of at most `size i` bytes; `none` means that the fuel ran out.
unfoldable pub read_to_end : ℕ → (ℕ → ℕ) → ℕ → BufferData → Option (List ℕ)
read_to_end zero size i bd = none
read_to_end (suc fuel) size i bd =
    let (ret, got, bd') = read_packet bd (size i) in
    let rest = read_to_end fuel size (i + 1) bd' in
    if is_eof ret
    then some []
    else elim rest [ none ↦ none | some bytes ↦ some (take (count_of ret) got ++ bytes) ]
