-- ===== src/Signature/File.antt =====
-- lpms_compare_video_bypath of ffmpeg/extras.c: the two files are read into memory, and compared there.
use lpms.Common.{
  ℕ, zero, suc, ◌+◌, ◌-◌, ◌*◌, ◌/◌, ◌%◌, ◌^◌, Bool, not, ◌&&◌, ◌||◌, Option, none, some,
  if◌then◌else◌, ltb,
}
use lpms.Ret.{Ret, err, enomem}
use lpms.Signature.{Demuxed, compare_video_bybuffer}

-- AV_INPUT_BUFFER_PADDING_SIZE
abbrev pub padding : ℕ
padding = 64

-- The distance of the floats around a number of less than 32 bits: 24 bits are kept.
unfoldable pub ulp : ℕ → ℕ → ℕ → ℕ
ulp zero n u = u
ulp (suc fuel) n u = let rest = ulp fuel n (2 * u) in if ltb n (2 ^ 24 * u) then u else rest

-- To the nearest multiple, and from the middle to the even one.
unfoldable pub round_to : ℕ → ℕ → ℕ
round_to u n =
    let q = n / u in
    let r = n % u in
    if ltb (2 * r) u then q * u else if ltb u (2 * r) then (q + 1) * u else (q + q % 2) * u

-- The conversion of an int to float.
unfoldable pub to_float : ℕ → ℕ
to_float n = round_to (ulp 7 n 1) n

-- ceil(n / (float) padding) * padding + padding. The division by 64 is exact.
unfoldable pub padded_length : ℕ → ℕ
padded_length n = (to_float n + (padding - 1)) / padding * padding + padding

-- What the system answers for a path: whether it is empty, fopen in get_filebuffer and in get_filesize,
-- ftell, and whether memory is found and the whole file is read.
pub record File : Type 0 where
  pub is_unnamed : Bool
  pub opens : Bool
  pub opens_again : Bool
  pub size : ℕ
  pub allocs : Bool
  pub is_read : Bool

-- The size is cut to an int; of a negative one only that it is not positive matters.
unfoldable pub get_filesize : File → ℕ
get_filesize f = let n = f.size % 2 ^ 32 in if f.opens_again && ltb n (2 ^ 31) then n else 0

-- A buffer, with the number of bytes that were read into it: what get_filesize gives.
pub record FileBuffer : Type 0 where
  pub length : ℕ
  pub allocated : ℕ

unfoldable pub get_filebuffer : File → Option FileBuffer
get_filebuffer f =
    let n = get_filesize f in
    if f.is_unnamed || not f.opens
    then none
    else if ltb 0 n && f.allocs && f.is_read
    then some (record { length = n; allocated = padded_length n })
    else none

-- `d1` and `d2` are what the demuxer gives for the buffers. Whatever is wrong with a file, the result
-- says that memory is missing.
unfoldable pub compare_video_bypath : File → File → Demuxed → Demuxed → Ret
compare_video_bypath f1 f2 d1 d2 = elim (get_filebuffer f1) [
  | none ↦ err enomem
  | some b1 ↦ elim (get_filebuffer f2) [
    | none ↦ err enomem
    | some b2 ↦ compare_video_bybuffer d1 d2
  ]
]
