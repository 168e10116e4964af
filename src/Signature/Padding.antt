-- ===== src/Signature/Padding.antt =====
-- The buffer that a file is read into.
use lpms.Common.{ℕ, ◌+◌, ◌*◌, ◌/◌, ◌%◌, ◌^◌, ◌≤◌, ◌<◌, ◌≡◌, ◌⊎◌, if◌then◌else◌, ltb, arith, some}
use lpms.Signature.File.{
  padding, ulp, round_to, to_float, padded_length, get_filesize, File, FileBuffer, get_filebuffer,
}

abbrev IsUlp : ℕ → Type 0
IsUlp u = (u ≡ 1) ⊎ (u ≡ 2) ⊎ (u ≡ 4) ⊎ (u ≡ 8) ⊎ (u ≡ 16) ⊎ (u ≡ 32) ⊎ (u ≡ 64) ⊎ (u ≡ 128)

ulp-IsUlp : (n : ℕ) → IsUlp (ulp 7 n 1)
unfolding ulp
ulp-IsUlp n = ground arith

-- A quotient and a remainder, rounded.
round_near :
    (u q r : ℕ)
    → r < u
    → u ≤ 128
    → q * u + r
      ≤ (if ltb (2 * r) u then q * u else if ltb u (2 * r) then (q + 1) * u else (q + q % 2) * u)
        + 64
round_near u q r h k = ground arith

ulp-bounded : (n : ℕ) → (0 < ulp 7 n 1) × (ulp 7 n 1 ≤ 128)
ulp-bounded n = ground (arith, ulp-IsUlp n)

to_float-near : (n : ℕ) → n ≤ to_float n + 64
unfolding to_float round_to
to_float-near n =
    let u = ulp 7 n 1 in
    let (some_u, few) = ulp-bounded n in
    let less : n % u < u = omega arith in
    let near : n / u * u + n % u ≤ round_to u n + 64 = round_near u (n / u) (n % u) less few in
    omega arith

to_float-exact : (n : ℕ) → n < 2 ^ 24 → to_float n ≡ n
unfolding to_float round_to ulp
to_float-exact n h = ground (arith, h)

padded_up : (m : ℕ) → m ≤ (m + 63) / 64 * 64
padded_up m = omega arith

padded_length-Fits : (n : ℕ) → (n ≤ padded_length n) × (n < 2 ^ 24 → n + 64 ≤ padded_length n)
unfolding padded_length
padded_length-Fits n =
    let near = to_float-near n in
    let up = padded_up (to_float n) in
    let exact = to_float-exact n in (omega arith, λ h. let e = exact h in omega arith)

-- The buffer that a file is read into holds as many bytes as are read at least, whatever the conversion
-- to float makes of their number; all of a file below 2 GiB is read; and for a file below 16 MiB the
-- buffer has all the padding after it that libav asks for.
pub get_filebuffer-Fits :
    (f : File) (b : FileBuffer)
    → get_filebuffer f ≡ some b
    → (b.length ≤ b.allocated)
      × (f.size < 2 ^ 31 → b.length ≡ f.size)
      × (f.size < 2 ^ 24 → f.size + padding ≤ b.allocated)
unfolding get_filebuffer get_filesize
get_filebuffer-Fits f b e = ground (arith, e, padded_length-Fits (get_filesize f))
