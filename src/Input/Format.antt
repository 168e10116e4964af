-- ===== src/Input/Format.antt =====
-- hw2pixfmt and get_hw_format of ffmpeg/decoder.c.
use lpms.Common.{ℕ, ◌≡◌, ◌⊎◌, arith, true, Option, none, some, List, [], ◌∷◌}
use lpms.Media.{HwType, eq_hw}
use lpms.Input.{HwConfig, hw2pixfmt, find_format, get_hw_format}

-- Whether a codec has a config for a device of the type, with the format.
abbrev pub Offers : List HwConfig → HwType → ℕ → Type 0
Offers [] hw n = ⊥
Offers (c ∷ cs) hw n =
    ((c.by_device ≡ true) × (eq_hw c.device_type hw ≡ true) × (c.pix_fmt ≡ n)) ⊎ Offers cs hw n

abbrev pub Has : List ℕ → ℕ → Type 0
Has [] n = ⊥
Has (p ∷ ps) n = (p ≡ n) ⊎ Has ps n

hw2pixfmt-Offers :
    (cs : List HwConfig) (hw : HwType) (n : ℕ) → hw2pixfmt cs hw ≡ some n → Offers cs hw n
unfolding hw2pixfmt
hw2pixfmt-Offers [] hw n e = cc
hw2pixfmt-Offers (c ∷ cs) hw n e = ground (arith, hw2pixfmt-Offers cs hw n)

find_format-Has :
    (ps : List ℕ) (o : Option ℕ) (n : ℕ) → find_format ps o ≡ some n → Has ps n × (o ≡ some n)
unfolding find_format
find_format-Has [] o n e = cc
find_format-Has (p ∷ ps) none n e = ground (arith, find_format-Has ps none n)
find_format-Has (p ∷ ps) (some m) n e = ground (arith, find_format-Has ps (some m) n)

-- A format that get_hw_format chooses is one that the decoder offered, and one that the codec has
-- for the type of the hardware device.
pub get_hw_format_sound :
    (cs : List HwConfig) (hw : HwType) (ps : List ℕ) (n : ℕ)
    → get_hw_format cs hw ps ≡ some n
    → Has ps n × Offers cs hw n
unfolding get_hw_format
get_hw_format_sound cs hw ps n e =
    let found = find_format-Has ps (hw2pixfmt cs hw) n e in
    (found.0, hw2pixfmt-Offers cs hw n found.1)
