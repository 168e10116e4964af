-- ===== src/CodecInfo/Names.antt =====
-- What the caller reads in the struct.
use mathlib.Core.List.{append_assoc}
use lpms.Common.{
  ℕ, zero, suc, ◌+◌, ◌≤◌, ◌<◌, ◌≡◌, ◌↔◌, refl, ap, arith, min, false, Option, none, some, List, [],
  ◌∷◌, ◌++◌, length, take, drop, set, All,
}
use lpms.Ret.{failed}
use lpms.CodecInfo.{
  text, strlen, copy_name, CodecInfo, Container, Status, streams_missing, codec_name_of,
  first_status, put_format, put_video, put_audio, get_codec_info,
}

-- No byte of a string is zero.
abbrev pub IsText : List ℕ → Type 0
IsText name = All (λ c. 0 < c) name

text-append-zero : (name rest : List ℕ) → IsText name → text (name ++ 0 ∷ rest) ≡ name
text-append-zero [] rest h = refl
text-append-zero (zero ∷ cs) rest h = absurd (omega arith)
text-append-zero (suc c ∷ cs) rest h = ap (λ l. suc c ∷ l) (text-append-zero cs rest h.1)

take_more {ℓ} :
    {A : Type ℓ} (xs : List A) (y : A) → take (suc (length xs)) (xs ++ y ∷ []) ≡ xs ++ y ∷ []
take_more [] y = refl
take_more (x ∷ xs) y = ap (λ l. x ∷ l) (take_more xs y)

-- A string that is no longer than the one in the buffer is read back from it.
text-copy_name :
    (buf name : List ℕ) → IsText name → length name ≤ strlen buf → text (copy_name buf name) ≡ name
unfolding copy_name
text-copy_name buf name h short =
    let n : min (strlen buf) (length name) + 1 ≡ suc (length name) = omega arith in
    let rest = drop (suc (length name)) buf in
    rw (n, take_more name 0, append_assoc name (0 ∷ []) rest) (text-append-zero name rest h)

text-set_zero : (buf : List ℕ) → text (set buf 0 0) ≡ []
text-set_zero [] = refl
text-set_zero (b ∷ bs) = refl

abbrev pub or_empty : Option (List ℕ) → List ℕ
or_empty none = []
or_empty (some name) = name

-- A codec's name is a string that is no longer than the one that the caller's buffer holds.
abbrev pub FitsIn : List ℕ → Option (List ℕ) → Type 0
FitsIn buf none = Unit {0}
FitsIn buf (some name) = IsText name × (length name ≤ strlen buf)

put_format-video :
    (c : Container) (out : CodecInfo) → (put_format c out).video_codec ≡ out.video_codec
unfolding put_format
put_format-video c out = ground arith

put_format-audio :
    (c : Container) (out : CodecInfo) → (put_format c out).audio_codec ≡ out.audio_codec
unfolding put_format
put_format-audio c out = ground arith

-- The buffer after a stream: its codec's name, or a string that is cut off at once.
abbrev told : List ℕ → Option (List ℕ) → List ℕ
told buf none = set buf 0 0
told buf (some name) = copy_name buf name

text-told : (buf : List ℕ) (o : Option (List ℕ)) → FitsIn buf o → text (told buf o) ≡ or_empty o
text-told buf none h = text-set_zero buf
text-told buf (some name) h = text-copy_name buf name h.0 h.1

put_video-told :
    (c : Container) (status : Status) (out : CodecInfo)
    → let out' = (put_video c status out).1 in
      (out'.video_codec ≡ told out.video_codec (codec_name_of c.video))
      × (out'.audio_codec ≡ out.audio_codec)
unfolding put_video
put_video-told c status out = ground arith

put_audio-told :
    (c : Container) (out : CodecInfo)
    → let out' = put_audio c out in
      (out'.audio_codec ≡ told out.audio_codec (codec_name_of c.audio))
      × (out'.video_codec ≡ out.video_codec)
unfolding put_audio
put_audio-told c out = ground arith

status_missing :
    (c : Container) (out : CodecInfo)
    → ((put_video c (first_status c) out).0 ≡ streams_missing)
      ↔ ((c.video ≡ none) × (c.audio ≡ none))
unfolding put_video first_status
status_missing c out = ground arith

-- What the container is told to be, once it is open and its streams are found: the codec of each stream
-- is read back from the caller's buffers, or the empty string if there is none, provided that each name
-- is no longer than the string that the buffer held before; and the result says that streams are
-- missing exactly if there is neither video nor audio (not, as a comment of the code says, if either
-- is missing).
pub get_codec_info-names :
    (c : Container) (out : CodecInfo)
    → failed c.open_ret ≡ false
    → failed c.info_ret ≡ false
    → FitsIn out.video_codec (codec_name_of c.video)
    → FitsIn out.audio_codec (codec_name_of c.audio)
    → let (status, out') = get_codec_info c out in
      (text out'.video_codec ≡ or_empty (codec_name_of c.video))
      × (text out'.audio_codec ≡ or_empty (codec_name_of c.audio))
      × ((status ≡ streams_missing) ↔ ((c.video ≡ none) × (c.audio ≡ none)))
unfolding get_codec_info
get_codec_info-names c out opened found fits_video fits_audio =
    let out1 = put_format c out in
    let (status, out2) = put_video c (first_status c) out1 in
    ground (
      arith,
      put_format-video c out,
      put_format-audio c out,
      put_video-told c (first_status c) out1,
      put_audio-told c out2,
      text-told out.video_codec (codec_name_of c.video),
      text-told out.audio_codec (codec_name_of c.audio),
      status_missing c out1,
    )
