-- ===== src/Thread/Flush.antt =====
-- flush_outputs and flush_all_outputs of ffmpeg/transcoder.c.
use lpms.Common.{ℕ, suc, Bool, true, Option, none, some, List, [], ◌∷◌, if◌then◌else◌}
use lpms.Ret.{Ret, done, failed}
use lpms.Media.{Stream, TimeOps}
use lpms.Codec.{InputCtx}
use lpms.Output.{Setting}
use lpms.Mux.{Writer}
use lpms.Outlet.{OutputCtx, Encoder, nth_stream}
use lpms.ProcessOut.{OutAnswers, Ended, returned, dangling, Call}
use lpms.Dispatch.{flush_loop}

-- What libav answers while an output is flushed.
pub record FlushAnswers : Type 0 where
  pub video : ℕ → OutAnswers
  pub audio : ℕ → OutAnswers
  pub video_setting : Setting
  pub audio_setting : Setting
  pub trailer_ret : Ret

-- How far a loop came: `none` says that the fuel is used up.
abbrev pub Flushing : Type 0
Flushing = Option (Ended × OutputCtx)

-- The loop over one encoder, to the i-th stream of the muxer, which is used also where it is NULL.
unfoldable pub flush_stream :
    ℕ
    → TimeOps
    → Writer
    → (ℕ → OutAnswers)
    → Setting
    → InputCtx
    → ℕ
    → Option Encoder
    → Option (List Stream)
    → OutputCtx
    → Flushing
flush_stream fuel ops writer answers setting ictx i none oc o = some (returned done, o)
flush_stream fuel ops writer answers setting ictx i (some enc) none o = some (dangling, o)
flush_stream fuel ops writer answers setting ictx i (some enc) (some streams) o =
    let ost = nth_stream streams i in
    let c : Call = record {
      ops = ops;
      writer = writer;
      kind = ost.codec_type;
      ost = ost;
      encoder = enc;
      setting = setting;
    } in
    flush_loop fuel answers c ictx o

-- The muxer is flushed, and the trailer written; a muxer that is NULL is used all the same.
unfoldable pub end_output : Ret → OutputCtx → Ended × OutputCtx
end_output trailer_ret o = elim o.oc [
  | none ↦ (dangling, o)
  | some streams ↦ (returned trailer_ret, o)
]

-- What follows a loop: nothing does after the use of what is freed.
abbrev pub then_flush : Flushing → (OutputCtx → Flushing) → Flushing
then_flush none next = none
then_flush (some (dangling, o)) next = some (dangling, o)
then_flush (some (returned ret, o)) next = next o

unfoldable pub flush_outputs : ℕ → TimeOps → Writer → FlushAnswers → InputCtx → OutputCtx → Flushing
flush_outputs fuel ops writer a ictx o =
    then_flush (flush_stream fuel ops writer a.video a.video_setting ictx 0 o.vc o.oc o) λ o1.
      let i = if o1.dv then 0 else 1 in
      then_flush (flush_stream fuel ops writer a.audio a.audio_setting ictx i o1.ac o1.oc o1)
        λ o2. some (end_output a.trailer_ret o2)

-- An error, or the use of what is freed, ends the loop over the outputs.
abbrev pub is_over : Ended → Bool
is_over (returned ret) = failed ret
is_over dangling = true

abbrev pub ret_of : Ended → Ret
ret_of (returned ret) = ret
ret_of dangling = done

abbrev pub put_first : OutputCtx → Option (Ended × List OutputCtx) → Option (Ended × List OutputCtx)
put_first o none = none
put_first o (some (ended, os)) = some (ended, o ∷ os)

-- The outputs after one that fails are not flushed. `ret` is the result so far.
unfoldable pub flush_each :
    ℕ
    → TimeOps
    → Writer
    → (ℕ → FlushAnswers)
    → InputCtx
    → Ret
    → List OutputCtx
    → Option (Ended × List OutputCtx)
flush_each fuel ops writer answers ictx ret [] = some (returned ret, [])
flush_each fuel ops writer answers ictx ret (o ∷ os) =
    elim (flush_outputs fuel ops writer (answers 0) ictx o) [
      | none ↦ none
      | some (ended, o') ↦
          let rest = flush_each fuel ops writer (λ i. answers (suc i)) ictx (ret_of ended) os in
          if is_over ended then some (ended, o' ∷ os) else put_first o' rest
    ]

abbrev zero_if_ok : Ended → Ended
zero_if_ok dangling = dangling
zero_if_ok (returned ret) = if failed ret then returned ret else returned done

-- Of a copy only the muxers are flushed, which changes nothing here.
unfoldable pub flush_all_outputs :
    ℕ
    → TimeOps
    → Writer
    → (ℕ → FlushAnswers)
    → InputCtx
    → List OutputCtx
    → Option (Ended × List OutputCtx)
flush_all_outputs fuel ops writer answers ictx os =
    if ictx.transmuxing
    then some (returned done, os)
    else elim (flush_each fuel ops writer answers ictx done os) [
      | none ↦ none
      | some (ended, os') ↦ some (zero_if_ok ended, os')
    ]
