-- ===== src/Filter.antt =====
-- The filter graphs of an output: how ffmpeg/filter.c opens, reads and frees them, and the tests on
-- encoder names of ffmpeg/filter.h. What libav answers is a record of answers; the
-- arguments of the filters are left out.
pub mod Init
mod Tests
use lpms.Common.{
  ℕ, zero, ℤ, pos, nopts, ◌==ℤ◌, Bool, true, false, not, ◌&&◌, ◌||◌, Option, none, some, List, [],
  ◌∷◌, if◌then◌else◌,
}
use lpms.Ret.{Ret, err, done, failed, is_eagain, is_eof, lpms_err, enomem, filter_flushed, other}
use lpms.Media.{Rational, Frame}

-- The name of an encoder: NULL, "", "copy", "drop", or the name of a codec.
pub data EncoderName : Type 0 where
  unnamed empty_name copy drop : EncoderName
  codec : ℕ → EncoderName

abbrev pub is_copy : EncoderName → Bool
is_copy copy = true
is_copy _ = false

abbrev pub is_drop : EncoderName → Bool
is_drop unnamed = true
is_drop empty_name = true
is_drop drop = true
is_drop _ = false

unfoldable pub needs_decoder : EncoderName → Bool
needs_decoder name = not (is_copy name || is_drop name)

-- struct filter_ctx. Pointers to what the graph owns are left out; a pool of GPU frames is named by a
-- number.
pub record FilterCtx : Type 0 where
  pub active : Bool
  pub has_graph : Bool
  pub has_frame : Bool
  pub pool : Option ℕ
  pub time_base : Rational
  pub custom_pts : ℤ
  pub flushed : Bool
  pub flushing : Bool
  pub closed : Bool

-- All zeros.
abbrev pub no_filter : FilterCtx
no_filter = record {
  active = false;
  has_graph = false;
  has_frame = false;
  pool = none;
  time_base = record { num = pos 0; den = pos 0 };
  custom_pts = pos 0;
  flushed = false;
  flushing = false;
  closed = false;
}

-- free_filter gives back what the filter holds, and writes zeros.
unfoldable pub free_filter : FilterCtx → FilterCtx
free_filter f = no_filter

-- What libav answers while a graph is built.
pub record GraphAnswers : Type 0 where
  pub allocs_inouts : Bool
  pub allocs_graph : Bool
  pub layout_ret : Ret
  pub src_ret : Ret
  pub sink_ret : Ret
  pub opt_ret : Ret
  pub parse_ret : Ret
  pub config_ret : Ret
  pub allocs_frame : Bool

-- The first of some results that is an error.
abbrev pub first_failed : List Ret → Option Ret
first_failed [] = none
first_failed (ret ∷ rets) = if failed ret then some ret else first_failed rets

-- filtergraph_parser: a description that is NULL gives -1.
unfoldable pub filtergraph_parser : Bool → GraphAnswers → Ret
filtergraph_parser has_descr a = if has_descr then a.parse_ret else err (other 1)

-- The rest of a set-up, after the source of the graph: calls that may fail, then the frame.
abbrev pub complete : List Ret → GraphAnswers → FilterCtx → Ret × FilterCtx
complete rets a f = elim (first_failed rets) [
  | some ret ↦ (ret, f)
  | none ↦
      if a.allocs_frame
      then (a.config_ret, record f { has_frame = true; active = true })
      else (lpms_err a.config_ret, f)
]

-- The pool that the decoder or the frame names.
abbrev pub pool_of : Option ℕ → Option ℕ → Option ℕ → Option ℕ
pool_of inf_pool none old = old
pool_of none (some n) old = some n
pool_of (some m) (some n) old = some m

abbrev unclose : Ret × FilterCtx → Ret × FilterCtx
unclose (ret, f) = (ret, if f.active then record f { closed = false } else f)

-- `vc_pool` is the pool of the decoder, `inf_pool` that of the frame, if there is one.
unfoldable pub init_video_filters :
    EncoderName → Bool → Rational → Option ℕ → Option ℕ → GraphAnswers → FilterCtx → Ret × FilterCtx
init_video_filters name has_descr tb vc_pool inf_pool a f =
    let f1 = record f { has_graph = f.has_graph || a.allocs_graph } in
    let f2 = record f1 { time_base = tb } in
    let f3 = record f2 { pool = pool_of inf_pool vc_pool f2.pool } in
    let rets = a.sink_ret ∷ a.opt_ret ∷ filtergraph_parser has_descr a ∷ a.config_ret ∷ [] in
    if f.active || not (needs_decoder name)
    then (done, f)
    else if not (a.allocs_inouts && f1.has_graph)
    then (err enomem, f1)
    else if failed a.src_ret
    then (a.src_ret, f2)
    else unclose (complete rets a f3)

unfoldable pub init_audio_filters : EncoderName → GraphAnswers → FilterCtx → Ret × FilterCtx
init_audio_filters name a f =
    let f1 = record f { has_graph = a.allocs_graph } in
    let rets =
      a.layout_ret ∷ a.src_ret ∷ a.sink_ret ∷ filtergraph_parser true a ∷ a.config_ret ∷ [] in
    if f.active || not (needs_decoder name)
    then (done, f)
    else if not (a.allocs_inouts && f1.has_graph)
    then (err enomem, f1)
    else complete rets a f1

-- The description is NULL (`none`), or has a length. The pool of the frame goes before that of the
-- encoder.
abbrev pub signature_pool : Option ℕ → Option ℕ → Option ℕ → Option ℕ
signature_pool (some m) vc_pool old = some m
signature_pool none (some n) old = some n
signature_pool none none old = old

abbrev pub has_text : Option ℕ → Bool
has_text none = false
has_text (some zero) = false
has_text (some n) = true

unfoldable pub init_signature_filters :
    EncoderName → Option ℕ → Option ℕ → Option ℕ → GraphAnswers → FilterCtx → Ret × FilterCtx
init_signature_filters name descr vc_pool inf_pool a f =
    let f1 = record f { has_graph = a.allocs_graph } in
    let f2 = record f1 { pool = signature_pool inf_pool vc_pool f1.pool } in
    let rets = a.sink_ret ∷ a.opt_ret ∷ filtergraph_parser true a ∷ a.config_ret ∷ [] in
    if not (has_text descr) || f.active || not (needs_decoder name)
    then (done, f)
    else if not (a.allocs_inouts && f1.has_graph)
    then (err enomem, f1)
    else if failed a.src_ret
    then (a.src_ret, f1)
    else complete rets a f2

-- INT64_MIN, the mark of a flush frame, is the number AV_NOPTS_VALUE too.
abbrev pub int64_min : ℤ
int64_min = nopts

-- filtergraph_read: the sink gave `frame`, or the error `ret`.
unfoldable pub filtergraph_read : Ret → Frame → FilterCtx → Ret × FilterCtx
filtergraph_read ret frame f =
    if failed ret
    then (ret, f)
    else if frame.opaque ==ℤ int64_min
    then (err filter_flushed, if f.flushing then record f { flushed = true } else f)
    else (ret, f)
