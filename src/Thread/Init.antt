-- ===== src/Thread/Init.antt =====
-- transcode_init of ffmpeg/transcoder.c, on the side of the outputs and as a whole.
use lpms.Common.{
  ℕ, suc, ℤ, Bool, not, ◌&&◌, ◌||◌, Option, none, some, List, [], ◌∷◌, if◌then◌else◌, map,
}
use lpms.Ret.{Ret, done, failed}
use lpms.Media.{Rational, is_hw, TimeOps}
use lpms.Codec.{InputCtx}
use lpms.Output.{is_set}
use lpms.Outlet.{OutputCtx}
use lpms.Outlet.Open.{OpenAnswers, reopen_output}
use lpms.Dispatch.{set_flags}
use lpms.Input.{InputParams}
use lpms.Session.{OutputNames, Reopening, init_input}
use lpms.Thread.{Thread, transcode_shutdown}

-- output_params, and the counts of output_results that the output starts from.
pub record OutputParams : Type 0 where
  pub names : OutputNames
  pub has_vfilters : Bool
  pub sfilters : Option ℕ
  pub fps : Option Rational
  pub gop_time : ℤ
  pub clip_from : ℤ
  pub clip_to : ℤ
  pub frames : ℕ
  pub pixels : ℕ

abbrev pub names_of : List OutputParams → List OutputNames
names_of = map λ (p : OutputParams). p.names

-- A parameter that is not given leaves the value of the segment before.
abbrev or_old : ℤ → ℤ → ℤ
or_old x old = if is_set x then x else old

unfoldable pub set_params : OutputParams → OutputCtx → OutputCtx
set_params p o = record o {
  video_name = p.names.video_name;
  audio_name = p.names.audio_name;
  has_vfilters = p.has_vfilters;
  sfilters = p.sfilters;
  fps = elim p.fps [ none ↦ o.fps | some fps ↦ some fps ];
  gop_time = or_old p.gop_time o.gop_time;
  out = record o.out {
    clip_from = or_old p.clip_from o.out.clip_from;
    clip_to = or_old p.clip_to o.out.clip_to;
    frames = p.frames;
    pixels = p.pixels;
  };
}

unfoldable pub prepare : Bool → InputCtx → OutputParams → OutputCtx → OutputCtx
prepare initialized ictx p o =
    let o1 = set_flags ictx (set_params p o) in
    record o1 { initialized = initialized && (is_hw o1.hw_type || ictx.transmuxing) }

-- The outputs of a hardware session are opened again here, all others in the loop of `transcode`.
unfoldable pub init_output :
    TimeOps → OpenAnswers → Bool → InputCtx → OutputParams → OutputCtx → Ret × OutputCtx
init_output ops a initialized ictx p o =
    let o1 = prepare initialized ictx p o in
    if o1.initialized && not ictx.transmuxing then reopen_output ops a ictx o1 else (done, o1)

unfoldable pub init_outputs :
    TimeOps
    → (ℕ → OpenAnswers)
    → Bool
    → InputCtx
    → List OutputParams
    → List OutputCtx
    → Ret × List OutputCtx
init_outputs ops answers initialized ictx [] os = (done, os)
init_outputs ops answers initialized ictx (p ∷ ps) [] = (done, [])
init_outputs ops answers initialized ictx (p ∷ ps) (o ∷ os) =
    let (ret, o') = init_output ops (answers 0) initialized ictx p o in
    let (ret', os') = init_outputs ops (λ i. answers (suc i)) initialized ictx ps os in
    if failed ret then (ret, o' ∷ os) else (ret', o' ∷ os')

unfoldable pub transcode_init :
    TimeOps
    → (ℕ → OpenAnswers)
    → InputParams
    → Reopening
    → List OutputParams
    → Thread
    → Ret × Thread
transcode_init ops answers p r params t =
    let (ret, h) = init_input p r t.handle in
    let t1 = record t { handle = h } in
    let (ret', os) = init_outputs ops answers h.initialized h.ictx params t.outputs in
    let t2 = record t1 { outputs = os } in
    if failed ret
    then transcode_shutdown t1 ret
    else if failed ret'
    then transcode_shutdown t2 ret'
    else (done, t2)
