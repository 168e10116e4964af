-- ===== src/Filter/Init.antt =====
-- What a filter holds after it was set up, and after a failure to.
use lpms.Common.{ℕ, ◌≡◌, ◌⊎◌, arith, Bool, true, false, Option}
use lpms.Ret.{Ret, done, failed}
use lpms.Media.{Rational}
use lpms.Filter.{
  EncoderName, needs_decoder, FilterCtx, GraphAnswers, filtergraph_parser, init_video_filters,
  init_audio_filters, init_signature_filters, has_text,
}

-- The filter is active, with its graph and its frame; or there was an error, and it is not active.
abbrev pub IsSetUp : Ret × FilterCtx → Type 0
IsSetUp (ret, f) =
    ((failed ret ≡ true) × (f.active ≡ false))
    ⊎ ((failed ret ≡ false) × (f.active ≡ true) × (f.has_graph ≡ true) × (f.has_frame ≡ true))

-- A filter that is not active and that is needed is set up whole or not at all, be it for video, for
-- audio or for signatures (whose description must not be empty): with an error it stays inactive,
-- without one it is active and has its graph and its frame. Configuring a graph gives 0 or an error.
pub init-IsSetUp :
    (name : EncoderName) (has_descr : Bool) (descr : Option ℕ) (tb : Rational)
    (vc_pool inf_pool : Option ℕ) (a : GraphAnswers) (f : FilterCtx)
    → needs_decoder name ≡ true
    → has_text descr ≡ true
    → f.active ≡ false
    → (failed a.config_ret ≡ true) ⊎ (a.config_ret ≡ done)
    → IsSetUp (init_video_filters name has_descr tb vc_pool inf_pool a f)
      × IsSetUp (init_audio_filters name a f)
      × IsSetUp (init_signature_filters name descr vc_pool inf_pool a f)
unfolding init_video_filters init_audio_filters init_signature_filters filtergraph_parser
init-IsSetUp name has_descr descr tb vc_pool inf_pool a f needed text inactive plain = (
  ground (arith, needed, inactive, plain),
  ground (arith, needed, inactive, plain),
  ground (arith, needed, text, inactive, plain),
)
