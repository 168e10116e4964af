-- ===== src/Dispatch/Each.antt =====
-- The outputs of a transcode, each for itself.
use lpms.Common.{
  ℕ, suc, ◌≡◌, refl, ap, arith, true, false, ◌⊎◌, List, [], ◌∷◌, ◌++◌, Bool-cases, inl, inr,
}
use lpms.Media.{TimeOps}
use lpms.Codec.{InputCtx}
use lpms.Mux.{Writer}
use lpms.Outlet.{OutputCtx}
use lpms.Dispatch.{ServeAnswers, Item, serve, stops, serve_all}

module _ (ops : TimeOps) (writer : Writer) (ictx : InputCtx) (x : Item) where
  -- What each output would become alone, from the `i`-th on.
  abbrev pub alone : (ℕ → ServeAnswers) → List OutputCtx → List OutputCtx
  alone answers [] = []
  alone answers (o ∷ os) =
      (serve ops writer (answers 0) ictx x o).1 ∷ alone (λ i. answers (suc i)) os

  -- No output but the last stops the rest, and the last does unless there is none after it.
  abbrev pub Reaches : (ℕ → ServeAnswers) → List OutputCtx → List OutputCtx → Type 0
  Reaches answers [] after = after ≡ []
  Reaches answers (o ∷ before) after =
      let stopped = stops (serve ops writer (answers 0) ictx x o).0 in
      ((stopped ≡ true) × (before ≡ []))
      ⊎ ((stopped ≡ false) × Reaches (λ i. answers (suc i)) before after)

  -- The outputs up to the first that stops the rest, that one included, are as if they were alone;
  -- those after it are as they were.
  abbrev pub Parted : (ℕ → ServeAnswers) → List OutputCtx → List OutputCtx → Type 0
  Parted answers os os' =
      (before after : List OutputCtx) × (os ≡ before ++ after)
      × Reaches answers before after
      × (os' ≡ alone answers before ++ after)

  -- A frame or packet goes to each output as if the output were alone, up to the first that ends with an
  -- error which stops the rest: the outputs after that one are as they were. Where none stops the
  -- rest, each is as if it were alone.
  pub serve_all-Parted :
      (answers : ℕ → ServeAnswers) (os : List OutputCtx)
      → let (ended, os') = serve_all ops writer answers ictx x os in
        Parted answers os os' × (stops ended ≡ false → os' ≡ alone answers os)
  unfolding serve_all
  serve_all-Parted answers [] = (([], [], refl, refl, refl), λ h. refl)
  serve_all-Parted answers (o ∷ os) =
      let (ended, o') = serve ops writer (answers 0) ictx x o in
      let ((before, after, all, reached, parted), none_stops) =
        serve_all-Parted (λ i. answers (suc i)) os in
      elim (Bool-cases (stops ended)) [
        | inl stop ↦
            rw (serve_all, stop)
              ((o ∷ [], os, refl, inl (stop, refl), refl), λ h. absurd (ground (arith, stop, h)))
        | inr go ↦
            rw (serve_all, go)
              (
                (
                  o ∷ before,
                  after,
                  ap (λ l. o ∷ l) all,
                  inr (go, reached),
                  ap (λ l. o' ∷ l) parted,
                ),
                λ h. ap (λ l. o' ∷ l) (none_stops h),
              )
      ]
