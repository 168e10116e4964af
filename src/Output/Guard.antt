-- ===== src/Output/Guard.antt =====
-- What reaches the encoder: how many frames, at which times, and the first of them.
use lpms.Common.{
  ℕ, ◌+◌, ◌*◌, ◌≤◌, ◌<◌, ℤ, pos, ◌<ℤ◌, ◌==ℤ◌, one, nopts, ◌≡◌, ◌⊎◌, refl, sym, ap, ◌∙◌, arith, true,
  false, Option, none, some, List, [], ◌∷◌, length, +ℤ_parts, eq_of_parts, inl, inr, Bool-cases,
}
use lpms.Media.{video, Frame, TimeOps}
use lpms.Output.{
  OutState, Setting, Verdict, pass, skip, runaway, find_start, clip, clip_video, start_clip,
  set_gop, space_video, rescale, is_runaway, send_on, finish, stage, count_encoded, count_verdict,
  collect, out_step, out_all,
}

-- The time base of the filter differs from that of the encoder.
abbrev pub Rescales : TimeOps → Setting → Type 0
Rescales ops s = (ops.cmp_q s.filter_tb s.encoder_tb ==ℤ pos 0) ≡ false

-- Past the last PTS, if there is one.
abbrev pub Past : ℤ → ℤ → Type 0
Past last t = (last ≡ nopts) ⊎ (last <ℤ t)

Past-eq : {l l' t t' : ℤ} → l ≡ l' → t ≡ t' → Past l t → Past l' t'
Past-eq e d h = rw (← e, ← d) h

clip-keeps :
    (f : Frame) (o : OutState)
    → let o' = (clip video f (find_start video f o)).1 in
      (o'.last_enc_pts ≡ o.last_enc_pts) × (o'.frames ≡ o.frames)
unfolding clip clip_video find_start start_clip
clip-keeps f o = ground arith

set_gop-keeps :
    (f : Frame) (o : OutState)
    → let o' = (set_gop video f o).1 in (o'.last_enc_pts ≡ o.last_enc_pts) × (o'.frames ≡ o.frames)
unfolding set_gop
set_gop-keeps f o = ground arith

-- A rescaled frame is past the last one, and is then the last; frames are not counted here.
rescale-spaced :
    (ops : TimeOps) (s : Setting) (f : Frame) (o : OutState)
    → Rescales ops s
    → let (f', o') = rescale ops s video f o in
      (o'.last_enc_pts ≡ f'.pts) × (o'.frames ≡ o.frames) × Past o.last_enc_pts f'.pts
unfolding rescale space_video
rescale-spaced ops s f o h =
    ground (arith, +ℤ_parts o.last_enc_pts one, eq_of_parts o.last_enc_pts nopts)

rescale-frames :
    (ops : TimeOps) (s : Setting) (f : Frame) (o : OutState)
    → (rescale ops s video f o).1.frames ≡ o.frames
unfolding rescale space_video
rescale-frames ops s f o = ground arith

is_runaway-frames :
    (s : Setting) (o o' : OutState)
    → o.frames ≡ o'.frames
    → is_runaway s video o ≡ is_runaway s video o'
unfolding is_runaway
is_runaway-frames s o o' e = rw e

-- How one video frame leaves the stage: it is skipped, stops the encode, or is passed on, counted,
-- and then the last.
pub data Left (ops : TimeOps) (s : Setting) (o : OutState) (v : Verdict) (o' : OutState)
    : Type 0 where
  skipped : v ≡ skip → o'.frames ≡ o.frames → o'.last_enc_pts ≡ o.last_enc_pts → Left ops s o v o'
  stopped : v ≡ runaway → o'.frames ≡ o.frames → Left ops s o v o'
  passed :
      (f : Frame)
      → v ≡ pass f
      → is_runaway s video o ≡ false
      → o'.frames ≡ o.frames + 1
      → (o.frames ≡ 0 → f.intra ≡ true)
      → (Rescales ops s → (o'.last_enc_pts ≡ f.pts) × Past o.last_enc_pts f.pts)
      → Left ops s o v o'

count_encoded-first :
    (f : Frame) (o : OutState)
    → let (f', o') = count_encoded video f o in
      (o'.frames ≡ o.frames + 1)
      × (o'.last_enc_pts ≡ o.last_enc_pts)
      × (f'.pts ≡ f.pts)
      × (o.frames ≡ 0 → f'.intra ≡ true)
unfolding count_encoded
count_encoded-first f o = ground arith

send_on-Left :
    (ops : TimeOps) (s : Setting) (f : Frame) (o : OutState)
    → let (v, o') = send_on ops s video f o in
      let (v', o'') = count_verdict video v o' in Left ops s o v' o''
unfolding send_on count_verdict
send_on-Left ops s f o =
    let g = set_gop video f o in
    let r = rescale ops s video g.0 g.1 in
    let kept = set_gop-keeps f o in
    let same : r.1.frames ≡ o.frames = rescale-frames ops s g.0 g.1 ∙ kept.1 in
    let e = count_encoded-first r.0 r.1 in
    elim (Bool-cases (is_runaway s video r.1)) [
      | inl over ↦ rw (over, send_on) (stopped refl same)
      | inr under ↦
          rw (under, send_on)
            (passed (count_encoded video r.0 r.1).0 refl
              (is_runaway-frames s o r.1 (sym same) ∙ under) (e.0 ∙ ap (λ n. n + 1) same)
              (λ z. e.3 (same ∙ z))
              (λ h.
                let sp = rescale-spaced ops s g.0 g.1 h in
                (e.1 ∙ sp.0 ∙ sym e.2, Past-eq kept.0 (sym e.2) sp.2)))
    ]

clip-Left :
    (ops : TimeOps) (s : Setting) (o o1 : OutState) (f : Option Frame)
    → o1.last_enc_pts ≡ o.last_enc_pts
    → o1.frames ≡ o.frames
    → let (v, o') = finish ops s video f o1 in
      let (v', o'') = count_verdict video v o' in Left ops s o v' o''
unfolding finish count_verdict
clip-Left ops s o o1 none el ef = skipped refl ef el
clip-Left ops s o o1 (some f) el ef = elim (send_on-Left ops s f o1) [
  | skipped v a b ↦ skipped v (a ∙ ef) (b ∙ el)
  | stopped v a ↦ stopped v (a ∙ ef)
  | passed f' v r a first sp ↦
      passed f' v (is_runaway-frames s o o1 (sym ef) ∙ r) (a ∙ ap (λ n. n + 1) ef)
        (λ z. first (ef ∙ z)) (λ h. let p = sp h in (p.0, Past-eq el refl p.1))
]

out_step-Left :
    (ops : TimeOps) (s : Setting) (f : Frame) (o : OutState)
    → let (v, o') = out_step ops s video f o in Left ops s o v o'
unfolding out_step stage
out_step-Left ops s f o =
    let k = clip-keeps f o in
    let c = clip video f (find_start video f o) in clip-Left ops s o c.1 c.0 k.0 k.1

-- Each PTS is past the one before it, and the first past the last one sent before.
abbrev pub Spaced : ℤ → List Frame → Type 0
Spaced last [] = Unit {0}
Spaced last (f ∷ fs) = Past last f.pts × Spaced f.pts fs

abbrev pub FirstIsKey : List Frame → Type 0
FirstIsKey [] = Unit {0}
FirstIsKey (f ∷ fs) = f.intra ≡ true

collect-Spaced :
    (ops : TimeOps) (s : Setting) (o o' : OutState) (v : Verdict) (rest : List Frame × OutState)
    → Rescales ops s
    → Left ops s o v o'
    → Spaced o'.last_enc_pts rest.0
    → Spaced o.last_enc_pts (collect v o' rest).0
collect-Spaced ops s o o' v rest h (skipped e a b) r = rw (e, ← b) r
collect-Spaced ops s o o' v rest h (stopped e a) r = rw e tt
collect-Spaced ops s o o' v rest h (passed f e u a first sp) r =
    let p = sp h in rw e (p.1, rw p.0 at r)

-- Where the encoder has a time base of its own, the video frames that come out of the filter graph
-- pass through the stage to it with PTS that rise strictly, from the last one that `last_enc_pts`
-- holds (none if the output was opened anew), however many of them fall on one tick. Frames that are
-- encoded without the stage, as when the graph is set up again, are not among them.
pub out_all-Spaced :
    (ops : TimeOps) (s : Setting) (fs : List Frame) (o : OutState)
    → Rescales ops s
    → Spaced o.last_enc_pts (out_all ops s video fs o).0
unfolding out_all
out_all-Spaced ops s [] o h = tt
out_all-Spaced ops s (f ∷ fs) o h =
    collect-Spaced ops s o _ _ (out_all ops s video fs (out_step ops s video f o).1) h
      (out_step-Left ops s f o) (out_all-Spaced ops s fs (out_step ops s video f o).1 h)

module _ (ops : TimeOps) (s : Setting) (n : ℕ) (counts : s.decoded ≡ some n) (some_decoded : 0 < n)
    (no_image : s.is_image2 ≡ false) where
  under_limit : (o : OutState) → is_runaway s video o ≡ false → o.frames + 1 ≤ 25 * n
  unfolding is_runaway
  under_limit o h = ground (arith, counts)

  abbrev IsBounded : List Frame × OutState → ℕ → Type 0
  IsBounded (out, o') k = (o'.frames ≤ 25 * n) × (length out + k ≡ o'.frames)

  collect-IsBounded :
      (o o' : OutState) (v : Verdict) (rest : List Frame × OutState)
      → o.frames ≤ 25 * n
      → Left ops s o v o'
      → (o'.frames ≤ 25 * n → IsBounded rest o'.frames)
      → IsBounded (collect v o' rest) o.frames
  collect-IsBounded o o' v rest b (skipped e a c) r =
      rw e (let h = r (omega (arith, a)) in (h.0, omega (arith, a, h.1)))
  collect-IsBounded o o' v rest b (stopped e a) r = rw e (omega (arith, a), omega (arith, a))
  collect-IsBounded o o' v rest b (passed f e u a first sp) r =
      rw e (let h = r (omega (arith, a, under_limit o u)) in (h.0, omega (arith, a, h.1)))

  -- If frames were decoded and the input is no image sequence, the video frames that pass through the
  -- stage to the encoder are counted, and while no more are decoded they never come to more than 25
  -- for each decoded one.
  pub out_all-IsBounded :
      (fs : List Frame) (o : OutState)
      → o.frames ≤ 25 * n
      → let (out, o') = out_all ops s video fs o in
        (o'.frames ≤ 25 * n) × (length out + o.frames ≡ o'.frames)
  unfolding out_all
  out_all-IsBounded [] o b = (b, omega arith)
  out_all-IsBounded (f ∷ fs) o b =
      collect-IsBounded o _ _ (out_all ops s video fs (out_step ops s video f o).1) b
        (out_step-Left ops s f o) (out_all-IsBounded fs (out_step ops s video f o).1)

collect-first :
    (ops : TimeOps) (s : Setting) (o o' : OutState) (v : Verdict) (rest : List Frame × OutState)
    → o.frames ≡ 0
    → Left ops s o v o'
    → (o'.frames ≡ 0 → FirstIsKey rest.0)
    → FirstIsKey (collect v o' rest).0
collect-first ops s o o' v rest z (skipped e a b) r = rw e (r (a ∙ z))
collect-first ops s o o' v rest z (stopped e a) r = rw e tt
collect-first ops s o o' v rest z (passed f e u a first sp) r = rw e (first z)

-- The first video frame that an output encodes is a key frame.
pub out_all-FirstIsKey :
    (ops : TimeOps) (s : Setting) (fs : List Frame) (o : OutState)
    → o.frames ≡ 0
    → FirstIsKey (out_all ops s video fs o).0
unfolding out_all
out_all-FirstIsKey ops s [] o z = tt
out_all-FirstIsKey ops s (f ∷ fs) o z =
    collect-first ops s o _ _ (out_all ops s video fs (out_step ops s video f o).1) z
      (out_step-Left ops s f o) (out_all-FirstIsKey ops s fs (out_step ops s video f o).1)
