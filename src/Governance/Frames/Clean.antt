-- ===== src/Governance/Frames/Clean.antt =====
-- The loop of `validateGovernanceFrames` against the boundaries that the trace closes.
use legion_cli.Prelude.{
  ℕ, Bool, Option, none, some, List, [], ◌∷◌, ◌++◌, ◌≡◌, ◌↔◌, ◌⊎◌, refl, inl, inr, subst, sym, ◌∙◌,
  append-eq-nil, map-eq-nil,
}
use legion_cli.Text.{Text}
use legion_cli.Governance.Records.{Boundary, Frame, Ship}
use legion_cli.Governance.Rules.{Span, span_violations}
use legion_cli.Governance.Rules.Obeys.{Obeys}
use legion_cli.Governance.Rules.Sound.{span_violations-nil_iff}
use legion_cli.Governance.Frames.{
  Begins, get_begin, delete_begin, close, prepared_after, violations_of, validate_from,
  trace_has_prepare, validate_governance_frames,
}
use legion_cli.Governance.Frames.History.{
  opened, prepared_before, span_at, Represents, begin-Represents, end-Represents,
  prepared_before-begin, prepared_before-end,
}

-- The frames read, the newest first, after `more` is read too.
abbrev pub after_reading : List Frame → List Frame → List Frame
after_reading [] past = past
after_reading (f ∷ more) past = after_reading more (f ∷ past)

-- `f` ends the boundary `s` after the frames of `past`.
abbrev pub Closes : Bool → List Frame → Frame → Span → Type 0
Closes has past f s = (f.boundary ≡ Boundary.end) × (span_at has past f ≡ some s)

pub Boundary-cases : (b : Boundary) → (b ≡ Boundary.begin) ⊎ (b ≡ Boundary.end)
Boundary-cases Boundary.begin = inl refl
Boundary-cases Boundary.end = inr refl

module _ (lower : Text → Text) (has : Bool) where
  -- Every boundary that the frames close, when they follow those of `past`, keeps the model.
  abbrev pub AllObey : List Frame → List Frame → Type 0
  AllObey past frames =
      (read : List Frame) (f : Frame) (rest : List Frame) (s : Span)
      → frames ≡ read ++ (f ∷ rest)
      → Closes has (after_reading read past) f s
      → Obeys lower s

  AllObey-nil : (past : List Frame) → AllObey past []
  AllObey-nil past [] f rest s e c = cc
  AllObey-nil past (g ∷ read) f rest s e c = cc

  pub AllObey-cons :
      (past frames : List Frame) (g : Frame)
      → AllObey past (g ∷ frames)
        ↔ (((s : Span) → Closes has past g s → Obeys lower s) × AllObey (g ∷ past) frames)
  AllObey-cons past frames g = (
    λ h. (λ s c. h [] g frames s refl c, λ read f rest s e c. h (g ∷ read) f rest s (cc) c),
    λ (first, more) read f rest s e c. both first more read f rest s e c,
  )
    where
      both :
          ((s : Span) → Closes has past g s → Obeys lower s)
          → AllObey (g ∷ past) frames
          → AllObey past (g ∷ frames)
      both first more [] f rest s e c =
          let same : f ≡ g = cc in first s (subst (λ x. Closes has past x s) same c)
      both first more (x ∷ read) f rest s e c =
          let same : x ≡ g = cc in
          more read f rest s (cc)
            (subst (λ y. Closes has (after_reading read (y ∷ past)) f s) same c)

  violations_of-nil_iff :
      (n : ℕ) (span : Option Span)
      → (violations_of lower n span ≡ []) ↔ ((s : Span) → span ≡ some s → Obeys lower s)
  violations_of-nil_iff n none = (λ h s e. cc, λ h. refl)
  violations_of-nil_iff n (some s) = (
    λ h t e.
        let same : s ≡ t = cc in
        subst (λ x. Obeys lower x) same
          ((span_violations-nil_iff s lower).0 ((map-eq-nil _ (span_violations lower s)).0 h)),
    λ h.
        (map-eq-nil _ (span_violations lower s)).1 ((span_violations-nil_iff s lower).1 (h s refl)),
  )

  validate_from-begin :
      (begins : Begins) (prepared : Option Ship) (f : Frame) (frames : List Frame)
      → f.boundary ≡ Boundary.begin
      → validate_from lower has begins prepared (f ∷ frames)
        ≡ validate_from lower has
            ((f.correlation_id, f) ∷ delete_begin begins f.correlation_id)
            prepared
            frames
  unfolding validate_from
  validate_from-begin begins prepared f frames b = simp b

  validate_from-end :
      (begins : Begins) (prepared : Option Ship) (f : Frame) (frames : List Frame)
      → f.boundary ≡ Boundary.end
      → validate_from lower has begins prepared (f ∷ frames)
        ≡ violations_of lower f.sequence
            (close has (get_begin begins f.correlation_id) f.after f prepared)
          ++ validate_from lower has
              (delete_begin begins f.correlation_id)
              (prepared_after
                (close has (get_begin begins f.correlation_id) f.after f prepared)
                prepared)
              frames
  unfolding validate_from
  validate_from-end begins prepared f frames b = simp b

  -- The loop is silent from the state that the read frames leave, where the rest obeys.
  abbrev Sound : List Frame → List Frame → Type 0
  Sound past frames =
      (begins : Begins)
      → Represents begins past
      → (validate_from lower has begins (prepared_before past) frames ≡ []) ↔ AllObey past frames

  Sound-begin :
      (past frames : List Frame) (f : Frame)
      → f.boundary ≡ Boundary.begin
      → Sound (f ∷ past) frames
      → Sound past (f ∷ frames)
  Sound-begin past frames f b more begins r =
      let step = validate_from-begin begins (prepared_before past) f frames b in
      let older = prepared_before-begin past f b in
      let rest = more _ (begin-Represents begins past f b r) in
      (
        λ h. (AllObey-cons past frames f).1 (λ s c. cc, rest.0 (cc)),
        λ h. let silent = rest.1 ((AllObey-cons past frames f).0 h).1 in cc,
      )

  Sound-end :
      (past frames : List Frame) (f : Frame)
      → f.boundary ≡ Boundary.end
      → Sound (f ∷ past) frames
      → Sound past (f ∷ frames)
  Sound-end past frames f b more begins r =
      let span = span_at has past f in
      let found = r f.correlation_id in
      let step = validate_from-end begins (prepared_before past) f frames b in
      let prepared = prepared_before-end has past f b in
      let rest = more _ (end-Represents begins past f b r) in
      let mine = violations_of-nil_iff f.sequence span in
      let split : validate_from lower has begins (prepared_before past) (f ∷ frames)
          ≡ violations_of lower f.sequence span
            ++ validate_from lower has (delete_begin begins f.correlation_id)
                (prepared_before (f ∷ past)) frames =
        cc in
      (
        λ h.
            let (here, later) = (append-eq-nil _ _).0 (sym split ∙ h) in
            (AllObey-cons past frames f).1 (λ s c. mine.0 here s c.1, rest.0 later),
        λ h.
            let (here, later) = (AllObey-cons past frames f).0 h in
            split ∙ (append-eq-nil _ _).1 (mine.1 (λ s e. here s (b, e)), rest.1 later),
      )

  validate_from-Sound : (frames past : List Frame) → Sound past frames
  unfolding validate_from
  validate_from-Sound [] past begins r = (λ h. AllObey-nil past, λ h. refl)
  validate_from-Sound (f ∷ frames) past begins r = elim (Boundary-cases f.boundary) [
    | inl b ↦ Sound-begin past frames f b (validate_from-Sound frames (f ∷ past)) begins r
    | inr b ↦ Sound-end past frames f b (validate_from-Sound frames (f ∷ past)) begins r
  ]

-- A trace has no violation exactly when every boundary that it closes keeps the whole model: every
-- end frame with a projection whose id was last used by a begin frame, taken with that begin, with
-- the ship that the last successful preparation before it left, and with whether a preparation
-- stands anywhere in the trace.
pub validate_governance_frames-nil_iff :
    (lower : Text → Text) (frames : List Frame)
    → (validate_governance_frames lower frames ≡ [])
      ↔ AllObey lower (trace_has_prepare frames) [] frames
unfolding validate_governance_frames opened get_begin prepared_before
validate_governance_frames-nil_iff lower frames =
    validate_from-Sound lower (trace_has_prepare frames) frames [] [] (λ id. refl)
