-- ===== src/Governance/Frames/Delivery.antt =====
-- The phases that a clean trace passes: what the boundary model shows of a delivery.
use legion_cli.Prelude.{
  ℕ, Bool, true, false, Option, none, some, List, [], ◌∷◌, ◌≡◌, ◌≢◌, ◌⊎◌, refl, inl, inr, Memᴰ,
  arith, subst, sym, ap, ◌<◌, ◌≤◌, ◌∙◌,
}
use legion_cli.Text.{Text}
use legion_cli.Governance.Frames.{validate_governance_frames, trace_has_prepare}
use legion_cli.Governance.Frames.History.{span_at}
use legion_cli.Governance.Frames.Clean.{
  AllObey, AllObey-cons, Boundary-cases, validate_governance_frames-nil_iff,
}
use legion_cli.Lifecycle.{Phase, phase_eq, shipped}
use legion_cli.Lifecycle.Walks.{
  Walk, stay, move, engine_phase_edge, phases_not_skipped, phase_level, phase_landing,
  is_optional_level,
}
use legion_cli.Governance.Records.{
  Action, Outcome, Boundary, Frame, Projection, Stage, Freshness, ComponentRow, AcceptanceRow,
  AcceptanceStatus,
}
use legion_cli.Governance.Rules.{Span, is_authority_action}
use legion_cli.Governance.Rules.Obeys.{Obeys}

-- Boundaries in a row: each starts in the projection that the one before left.
pub data Chain : Projection → List Span → Projection → Type 0 where
  idle : (p : Projection) → Chain p [] p
  link :
      {p q : Projection} {rest : List Span} (s : Span)
      → s.before ≡ p
      → Chain s.after rest q
      → Chain p (s ∷ rest) q

-- Boundaries whose outcome the rules on phases cover.
abbrev pub Settled : List Span → Type 0
Settled spans =
    (s : Span) → Memᴰ s spans → (s.outcome ≡ Outcome.success) ⊎ (s.outcome ≡ Outcome.refused)

abbrev pub phases_of : List Span → Phase → List Phase
phases_of [] last = last ∷ []
phases_of (s ∷ spans) last = s.before.phase ∷ phases_of spans last

-- A settled boundary that obeys the model keeps its phase or moves it along an engine's edge.
Obeys-edge :
    (lower : Text → Text) (s : Span)
    → (s.outcome ≡ Outcome.success) ⊎ (s.outcome ≡ Outcome.refused)
    → Obeys lower s
    → (s.before.phase ≡ s.after.phase) ⊎ (engine_phase_edge s.before.phase s.after.phase ≡ true)
unfolding engine_phase_edge
Obeys-edge lower s (inr refused) o = inl (ap (λ p. p.phase) (o.unchanged refused))
Obeys-edge lower s (inl ok) o = elim (o.legal_phase ok) [
  | inl same ↦ inl same
  | inr (inl legal) ↦ inr (ground arith)
  | inr (inr (inl (_, undone))) ↦ inr (ground arith)
  | inr (inr (inr (_, rolled))) ↦ inr (ground arith)
]

-- A boundary leaves the phase `x`.
abbrev pub Passes : List Span → Phase → Type 0
Passes spans x = (s : Span) × Memᴰ s spans × (s.after.phase ≡ x)

Passes-tail : (s : Span) (spans : List Span) (x : Phase) → Passes spans x → Passes (s ∷ spans) x
Passes-tail s spans x (t, m, e) = (t, Memᴰ.tail m, e)

pub mem_one : {A : Type 0} {a x : A} → Memᴰ x (a ∷ []) → x ≡ a
mem_one (Memᴰ.head e) = e
mem_one (Memᴰ.tail m) = elim m [ ]

-- A walk of the engine through the phases that the boundaries left.
abbrev Tour : Phase → List Span → Phase → Type 0
Tour p spans q =
    (seen : List Phase) × Walk engine_phase_edge p seen q
    × ((x : Phase) → Memᴰ x seen → (x ≡ p) ⊎ Passes spans x)

Tour-link :
    (s : Span) (spans : List Span) (q : Phase)
    → (s.before.phase ≡ s.after.phase) ⊎ (engine_phase_edge s.before.phase s.after.phase ≡ true)
    → Tour s.after.phase spans q
    → Tour s.before.phase (s ∷ spans) q
Tour-link s spans q (inl same) (seen, walk, from) = (
  seen,
  subst (λ x. Walk engine_phase_edge x seen q) (sym same) walk,
  λ x m. elim (from x m) [ inl e ↦ inl (cc) | inr passed ↦ inr (Passes-tail s spans x passed) ],
)
Tour-link s spans q (inr edge) (seen, walk, from) = (
  s.before.phase ∷ seen,
  move edge walk,
  λ x m. elim m [
    | Memᴰ.head e ↦ inl e
    | Memᴰ.tail n ↦ elim (from x n) [
      | inl e ↦ inr (s, Memᴰ.head refl, sym e)
      | inr passed ↦ inr (Passes-tail s spans x passed)
    ]
  ],
)

Tour-Chain :
    (lower : Text → Text) {p q : Projection} {spans : List Span}
    → Chain p spans q
    → Settled spans
    → ((s : Span) → Memᴰ s spans → Obeys lower s)
    → Tour p.phase spans q.phase
Tour-Chain lower (idle p) ok o = (p.phase ∷ [], stay p.phase, λ x m. inl (mem_one m))
Tour-Chain lower (link {q = q} {rest} s e c) ok o =
    let later = Tour-Chain lower c (λ t m. ok t (Memᴰ.tail m)) (λ t m. o t (Memᴰ.tail m)) in
    subst (λ x. Tour x (s ∷ rest) q.phase) (ap (λ x. x.phase) e)
      (Tour-link s rest q.phase (Obeys-edge lower s (ok s (Memᴰ.head refl)) (o s (Memᴰ.head refl)))
        later)

abbrev pub add_span : Option Span → List Span → List Span
add_span none spans = spans
add_span (some s) spans = s ∷ spans

mem-add_span :
    (o : Option Span) (spans : List Span) (s : Span)
    → Memᴰ s (add_span o spans)
    → (o ≡ some s) ⊎ Memᴰ s spans
mem-add_span none spans s m = inr m
mem-add_span (some t) spans s (Memᴰ.head e) = inl (cc)
mem-add_span (some t) spans s (Memᴰ.tail m) = inr m

-- The boundaries that a trace closes, in order, found from the frames before each end frame.
unfoldable pub closed_spans : Bool → List Frame → List Frame → List Span
closed_spans has past [] = []
closed_spans has past (f ∷ frames) =
    let rest = closed_spans has (f ∷ past) frames in
    elim f.boundary [ Boundary.begin ↦ rest | Boundary.end ↦ add_span (span_at has past f) rest ]

closed_spans-Obeys :
    (lower : Text → Text) (has : Bool) (past frames : List Frame)
    → AllObey lower has past frames
    → (s : Span) → Memᴰ s (closed_spans has past frames)
    → Obeys lower s
unfolding closed_spans
closed_spans-Obeys lower has past [] o s m = elim m [ ]
closed_spans-Obeys lower has past (f ∷ frames) o s m =
    let (here, later) = (AllObey-cons lower has past frames f).0 o in
    let rest = closed_spans has (f ∷ past) frames in
    elim (Boundary-cases f.boundary) [
      | inl b ↦
          let same : closed_spans has past (f ∷ frames) ≡ rest = simp b in
          closed_spans-Obeys lower has (f ∷ past) frames later s (subst (λ l. Memᴰ s l) same m)
      | inr b ↦
          let same : closed_spans has past (f ∷ frames) ≡ add_span (span_at has past f) rest =
            simp b in
          elim (mem-add_span (span_at has past f) rest s (subst (λ l. Memᴰ s l) same m)) [
            | inl e ↦ here s (b, e)
            | inr n ↦ closed_spans-Obeys lower has (f ∷ past) frames later s n
          ]
    ]

level-landing : (k : ℕ) → 0 < k → k ≤ 11 → phase_level (phase_landing k) ≡ k
level-landing k lo hi = ground arith

level_bound : (p : Phase) → phase_level p ≤ 11
level_bound p = ground arith

abbrev pub spans_of : List Frame → List Span
spans_of frames = closed_spans (trace_has_prepare frames) [] frames

-- Let a trace have no violation, let its boundaries follow on each other from the projection `p` to
-- `q`, and let each of them be a success or refused. Then between the phases of `p` and `q` no stage
-- of the way to a delivery but ready_to_ship was skipped: for each level `k` above that of `p`'s phase,
-- up to that of `q`'s, and other than that of ready_to_ship, one of the boundaries leaves the phase by
-- which the level is entered.
pub clean_trace_not_skipped :
    (lower : Text → Text) (frames : List Frame) {p q : Projection}
    → validate_governance_frames lower frames ≡ []
    → Chain p (spans_of frames) q
    → Settled (spans_of frames)
    → (k : ℕ) → is_optional_level k ≡ false
    → phase_level p.phase < k
    → k ≤ phase_level q.phase
    → Passes (spans_of frames) (phase_landing k)
clean_trace_not_skipped lower frames {p} {q} clean chain ok k need lo hi =
    let obeys = (validate_governance_frames-nil_iff lower frames).0 clean in
    let o = closed_spans-Obeys lower (trace_has_prepare frames) [] frames obeys in
    let (seen, walk, from) = Tour-Chain lower chain ok o in
    elim (from (phase_landing k) (phases_not_skipped walk k need lo hi)) [
      | inl first ↦
          let level : phase_level (phase_landing k) ≡ k =
            level-landing k (omega arith) (omega (arith, level_bound q.phase)) in
          let same : phase_level (phase_landing k) ≡ phase_level p.phase = ap phase_level first in
          absurd (omega arith)
      | inr passed ↦ passed
    ]

-- A boundary moves the phase to shipped.
abbrev pub Ships : Span → Type 0
Ships s = (s.before.phase ≢ shipped) × (s.after.phase ≡ shipped)

-- The projection before a boundary had passed integration, review and every component, and, if it is
-- a confirmation or a completion, had a current approval and every acceptance passed and current.
abbrev pub Checked : Span → Type 0
Checked s =
    (s.before.integration ≡ Stage.passed)
    × (s.before.review ≡ Stage.passed)
    × ((c : ComponentRow) → Memᴰ c s.before.components → c.status ≡ Stage.passed)
    × ((s.action ≡ Action.ship_confirm) ⊎ (s.action ≡ Action.ship_complete)
        → (s.before.approval.freshness ≡ Freshness.current)
          × ((e : AcceptanceRow)
              → Memᴰ e s.before.acceptance
              → (e.status ≡ AcceptanceStatus.passed) × (e.freshness ≡ Freshness.current)))

Obeys-Checked :
    (lower : Text → Text) (s : Span)
    → (s.outcome ≡ Outcome.success) ⊎ (s.outcome ≡ Outcome.refused)
    → Obeys lower s
    → Ships s
    → Checked s
Obeys-Checked lower s (inr refused) o (b, a) =
    absurd (b (ap (λ x. x.phase) (o.unchanged refused) ∙ a))
Obeys-Checked lower s (inl good) o (b, a) =
    let (i, r, c) = o.checked (good, b, a) in
    (i, r, c, λ act. (o.authorised good (authority_lem s.action act), o.accepted (good, b, a) act))
  where
    authority_lem :
        (action : Action)
        → (action ≡ Action.ship_confirm) ⊎ (action ≡ Action.ship_complete)
        → is_authority_action action ≡ true
    authority_lem action (inl e) = rw e refl
    authority_lem action (inr e) = rw e refl

-- Let a trace have no violation. Then every boundary that it closes, that is a success or refused and
-- that moves the phase to shipped, found in the projection before it that integration, review and
-- every component had passed, and, if it is a confirmation or a completion, a current approval and
-- every acceptance passed and current.
pub clean_delivery_checked :
    (lower : Text → Text) (frames : List Frame)
    → validate_governance_frames lower frames ≡ []
    → (s : Span) → Memᴰ s (spans_of frames)
    → (s.outcome ≡ Outcome.success) ⊎ (s.outcome ≡ Outcome.refused)
    → Ships s
    → Checked s
clean_delivery_checked lower frames clean s m settled now =
    let obeys = (validate_governance_frames-nil_iff lower frames).0 clean in
    Obeys-Checked lower s settled
      (closed_spans-Obeys lower (trace_has_prepare frames) [] frames obeys s m) now
