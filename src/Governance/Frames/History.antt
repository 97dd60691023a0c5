-- ===== src/Governance/Frames/History.antt =====
-- What the loop of `validateGovernanceFrames` keeps in its map and its variable, described from the
-- frames that it has read: the newest frame stands first.
use legion_cli.Prelude.{
  Bool, ◌&&◌, Option, none, some, List, [], ◌∷◌, ◌==◌, ==_self, list_eq, nat_eq, if◌then◌else◌, ◌≡◌,
  refl, ==_iff, false, Option-cases, Bool-cases, inl, inr, string_eq,
}
use legion_cli.Text.{Text}
use legion_cli.Governance.Records.{Action, Outcome, Boundary, Frame, Ship, action_eq, outcome_eq}
use legion_cli.Governance.Rules.{Span}
use legion_cli.Governance.Frames.{Begins, get_begin, delete_begin, close, prepared_after}

-- The begin frame of a boundary that is still open: the last frame of its id, if that is a begin.
unfoldable pub opened : List Frame → Text → Option Frame
opened [] id = none
opened (f ∷ past) id =
    let older = opened past id in
    if f.correlation_id == id
    then (elim f.boundary [ Boundary.begin ↦ some f | Boundary.end ↦ none ])
    else older

abbrev pub prepared_by : Frame → Option Frame → Option Ship → Option Ship
prepared_by f none older = older
prepared_by f (some start) older = elim f.after [
  | none ↦ older
  | some after ↦
      if f.action == Action.ship_prepare && f.outcome == Outcome.success
      then some after.ship
      else older
]

-- The ship of the last successful `ship-prepare` that closed an open boundary.
unfoldable pub prepared_before : List Frame → Option Ship
unfolding opened
prepared_before [] = none
prepared_before (f ∷ past) =
    let older = prepared_before past in
    elim f.boundary [
      | Boundary.begin ↦ older
      | Boundary.end ↦ prepared_by f (opened past f.correlation_id) older
    ]

-- The boundary that an end frame closes after the frames of `past`.
abbrev pub span_at : Bool → List Frame → Frame → Option Span
span_at has past f = close has (opened past f.correlation_id) f.after f (prepared_before past)

pub get_begin-delete-same : (m : Begins) (id : Text) → get_begin (delete_begin m id) id ≡ none
unfolding get_begin
get_begin-delete-same [] id = refl
get_begin-delete-same ((k, f) ∷ m) id =
    let rec = get_begin-delete-same m id in
    elim (Bool-cases (k == id)) [ inl same ↦ rw same rec | inr other ↦ simp (other, rec) ]

pub get_begin-delete-other :
    (m : Begins) (k id : Text)
    → (k == id) ≡ false
    → get_begin (delete_begin m k) id ≡ get_begin m id
unfolding get_begin
get_begin-delete-other [] k id e = refl
get_begin-delete-other ((j, f) ∷ m) k id e =
    let rec = get_begin-delete-other m k id e in
    elim (Bool-cases (j == k)) [
      | inl same ↦
          let same_id : j ≡ k = (==_iff j k).0 same in
          let apart : (j == id) ≡ false = cc in simp (same, apart, rec)
      | inr other ↦ simp (other, rec)
    ]

-- The map holds the open boundaries.
abbrev pub Represents : Begins → List Frame → Type 0
Represents begins past = (id : Text) → get_begin begins id ≡ opened past id

pub begin-Represents :
    (begins : Begins) (past : List Frame) (f : Frame)
    → f.boundary ≡ Boundary.begin
    → Represents begins past
    → Represents ((f.correlation_id, f) ∷ delete_begin begins f.correlation_id) (f ∷ past)
unfolding opened get_begin
begin-Represents begins past f b r id = elim (Bool-cases (f.correlation_id == id)) [
  | inl same ↦ simp (same, b)
  | inr other ↦ simp (other, get_begin-delete-other begins f.correlation_id id other, r id)
]

pub end-Represents :
    (begins : Begins) (past : List Frame) (f : Frame)
    → f.boundary ≡ Boundary.end
    → Represents begins past
    → Represents (delete_begin begins f.correlation_id) (f ∷ past)
unfolding opened
end-Represents begins past f b r id = elim (Bool-cases (f.correlation_id == id)) [
  | inl same ↦
      let same_id : f.correlation_id ≡ id = (==_iff f.correlation_id id).0 same in
      let gone = get_begin-delete-same begins id in simp (b, same_id, gone, ==_self id)
  | inr other ↦ simp (other, get_begin-delete-other begins f.correlation_id id other, r id)
]

pub prepared_before-begin :
    (past : List Frame) (f : Frame)
    → f.boundary ≡ Boundary.begin
    → prepared_before (f ∷ past) ≡ prepared_before past
unfolding prepared_before
prepared_before-begin past f b = simp b

pub prepared_before-end :
    (has : Bool) (past : List Frame) (f : Frame)
    → f.boundary ≡ Boundary.end
    → prepared_after (span_at has past f) (prepared_before past) ≡ prepared_before (f ∷ past)
unfolding prepared_before
prepared_before-end has past f b =
    simp (b, prepared_by_lem has f (opened past f.correlation_id) (prepared_before past))
  where
    prepared_by_lem :
        (has : Bool) (f : Frame) (start : Option Frame) (older : Option Ship)
        → prepared_after (close has start f.after f older) older ≡ prepared_by f start older
    prepared_by_lem has f none older = refl
    prepared_by_lem has f (some start) older = elim (Option-cases f.after) [
      | inl e ↦ rw e refl
      | inr (after, e) ↦ rw e refl
    ]
