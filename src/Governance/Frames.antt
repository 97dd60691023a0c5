-- ===== src/Governance/Frames.antt =====
-- The loop of `validateGovernanceFrames` (packages/schema/src/governance.ts): it pairs each end
-- frame with its begin by the correlation id, and collects the violations of each pair.
pub mod History
pub mod Clean
pub mod Delivery
use legion_cli.Prelude.{
  ℕ, Bool, true, false, not, ◌&&◌, ◌||◌, Option, none, some, List, [], ◌∷◌, ◌++◌, map, filter, any,
  ◌==◌, list_eq, nat_eq, if◌then◌else◌,
}
use legion_cli.Text.{Text}
use legion_cli.Governance.Records.{
  Action, Outcome, Boundary, Frame, Projection, Ship, action_eq, outcome_eq,
}
use legion_cli.Governance.Rules.{Code, Span, span_violations}

pub record Violation : Type 0 where
  pub sequence : ℕ
  pub code : Code

-- `Map<string, GovernanceFrame>`
abbrev pub Begins : Type 0
Begins = List (Text × Frame)

unfoldable pub get_begin : Begins → Text → Option Frame
get_begin [] id = none
get_begin ((k, f) ∷ m) id = if k == id then some f else get_begin m id

abbrev pub delete_begin : Begins → Text → Begins
delete_begin m id = filter (λ (e : Text × Frame). not (e.0 == id)) m

-- `prepared` after the boundary: a successful `ship-prepare` replaces it.
abbrev pub next_prepared : Frame → Projection → Option Ship → Option Ship
next_prepared f after prepared =
    if f.action == Action.ship_prepare && f.outcome == Outcome.success
    then some after.ship
    else prepared

abbrev pub span_of : Bool → Frame → Frame → Projection → Option Ship → Span
span_of has_prepare start f after prepared = record {
  action = f.action;
  outcome = f.outcome;
  before = start.before;
  after = after;
  retried = start.explicit_retry && f.explicit_retry;
  trace_has_prepare = has_prepare;
  prepared = next_prepared f after prepared;
}

abbrev pub at_sequence : ℕ → List Code → List Violation
at_sequence n codes = map (λ code. record { sequence = n; code = code }) codes

-- The pair that an end frame closes, if its begin is open and it has a projection.
abbrev pub close : Bool → Option Frame → Option Projection → Frame → Option Ship → Option Span
close has_prepare none after f prepared = none
close has_prepare (some start) none f prepared = none
close has_prepare (some start) (some after) f prepared =
    some (span_of has_prepare start f after prepared)

abbrev pub violations_of : (Text → Text) → ℕ → Option Span → List Violation
violations_of lower n none = []
violations_of lower n (some s) = at_sequence n (span_violations lower s)

abbrev pub prepared_after : Option Span → Option Ship → Option Ship
prepared_after none prepared = prepared
prepared_after (some s) prepared = s.prepared

unfoldable pub validate_from :
    (Text → Text) → Bool → Begins → Option Ship → List Frame → List Violation
unfolding get_begin
validate_from lower has_prepare begins prepared [] = []
validate_from lower has_prepare begins prepared (f ∷ frames) = elim f.boundary [
  | Boundary.begin ↦
      validate_from lower has_prepare ((f.correlation_id, f) ∷ delete_begin begins f.correlation_id)
        prepared frames
  | Boundary.end ↦
      let span = close has_prepare (get_begin begins f.correlation_id) f.after f prepared in
      violations_of lower f.sequence span
      ++ validate_from lower has_prepare (delete_begin begins f.correlation_id)
          (prepared_after span prepared) frames
]

abbrev pub trace_has_prepare : List Frame → Bool
trace_has_prepare frames = any (λ (f : Frame). f.action == Action.ship_prepare) frames

unfoldable pub validate_governance_frames : (Text → Text) → List Frame → List Violation
unfolding validate_from
validate_governance_frames lower frames =
    validate_from lower (trace_has_prepare frames) [] none frames

unfoldable pub governance_outcome_blocks : Outcome → Bool
governance_outcome_blocks outcome = outcome == Outcome.failed || outcome == Outcome.incomplete
