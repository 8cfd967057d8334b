-- ===== src/Defense/L2Lifecycle/Tests.antt =====
-- defense/core/l2-lifecycle.ts: a decision of the open class, and the egress that follows it.
use limitmark.Common.{ℕ, ◌≡◌, refl, true, false, none, some, [], ◌∷◌}
use limitmark.Defense.Request.{open_class}
use limitmark.Defense.Request.Tests.{posted}
use limitmark.Defense.Lanes.{
  open_lane, admitted, bare, LaneDecision, decide, proceeds, is_valid_decision,
}
use limitmark.Defense.Lanes.Tests.{plain_hasher, small_lanes, reads_at}
use limitmark.Defense.Events.{
  l1_entered, l1_passed, l2_entered, egress_attempted, ingress_accepted, PlaneEventKind, PlaneEvent,
  sent, protected, LifecycleView,
}
use limitmark.Defense.Lifecycle.{walk}
use limitmark.Defense.Lifecycle.Check.{validate_lifecycle}
use limitmark.Defense.Lineage.{collect}
use limitmark.Defense.L2Lifecycle.{decision_of, decision_rules, egress_rules, validate_l2_lifecycle}
use limitmark.Defense.L2Lifecycle.Decided.{decided_event, decide-decision_rules}
use limitmark.Defense.L2Lifecycle.Egress.{Proceeds, validate_l2_lifecycle-Proceeds}

abbrev open_decision : LaneDecision
open_decision = bare open_class (some open_lane) admitted

abbrev kind_event : ℕ → PlaneEventKind → PlaneEvent
kind_event seq kind = record (decided_event seq open_decision) { kind = kind }

abbrev forwarded : LifecycleView
forwarded = record {
  expected = protected;
  harness = record { kind = sent; result = none; status = none; outcome_header = none } ∷ [];
  plane =
      kind_event 1 ingress_accepted
      ∷ kind_event 2 l1_entered
      ∷ kind_event 3 l1_passed
      ∷ kind_event 4 l2_entered
      ∷ decided_event 5 open_decision
      ∷ kind_event 6 egress_attempted
      ∷ [];
  origin = [];
  boundary = none;
  app = none;
  l2 = true;
}

forwarded-clean : validate_l2_lifecycle forwarded false ≡ []
unfolding validate_l2_lifecycle decision_rules egress_rules decision_of is_valid_decision proceeds
forwarded-clean = refl

forwarded-plane_clean : validate_lifecycle forwarded false ≡ []
unfolding validate_lifecycle walk
forwarded-plane_clean = refl

validate_l2_lifecycle-Proceeds_example : Proceeds forwarded.plane
validate_l2_lifecycle-Proceeds_example =
    validate_l2_lifecycle-Proceeds forwarded false refl refl forwarded-plane_clean forwarded-clean
      refl

decide-decision_rules_example :
    (decision_of (decided_event 3 (decide plain_hasher small_lanes (reads_at 7) posted).1)
      ≡ some (decide plain_hasher small_lanes (reads_at 7) posted).1)
    × (collect (decision_rules (decide plain_hasher small_lanes (reads_at 7) posted).1) ≡ [])
decide-decision_rules_example = decide-decision_rules plain_hasher small_lanes (reads_at 7) posted 3
