-- ===== src/Defense/Penetration/Tests.antt =====
-- defense/core/penetration.ts: a request that both layers let through and that reaches a mutation.
use limitmark.Common.{ℕ, ◌≡◌, refl, true, false, none, some, [], ◌∷◌}
use limitmark.Defense.Request.{open_class}
use limitmark.Defense.Lanes.{bare, open_lane, admitted, is_valid_decision, proceeds}
use limitmark.Defense.Events.{
  ingress_accepted, l1_entered, l1_passed, l2_entered, l2_decided, egress_attempted, proof_issued,
  PlaneEventKind, PlaneEvent, boundary_arrived, boundary_admitted, app_proof_issued,
  BoundaryEventKind, BoundaryEvent, app_admitted, app_executed, app_mutated, AppEventKind, AppEvent,
  sent, protected, LifecycleView,
}
use limitmark.Defense.Lifecycle.{walk}
use limitmark.Defense.Lifecycle.Check.{validate_lifecycle}
use limitmark.Defense.Lineage.{validate_origin_lineage, automaton, has_lineage}
use limitmark.Defense.L2Lifecycle.{decision_of, decision_rules, egress_rules, validate_l2_lifecycle}
use limitmark.Defense.L2Lifecycle.Decided.{decided_event}
use limitmark.Defense.Penetration.{
  penetration_of, app_mutated_stage, depth_after_l1, depth_after_egress, depth_after_proof,
  l1_state_of, l2_state_of,
}
use limitmark.Defense.Penetration.Depth.{MutatedThrough, penetration_of-MutatedThrough}

abbrev plane_kind : ℕ → PlaneEventKind → PlaneEvent
plane_kind seq kind = record (decided_event seq (bare open_class (some open_lane) admitted)) {
  kind = kind;
  pb_tag = some "pb";
}

abbrev boundary_kind : ℕ → BoundaryEventKind → BoundaryEvent
boundary_kind seq kind = record {
  seq = seq;
  kind = kind;
  hop = some 6;
  pb_tag = some "pb";
  ba_tag = some "ba";
  status = none;
}

abbrev app_kind : ℕ → AppEventKind → AppEvent
app_kind seq kind = record {
  seq = seq;
  kind = kind;
  hop = some 6;
  pb_tag = some "pb";
  ba_tag = some "ba";
  status = none;
}

abbrev mutating : LifecycleView
mutating = record {
  expected = protected;
  harness = record { kind = sent; result = none; status = none; outcome_header = none } ∷ [];
  plane =
      plane_kind 1 ingress_accepted
      ∷ plane_kind 2 l1_entered
      ∷ plane_kind 3 l1_passed
      ∷ plane_kind 4 l2_entered
      ∷ plane_kind 5 l2_decided
      ∷ plane_kind 6 egress_attempted
      ∷ plane_kind 7 proof_issued
      ∷ [];
  origin = [];
  boundary = some (
      boundary_kind 1 boundary_arrived
      ∷ boundary_kind 2 boundary_admitted
      ∷ boundary_kind 3 app_proof_issued
      ∷ []);
  app = some (app_kind 1 app_admitted ∷ app_kind 2 app_executed ∷ app_kind 3 app_mutated ∷ []);
  l2 = true;
}

mutating-deepest : (penetration_of mutating).deepest ≡ app_mutated_stage
unfolding penetration_of depth_after_l1 depth_after_egress depth_after_proof l1_state_of l2_state_of
mutating-deepest = refl

mutating-plane_clean : validate_lifecycle mutating false ≡ []
unfolding validate_lifecycle walk
mutating-plane_clean = refl

mutating-lineage_clean : validate_origin_lineage mutating false ≡ []
unfolding validate_origin_lineage automaton has_lineage
mutating-lineage_clean = refl

mutating-l2_clean : validate_l2_lifecycle mutating false ≡ []
unfolding validate_l2_lifecycle decision_rules egress_rules decision_of is_valid_decision proceeds
mutating-l2_clean = refl

penetration_of-MutatedThrough_example : MutatedThrough mutating
penetration_of-MutatedThrough_example =
    penetration_of-MutatedThrough mutating false refl mutating-plane_clean mutating-lineage_clean
      mutating-l2_clean mutating-deepest
