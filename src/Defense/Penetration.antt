-- ===== src/Defense/Penetration.antt =====
-- defense/core/penetration.ts: how deep one request went, and why it went no further. A terminal
-- explanation is a data type; the texts of its reasons, which are for a reader, are left out.
pub mod Depth
mod Tests
use limitmark.Common.{
  if◌then◌else◌, Bool, true, false, ◌&&◌, ◌||◌, not, Option, none, some, is_some, List,
}
use limitmark.Defense.Lanes.{Lane, unverified, L2Outcome, admitted, shed, error, degraded}
use limitmark.Defense.Events.{
  PlaneEvent, l1_entered, l1_passed, l1_rejected, l1_shed, l1_error, l2_entered, l2_decided,
  egress_attempted, egress_failed, proof_issued, ingress_aborted, canon, sign, boundary_rejected,
  boundary_admitted, app_proof_issued, app_refused, app_admitted, app_executed, app_mutated,
  LifecycleView,
}
use limitmark.Defense.Lifecycle.{find_kind, some_kind}
use limitmark.Defense.Lineage.{find_boundary, find_app, events_of}
use limitmark.Defense.L2Lifecycle.{any_simulated}

pub data PenetrationStage : Type 0 where
  no_stage l1_stage l2_stage canon_stage pb_stage boundary_stage ba_stage app_admitted_stage
        app_executed_stage app_mutated_stage :
      PenetrationStage

pub data L1State : Type 0 where
  natural_pass simulated_pass l1_state_rejected l1_state_shed l1_state_error l1_skipped
        l1_not_reached :
      L1State

pub data L2State : Type 0 where
  l2_admitted quarantined l2_state_shed l2_state_error l2_degraded l2_skipped l2_not_reached :
      L2State

pub data Explanation : Type 0 where
  explained_l1_rejected explained_l1_shed explained_l1_error no_plane_decision explained_l2_shed
        explained_l2_error client_aborted no_egress canon_refused plane_issue_refused sign_refused
        no_proof explained_boundary_rejected explained_egress_failed boundary_undecided
        app_proof_not_issued explained_app_refused app_undecided app_admitted_not_executed
        app_executed_no_mutation explained_app_mutated :
      Explanation

pub record PenetrationRecord : Type 0 where
  pub is_simulated : Bool
  pub l1 : L1State
  pub l2 : L2State
  pub lane : Option Lane
  pub deepest : PenetrationStage
  pub terminal : Explanation

pub l1_state_of : List PlaneEvent → L1State
l1_state_of plane =
    if not (some_kind l1_entered plane)
    then (if some_kind egress_attempted plane then l1_skipped else l1_not_reached)
    else elim (find_kind l1_passed plane) [
      | some e ↦ (if e.simulated then simulated_pass else natural_pass)
      | none ↦
          if some_kind l1_rejected plane
          then l1_state_rejected
          else if some_kind l1_shed plane
          then l1_state_shed
          else if some_kind l1_error plane
          then l1_state_error
          else l1_not_reached
    ]

abbrev decided_state : Option Lane → Option L2Outcome → L2State
decided_state (some unverified) (some admitted) = quarantined
decided_state lane (some admitted) = l2_admitted
decided_state lane (some degraded) = l2_degraded
decided_state lane (some shed) = l2_state_shed
decided_state lane outcome = l2_state_error

abbrev flat_lane : Option (Option Lane) → Option Lane
flat_lane none = none
flat_lane (some lane) = lane

-- The state of the second layer, and the lane of its decision.
pub l2_state_of : LifecycleView → L2State × Option Lane
l2_state_of view =
    if not view.l2
    then (l2_not_reached, none)
    else if not (some_kind l2_entered view.plane)
    then (if some_kind egress_attempted view.plane
        then (l2_skipped, none)
        else (l2_not_reached, none))
    else elim (find_kind l2_decided view.plane) [
      | none ↦ (l2_not_reached, none)
      | some e ↦ (decided_state (flat_lane e.lane) e.outcome, flat_lane e.lane)
    ]

-- The stages from the boundary on.
pub depth_after_proof : LifecycleView → PenetrationStage × Explanation
depth_after_proof view =
    let bs = events_of view.boundary in
    let apps = events_of view.app in
    let failed = some_kind egress_failed view.plane in
    if is_some (find_boundary boundary_rejected bs)
    then (pb_stage, explained_boundary_rejected)
    else if not (is_some (find_boundary boundary_admitted bs))
    then (pb_stage, if failed then explained_egress_failed else boundary_undecided)
    else if not (is_some (find_boundary app_proof_issued bs))
    then (boundary_stage, app_proof_not_issued)
    else if is_some (find_app app_refused apps)
    then (ba_stage, explained_app_refused)
    else if not (is_some (find_app app_admitted apps))
    then (ba_stage, if failed then explained_egress_failed else app_undecided)
    else if not (is_some (find_app app_executed apps))
    then (app_admitted_stage, app_admitted_not_executed)
    else if is_some (find_app app_mutated apps)
    then (app_mutated_stage, explained_app_mutated)
    else (app_executed_stage, app_executed_no_mutation)

abbrev refused_before_proof : PlaneEvent → Option Explanation
refused_before_proof e = elim e.fail_stage [
  | none ↦ some plane_issue_refused
  | some stage ↦ (elim stage [ canon ↦ some canon_refused | sign ↦ none ])
]

-- The stages from the egress on; the first argument is the stage reached before.
pub depth_after_egress : PenetrationStage → LifecycleView → PenetrationStage × Explanation
unfolding depth_after_proof
depth_after_egress before view =
    let rest = depth_after_proof view in
    let failed = find_kind egress_failed view.plane in
    if some_kind proof_issued view.plane then rest else elim failed [
      | none ↦ (canon_stage, no_proof)
      | some e ↦ elim (refused_before_proof e) [
        | some why ↦ (before, why)
        | none ↦ (canon_stage, sign_refused)
      ]
    ]

abbrev l2_stopped : L2State → Option Explanation
l2_stopped l2_state_shed = some explained_l2_shed
l2_stopped l2_state_error = some explained_l2_error
l2_stopped state = none

abbrev stage_before_egress : L2State → PenetrationStage
stage_before_egress l2_not_reached = l1_stage
stage_before_egress l2_skipped = l1_stage
stage_before_egress state = l2_stage

-- The stages from the second layer on.
pub depth_after_l1 : L2State → LifecycleView → PenetrationStage × Explanation
unfolding depth_after_egress
depth_after_l1 l2 view =
    let rest = depth_after_egress (stage_before_egress l2) view in
    elim (l2_stopped l2) [
      | some why ↦ (l1_stage, why)
      | none ↦ if some_kind egress_attempted view.plane then rest else (
        stage_before_egress l2,
        if some_kind ingress_aborted view.plane then client_aborted else no_egress,
      )
    ]

abbrev l1_stopped : L1State → Option Explanation
l1_stopped l1_state_rejected = some explained_l1_rejected
l1_stopped l1_state_shed = some explained_l1_shed
l1_stopped l1_state_error = some explained_l1_error
l1_stopped l1_not_reached = some no_plane_decision
l1_stopped state = none

pub penetration_of : LifecycleView → PenetrationRecord
unfolding l1_state_of l2_state_of depth_after_l1
penetration_of view =
    let simulated = any_simulated view.plane in
    let l1 = l1_state_of view.plane in
    let (l2, lane) = l2_state_of view in
    let (deepest, terminal) = depth_after_l1 l2 view in
    elim (l1_stopped l1) [
      | some why ↦ record {
        is_simulated = simulated;
        l1 = l1;
        l2 = l2_not_reached;
        lane = none;
        deepest = no_stage;
        terminal = why;
      }
      | none ↦ record {
        is_simulated = simulated;
        l1 = l1;
        l2 = l2;
        lane = lane;
        deepest = deepest;
        terminal = terminal;
      }
    ]

abbrev is_natural_pass : L1State → Bool
is_natural_pass natural_pass = true
is_natural_pass state = false

pub is_natural_l1_bypass : PenetrationRecord → Bool
is_natural_l1_bypass r = not r.is_simulated && is_natural_pass r.l1
