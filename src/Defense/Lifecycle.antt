-- ===== src/Defense/Lifecycle.antt =====
-- defense/core/ledger.ts: the validation of one request's lifecycle.
pub mod Check
pub mod Plane
pub mod Passage
pub mod Terminal
mod Tests
use limitmark.Common.{
  ℕ, suc, ◌+◌, ltb, leb, ◌==◌, not, if◌then◌else◌, Bool, true, false, ◌&&◌, ◌||◌, Option, none,
  some, is_some, List, [], ◌∷◌, ◌++◌, String, str_eq, length, filter, any,
}
use limitmark.Defense.Reasons.{RejectReason, reject_status}
use limitmark.Defense.Anomaly.{
  AnomalyCode, duplicate_terminal, duplicate_event, impossible_order, missing_transition,
  ingress_loss, disappeared_after_ingress, unresolved_at_finalization, sent_without_completion,
  plane_event_on_unexpected_lane, uncorrelated_ingress, external_unclaimed_downstream,
  duplicate_origin_processing, origin_lane_mismatch, origin_spoofed_header_seen,
  origin_without_l1_pass, origin_hop_mismatch, origin_status_mismatch, plane_status_mismatch,
  client_status_mismatch, outcome_header_mismatch,
}
use limitmark.Defense.Lanes.{L2Outcome, admitted, shed, error, degraded}
use limitmark.Defense.Events.{
  PlaneEventKind, plane_index, l1_passed, l1_rejected, l1_shed, l1_error, l2_decided,
  egress_attempted, egress_failed, egress_responded, ingress_responded, ingress_aborted,
  EgressErrorKind, timeout, PlaneEvent, Instance, protected_instance, control_instance,
  OriginEventKind, origin_received, origin_completed, origin_aborted, OriginEvent, HarnessEventKind,
  sent, client_completed, ClientResultKind, response, HarnessEvent, ExpectedLane, protected,
  control, pre_ingress, external, positive_control_boundary, positive_control_app, LifecycleView,
}
use limitmark.Defense.Automata.{next_plane, next_plane_l2, plane_rank}

abbrev pub same_kind : PlaneEventKind → PlaneEventKind → Bool
same_kind a b = plane_index a == plane_index b

abbrev pub includes : PlaneEventKind → List PlaneEventKind → Bool
includes k [] = false
includes k (j ∷ js) = same_kind j k || includes k js

abbrev pub is_kind : PlaneEventKind → PlaneEvent → Bool
is_kind k e = same_kind e.kind k

-- `find` and `some` of a list of plane events, for one kind.
abbrev pub find_kind : PlaneEventKind → List PlaneEvent → Option PlaneEvent
find_kind k [] = none
find_kind k (e ∷ es) = let rest = find_kind k es in if is_kind k e then some e else rest

abbrev pub some_kind : PlaneEventKind → List PlaneEvent → Bool
some_kind k [] = false
some_kind k (e ∷ es) = is_kind k e || some_kind k es

abbrev pub is_final : PlaneEventKind → Bool
is_final k = same_kind k ingress_responded || same_kind k ingress_aborted

abbrev rank_of : Option PlaneEventKind → ℕ
rank_of none = 0
rank_of (some k) = plane_rank k

abbrev is_final_state : Option PlaneEventKind → Bool
is_final_state none = false
is_final_state (some k) = is_final k

pub classify_violation : Option PlaneEventKind → PlaneEventKind → List PlaneEventKind → AnomalyCode
classify_violation previous kind seen =
    if is_final_state previous
    then duplicate_terminal
    else if includes kind seen
    then duplicate_event
    else if leb (plane_rank kind) (rank_of previous)
    then impossible_order
    else missing_transition

-- `LAYER_VERDICT_KINDS`.
abbrev pub is_layer_verdict : PlaneEvent → Bool
is_layer_verdict e = includes e.kind (l1_passed ∷ l1_rejected ∷ l1_shed ∷ l1_error ∷ [])

abbrev pub layer_verdict : List PlaneEvent → Option PlaneEvent
layer_verdict [] = none
layer_verdict (e ∷ es) = let rest = layer_verdict es in if is_layer_verdict e then some e else rest

abbrev pub verdict_count : List PlaneEvent → ℕ
verdict_count [] = 0
verdict_count (e ∷ es) =
    let rest = verdict_count es in if is_layer_verdict e then suc rest else rest

abbrev is_refused_outcome : Option L2Outcome → Bool
is_refused_outcome (some shed) = true
is_refused_outcome (some error) = true
is_refused_outcome outcome = false

abbrev l2_refused : Bool → List PlaneEvent → Bool
l2_refused false plane = false
l2_refused true plane = elim (find_kind l2_decided plane) [
  | none ↦ false
  | some decided ↦ is_refused_outcome decided.outcome
]

abbrev egress_status : Option EgressErrorKind → ℕ
egress_status (some timeout) = 504
egress_status failure = 502

abbrev passed_status : Bool → List PlaneEvent → Option ℕ
passed_status l2 plane =
    if l2_refused l2 plane then some 503 else elim (find_kind egress_failed plane) [
      | some failed ↦ some (egress_status failed.failure)
      | none ↦ elim (find_kind egress_responded plane) [
        | none ↦ none
        | some responded ↦ responded.status
      ]
    ]

unfoldable pub plane_status_for : LifecycleView → Option ℕ
plane_status_for view = elim (layer_verdict view.plane) [
  | none ↦ none
  | some verdict ↦ elim verdict.kind [
    | l1_rejected ↦ (elim verdict.reason [
      | none ↦ none
      | some reason ↦ some (reject_status reason)
    ])
    | l1_shed ↦ some 503
    | l1_error ↦ some 503
    | _ ↦ passed_status view.l2 view.plane
  ]
]

-- `TerminalOutcome`, and `L2TerminalOutcome` with its last two.
pub data TerminalOutcome : Type 0 where
  rejected_outcome shed_outcome error_outcome proxied_outcome egress_failed_outcome
        client_aborted_outcome l2_shed_outcome l2_error_outcome :
      TerminalOutcome

unfoldable pub terminal_outcome : List PlaneEvent → Option TerminalOutcome
terminal_outcome plane =
    if some_kind ingress_aborted plane
    then some client_aborted_outcome
    else if not (some_kind ingress_responded plane)
    then none
    else if some_kind l1_rejected plane
    then some rejected_outcome
    else if some_kind l1_shed plane
    then some shed_outcome
    else if some_kind l1_error plane
    then some error_outcome
    else if some_kind egress_failed plane
    then some egress_failed_outcome
    else if some_kind egress_responded plane
    then some proxied_outcome
    else none

pub terminal_outcome_l2 : List PlaneEvent → Option TerminalOutcome
unfolding terminal_outcome
terminal_outcome_l2 plane =
    let base = terminal_outcome plane in
    elim (find_kind l2_decided plane) [
      | none ↦ base
      | some decided ↦
          if some_kind ingress_responded plane && not (some_kind ingress_aborted plane)
          then (elim decided.outcome [
            | some shed ↦ some l2_shed_outcome
            | some error ↦ some l2_error_outcome
            | _ ↦ base
          ])
          else base
    ]

-- `OUTCOME_HEADER_VALUE`, and the names of the outcomes of the second layer.
abbrev pub outcome_header_value : TerminalOutcome → String
outcome_header_value rejected_outcome = "rejected"
outcome_header_value shed_outcome = "shed"
outcome_header_value error_outcome = "error"
outcome_header_value proxied_outcome = "proxied"
outcome_header_value egress_failed_outcome = "egress_failed"
outcome_header_value client_aborted_outcome = "client_aborted"
outcome_header_value l2_shed_outcome = "l2_shed"
outcome_header_value l2_error_outcome = "l2_error"

-- `if (condition) add(code)`.
abbrev pub when : Bool → AnomalyCode → List AnomalyCode
when true code = code ∷ []
when false code = []

abbrev pub next_of : Bool → Option PlaneEventKind → List PlaneEventKind
next_of true previous = next_plane_l2 previous
next_of false previous = next_plane previous

-- The loop over the plane's events: the anomalies found and the last kind. `above` is one more than
-- the last sequence number.
unfoldable pub walk :
    Bool
    → Option PlaneEventKind
    → List PlaneEventKind
    → ℕ
    → List PlaneEvent
    → List AnomalyCode × Option PlaneEventKind
walk l2 previous seen above [] = ([], previous)
walk l2 previous seen above (e ∷ es) =
    let (found, last) = walk l2 (some e.kind) (e.kind ∷ seen) (suc e.seq) es in
    (
      when (ltb e.seq above) impossible_order
          ++ when (not (includes e.kind (next_of l2 previous)))
              (classify_violation previous e.kind seen)
          ++ found,
      last,
    )
