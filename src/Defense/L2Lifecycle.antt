-- ===== src/Defense/L2Lifecycle.antt =====
-- defense/core/l2-lifecycle.ts: the rules of the second layer over one request's plane stream.
pub mod Decided
pub mod Egress
mod Tests
use limitmark.Common.{
  ℕ, suc, ltb, ◌==◌, not, if◌then◌else◌, Bool, true, false, ◌&&◌, ◌||◌, Option, none, some, is_some,
  List, [], ◌∷◌, ◌++◌, String,
}
use limitmark.Defense.Anomaly.{
  AnomalyCode, layer_skipped, l2_decision_invalid, missing_transition, l2_refused_but_egressed,
  l2_enrollment_invalid,
}
use limitmark.Defense.Request.{OperationClass, open_class}
use limitmark.Defense.Lanes.{
  Lane, open_lane, credited, unverified, L2Outcome, admitted, shed, error, degraded, LaneDecision,
  proceeds, is_valid_decision,
}
use limitmark.Defense.Events.{
  PlaneEvent, l1_entered, l2_entered, l2_decided, l2_enrolled, l2_enroll_skipped, egress_attempted,
  egress_responded, ingress_aborted, EnrollSkipReason, degraded_skip, simulated_skip, LifecycleView,
}
use limitmark.Defense.Lifecycle.{find_kind, some_kind, is_kind}
use limitmark.Defense.Lifecycle.Check.{protected_like}
use limitmark.Defense.Lineage.{Rules, collect}

-- `decisionOf`.
unfoldable pub decision_of : PlaneEvent → Option LaneDecision
decision_of e = elim e.cls [
  | none ↦ none
  | some cls ↦ elim e.lane [
    | none ↦ none
    | some lane ↦ elim e.outcome [
      | none ↦ none
      | some outcome ↦ some (record {
        cls = cls;
        lane = lane;
        outcome = outcome;
        shed_reason = e.shed_reason;
        error_kind = e.l2_error_kind;
        credit_tag = e.credit_tag;
        spent = e.spent;
        touched = e.touched;
        dt = e.dt;
        lvl = e.lvl;
        lseq = e.lseq;
        simulated = e.simulated;
        shadow = e.shadow;
      })
    ]
  ]
]

abbrev pub is_bucketed : Option Lane → Bool
is_bucketed (some credited) = true
is_bucketed (some unverified) = true
is_bucketed lane = false

abbrev pub is_open : Option Lane → Bool
is_open (some open_lane) = true
is_open lane = false

abbrev pub is_credited : Option Lane → Bool
is_credited (some credited) = true
is_credited lane = false

abbrev pub is_admitted : L2Outcome → Bool
is_admitted admitted = true
is_admitted outcome = false

abbrev pub is_degraded : L2Outcome → Bool
is_degraded degraded = true
is_degraded outcome = false

abbrev pub is_refusal : L2Outcome → Bool
is_refusal error = true
is_refusal shed = true
is_refusal outcome = false

abbrev pub differ : Bool → Bool → Bool
differ true b = not b
differ false b = b

-- The rules on a decision by itself.
unfoldable pub decision_rules : LaneDecision → Rules
decision_rules d =
    let discarded = is_some d.spent || is_some d.touched in
    (not (is_valid_decision d), l2_decision_invalid)
    ∷ (
      is_bucketed d.lane && not (is_some d.dt && is_some d.lvl && is_some d.lseq),
      l2_decision_invalid,
    )
    ∷ (is_open d.lane && (is_some d.dt || is_some d.lseq), l2_decision_invalid)
    ∷ (
      differ (is_credited d.lane && is_admitted d.outcome) (is_some d.credit_tag),
      l2_decision_invalid,
    )
    ∷ (discarded && not (is_refusal d.outcome), l2_decision_invalid)
    ∷ (discarded && is_some d.lane, l2_decision_invalid)
    ∷ (differ d.simulated (is_some d.shadow), l2_decision_invalid)
    ∷ []

-- The rules on a decision in its stream.
unfoldable pub egress_rules : List PlaneEvent → Bool → LaneDecision → Rules
egress_rules plane final d =
    let attempted = some_kind egress_attempted plane in
    (not (proceeds d) && attempted, l2_refused_but_egressed)
    ∷ (
      final && proceeds d && not attempted && not (some_kind ingress_aborted plane),
      missing_transition,
    )
    ∷ []

abbrev pub count_kind : (PlaneEvent → Bool) → List PlaneEvent → ℕ
count_kind p [] = 0
count_kind p (e ∷ es) = let rest = count_kind p es in if p e then suc rest else rest

abbrev pub any_simulated : List PlaneEvent → Bool
any_simulated [] = false
any_simulated (e ∷ es) = e.simulated || any_simulated es

abbrev pub is_open_class : OperationClass → Bool
is_open_class open_class = true
is_open_class cls = false

abbrev is_skip : Option EnrollSkipReason → Bool → Bool
is_skip none simulated = false
is_skip (some degraded_skip) simulated = not simulated
is_skip (some simulated_skip) simulated = simulated
is_skip reason simulated = false

-- The rules on one disposition; the `continue` of the source leaves the others out.
abbrev pub disposition_rules : List PlaneEvent → Option LaneDecision → PlaneEvent → Rules
disposition_rules plane none e = (true, l2_enrollment_invalid) ∷ []
disposition_rules plane (some d) e =
    let simulated = any_simulated plane in
    if not (is_open_class d.cls) || not (proceeds d)
    then (true, l2_enrollment_invalid) ∷ []
    else if is_kind l2_enrolled e
    then (simulated || not (is_admitted d.outcome), l2_enrollment_invalid)
      ∷ (not (is_some e.credit_tag) || not e.has_fill, l2_enrollment_invalid)
      ∷ (not (some_kind egress_responded plane), l2_enrollment_invalid)
      ∷ []
    else (not (is_some e.skip_reason), l2_enrollment_invalid)
      ∷ (differ (is_skip e.skip_reason false) (is_degraded d.outcome), l2_enrollment_invalid)
      ∷ (is_skip e.skip_reason true && not simulated, l2_enrollment_invalid)
      ∷ []

abbrev pub is_disposition : PlaneEvent → Bool
is_disposition e = is_kind l2_enrolled e || is_kind l2_enroll_skipped e

abbrev pub each_disposition :
    List PlaneEvent → Option LaneDecision → List PlaneEvent → List AnomalyCode
each_disposition plane d [] = []
each_disposition plane d (e ∷ es) =
    let rest = each_disposition plane d es in
    if is_disposition e then collect (disposition_rules plane d e) ++ rest else rest

abbrev pub entry_rules : List PlaneEvent → Bool → Rules
entry_rules plane final =
    let entered = count_kind (is_kind l2_entered) plane in
    let decided = count_kind (is_kind l2_decided) plane in
    let attempted = some_kind egress_attempted plane in
    (attempted && not (some_kind l1_entered plane), layer_skipped)
    ∷ (attempted && some_kind l1_entered plane && not (some_kind l2_entered plane), layer_skipped)
    ∷ (ltb entered decided, l2_decision_invalid)
    ∷ (
      final && (entered == 1) && (decided == 0) && not (some_kind ingress_aborted plane),
      missing_transition,
    )
    ∷ []

abbrev pub decided_check : List PlaneEvent → Bool → Option LaneDecision → List AnomalyCode
decided_check plane final none = l2_decision_invalid ∷ []
decided_check plane final (some d) =
    collect (decision_rules d) ++ collect (egress_rules plane final d)

abbrev pub decided : List PlaneEvent → Option LaneDecision
decided plane = elim (find_kind l2_decided plane) [ none ↦ none | some e ↦ decision_of e ]

unfoldable pub validate_l2_lifecycle : LifecycleView → Bool → List AnomalyCode
unfolding decision_rules egress_rules
validate_l2_lifecycle view final =
    let plane = view.plane in
    let dispositions = count_kind is_disposition plane in
    let found =
      collect (entry_rules plane final)
      ++ (if some_kind l2_decided plane then decided_check plane final (decided plane) else [])
      ++ collect ((ltb 1 dispositions, l2_enrollment_invalid) ∷ [])
      ++ each_disposition plane (decided plane) plane in
    if view.l2 && protected_like view.expected then found else []
