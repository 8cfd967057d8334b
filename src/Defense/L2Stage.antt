-- ===== src/Defense/L2Stage.antt =====
-- defense/plane/l2-stage.ts and defense/layers/a7-journey-lanes.ts: one decision of the second
-- layer, cut where it awaits the composer, and the observation of one render. The wrapper of the
-- layer, which the normal entry leaves out, is the freedom of the winner that `finish` is given.
pub mod Rules
pub mod Closed
pub mod Observed
pub mod Tests
use limitmark.Common.{
  ℕ, if◌then◌else◌, Bool, true, false, ◌||◌, Option, none, some, is_some, List, [], ◌∷◌, String,
}
use limitmark.Defense.Reasons.{
  RejectReason, reason_name, lane_credited_budget, lane_unverified_budget,
}
use limitmark.Defense.Request.{LayerRequest, OperationClass, operation_class_of, is_form_route}
use limitmark.Defense.CreditFilter.{filter_stats}
use limitmark.Defense.Bucket.{Clock}
use limitmark.Defense.Lanes.{
  Lane, credited, L2Outcome, admitted, shed, error, degraded, LaneDecision, L2Failure, saturation,
  thrown, timed_out, malformed, failure_decision, Hasher, JourneyLanes, Reads, decide, enroll,
  record_decision,
}
use limitmark.Defense.Composer.{
  LayerOutcome, pass, reject, LayerErrorKind, throw, timeout, invalid_verdict, Composer, Run,
  Winner, verdict, object, start, resume,
}
use limitmark.Defense.Events.{
  EnrollSkipReason, degraded_skip, simulated_skip, upstream_failed, delivery_incomplete,
  already_enrolled,
}
use limitmark.Defense.Enrollment.{ObservationVerdict, matched, unmatched, evaluate_observation}

abbrev lane_reason : Option Lane → RejectReason
lane_reason (some credited) = lane_credited_budget
lane_reason lane = lane_unverified_budget

abbrev pub verdict_of : L2Outcome → Option Lane → Winner
verdict_of admitted lane = verdict (object (some "pass") none)
verdict_of shed lane = verdict (object (some "reject") (some (reason_name (lane_reason lane))))
verdict_of outcome lane = Winner.thrown

-- What `JourneyLanesLayer.evaluate` makes of a decision: a verdict, or an exception.
pub layer_winner : LaneDecision → Winner
layer_winner d = verdict_of d.outcome d.lane

pub record Stage : Type 0 where
  pub lanes : JourneyLanes
  pub composer : Composer

-- A request whose evaluation the composer awaits, with the decision that the lanes made for it.
pub record Pending : Type 0 where
  pub run : Run
  pub made : LaneDecision

abbrev failure_of : LayerErrorKind → L2Failure
failure_of throw = thrown
failure_of timeout = timed_out
failure_of invalid_verdict = malformed

abbrev made_or : Option LaneDecision → LaneDecision → LaneDecision
made_or none d = d
made_or (some made) d = made

-- What a discarded decision had consumed is reported with the failure.
abbrev discard : LaneDecision → LaneDecision → LaneDecision
discard d made = elim made.lane [
  | none ↦ d
  | some lane ↦ elim made.outcome [
    | admitted ↦ record d { spent = some lane; dt = made.dt; lvl = made.lvl; lseq = made.lseq }
    | shed ↦ record d { touched = some lane; dt = made.dt; lvl = made.lvl; lseq = made.lseq }
    | _ ↦ d
  ]
]

abbrev is_error : LaneDecision → Bool
is_error d = elim d.outcome [ error ↦ true | _ ↦ false ]

-- The decision of the stage, by the outcome of the composer and the decision taken from the layer.
pub stage_decision : OperationClass → LayerOutcome → Option LaneDecision → LaneDecision
stage_decision cls pass made = made_or made (failure_decision cls malformed)
stage_decision cls (reject reason) made = made_or made (failure_decision cls malformed)
stage_decision cls LayerOutcome.shed made = failure_decision cls saturation
stage_decision cls (LayerOutcome.error kind) none = failure_decision cls (failure_of kind)
stage_decision cls (LayerOutcome.error kind) (some made) =
    if is_error made then made else discard (failure_decision cls (failure_of kind)) made

abbrev class_of : LayerRequest → OperationClass
class_of request = operation_class_of request.method request.target

-- The decision is counted.
abbrev recorded : Stage → LaneDecision → Stage × LaneDecision
recorded s d = (record s { lanes = record_decision s.lanes d }, d)

-- What `decide` has after its first synchronous part: a shed decision, or a pending evaluation.
pub data Begun : Type 0 where
  refused : LaneDecision → Begun
  pending : Pending → Begun

module _ (h : Hasher) where
  -- `decide` up to the `await` of the composer, which evaluates the layer at once.
  pub begin : Stage → Reads → ℕ → LayerRequest → Stage × Begun
  unfolding stage_decision
  begin s r now request =
      let (composer, run) = start s.composer now in
      elim run [
        | none ↦
            let (t, d) =
              recorded (record s { composer = composer })
                (stage_decision (class_of request) LayerOutcome.shed none) in
            (t, refused d)
        | some run ↦
            let (lanes, made) = decide h s.lanes r request in
            (
              record { lanes = lanes; composer = composer },
              pending (record { run = run; made = made }),
            )
      ]

-- The outcome that the composer returns for a run.
abbrev outcome_of : Option LayerOutcome → LayerOutcome
outcome_of none = LayerOutcome.error throw
outcome_of (some outcome) = outcome

-- `decide` behind the `await`.
pub finish : Stage → Pending → Winner → ℕ → LayerRequest → Stage × LaneDecision
unfolding stage_decision
finish s p winner now request =
    let (composer, run) = resume s.composer p.run winner now in
    recorded (record s { composer = composer })
      (stage_decision (class_of request) (outcome_of run.outcome) (some p.made))

pub record Observation : Type 0 where
  pub verdict : Option ObservationVerdict
  pub done : Bool
  pub early : Option EnrollSkipReason

abbrev early_reason : LaneDecision → Bool → Option EnrollSkipReason
early_reason d simulated = elim d.outcome [
  | degraded ↦ some degraded_skip
  | _ ↦ if simulated || d.simulated then some simulated_skip else none
]

pub observe : LayerRequest → LaneDecision → Bool → Option Observation
observe request d simulated =
    if is_form_route request.method request.target
    then some (record { verdict = none; done = false; early = early_reason d simulated })
    else none

pub record Upstream : Type 0 where
  pub status : ℕ
  pub raw_headers : List (List ℕ)
  pub payload : List ℕ

-- The front drops an exception of the observer, which leaves the observation as it was.
pub on_upstream : Observation → Upstream → ℕ → Observation
on_upstream o u max_bytes =
    if o.done || is_some o.early || is_some o.verdict
    then o
    else record o { verdict = evaluate_observation u.status u.raw_headers u.payload max_bytes }

pub data EnrollmentEvent : Type 0 where
  enrolled : String → ℕ × ℕ → EnrollmentEvent
  skipped : EnrollSkipReason → EnrollmentEvent

abbrev waiting_token : Observation → Option (List ℕ)
waiting_token o = if o.done || is_some o.early then none else elim o.verdict [
  | none ↦ none
  | some (unmatched reason) ↦ none
  | some (matched token) ↦ some token
]

-- The last reading of the clock is that of the filter's statistics.
pub on_delivered :
    Hasher
    → JourneyLanes
    → Reads
    → Clock
    → Observation
    → JourneyLanes × Observation × List EnrollmentEvent
on_delivered h lanes r now o = elim (waiting_token o) [
  | none ↦ (lanes, o, [])
  | some token ↦
      let (after, tag) = enroll h lanes r token in
      elim tag [
        | none ↦ (after, record o { done = true }, skipped already_enrolled ∷ [])
        | some tag ↦
            let (filter, fill) = filter_stats after.filter now in
            (record after { filter = filter }, record o { done = true }, enrolled tag fill ∷ [])
      ]
]

abbrev final_reason : Observation → EnrollSkipReason
final_reason o = elim o.early [
  | some reason ↦ reason
  | none ↦ elim o.verdict [
    | none ↦ upstream_failed
    | some (matched token) ↦ delivery_incomplete
    | some (unmatched reason) ↦ reason
  ]
]

pub finalize : Observation → Observation × List EnrollmentEvent
finalize o = if o.done then (o, []) else (record o { done = true }, skipped (final_reason o) ∷ [])
