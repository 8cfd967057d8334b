-- ===== src/Defense/Events.antt =====
-- defense/core/ledger.ts: the events that the plane, the boundary, the application, the origin and
-- the harness report of one request. Fields that no modelled check reads are left out, and so
-- are refusals of the HTTP parser, which belong to no request. An absent field is `none`.
use limitmark.Common.{ℕ, Bool, Option, List, String}
use limitmark.Defense.Reasons.{RejectReason}
use limitmark.Defense.Request.{OperationClass}
use limitmark.Defense.Lanes.{Lane, L2Outcome, ShedReason, L2ErrorKind}

pub data PlaneEventKind : Type 0 where
  ingress_accepted l1_entered l1_passed l1_rejected l1_shed l1_error egress_attempted proof_issued
        egress_responded egress_failed ingress_responded ingress_aborted l2_entered l2_decided
        l2_enrolled l2_enroll_skipped :
      PlaneEventKind

-- The kinds, told apart by a number.
abbrev pub plane_index : PlaneEventKind → ℕ
plane_index ingress_accepted = 0
plane_index l1_entered = 1
plane_index l1_passed = 2
plane_index l1_rejected = 3
plane_index l1_shed = 4
plane_index l1_error = 5
plane_index egress_attempted = 6
plane_index proof_issued = 7
plane_index egress_responded = 8
plane_index egress_failed = 9
plane_index ingress_responded = 10
plane_index ingress_aborted = 11
plane_index l2_entered = 12
plane_index l2_decided = 13
plane_index l2_enrolled = 14
plane_index l2_enroll_skipped = 15

pub data EgressErrorKind : Type 0 where
  refused reset timeout egress_error : EgressErrorKind

-- `EnrollSkipReason` of defense/core/enrollment.ts.
pub data EnrollSkipReason : Type 0 where
  not_get_form_route degraded_skip simulated_skip upstream_failed status_not_200 content_type
        body_too_large_skip token_count_zero token_count_multiple delivery_incomplete
        already_enrolled :
      EnrollSkipReason

pub data FailStage : Type 0 where
  canon sign : FailStage

pub record PlaneEvent : Type 0 where
  pub seq : ℕ
  pub kind : PlaneEventKind
  pub reason : Option RejectReason
  pub status : Option ℕ
  pub failure : Option EgressErrorKind
  pub uncorrelated : Bool
  pub external : Bool
  pub pb_tag : Option String
  pub cls : Option OperationClass
  pub lane : Option (Option Lane)
  pub outcome : Option L2Outcome
  pub shed_reason : Option ShedReason
  pub l2_error_kind : Option L2ErrorKind
  pub spent : Option Lane
  pub touched : Option Lane
  pub credit_tag : Option String
  pub dt : Option ℕ
  pub lvl : Option ℕ
  pub lseq : Option ℕ
  pub simulated : Bool
  pub shadow : Option String
  pub skip_reason : Option EnrollSkipReason
  pub has_fill : Bool
  pub fail_stage : Option FailStage

pub data Instance : Type 0 where
  protected_instance control_instance : Instance

pub data OriginEventKind : Type 0 where
  origin_received origin_completed origin_aborted : OriginEventKind

pub record OriginEvent : Type 0 where
  pub instance_of : Instance
  pub kind : OriginEventKind
  pub hop : Option ℕ
  pub status : Option ℕ
  pub spoofed : ℕ

pub data BoundaryEventKind : Type 0 where
  boundary_arrived boundary_rejected boundary_admitted app_proof_issued boundary_forwarded
        boundary_forward_responded boundary_forward_failed boundary_responded boundary_aborted
        boundary_parser_rejected boundary_protocol_refused :
      BoundaryEventKind

-- The kinds, told apart by a number.
abbrev pub boundary_index : BoundaryEventKind → ℕ
boundary_index boundary_arrived = 0
boundary_index boundary_rejected = 1
boundary_index boundary_admitted = 2
boundary_index app_proof_issued = 3
boundary_index boundary_forwarded = 4
boundary_index boundary_forward_responded = 5
boundary_index boundary_forward_failed = 6
boundary_index boundary_responded = 7
boundary_index boundary_aborted = 8
boundary_index boundary_parser_rejected = 9
boundary_index boundary_protocol_refused = 10

pub record BoundaryEvent : Type 0 where
  pub seq : ℕ
  pub kind : BoundaryEventKind
  pub hop : Option ℕ
  pub pb_tag : Option String
  pub ba_tag : Option String
  pub status : Option ℕ

pub data AppEventKind : Type 0 where
  app_admitted app_refused app_executed app_mutated app_completed app_aborted : AppEventKind

-- The kinds, told apart by a number.
abbrev pub app_index : AppEventKind → ℕ
app_index app_admitted = 0
app_index app_refused = 1
app_index app_executed = 2
app_index app_mutated = 3
app_index app_completed = 4
app_index app_aborted = 5

pub record AppEvent : Type 0 where
  pub seq : ℕ
  pub kind : AppEventKind
  pub hop : Option ℕ
  pub pb_tag : Option String
  pub ba_tag : Option String
  pub status : Option ℕ

pub data HarnessEventKind : Type 0 where
  sent client_completed : HarnessEventKind

pub data ClientResultKind : Type 0 where
  response client_reset client_timeout client_error : ClientResultKind

pub record HarnessEvent : Type 0 where
  pub kind : HarnessEventKind
  pub result : Option ClientResultKind
  pub status : Option ℕ
  pub outcome_header : Option String

pub data ExpectedLane : Type 0 where
  protected control pre_ingress external direct_boundary_rejected direct_app_rejected
        positive_control_boundary positive_control_app :
      ExpectedLane

pub record LifecycleView : Type 0 where
  pub expected : ExpectedLane
  pub harness : List HarnessEvent
  pub plane : List PlaneEvent
  pub origin : List OriginEvent
  pub boundary : Option (List BoundaryEvent)
  pub app : Option (List AppEvent)
  pub l2 : Bool
