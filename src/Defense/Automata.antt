-- ===== src/Defense/Automata.antt =====
-- defense/core/ledger.ts and defense/core/lineage.ts: the tables of the legal successors.
use limitmark.Common.{ℕ, Option, none, some, List, [], ◌∷◌}
use limitmark.Defense.Events.{
  PlaneEventKind, ingress_accepted, l1_entered, l1_passed, l1_rejected, l1_shed, l1_error,
  egress_attempted, proof_issued, egress_responded, egress_failed, ingress_responded,
  ingress_aborted, l2_entered, l2_decided, l2_enrolled, l2_enroll_skipped, BoundaryEventKind,
  boundary_arrived, boundary_rejected, boundary_admitted, app_proof_issued, boundary_forwarded,
  boundary_forward_responded, boundary_forward_failed, boundary_responded, boundary_aborted,
  boundary_parser_rejected, boundary_protocol_refused, AppEventKind, app_admitted, app_refused,
  app_executed, app_mutated, app_completed, app_aborted,
}

-- `NEXT_PLANE_KINDS`; `START` is `none`.
abbrev pub next_plane : Option PlaneEventKind → List PlaneEventKind
next_plane none = ingress_accepted ∷ []
next_plane (some ingress_accepted) = l1_entered ∷ []
next_plane (some l1_entered) = l1_passed ∷ l1_rejected ∷ l1_shed ∷ l1_error ∷ []
next_plane (some l1_passed) = egress_attempted ∷ []
next_plane (some l1_rejected) = ingress_responded ∷ ingress_aborted ∷ []
next_plane (some l1_shed) = ingress_responded ∷ ingress_aborted ∷ []
next_plane (some l1_error) = ingress_responded ∷ ingress_aborted ∷ []
next_plane (some egress_attempted) = proof_issued ∷ egress_responded ∷ egress_failed ∷ []
next_plane (some proof_issued) = egress_responded ∷ egress_failed ∷ []
next_plane (some egress_responded) = ingress_responded ∷ ingress_aborted ∷ []
next_plane (some egress_failed) = ingress_responded ∷ ingress_aborted ∷ []
next_plane (some ingress_responded) = []
next_plane (some ingress_aborted) = []
next_plane (some l2_entered) = []
next_plane (some l2_decided) = []
next_plane (some l2_enrolled) = []
next_plane (some l2_enroll_skipped) = []

-- `NEXT_PLANE_KINDS_L2`; `START` is `none`.
abbrev pub next_plane_l2 : Option PlaneEventKind → List PlaneEventKind
next_plane_l2 none = ingress_accepted ∷ []
next_plane_l2 (some ingress_accepted) = l1_entered ∷ []
next_plane_l2 (some l1_entered) = l1_passed ∷ l1_rejected ∷ l1_shed ∷ l1_error ∷ []
next_plane_l2 (some l1_passed) = l2_entered ∷ []
next_plane_l2 (some l1_rejected) = ingress_responded ∷ ingress_aborted ∷ []
next_plane_l2 (some l1_shed) = ingress_responded ∷ ingress_aborted ∷ []
next_plane_l2 (some l1_error) = ingress_responded ∷ ingress_aborted ∷ []
next_plane_l2 (some l2_entered) = l2_decided ∷ []
next_plane_l2 (some l2_decided) = egress_attempted ∷ ingress_responded ∷ ingress_aborted ∷ []
next_plane_l2 (some egress_attempted) = proof_issued ∷ egress_responded ∷ egress_failed ∷ []
next_plane_l2 (some proof_issued) = egress_responded ∷ egress_failed ∷ []
next_plane_l2 (some egress_responded) =
    l2_enrolled ∷ l2_enroll_skipped ∷ ingress_responded ∷ ingress_aborted ∷ []
next_plane_l2 (some egress_failed) = l2_enroll_skipped ∷ ingress_responded ∷ ingress_aborted ∷ []
next_plane_l2 (some l2_enrolled) = ingress_responded ∷ ingress_aborted ∷ []
next_plane_l2 (some l2_enroll_skipped) = ingress_responded ∷ ingress_aborted ∷ []
next_plane_l2 (some ingress_responded) = []
next_plane_l2 (some ingress_aborted) = []

-- `NEXT_BOUNDARY_KINDS`; `START` is `none`.
abbrev pub next_boundary : Option BoundaryEventKind → List BoundaryEventKind
next_boundary none = boundary_arrived ∷ []
next_boundary (some boundary_arrived) = boundary_rejected ∷ boundary_admitted ∷ []
next_boundary (some boundary_rejected) = boundary_responded ∷ boundary_aborted ∷ []
next_boundary (some boundary_admitted) =
    app_proof_issued ∷ boundary_responded ∷ boundary_aborted ∷ []
next_boundary (some app_proof_issued) = boundary_forwarded ∷ []
next_boundary (some boundary_forwarded) = boundary_forward_responded ∷ boundary_forward_failed ∷ []
next_boundary (some boundary_forward_responded) = boundary_responded ∷ boundary_aborted ∷ []
next_boundary (some boundary_forward_failed) = boundary_responded ∷ boundary_aborted ∷ []
next_boundary (some boundary_responded) = []
next_boundary (some boundary_aborted) = []
next_boundary (some boundary_parser_rejected) = []
next_boundary (some boundary_protocol_refused) = []

-- `NEXT_APP_KINDS`; `START` is `none`.
abbrev pub next_app : Option AppEventKind → List AppEventKind
next_app none = app_admitted ∷ app_refused ∷ []
next_app (some app_refused) = []
next_app (some app_admitted) = app_executed ∷ app_completed ∷ app_aborted ∷ []
next_app (some app_executed) = app_mutated ∷ app_completed ∷ app_aborted ∷ []
next_app (some app_mutated) = app_completed ∷ app_aborted ∷ []
next_app (some app_completed) = []
next_app (some app_aborted) = []

-- `RANK`, in tenths.
abbrev pub plane_rank : PlaneEventKind → ℕ
plane_rank ingress_accepted = 10
plane_rank l1_entered = 20
plane_rank l1_passed = 30
plane_rank l1_rejected = 30
plane_rank l1_shed = 30
plane_rank l1_error = 30
plane_rank egress_attempted = 40
plane_rank proof_issued = 45
plane_rank egress_responded = 50
plane_rank egress_failed = 50
plane_rank ingress_responded = 60
plane_rank ingress_aborted = 60
plane_rank l2_entered = 32
plane_rank l2_decided = 35
plane_rank l2_enrolled = 55
plane_rank l2_enroll_skipped = 55

-- `BOUNDARY_RANK` and `APP_RANK`.
abbrev pub boundary_rank : BoundaryEventKind → ℕ
boundary_rank boundary_arrived = 1
boundary_rank boundary_rejected = 2
boundary_rank boundary_admitted = 2
boundary_rank app_proof_issued = 3
boundary_rank boundary_forwarded = 4
boundary_rank boundary_forward_responded = 5
boundary_rank boundary_forward_failed = 5
boundary_rank boundary_responded = 6
boundary_rank boundary_aborted = 6
boundary_rank boundary_parser_rejected = 0
boundary_rank boundary_protocol_refused = 0

abbrev pub app_rank : AppEventKind → ℕ
app_rank app_admitted = 1
app_rank app_refused = 1
app_rank app_executed = 2
app_rank app_mutated = 3
app_rank app_completed = 4
app_rank app_aborted = 4
