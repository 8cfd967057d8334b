-- ===== src/Defense/Lineage/Tests.antt =====
-- defense/core/lineage.ts: a request with the whole chain, and a direct attempt that was refused.
use limitmark.Common.{ℕ, ◌≡◌, refl, inl, true, false, none, some, List, [], ◌∷◌}
use limitmark.Defense.Events.{
  egress_attempted, proof_issued, PlaneEventKind, PlaneEvent, boundary_arrived, boundary_rejected,
  boundary_admitted, app_proof_issued, BoundaryEventKind, BoundaryEvent, app_admitted, app_executed,
  app_completed, AppEventKind, AppEvent, protected, direct_boundary_rejected, ExpectedLane,
  LifecycleView,
}
use limitmark.Defense.Lineage.{
  validate_origin_lineage, automaton, has_lineage, protected_lineage_complete,
}
use limitmark.Defense.Lineage.Chain.{validate_origin_lineage-protected_lineage_complete}
use limitmark.Defense.Lineage.Direct.{RefusedDirectly, validate_origin_lineage-direct}

abbrev plane_event : ℕ → PlaneEventKind → PlaneEvent
plane_event seq kind = record {
  seq = seq;
  kind = kind;
  reason = none;
  status = none;
  failure = none;
  uncorrelated = false;
  external = false;
  pb_tag = some "pb";
  cls = none;
  lane = none;
  outcome = none;
  shed_reason = none;
  l2_error_kind = none;
  spent = none;
  touched = none;
  credit_tag = none;
  dt = none;
  lvl = none;
  lseq = none;
  simulated = false;
  shadow = none;
  skip_reason = none;
  has_fill = false;
  fail_stage = none;
}

abbrev boundary_event : ℕ → BoundaryEventKind → BoundaryEvent
boundary_event seq kind = record {
  seq = seq;
  kind = kind;
  hop = some 4;
  pb_tag = some "pb";
  ba_tag = some "ba";
  status = none;
}

abbrev app_event : ℕ → AppEventKind → AppEvent
app_event seq kind = record {
  seq = seq;
  kind = kind;
  hop = some 4;
  pb_tag = some "pb";
  ba_tag = some "ba";
  status = none;
}

abbrev view_of : ExpectedLane → List BoundaryEvent → List AppEvent → LifecycleView
view_of lane bs apps = record {
  expected = lane;
  harness = [];
  plane = plane_event 4 egress_attempted ∷ plane_event 5 proof_issued ∷ [];
  origin = [];
  boundary = some bs;
  app = some apps;
  l2 = false;
}

abbrev chained : LifecycleView
chained =
    view_of protected
      (boundary_event 1 boundary_arrived
        ∷ boundary_event 2 boundary_admitted
        ∷ boundary_event 3 app_proof_issued
        ∷ [])
      (app_event 1 app_admitted ∷ app_event 2 app_executed ∷ app_event 3 app_completed ∷ [])

abbrev refused_directly : LifecycleView
refused_directly =
    view_of direct_boundary_rejected
      (boundary_event 1 boundary_arrived ∷ boundary_event 2 boundary_rejected ∷ []) []

chained-clean : validate_origin_lineage chained false ≡ []
unfolding validate_origin_lineage automaton has_lineage
chained-clean = refl

refused_directly-clean : validate_origin_lineage refused_directly true ≡ []
unfolding validate_origin_lineage automaton has_lineage
refused_directly-clean = refl

validate_origin_lineage-protected_lineage_complete_example :
    protected_lineage_complete chained ≡ true
validate_origin_lineage-protected_lineage_complete_example =
    validate_origin_lineage-protected_lineage_complete chained false refl refl chained-clean

validate_origin_lineage-direct_example : RefusedDirectly refused_directly
validate_origin_lineage-direct_example =
    validate_origin_lineage-direct refused_directly true (inl refl) refused_directly-clean
