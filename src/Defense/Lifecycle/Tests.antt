-- ===== src/Defense/Lifecycle/Tests.antt =====
-- defense/core/ledger.ts: the lifecycle of a request that is passed, proxied and answered.
use limitmark.Common.{ℕ, ◌+◌, ◌≡◌, refl, true, false, is_some, Option, none, some, List, [], ◌∷◌}
use limitmark.Defense.Events.{
  PlaneEventKind, ingress_accepted, l1_entered, l1_passed, egress_attempted, egress_responded,
  ingress_responded, PlaneEvent, protected_instance, origin_received, origin_completed, sent,
  client_completed, response, protected, LifecycleView,
}
use limitmark.Defense.Lifecycle.{plane_status_for, terminal_outcome, walk}
use limitmark.Defense.Lifecycle.Check.{validate_lifecycle, final_check}
use limitmark.Defense.Lifecycle.Plane.{CleanPlane, validate_lifecycle-CleanPlane}
use limitmark.Defense.Lifecycle.Terminal.{validate_lifecycle-terminal_outcome}

abbrev plane_event : ℕ → PlaneEventKind → Option ℕ → PlaneEvent
plane_event seq kind status = record {
  seq = seq;
  kind = kind;
  reason = none;
  status = status;
  failure = none;
  uncorrelated = false;
  external = false;
  pb_tag = none;
  cls = none;
  lane = none;
  outcome = none;
  shed_reason = none;
  l2_error_kind = none;
  spent = none;
  touched = none;
  credit_tag = none;
  dt = none;
  lvl = none;
  lseq = none;
  simulated = false;
  shadow = none;
  skip_reason = none;
  has_fill = false;
  fail_stage = none;
}

abbrev proxied_plane : ℕ → ℕ → List PlaneEvent
proxied_plane n status =
    plane_event n ingress_accepted none
    ∷ plane_event (n + 1) l1_entered none
    ∷ plane_event (n + 2) l1_passed none
    ∷ plane_event (n + 3) egress_attempted none
    ∷ plane_event (n + 4) egress_responded (some status)
    ∷ plane_event (n + 5) ingress_responded (some status)
    ∷ []

abbrev proxied_view : ℕ → ℕ → LifecycleView
proxied_view n status = record {
  expected = protected;
  harness =
      record { kind = sent; result = none; status = none; outcome_header = none }
      ∷ record {
        kind = client_completed;
        result = some response;
        status = some status;
        outcome_header = some "proxied";
      }
      ∷ [];
  plane = proxied_plane n status;
  origin =
      record {
        instance_of = protected_instance;
        kind = origin_received;
        hop = some (n + 3);
        status = none;
        spoofed = 0;
      }
      ∷ record {
        instance_of = protected_instance;
        kind = origin_completed;
        hop = some (n + 3);
        status = some status;
        spoofed = 0;
      }
      ∷ [];
  boundary = none;
  app = none;
  l2 = false;
}

abbrev seen_view : LifecycleView
seen_view = proxied_view 7 200

seen_view-clean : validate_lifecycle seen_view true ≡ []
unfolding validate_lifecycle final_check walk plane_status_for terminal_outcome
seen_view-clean = refl

validate_lifecycle-CleanPlane_example : CleanPlane seen_view true
validate_lifecycle-CleanPlane_example =
    validate_lifecycle-CleanPlane seen_view true refl seen_view-clean

validate_lifecycle-terminal_outcome_example : is_some (terminal_outcome seen_view.plane) ≡ true
validate_lifecycle-terminal_outcome_example =
    validate_lifecycle-terminal_outcome seen_view refl refl seen_view-clean
