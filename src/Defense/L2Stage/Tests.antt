-- ===== src/Defense/L2Stage/Tests.antt =====
-- defense/plane/l2-stage.ts: a form that is posted, and a render of the form's page.
use limitmark.Common.{
  ◌+◌, ◌-◌, ◌*◌, ◌≤◌, ◌≡◌, ◌≢◌, refl, ap, ◌∙◌, arith, inr, true, false, none, some, [], ◌∷◌, length,
}
use limitmark.Defense.Anomaly.{l2_decision_invalid}
use limitmark.Defense.Request.{
  LayerRequest, no_body, open_class, mutation, is_form_route, operation_class_of,
}
use limitmark.Defense.Request.Tests.{posted}
use limitmark.Defense.Lanes.{
  open_lane, unverified, timed_out, admitted, degraded, LaneDecision, proceeds, bare, decide,
  record_decision, failure_decision,
}
use limitmark.Defense.Lanes.Tests.{plain_hasher, small_lanes, reads_at}
use limitmark.Defense.Composer.{LayerOutcome, timeout, pass, judge}
use limitmark.Defense.Composer.Verdict.{IsPass, resume-IsPass, resume-outcome}
use limitmark.Defense.Composer.Tests.{narrow}
use limitmark.Defense.Lineage.{collect}
use limitmark.Defense.Events.{EnrollSkipReason, degraded_skip}
use limitmark.Defense.L2Lifecycle.{decision_rules}
use limitmark.Defense.L2Stage.{
  Stage, Pending, layer_winner, stage_decision, class_of, finish, Observation, observe, skipped,
  early_reason,
}
use limitmark.Defense.L2Stage.Rules.{stage_decision-rules, stage_decision-open_discarded}
use limitmark.Defense.L2Stage.Closed.{finish-Admitted, finish-decision}
use limitmark.Defense.L2Stage.Observed.{
  Render, delivered, finalizes, observer_step, observer_run, observer_run-Single,
}

abbrev stage : Stage
stage = record { lanes = small_lanes; composer = narrow }

abbrev posted_run : Pending
posted_run = record {
  run = record { started_at = 0; settled = false; abandoned_counted = false; outcome = none };
  made = bare mutation (some unverified) admitted;
}

posted-passes :
    proceeds (finish stage posted_run (layer_winner posted_run.made) 40000 posted).1 ≡ true
unfolding proceeds layer_winner stage_decision
posted-passes =
    let winner = layer_winner posted_run.made in
    let prompt : IsPass narrow posted_run.run winner 40000 = record {
      reason = none;
      said = refl;
      timely = omega arith;
    } in
    let answered = (resume-IsPass narrow posted_run.run winner 40000).0.1 prompt in
    let passed : (judge narrow posted_run.run winner 40000).0 ≡ pass =
      cc (resume-outcome narrow posted_run.run winner 40000) in
    ap proceeds (
      finish-decision stage posted_run winner 40000 posted
      ∙ ap (λ o. stage_decision (class_of posted) o (some posted_run.made)) passed)

posted-class : class_of posted ≢ open_class
unfolding operation_class_of
posted-class e = absurd cc

finish-Admitted_example :
    ((finish stage posted_run (layer_winner posted_run.made) 40000 posted).1 ≡ posted_run.made)
    × (posted_run.made.outcome ≡ admitted)
    × (40000 - 0 ≤ 50 * 1000)
finish-Admitted_example = finish-Admitted stage posted_run 40000 posted posted-class posted-passes

stage_decision-rules_example :
    collect (
      decision_rules (
        stage_decision
          (class_of posted)
          (LayerOutcome.error timeout)
          (some (decide plain_hasher small_lanes (reads_at 7) posted).1)))
    ≡ []
stage_decision-rules_example =
    stage_decision-rules plain_hasher small_lanes (reads_at 7) posted (LayerOutcome.error timeout)
      (some (decide plain_hasher small_lanes (reads_at 7) posted).1) (inr refl) posted-class

abbrev form_request : LayerRequest
form_request = record {
  method = "GET";
  target = "/test-talep-et";
  body_status = no_body;
  body = none;
}

form-open : class_of form_request ≡ open_class
unfolding operation_class_of is_form_route
form-open = refl

abbrev late_form : LaneDecision
late_form =
    stage_decision (class_of form_request) (LayerOutcome.error timeout)
      (some (decide plain_hasher small_lanes (reads_at 7) form_request).1)

stage_decision-open_discarded_example :
    ((decide plain_hasher small_lanes (reads_at 7) form_request).0 ≡ small_lanes)
    × (late_form.outcome ≡ degraded)
    × (late_form.spent ≡ some open_lane)
    × (collect (decision_rules late_form) ≡ l2_decision_invalid ∷ l2_decision_invalid ∷ [])
    × ((record_decision
          (decide plain_hasher small_lanes (reads_at 7) form_request).0
          late_form).spent_unverified
        ≡ small_lanes.spent_unverified + 1)
stage_decision-open_discarded_example =
    stage_decision-open_discarded plain_hasher small_lanes (reads_at 7) form_request timeout
      form-open

abbrev watched : Observation
watched = record { verdict = none; done = false; early = some degraded_skip }

abbrev missed : LaneDecision
missed = failure_decision open_class timed_out

form-watched : observe form_request missed false ≡ some watched
unfolding observe is_form_route failure_decision
form-watched = refl

abbrev begun : Render
begun = record { lanes = small_lanes; observation = watched; emitted = [] }

abbrev end : Render
end =
    observer_run plain_hasher 4096
      (observer_step plain_hasher 4096
        (observer_run plain_hasher 4096 begun (delivered (reads_at 7) 8 ∷ [])) finalizes)
      (finalizes ∷ [])

observer_run-Single_example :
    (length end.emitted ≡ 1)
    × ((reason : EnrollSkipReason)
        → early_reason missed false ≡ some reason
        → end.emitted ≡ skipped reason ∷ [])
observer_run-Single_example =
    observer_run-Single plain_hasher 4096 small_lanes form_request missed false watched
      (delivered (reads_at 7) 8 ∷ []) (finalizes ∷ []) form-watched
