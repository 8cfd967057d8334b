-- ===== src/Defense/L2Stage/Closed.antt =====
-- defense/plane/l2-stage.ts with defense/core/composer.ts: what lets a request proceed.
use limitmark.Common.{
  ℕ, ap, ◌-◌, ◌*◌, ◌≤◌, ◌≡◌, ◌≢◌, refl, sym, str_eq, ◌∙◌, inl, inr, Bool, true, false, Bool-cases,
  String, Option, some, arith,
}
use limitmark.Defense.Reasons.{RejectReason}
use limitmark.Defense.Request.{LayerRequest, OperationClass, open_class}
use limitmark.Defense.Lanes.{
  Lane, L2Outcome, admitted, shed, error, degraded, LaneDecision, saturation, proceeds,
  failure_decision,
}
use limitmark.Defense.Lanes.Decision.{failure_decision-IsClosed}
use limitmark.Defense.Composer.{
  LayerOutcome, pass, reject, LayerErrorKind, Composer, Run, Winner, verdict, object, judge,
}
use limitmark.Defense.Composer.Verdict.{IsPass, IsReject, resume-IsPass, resume-outcome}
use limitmark.Defense.L2Stage.{
  Stage, Pending, layer_winner, verdict_of, stage_decision, class_of, failure_of, discard, is_error,
  outcome_of, finish,
}

discard-proceeds : (d made : LaneDecision) → proceeds (discard d made) ≡ proceeds d
unfolding proceeds
discard-proceeds d made = ground arith

refused-error : (d : LaneDecision) → is_error d ≡ true → proceeds d ≢ true
unfolding proceeds
refused-error d e f = ground arith

error-refused :
    (cls : OperationClass) (kind : LayerErrorKind) (made : LaneDecision)
    → cls ≢ open_class
    → proceeds (stage_decision cls (LayerOutcome.error kind) (some made)) ≡ true
    → ⊥
unfolding stage_decision
error-refused cls kind made ne e = elim (Bool-cases (is_error made)) [
  | inl failed ↦ absurd (refused-error made failed (rw failed at e))
  | inr other ↦
      let (valid, apart, closed) = failure_decision-IsClosed cls (failure_of kind) in
      let through : proceeds (discard (failure_decision cls (failure_of kind)) made) ≡ true =
        rw other at e in
      ne (closed.0 (sym (discard-proceeds (failure_decision cls (failure_of kind)) made) ∙ through))
]

abbrev says : String → Winner → Bool
says kind (verdict (object (some said) reason)) = str_eq said kind
says kind winner = false

passed-IsAdmitted :
    (outcome : L2Outcome) (lane : Option Lane)
    → says "pass" (verdict_of outcome lane) ≡ true
    → outcome ≡ admitted
passed-IsAdmitted admitted lane e = refl
passed-IsAdmitted shed lane e = absurd cc
passed-IsAdmitted error lane e = absurd cc
passed-IsAdmitted degraded lane e = absurd cc

rejected-IsShed :
    (outcome : L2Outcome) (lane : Option Lane)
    → says "reject" (verdict_of outcome lane) ≡ true
    → outcome ≡ shed
rejected-IsShed admitted lane e = absurd cc
rejected-IsShed shed lane e = refl
rejected-IsShed error lane e = absurd cc
rejected-IsShed degraded lane e = absurd cc

module _ (c : Composer) (run : Run) (made : LaneDecision) (now : ℕ) where
  pass-Admitted :
      IsPass c run (layer_winner made) now
      → (made.outcome ≡ admitted) × (now - run.started_at ≤ c.timeout_ms * 1000)
  unfolding layer_winner
  pass-Admitted p = (passed-IsAdmitted made.outcome made.lane (ap (says "pass") p.said), p.timely)

  reject-Refused :
      (r : RejectReason) → IsReject c run (layer_winner made) now r → proceeds made ≢ true
  unfolding layer_winner proceeds
  reject-Refused r p e =
      let outcome = rejected-IsShed made.outcome made.lane (ap (says "reject") p.said) in
      absurd (cc (rw (outcome, proceeds) at e))

  stage_decision-Admitted :
      (cls : OperationClass) (o : LayerOutcome)
      → (o ≡ pass → IsPass c run (layer_winner made) now)
      → ((r : RejectReason) → o ≡ reject r → IsReject c run (layer_winner made) now r)
      → cls ≢ open_class
      → proceeds (stage_decision cls o (some made)) ≡ true
      → (stage_decision cls o (some made) ≡ made)
        × (made.outcome ≡ admitted)
        × (now - run.started_at ≤ c.timeout_ms * 1000)
  unfolding stage_decision
  stage_decision-Admitted cls pass passed refused ne e =
      let (let_in, timely) = pass-Admitted (passed refl) in (refl, let_in, timely)
  stage_decision-Admitted cls (reject r) passed refused ne e =
      absurd (reject-Refused r (refused r refl) e)
  stage_decision-Admitted cls LayerOutcome.shed passed refused ne e =
      let (valid, apart, closed) = failure_decision-IsClosed cls saturation in
      absurd (ne (closed.0 e))
  stage_decision-Admitted cls (LayerOutcome.error kind) passed refused ne e =
      absurd (error-refused cls kind made ne e)

pub finish-decision :
    (s : Stage) (p : Pending) (winner : Winner) (now : ℕ) (request : LayerRequest)
    → (finish s p winner now request).1
      ≡ stage_decision (class_of request) (judge s.composer p.run winner now).0 (some p.made)
unfolding finish
finish-decision s p winner now request =
    ap (λ o. stage_decision (class_of request) (outcome_of o) (some p.made))
      (resume-outcome s.composer p.run winner now)

-- With the layer's own answer, a request that is not of the open class proceeds only on a decision
-- that the lanes admitted, and that stands as they made it, in time for the composer's deadline; a
-- failed, shed or late evaluation does not let it proceed.
pub finish-Admitted :
    (s : Stage) (p : Pending) (now : ℕ) (request : LayerRequest)
    → class_of request ≢ open_class
    → proceeds (finish s p (layer_winner p.made) now request).1 ≡ true
    → ((finish s p (layer_winner p.made) now request).1 ≡ p.made)
      × (p.made.outcome ≡ admitted)
      × (now - p.run.started_at ≤ s.composer.timeout_ms * 1000)
finish-Admitted s p now request ne e =
    let winner = layer_winner p.made in
    let outcome = resume-outcome s.composer p.run winner now in
    let decision = finish-decision s p winner now request in
    let (passed, rejected) = resume-IsPass s.composer p.run winner now in
    let (same, let_in, timely) =
      stage_decision-Admitted s.composer p.run p.made now (class_of request)
        (judge s.composer p.run winner now).0 (λ same. passed.0 (outcome ∙ ap some same))
        (λ r same. (rejected r).0 (outcome ∙ ap some same)) ne (sym (ap proceeds decision) ∙ e) in
    (decision ∙ same, let_in, timely)
