-- ===== src/Defense/L2Stage/Rules.antt =====
-- defense/plane/l2-stage.ts against defense/core/l2-lifecycle.ts: the decisions of the stage and the
-- rules on a decision by itself.
use limitmark.Common.{
  ◌+◌, ◌≡◌, ◌≢◌, refl, ◌⊎◌, inl, inr, Bool-cases, Option, none, some, [], ◌∷◌, arith,
}
use limitmark.Defense.Anomaly.{l2_decision_invalid}
use limitmark.Defense.Request.{LayerRequest, OperationClass, open_class, mutation, unknown}
use limitmark.Defense.Lanes.{
  open_lane, degraded, LaneDecision, L2Failure, saturation, thrown, timed_out, malformed,
  failure_decision, Hasher, JourneyLanes, Reads, decide, record_decision, is_valid_decision,
}
use limitmark.Defense.Lanes.Decision.{decide-IsComplete, decide-open}
use limitmark.Defense.Composer.{
  LayerOutcome, pass, reject, LayerErrorKind, throw, timeout, invalid_verdict,
}
use limitmark.Defense.Lineage.{collect}
use limitmark.Defense.L2Lifecycle.{decision_rules}
use limitmark.Defense.L2Lifecycle.Decided.{decision_rules-IsComplete}
use limitmark.Defense.L2Stage.{stage_decision, class_of, failure_of, discard, is_error, made_or}

failure_decision-rules :
    (cls : OperationClass) (failure : L2Failure)
    → collect (decision_rules (failure_decision cls failure)) ≡ []
unfolding failure_decision decision_rules is_valid_decision
failure_decision-rules open_class failure = refl
failure_decision-rules mutation saturation = refl
failure_decision-rules mutation thrown = refl
failure_decision-rules mutation timed_out = refl
failure_decision-rules mutation malformed = refl
failure_decision-rules unknown saturation = refl
failure_decision-rules unknown thrown = refl
failure_decision-rules unknown timed_out = refl
failure_decision-rules unknown malformed = refl

-- With no bucket lane of its own, a discarded decision is a refusal that reports what was consumed.
discard-rules :
    (cls : OperationClass) (kind : LayerErrorKind) (made : LaneDecision)
    → cls ≢ open_class
    → collect (decision_rules (discard (failure_decision cls (failure_of kind)) made)) ≡ []
unfolding failure_decision decision_rules is_valid_decision
discard-rules open_class kind made ne = absurd (ne refl)
discard-rules mutation throw made ne = ground arith
discard-rules mutation timeout made ne = ground arith
discard-rules mutation invalid_verdict made ne = ground arith
discard-rules unknown throw made ne = ground arith
discard-rules unknown timeout made ne = ground arith
discard-rules unknown invalid_verdict made ne = ground arith

made_or-rules :
    (h : Hasher) (s : JourneyLanes) (r : Reads) (request : LayerRequest)
    (made : Option LaneDecision)
    → (made ≡ none) ⊎ (made ≡ some (decide h s r request).1)
    → collect (decision_rules (made_or made (failure_decision (class_of request) malformed))) ≡ []
made_or-rules h s r request made (inl e) =
    rw e (failure_decision-rules (class_of request) malformed)
made_or-rules h s r request made (inr e) =
    rw e (decision_rules-IsComplete (decide h s r request).1 (decide-IsComplete h s r request))

-- Whatever the composer answers, the stage's decision on a request that is not of the open class
-- satisfies every rule of the validator on a decision by itself.
pub stage_decision-rules :
    (h : Hasher) (s : JourneyLanes) (r : Reads) (request : LayerRequest) (outcome : LayerOutcome)
    (made : Option LaneDecision)
    → (made ≡ none) ⊎ (made ≡ some (decide h s r request).1)
    → class_of request ≢ open_class
    → collect (decision_rules (stage_decision (class_of request) outcome made)) ≡ []
unfolding stage_decision
stage_decision-rules h s r request pass made known ne = made_or-rules h s r request made known
stage_decision-rules h s r request (reject reason) made known ne =
    made_or-rules h s r request made known
stage_decision-rules h s r request LayerOutcome.shed made known ne =
    failure_decision-rules (class_of request) saturation
stage_decision-rules h s r request (LayerOutcome.error kind) none known ne =
    failure_decision-rules (class_of request) (failure_of kind)
stage_decision-rules h s r request (LayerOutcome.error kind) (some made) known ne =
    elim (Bool-cases (is_error made)) [
      | inl failed ↦ rw failed (made_or-rules h s r request (some made) known)
      | inr other ↦ rw other (discard-rules (class_of request) kind made ne)
    ]

-- An evaluation of the open class that the composer discards after it was made: the stage's
-- decision reports the open lane as spent, the validator finds it invalid, and the count of the
-- plane takes it for a use of the unverified bucket, which was not touched.
pub stage_decision-open_discarded :
    (h : Hasher) (s : JourneyLanes) (r : Reads) (request : LayerRequest) (kind : LayerErrorKind)
    → class_of request ≡ open_class
    → let (t, made) = decide h s r request in
      let d = stage_decision (class_of request) (LayerOutcome.error kind) (some made) in
      (t ≡ s)
      × (d.outcome ≡ degraded)
      × (d.spent ≡ some open_lane)
      × (collect (decision_rules d) ≡ l2_decision_invalid ∷ l2_decision_invalid ∷ [])
      × ((record_decision t d).spent_unverified ≡ s.spent_unverified + 1)
unfolding stage_decision failure_decision decision_rules is_valid_decision record_decision
stage_decision-open_discarded h s r request kind e =
    rw (decide-open h s r request e) (rw e (refl, refl, refl, refl, refl))
