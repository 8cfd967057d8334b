-- ===== src/Defense/L2Lifecycle/Decided.antt =====
-- defense/core/l2-lifecycle.ts against defense/core/lanes.ts: the validator accepts what the lanes
-- decide.
use limitmark.Common.{
  ℕ, ◌≡◌, ◌≢◌, refl, not, ◌&&◌, ◌||◌, Bool-cases, false, Option, none, some, is_some, [], arith,
  inl, inr,
}
use limitmark.Defense.Request.{LayerRequest}
use limitmark.Defense.Lanes.{
  Lane, open_lane, credited, unverified, L2Outcome, admitted, shed, error, degraded, LaneDecision,
  Hasher, JourneyLanes, Reads, decide,
}
use limitmark.Defense.Lanes.Decision.{IsComplete, decide-IsComplete}
use limitmark.Defense.Events.{PlaneEvent, l2_decided}
use limitmark.Defense.Lineage.{collect}
use limitmark.Defense.L2Lifecycle.{
  is_bucketed, is_open, is_credited, is_admitted, differ, decision_of, decision_rules,
}

-- The event that the plane emits for a decision.
abbrev pub decided_event : ℕ → LaneDecision → PlaneEvent
decided_event seq d = record {
  seq = seq;
  kind = l2_decided;
  reason = none;
  status = none;
  failure = none;
  uncorrelated = false;
  external = false;
  pb_tag = none;
  cls = some d.cls;
  lane = some d.lane;
  outcome = some d.outcome;
  shed_reason = d.shed_reason;
  l2_error_kind = d.error_kind;
  spent = d.spent;
  touched = d.touched;
  credit_tag = d.credit_tag;
  dt = d.dt;
  lvl = d.lvl;
  lseq = d.lseq;
  simulated = d.simulated;
  shadow = d.shadow;
  skip_reason = none;
  has_fill = false;
  fail_stage = none;
}

decision_of-decided_event :
    (seq : ℕ) (d : LaneDecision) → decision_of (decided_event seq d) ≡ some d
unfolding decision_of
decision_of-decided_event seq d = refl

bucketed-IsComplete :
    (d : LaneDecision)
    → IsComplete d
    → (is_bucketed d.lane && not (is_some d.dt && is_some d.lvl && is_some d.lseq)) ≡ false
bucketed-IsComplete d v = go d.lane refl
  where
    go :
        (lane : Option Lane)
        → d.lane ≡ lane
        → (is_bucketed lane && not (is_some d.dt && is_some d.lvl && is_some d.lseq)) ≡ false
    go none e = refl
    go (some open_lane) e = refl
    go (some credited) e = ground (arith, v.bucketed (inl e))
    go (some unverified) e = ground (arith, v.bucketed (inr e))

open-IsComplete :
    (d : LaneDecision) → IsComplete d → (is_open d.lane && (is_some d.dt || is_some d.lseq)) ≡ false
open-IsComplete d v = go d.lane refl
  where
    go :
        (lane : Option Lane)
        → d.lane ≡ lane
        → (is_open lane && (is_some d.dt || is_some d.lseq)) ≡ false
    go none e = refl
    go (some open_lane) e = ground (arith, v.unbucketed (inl e))
    go (some credited) e = refl
    go (some unverified) e = refl

tagged-IsComplete :
    (d : LaneDecision)
    → IsComplete d
    → differ (is_credited d.lane && is_admitted d.outcome) (is_some d.credit_tag) ≡ false
tagged-IsComplete d v = go d.lane d.outcome refl refl
  where
    untagged : (d.lane ≡ some credited → d.outcome ≢ admitted) → is_some d.credit_tag ≡ false
    untagged apart = elim (Bool-cases (is_some d.credit_tag)) [
      | inl there ↦ absurd (apart (v.tagged.0 there).0 (v.tagged.0 there).1)
      | inr missing ↦ missing
    ]

    go :
        (lane : Option Lane) (outcome : L2Outcome)
        → d.lane ≡ lane
        → d.outcome ≡ outcome
        → differ (is_credited lane && is_admitted outcome) (is_some d.credit_tag) ≡ false
    go none outcome e f = untagged (λ c. cc)
    go (some open_lane) outcome e f = untagged (λ c. cc)
    go (some unverified) outcome e f = untagged (λ c. cc)
    go (some credited) admitted e f = rw (v.tagged.1 (e, f)) refl
    go (some credited) shed e f = untagged (λ c a. cc)
    go (some credited) error e f = untagged (λ c a. cc)
    go (some credited) degraded e f = untagged (λ c a. cc)

pub decision_rules-IsComplete : (d : LaneDecision) → IsComplete d → collect (decision_rules d) ≡ []
unfolding decision_rules
decision_rules-IsComplete d v =
    let (spent, touched, simulated, shadow) = v.kept in
    rw
      (
        v.valid,
        bucketed-IsComplete d v,
        open-IsComplete d v,
        tagged-IsComplete d v,
        spent,
        touched,
        simulated,
        shadow,
      )
      refl

-- Every decision of the lanes, in the event that reports it, satisfies all the rules of the
-- validator on a decision by itself.
pub decide-decision_rules :
    (h : Hasher) (s : JourneyLanes) (r : Reads) (request : LayerRequest) (seq : ℕ)
    → let d = (decide h s r request).1 in
      (decision_of (decided_event seq d) ≡ some d) × (collect (decision_rules d) ≡ [])
decide-decision_rules h s r request seq =
    let d = (decide h s r request).1 in
    (decision_of-decided_event seq d, decision_rules-IsComplete d (decide-IsComplete h s r request))
