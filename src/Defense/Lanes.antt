-- ===== src/Defense/Lanes.antt =====
-- defense/core/lanes.ts: `JourneyLanes`. One decision reads the clock up to three times, in this
-- order: in `filter.advance`, in `filter.has` and in the refill of the bucket that it takes from.
-- The hashes of node:crypto are the parameters in `Hasher`.
pub mod Tests
pub mod Decision
pub mod Spill
pub mod Capacity
pub mod Sizing
use Prim.Native.String.{◌++◌}
use limitmark.Common.{
  ℕ, suc, ◌+◌, ◌-◌, ◌*◌, leb, ltb, ◌==◌, not, if◌then◌else◌, Bool, true, false, ◌&&◌, ◌||◌, Option,
  none, some, List, [], ◌∷◌, String, str_eq,
}
use limitmark.Common.Table.{Table, get, set}
use limitmark.Defense.Bucket.{Clock, TokenBucket, Taken, new_bucket, take}
use limitmark.Defense.CreditFilter.{
  CreditFilter, Digest, new_filter, advance, has_digest, has_in_active, insert,
}
use limitmark.Defense.UseLedger.{
  UseLedger, new_ledger, committed, maybe_purge, can_allocate, commit, required_capacity,
}
use limitmark.Defense.Request.{
  LayerRequest, OperationClass, open_class, mutation, unknown, operation_class_of,
  extract_submission_token,
}

pub data Lane : Type 0 where
  open_lane credited unverified : Lane

pub data L2Outcome : Type 0 where
  admitted shed error degraded : L2Outcome

pub data ShedReason : Type 0 where
  lane_budget evaluator_saturation : ShedReason

pub data L2ErrorKind : Type 0 where
  throw timeout invalid_verdict ledger_full : L2ErrorKind

pub record LaneDecision : Type 0 where
  pub cls : OperationClass
  pub lane : Option Lane
  pub outcome : L2Outcome
  pub shed_reason : Option ShedReason
  pub error_kind : Option L2ErrorKind
  pub credit_tag : Option String
  pub spent : Option Lane
  pub touched : Option Lane
  pub dt : Option ℕ
  pub lvl : Option ℕ
  pub lseq : Option ℕ
  pub simulated : Bool  -- basis: "simulated"
  pub shadow : Option String

-- The optional fields are absent.
abbrev pub bare : OperationClass → Option Lane → L2Outcome → LaneDecision
bare cls lane outcome = record {
  cls = cls;
  lane = lane;
  outcome = outcome;
  shed_reason = none;
  error_kind = none;
  credit_tag = none;
  spent = none;
  touched = none;
  dt = none;
  lvl = none;
  lseq = none;
  simulated = false;
  shadow = none;
}

unfoldable pub proceeds : LaneDecision → Bool
proceeds d = elim d.outcome [ admitted ↦ true | degraded ↦ true | _ ↦ false ]

abbrev pub valid_at :
    OperationClass → Option Lane → L2Outcome → Option ShedReason → Option L2ErrorKind → Bool
valid_at open_class (some open_lane) admitted reason kind = true
valid_at open_class (some open_lane) degraded reason kind = true
valid_at open_class lane outcome reason kind = false
valid_at cls (some open_lane) outcome reason kind = false
valid_at cls (some lane) admitted reason kind = true
valid_at cls (some lane) shed (some lane_budget) kind = true
valid_at cls (some lane) outcome reason kind = false
valid_at cls none shed (some evaluator_saturation) kind = true
valid_at cls none error reason (some k) = true
valid_at cls none outcome reason kind = false

-- The closed matrix of class, lane and outcome.
unfoldable pub is_valid_decision : LaneDecision → Bool
is_valid_decision d = valid_at d.cls d.lane d.outcome d.shed_reason d.error_kind

pub data L2Failure : Type 0 where
  saturation thrown timed_out malformed : L2Failure

abbrev failure_kind : L2Failure → L2ErrorKind
failure_kind timed_out = timeout
failure_kind malformed = invalid_verdict
failure_kind _ = throw

unfoldable pub failure_decision : OperationClass → L2Failure → LaneDecision
failure_decision open_class failure = bare open_class (some open_lane) degraded
failure_decision cls saturation = record (bare cls none shed) {
  shed_reason = some evaluator_saturation;
}
failure_decision cls failure = record (bare cls none error) {
  error_kind = some (failure_kind failure);
}

-- The hashes that the code takes from node:crypto and Buffer: the keyed digest of a token, the key
-- under which the ledger keeps a digest, and the tag of a digest.
pub record Hasher : Type 0 where
  pub digest : List ℕ → Digest
  pub base64url : Digest → String
  pub credit_tag : Digest → String

pub record LanesConfig : Type 0 where
  pub filter_bits : ℕ
  pub filter_hashes : ℕ
  pub epoch_ms : ℕ
  pub credited_capacity : ℕ
  pub credited_refill : ℕ
  pub unverified_capacity : ℕ
  pub unverified_refill : ℕ
  pub max_uses : ℕ
  pub ledger_capacity : ℕ

pub record JourneyLanes : Type 0 where
  pub max_uses : ℕ
  pub filter : CreditFilter
  pub credited_bucket : TokenBucket
  pub unverified_bucket : TokenBucket
  pub ledger : UseLedger
  pub decision_counts : Table ℕ
  pub spent_credited : ℕ
  pub spent_unverified : ℕ

-- The constructor, with the three readings of the clock that it makes; `none` is a `throw`.
infixl 5 ◌>>=◌
abbrev ◌>>=◌ : {A B : Type 0} → Option A → (A → Option B) → Option B
none >>= f = none
some a >>= f = f a

pub new_lanes : LanesConfig → Clock → Clock → Clock → Option JourneyLanes
new_lanes config t_filter t_credited t_unverified =
    if ltb config.ledger_capacity
      (required_capacity config.credited_capacity config.credited_refill config.epoch_ms)
    then none
    else do
      filter ← new_filter config.filter_bits config.filter_hashes config.epoch_ms t_filter
      bucket ← new_bucket config.credited_capacity config.credited_refill t_credited
      other_bucket ← new_bucket config.unverified_capacity config.unverified_refill t_unverified
      ledger ← new_ledger config.ledger_capacity config.max_uses
      some (record {
        max_uses = config.max_uses;
        filter = filter;
        credited_bucket = bucket;
        unverified_bucket = other_bucket;
        ledger = ledger;
        decision_counts = [];
        spent_credited = 0;
        spent_unverified = 0;
      })

-- The readings of the clock that one call makes.
pub record Reads : Type 0 where
  pub at_advance : Clock
  pub at_has : Clock
  pub at_take : Clock

-- The local variables `digest`, `key` and `used` of `decide`, when the digest is not null.
pub record Credit : Type 0 where
  pub digest : Digest
  pub key : String
  pub used : Option ℕ

abbrev with_taken : LaneDecision → Taken → LaneDecision
with_taken d t = record d { dt = some t.dt; lvl = some t.lvl; lseq = some t.lseq }

abbrev pub token_of : OperationClass → LayerRequest → Option (List ℕ)
token_of mutation request = extract_submission_token request
token_of cls request = none

-- `used === undefined || used < maxUses`
abbrev pub has_uses_left : Option ℕ → ℕ → Bool
has_uses_left none max_uses = true
has_uses_left (some n) max_uses = ltb n max_uses

module _ (h : Hasher) where
  pub look_up :
      CreditFilter → UseLedger → ℕ → Clock → Option (List ℕ) → CreditFilter × Option Credit
  look_up f l epoch now none = (f, none)
  look_up f l epoch now (some token) =
      let d = h.digest token in
      let (g, hit) = has_digest f now d in
      if hit
      then (
        g,
        some (record { digest = d; key = h.base64url d; used = committed l (h.base64url d) epoch }),
      )
      else (g, none)

  pub decide_unverified : JourneyLanes → OperationClass → Clock → JourneyLanes × LaneDecision
  decide_unverified s cls now =
      let (bucket, taken) = take s.unverified_bucket now in
      let made = with_taken (bare cls (some unverified) admitted) taken in
      (
        record s { unverified_bucket = bucket },
        if taken.ok then made else record made { outcome = shed; shed_reason = some lane_budget },
      )

  pub take_credited :
      JourneyLanes → OperationClass → ℕ → Credit → Clock → JourneyLanes × LaneDecision
  take_credited s cls epoch c now =
      let (bucket, taken) = take s.credited_bucket now in
      let made = with_taken (bare cls (some credited) admitted) taken in
      if taken.ok
      then (
        record s { credited_bucket = bucket; ledger = commit s.ledger c.key epoch },
        record made { credit_tag = some (h.credit_tag c.digest) },
      )
      else (
        record s { credited_bucket = bucket },
        record made { outcome = shed; shed_reason = some lane_budget },
      )

  pub decide_credited :
      JourneyLanes → OperationClass → ℕ → Credit → Clock → JourneyLanes × LaneDecision
  unfolding take_credited
  decide_credited s cls epoch c now = elim c.used [
    | some _ ↦ take_credited s cls epoch c now
    | none ↦
        let (ledger, free) = can_allocate s.ledger epoch in
        if free then take_credited (record s { ledger = ledger }) cls epoch c now else (
          record s { ledger = ledger },
          record (bare cls none error) { error_kind = some ledger_full },
        )
  ]

  pub decide_classified :
      JourneyLanes → OperationClass → Reads → LayerRequest → JourneyLanes × LaneDecision
  unfolding look_up decide_unverified decide_credited
  decide_classified s cls r request =
      let filter = advance s.filter r.at_advance in
      let epoch = filter.current_epoch in
      let ledger = maybe_purge s.ledger epoch in
      let (looked, credit) = look_up filter ledger epoch r.at_has (token_of cls request) in
      let t = record s { filter = looked; ledger = ledger } in
      elim credit [
        | none ↦ decide_unverified t cls r.at_take
        | some c ↦
            if has_uses_left c.used s.max_uses
            then decide_credited t cls epoch c r.at_take
            else decide_unverified t cls r.at_take
      ]

  pub decide : JourneyLanes → Reads → LayerRequest → JourneyLanes × LaneDecision
  unfolding decide_classified
  decide s r request = elim (operation_class_of request.method request.target) [
    | open_class ↦ (s, bare open_class (some open_lane) admitted)
    | cls ↦ decide_classified s cls r request
  ]

  -- `some` is the tag of an enrolled token; `none` is "already_enrolled". The readings are those of
  -- `advance`, `hasInActive` and `insert`.
  pub enroll : JourneyLanes → Reads → List ℕ → JourneyLanes × Option String
  enroll s r token =
      let d = h.digest token in
      let filter = advance s.filter r.at_advance in
      elim (committed s.ledger (h.base64url d) filter.current_epoch) [
        | some _ ↦ (record s { filter = filter }, none)
        | none ↦
            let (looked, active) = has_in_active filter r.at_has d in
            if active
            then (record s { filter = looked }, none)
            else (record s { filter = insert looked r.at_take d }, some (h.credit_tag d))
      ]

abbrev class_name : OperationClass → String
class_name open_class = "open"
class_name mutation = "mutation"
class_name unknown = "unknown"

abbrev lane_name : Option Lane → String
lane_name none = "none"
lane_name (some open_lane) = "open"
lane_name (some credited) = "credited"
lane_name (some unverified) = "unverified"

abbrev outcome_name : L2Outcome → String
outcome_name admitted = "admitted"
outcome_name shed = "shed"
outcome_name error = "error"
outcome_name degraded = "degraded"

abbrev pub decision_key : LaneDecision → String
decision_key d = class_name d.cls ++ "." ++ lane_name d.lane ++ "." ++ outcome_name d.outcome

abbrev pub count_of : String → Table ℕ → ℕ
count_of key counts = elim (get key counts) [ none ↦ 0 | some n ↦ n ]

-- `record`: counts a final decision.
unfoldable pub record_decision : JourneyLanes → LaneDecision → JourneyLanes
record_decision s d =
    let key = decision_key d in
    let counts = set key (count_of key s.decision_counts + 1) s.decision_counts in
    elim d.spent [
      | none ↦ record s { decision_counts = counts }
      | some credited ↦ record s { decision_counts = counts; spent_credited = s.spent_credited + 1 }
      | some _ ↦ record s { decision_counts = counts; spent_unverified = s.spent_unverified + 1 }
    ]
