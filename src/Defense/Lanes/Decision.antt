-- ===== src/Defense/Lanes/Decision.antt =====
-- defense/core/lanes.ts: the decisions that the lanes make against their closed matrix.
use limitmark.Common.{
  ℕ, ◌≡◌, ◌≢◌, refl, ◌↔◌, ◌⊎◌, inl, inr, true, false, Option, none, some, arith, is_some,
  Option-cases, Bool-cases,
}
use limitmark.Defense.Request.{
  LayerRequest, OperationClass, open_class, mutation, unknown, operation_class_of,
}
use limitmark.Defense.CreditFilter.{CreditFilter, advance}
use limitmark.Defense.UseLedger.{maybe_purge}
use limitmark.Defense.Lanes.{
  open_lane, credited, unverified, admitted, LaneDecision, proceeds, is_valid_decision, L2Failure,
  failure_decision, Hasher, JourneyLanes, Reads, decide, decide_classified, bare, Credit, look_up,
  token_of, has_uses_left, decide_unverified, decide_credited,
}

-- A failed or saturated evaluation gives a decision of the matrix, is never `admitted`, and lets
-- the request proceed, as degraded, only in the open class.
pub failure_decision-IsClosed :
    (cls : OperationClass) (failure : L2Failure)
    → (is_valid_decision (failure_decision cls failure) ≡ true)
      × ((failure_decision cls failure).outcome ≢ admitted)
      × ((proceeds (failure_decision cls failure) ≡ true) ↔ (cls ≡ open_class))
unfolding failure_decision is_valid_decision proceeds
failure_decision-IsClosed open_class failure = (refl, ground arith, ground arith)
failure_decision-IsClosed mutation failure = (ground arith, ground arith, ground arith)
failure_decision-IsClosed unknown failure = (ground arith, ground arith, ground arith)

-- What a decision carries: a bucket's clock, level and number exactly on a bucketed lane, a credit
-- tag exactly on a credited admission, and never a discarded charge or a simulated basis.
pub record IsComplete (d : LaneDecision) : Type 0 where
  pub valid : is_valid_decision d ≡ true
  pub bucketed :
      (d.lane ≡ some credited) ⊎ (d.lane ≡ some unverified)
      → (is_some d.dt ≡ true) × (is_some d.lvl ≡ true) × (is_some d.lseq ≡ true)
  pub unbucketed :
      (d.lane ≡ some open_lane) ⊎ (d.lane ≡ none) → (d.dt ≡ none) × (d.lvl ≡ none) × (d.lseq ≡ none)
  pub tagged : (is_some d.credit_tag ≡ true) ↔ ((d.lane ≡ some credited) × (d.outcome ≡ admitted))
  pub kept : (d.spent ≡ none) × (d.touched ≡ none) × (d.simulated ≡ false) × (d.shadow ≡ none)

decide_classified-IsComplete :
    (h : Hasher) (s : JourneyLanes) (cls : OperationClass) (r : Reads) (request : LayerRequest)
    → cls ≢ open_class
    → IsComplete (decide_classified h s cls r request).1
unfolding decide_classified is_valid_decision
decide_classified-IsComplete h s cls r request ne = ground arith

pub class_ne : (cls : OperationClass) → (cls ≡ open_class) ⊎ (cls ≢ open_class)
class_ne open_class = inl refl
class_ne mutation = inr (λ e. cc)
class_ne unknown = inr (λ e. cc)

pub decide-classified :
    (h : Hasher) (s : JourneyLanes) (r : Reads) (request : LayerRequest)
    → operation_class_of request.method request.target ≢ open_class
    → decide h s r request
      ≡ decide_classified h s (operation_class_of request.method request.target) r request
unfolding decide
decide-classified h s r request ne = go (operation_class_of request.method request.target) refl ne
  where
    go :
        (cls : OperationClass)
        → operation_class_of request.method request.target ≡ cls
        → cls ≢ open_class
        → decide h s r request ≡ decide_classified h s cls r request
    go open_class e ne = absurd (ne refl)
    go mutation e ne = rw (e, decide)
    go unknown e ne = rw (e, decide)

pub decide-open :
    (h : Hasher) (s : JourneyLanes) (r : Reads) (request : LayerRequest)
    → operation_class_of request.method request.target ≡ open_class
    → decide h s r request ≡ (s, bare open_class (some open_lane) admitted)
unfolding decide
decide-open h s r request e = rw (e, decide)

-- Every decision of the lanes lies in the closed matrix and carries the fields of its lane.
pub decide-IsComplete :
    (h : Hasher) (s : JourneyLanes) (r : Reads) (request : LayerRequest)
    → IsComplete (decide h s r request).1
unfolding is_valid_decision
decide-IsComplete h s r request =
    elim (class_ne (operation_class_of request.method request.target)) [
      | inl e ↦ rw (decide-open h s r request e) (ground arith)
      | inr ne ↦
          rw (decide-classified h s r request ne) (decide_classified-IsComplete h s _ r request ne)
    ]

module _ (h : Hasher) (s : JourneyLanes) (r : Reads) (request : LayerRequest) where
  -- The epoch, the ledger and the lookup that a classified decision works with.
  abbrev pub epoch_of : ℕ
  epoch_of = (advance s.filter r.at_advance).current_epoch

  abbrev pub looked : OperationClass → CreditFilter × Option Credit
  looked cls =
      look_up h (advance s.filter r.at_advance) (maybe_purge s.ledger epoch_of) epoch_of r.at_has
        (token_of cls request)

  abbrev pub prepared : OperationClass → JourneyLanes
  prepared cls = record s { filter = (looked cls).0; ledger = maybe_purge s.ledger epoch_of }

  -- A classified decision takes from the unverified bucket, or is credited with uses left.
  pub classified_cases :
      (cls : OperationClass) (P : JourneyLanes × LaneDecision → Type 0)
      → P (decide_unverified h (prepared cls) cls r.at_take)
      → ((c : Credit)
          → (looked cls).1 ≡ some c
          → has_uses_left c.used s.max_uses ≡ true
          → P (decide_credited h (prepared cls) cls epoch_of c r.at_take))
      → P (decide_classified h s cls r request)
  unfolding decide_classified
  classified_cases cls P other ours = elim (Option-cases (looked cls).1) [
    | inl e ↦ rw (e, decide_classified) other
    | inr (c, e) ↦ elim (Bool-cases (has_uses_left c.used s.max_uses)) [
      | inl left ↦ rw (e, decide_classified) (rw left (ours c e left))
      | inr gone ↦ rw (e, decide_classified) (rw gone other)
    ]
  ]
