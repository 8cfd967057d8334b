-- ===== src/Defense/Lanes/Spill.antt =====
-- defense/core/lanes.ts, P1 and P3: which bucket a decision touches, and how much it takes.
use limitmark.Common.{◌≡◌, ◌≢◌, ◌↔◌, inl, inr, true, none, some, arith}
use limitmark.Defense.Bucket.{take}
use limitmark.Defense.Request.{LayerRequest, OperationClass, open_class, operation_class_of}
use limitmark.Defense.Lanes.{
  open_lane, credited, unverified, admitted, LaneDecision, Hasher, JourneyLanes, Reads, decide,
  decide_classified,
}
use limitmark.Defense.Lanes.Decision.{class_ne, decide-classified, decide-open}

-- The buckets after a decision, by its lane.
pub record NoSpill (s t : JourneyLanes) (r : Reads) (d : LaneDecision) : Type 0 where
  pub on_open : d.lane ≡ some open_lane → t ≡ s
  pub on_credited :
      d.lane ≡ some credited
      → (t.unverified_bucket ≡ s.unverified_bucket)
        × (t.credited_bucket ≡ (take s.credited_bucket r.at_take).0)
  pub on_unverified :
      d.lane ≡ some unverified
      → (t.credited_bucket ≡ s.credited_bucket)
        × (t.unverified_bucket ≡ (take s.unverified_bucket r.at_take).0)
  pub on_none :
      d.lane ≡ none
      → (t.credited_bucket ≡ s.credited_bucket) × (t.unverified_bucket ≡ s.unverified_bucket)
  pub charged :
      (d.lane ≡ some credited
        → ((take s.credited_bucket r.at_take).1.ok ≡ true) ↔ (d.outcome ≡ admitted))
  pub charged_other :
      (d.lane ≡ some unverified
        → ((take s.unverified_bucket r.at_take).1.ok ≡ true) ↔ (d.outcome ≡ admitted))

decide_classified-NoSpill :
    (h : Hasher) (s : JourneyLanes) (cls : OperationClass) (r : Reads) (request : LayerRequest)
    → cls ≢ open_class
    → NoSpill s (decide_classified h s cls r request).0 r (decide_classified h s cls r request).1
unfolding decide_classified
decide_classified-NoSpill h s cls r request ne = ground arith

-- No decision touches the bucket of a lane that it did not choose, and an open one touches no
-- state: a credited request takes from the credited bucket alone, and is admitted exactly when
-- that take succeeds; so an unverified one from the unverified bucket; a decision with no lane
-- takes from neither.
pub decide-NoSpill :
    (h : Hasher) (s : JourneyLanes) (r : Reads) (request : LayerRequest)
    → NoSpill s (decide h s r request).0 r (decide h s r request).1
decide-NoSpill h s r request = elim (class_ne (operation_class_of request.method request.target)) [
  | inl e ↦ rw (decide-open h s r request e) (ground arith)
  | inr ne ↦ rw (decide-classified h s r request ne) (decide_classified-NoSpill h s _ r request ne)
]
