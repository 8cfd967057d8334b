-- ===== src/Defense/Bucket/Tests.antt =====
-- defense/core/lanes.ts: a bucket of two tokens, refilled at one token per second.
use limitmark.Common.{◌+◌, ◌-◌, ◌*◌, ◌≤◌, ◌≡◌, refl, true, false, some, List, [], ◌∷◌, arith}
use limitmark.Defense.Bucket.{Clock, TokenBucket, floor_ms, unit, new_bucket, refill, take}
use limitmark.Defense.Bucket.Bound.{take_all, admitted_bound, take_due, new_bucket-IsValid}

abbrev two_tokens : TokenBucket
two_tokens = record {
  capacity = 2;
  capacity_units = 2000000;
  refill_per_ms = 1000;
  level = 2000000;
  last_ms = 0;
  takes = 0;
  admitted_count = 0;
  shed_count = 0;
}

abbrev two_times : List Clock
two_times = 0 ∷ 1000 ∷ []

abbrev later_times : List Clock
later_times = 5000000 ∷ 5001000 ∷ 5002000 ∷ []

two_tokens-new_bucket : new_bucket 2 1000 0 ≡ some two_tokens
unfolding new_bucket
two_tokens-new_bucket = refl

-- Two takes at the start, an idle time of five seconds, and three takes.
admitted_bound_example :
    let before = take_all two_tokens two_times in
    let after = take_all before later_times in
    (unit * after.admitted_count
      ≤ unit * before.admitted_count + (2 * unit + (floor_ms 6000000 - floor_ms 5000000) * 1000))
    × (after.takes ≡ after.admitted_count + after.shed_count)
admitted_bound_example =
    admitted_bound 2 1000 0 5000000 6000000 two_times later_times two_tokens two_tokens-new_bucket
      (omega arith) (omega arith) (omega arith, (omega arith, tt))
      (omega arith, (omega arith, (omega arith, tt)))

take_due_example :
    (unit ≤ (floor_ms 1000000 - 0) * 1000 → (take two_tokens 1000000).1.ok ≡ true)
    × ((take two_tokens 1000000).1.ok ≡ false
        → (take two_tokens 1000000).0.level ≡ (refill two_tokens 1000000).level)
take_due_example =
    take_due two_tokens 1000000 (new_bucket-IsValid 2 1000 0 two_tokens two_tokens-new_bucket)
      (omega arith)
