-- ===== src/Defense/Lanes/Tests.antt =====
-- defense/core/lanes.ts: small lanes, and a digest that is the token itself.
use limitmark.Common.{ℕ, ◌≡◌, ◌≢◌, ◌↔◌, refl, true, some, List, [], ◌∷◌, arith}
use limitmark.Defense.Bucket.{TokenBucket, new_bucket}
use limitmark.Defense.CreditFilter.{blank, new_filter}
use limitmark.Defense.UseLedger.{new_ledger, required_capacity}
use limitmark.Defense.Request.{mutation, open_class}
use limitmark.Defense.Request.Tests.{posted}
use limitmark.Defense.Lanes.{
  Hasher, LanesConfig, JourneyLanes, Reads, new_lanes, decide, timed_out, failure_decision,
  is_valid_decision, proceeds, admitted,
}
use limitmark.Defense.Lanes.Decision.{IsComplete, decide-IsComplete, failure_decision-IsClosed}
use limitmark.Defense.Lanes.Spill.{NoSpill, decide-NoSpill}
use limitmark.Defense.Lanes.Sizing.{
  LanesCall, decides, enrolls, lanes_run, NoneIsError, lanes_run-NoneIsError,
}

abbrev pub plain_hasher : Hasher
plain_hasher = record { digest = λ t. t; base64url = λ d. "key"; credit_tag = λ d. "tag" }

abbrev small_config : LanesConfig
small_config = record {
  filter_bits = 64;
  filter_hashes = 1;
  epoch_ms = 1000;
  credited_capacity = 1;
  credited_refill = 1000;
  unverified_capacity = 1;
  unverified_refill = 1000;
  max_uses = 2;
  ledger_capacity = 4;
}

abbrev full_bucket : TokenBucket
full_bucket = record {
  capacity = 1;
  capacity_units = 1000000;
  refill_per_ms = 1000;
  level = 1000000;
  last_ms = 0;
  takes = 0;
  admitted_count = 0;
  shed_count = 0;
}

abbrev pub small_lanes : JourneyLanes
small_lanes = record {
  max_uses = 2;
  filter = record {
    bits = 64;
    hashes = 1;
    epoch_ms = 1000;
    t0 = 0;
    even = blank 64;
    odd = blank 64;
    current_epoch = 0;
    inserts = 0;
    lookups = 0;
    hits = 0;
    rotations = 0;
  };
  credited_bucket = full_bucket;
  unverified_bucket = full_bucket;
  ledger = record {
    capacity = 4;
    max_uses = 2;
    entries = [];
    last_purge_epoch = 0;
    high_water = 0;
    allocated = 0;
    purged_count = 0;
    full_refusals = 0;
    violations = 0;
  };
  decision_counts = [];
  spent_credited = 0;
  spent_unverified = 0;
}

small_lanes-new_lanes : new_lanes small_config 0 0 0 ≡ some small_lanes
unfolding new_lanes required_capacity new_filter new_bucket new_ledger
small_lanes-new_lanes = refl

abbrev pub reads_at : ℕ → Reads
reads_at t = record { at_advance = t; at_has = t; at_take = t }

abbrev two_calls : List LanesCall
two_calls = enrolls (reads_at 5) (1 ∷ 2 ∷ 3 ∷ 4 ∷ []) ∷ decides (reads_at 7) posted ∷ []

lanes_run-NoneIsError_example :
    NoneIsError (lanes_run plain_hasher small_lanes two_calls).1
    × ((lanes_run plain_hasher small_lanes two_calls).0.ledger.full_refusals ≡ 0)
lanes_run-NoneIsError_example =
    lanes_run-NoneIsError plain_hasher small_config 0 0 0 small_lanes two_calls (omega arith)
      small_lanes-new_lanes
      (
        record { first = omega arith; second = omega arith; third = omega arith },
        (record { first = omega arith; second = omega arith; third = omega arith }, tt),
      )

decide-NoSpill_example :
    NoSpill small_lanes
      (decide plain_hasher small_lanes (reads_at 7) posted).0
      (reads_at 7)
      (decide plain_hasher small_lanes (reads_at 7) posted).1
decide-NoSpill_example = decide-NoSpill plain_hasher small_lanes (reads_at 7) posted

decide-IsComplete_example : IsComplete (decide plain_hasher small_lanes (reads_at 7) posted).1
decide-IsComplete_example = decide-IsComplete plain_hasher small_lanes (reads_at 7) posted

failure_decision-IsClosed_example :
    (is_valid_decision (failure_decision mutation timed_out) ≡ true)
    × ((failure_decision mutation timed_out).outcome ≢ admitted)
    × ((proceeds (failure_decision mutation timed_out) ≡ true) ↔ (mutation ≡ open_class))
failure_decision-IsClosed_example = failure_decision-IsClosed mutation timed_out
