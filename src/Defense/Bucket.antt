-- ===== src/Defense/Bucket.antt =====
-- defense/core/lanes.ts: `TokenBucket`.
pub mod Bound
mod Tests
use limitmark.Common.{
  ℕ, suc, ◌+◌, ◌-◌, ◌*◌, ◌/◌, min, leb, ltb, if◌then◌else◌, Bool, true, false, Option, none, some,
}

-- A reading of the monotonic clock, in whole microseconds.
abbrev pub Clock : Type 0
Clock = ℕ

-- `Math.floor(mono())`: whole milliseconds.
abbrev pub floor_ms : Clock → ℕ
floor_ms t = t / 1000

abbrev pub unit : ℕ
unit = 1000000

pub record TokenBucket : Type 0 where
  pub capacity : ℕ
  pub capacity_units : ℕ
  pub refill_per_ms : ℕ
  pub level : ℕ
  pub last_ms : ℕ
  pub takes : ℕ
  pub admitted_count : ℕ
  pub shed_count : ℕ

-- The constructor; `none` is its `throw`. `refill` is the rate in thousandths of a token a second,
-- which is the rate in micro-tokens a millisecond, so the check on its decimals is in the type.
unfoldable pub new_bucket : ℕ → ℕ → Clock → Option TokenBucket
new_bucket capacity refill now =
    if ltb capacity 1
    then none
    else if ltb refill 1
    then none
    else some (record {
      capacity = capacity;
      capacity_units = capacity * unit;
      refill_per_ms = refill;
      level = capacity * unit;
      last_ms = floor_ms now;
      takes = 0;
      admitted_count = 0;
      shed_count = 0;
    })

pub refill : TokenBucket → Clock → TokenBucket
refill b now =
    if ltb b.last_ms (floor_ms now)
    then record b {
      level = min b.capacity_units (b.level + (floor_ms now - b.last_ms) * b.refill_per_ms);
      last_ms = floor_ms now;
    }
    else b

-- What `take` returns.
pub record Taken : Type 0 where
  pub ok : Bool
  pub dt : ℕ
  pub lvl : ℕ
  pub lseq : ℕ

-- The body of `take` behind the refill.
spend : TokenBucket → TokenBucket × Taken
spend b =
    if leb unit b.level
    then (
      record b {
        takes = b.takes + 1;
        level = b.level - unit;
        admitted_count = b.admitted_count + 1;
      },
      record { ok = true; dt = b.last_ms; lvl = b.level - unit; lseq = b.takes + 1 },
    )
    else (
      record b { takes = b.takes + 1; shed_count = b.shed_count + 1 },
      record { ok = false; dt = b.last_ms; lvl = b.level; lseq = b.takes + 1 },
    )

pub take : TokenBucket → Clock → TokenBucket × Taken
unfolding refill spend
take b now = spend (refill b now)

pub record BucketSnapshot : Type 0 where
  pub capacity : ℕ
  pub level_units : ℕ
  pub takes : ℕ
  pub admitted : ℕ
  pub shed : ℕ

pub bucket_snapshot : TokenBucket → Clock → TokenBucket × BucketSnapshot
unfolding refill
bucket_snapshot b now =
    let r = refill b now in
    (
      r,
      record {
        capacity = r.capacity;
        level_units = r.level;
        takes = r.takes;
        admitted = r.admitted_count;
        shed = r.shed_count;
      },
    )
