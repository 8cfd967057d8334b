-- ===== src/Defense/Bucket/Bound.antt =====
-- defense/core/lanes.ts: the bound of a `TokenBucket` over any sequence of takes.
use native.Mathlib.Nat.{mul-le-mul_right}
use limitmark.Common.{
  ℕ, ◌+◌, ◌-◌, ◌*◌, ◌≤◌, ◌≡◌, refl, ap, ◌∙◌, ◌⊎◌, true, false, some, List, [], All, ◌∷◌, arith,
}
use limitmark.Defense.Bucket.{Clock, floor_ms, unit, TokenBucket, new_bucket, refill, take}

pub record IsValid (b : TokenBucket) : Type 0 where
  pub scaled : b.capacity_units ≡ b.capacity * unit
  pub bounded : b.level ≤ b.capacity_units
  pub accounted : b.takes ≡ b.admitted_count + b.shed_count

-- What one take does to the level and the counters.
pub record Charged (b c : TokenBucket) : Type 0 where
  pub same_capacity : c.capacity_units ≡ b.capacity_units
  pub same_refill : c.refill_per_ms ≡ b.refill_per_ms
  pub later : b.last_ms ≤ c.last_ms
  pub grows : b.admitted_count ≤ c.admitted_count
  pub paid :
      c.level + unit * c.admitted_count
      ≤ b.level + unit * b.admitted_count + (c.last_ms - b.last_ms) * b.refill_per_ms

pub refill-IsValid : (b : TokenBucket) (now : Clock) → IsValid b → IsValid (refill b now)
unfolding refill
refill-IsValid b now v = ground arith

pub take-IsValid : (b : TokenBucket) (now : Clock) → IsValid b → IsValid (take b now).0
unfolding take
take-IsValid b now v = ground arith

pub take-Charged : (b : TokenBucket) (now : Clock) → Charged b (take b now).0
unfolding take
take-Charged b now = ground arith

-- The level after a take that charges `cost`, against what was there and what the time refilled.
pub take_flow :
    (b : TokenBucket) (now : Clock) (cost : ℕ)
    → IsValid b
    → (cost ≡ 0) ⊎ ((cost ≡ unit) × ((take b now).1.ok ≡ true))
    → ((take b now).0.level + cost
        ≤ b.level + ((take b now).0.last_ms - b.last_ms) * b.refill_per_ms)
      × ((take b now).0.level + cost ≤ b.capacity_units)
unfolding take
take_flow b now cost v h = ground arith

pub take_all : TokenBucket → List Clock → TokenBucket
take_all b [] = b
take_all b (now ∷ rest) = take_all (take b now).0 rest

Charged-trans : (b c d : TokenBucket) → Charged b c → Charged c d → Charged b d
Charged-trans b c d p q = grind arith

take_all-Charged : (b : TokenBucket) (times : List Clock) → Charged b (take_all b times)
unfolding take_all
take_all-Charged b [] = ground arith
take_all-Charged b (now ∷ rest) =
    Charged-trans _ _ _ (take-Charged b now) (take_all-Charged (take b now).0 rest)

take_all-IsValid : (b : TokenBucket) (times : List Clock) → IsValid b → IsValid (take_all b times)
unfolding take_all
take_all-IsValid b [] v = v
take_all-IsValid b (now ∷ rest) v = take_all-IsValid (take b now).0 rest (take-IsValid b now v)

pub take-last_ms-le :
    (b : TokenBucket) (now stop : Clock)
    → b.last_ms ≤ floor_ms stop
    → now ≤ stop
    → (take b now).0.last_ms ≤ floor_ms stop
unfolding take
take-last_ms-le b now stop h k = ground arith

pub le-take-last_ms : (b : TokenBucket) (now : Clock) → floor_ms now ≤ (take b now).0.last_ms
unfolding take
le-take-last_ms b now = ground arith

take_all-last_ms-le :
    (b : TokenBucket) (times : List Clock) (stop : Clock)
    → b.last_ms ≤ floor_ms stop
    → All (λ t. t ≤ stop) times
    → (take_all b times).last_ms ≤ floor_ms stop
unfolding take_all
take_all-last_ms-le b [] stop h k = h
take_all-last_ms-le b (now ∷ rest) stop h k =
    take_all-last_ms-le (take b now).0 rest stop (take-last_ms-le b now stop h k.0) k.1

new_bucket-fields :
    (capacity rate : ℕ) (start : Clock) (b : TokenBucket)
    → new_bucket capacity rate start ≡ some b
    → (b.capacity ≡ capacity)
      × (b.refill_per_ms ≡ rate)
      × (b.last_ms ≡ floor_ms start)
      × (b.level ≡ capacity * unit)
      × (b.capacity_units ≡ capacity * unit)
      × (b.takes ≡ 0)
      × (b.admitted_count ≡ 0)
      × (b.shed_count ≡ 0)
      × (1 ≤ capacity)
      × (1 ≤ rate)
unfolding new_bucket
new_bucket-fields capacity rate start b h = ground arith

pub new_bucket-IsValid :
    (capacity rate : ℕ) (start : Clock) (b : TokenBucket)
    → new_bucket capacity rate start ≡ some b
    → IsValid b
new_bucket-IsValid capacity rate start b h =
    ground (arith, new_bucket-fields capacity rate start b h)

-- The first take at or after a reading leaves the capacity at most, and its refill is not before it.
take-within :
    (b : TokenBucket) (from now : Clock)
    → IsValid b
    → from ≤ now
    → ((take b now).0.level + unit * (take b now).0.admitted_count
        ≤ b.capacity * unit + unit * b.admitted_count)
      × (floor_ms from ≤ (take b now).0.last_ms)
unfolding take
take-within b from now v le = ground arith

take_all-capacity :
    (b : TokenBucket) (times : List Clock) → (take_all b times).capacity ≡ b.capacity
unfolding take_all take
take_all-capacity b [] = refl
take_all-capacity b (now ∷ rest) = ground (arith, take_all-capacity (take b now).0 rest)

within_stop :
    (from stop : Clock) (times : List Clock)
    → All (λ t. (from ≤ t) × (t ≤ stop)) times
    → All (λ t. t ≤ stop) times
within_stop from stop [] h = tt
within_stop from stop (now ∷ rest) h = (h.0.1, within_stop from stop rest h.1)

window_bound :
    (b : TokenBucket) (from stop : Clock) (times : List Clock)
    → IsValid b
    → b.last_ms ≤ floor_ms from
    → All (λ t. (from ≤ t) × (t ≤ stop)) times
    → from ≤ stop
    → unit * (take_all b times).admitted_count
      ≤ unit * b.admitted_count
        + (b.capacity * unit + (floor_ms stop - floor_ms from) * b.refill_per_ms)
unfolding take_all
window_bound b from stop [] v before all_in le = omega arith
window_bound b from stop (now ∷ rest) v before all_in le =
    let c = (take b now).0 in
    let start = take-within b from now v all_in.0.0 in
    let first = take-Charged b now in
    let paid = take_all-Charged c rest in
    let late =
      take_all-last_ms-le c rest stop
        (take-last_ms-le b now stop (omega (arith, before)) all_in.0.1)
        (within_stop from stop rest all_in.1) in
    let elapsed : (take_all c rest).last_ms - c.last_ms ≤ floor_ms stop - floor_ms from =
      omega arith in
    let refilled = mul-le-mul_right b.refill_per_ms elapsed in
    let speed : (λ (r : ℕ). ((take_all c rest).last_ms - c.last_ms) * r) c.refill_per_ms
        ≡ (λ (r : ℕ). ((take_all c rest).last_ms - c.last_ms) * r) b.refill_per_ms =
      ap (λ r. ((take_all c rest).last_ms - c.last_ms) * r) first.same_refill in
    omega (arith, paid.paid, refilled, speed, start.0, start.1)

-- Between any two readings of the clock a bucket admits at most its capacity and what the rate
-- refills in that time, however its takes are spread, whatever it took before, and however long it
-- was idle; every take is counted as admitted or shed. The readings of the takes before are not
-- behind the first reading, and those of the takes counted lie between the two.
pub admitted_bound :
    (capacity rate : ℕ) (start from stop : Clock) (earlier times : List Clock) (b : TokenBucket)
    → new_bucket capacity rate start ≡ some b
    → start ≤ from
    → from ≤ stop
    → All (λ t. t ≤ from) earlier
    → All (λ t. (from ≤ t) × (t ≤ stop)) times
    → let before = take_all b earlier in
      let after = take_all before times in
      (unit * after.admitted_count
        ≤ unit * before.admitted_count + (capacity * unit + (floor_ms stop - floor_ms from) * rate))
      × (after.takes ≡ after.admitted_count + after.shed_count)
unfolding take_all
admitted_bound capacity rate start from stop earlier times b h since le earlier_le all_in =
    let made = new_bucket-fields capacity rate start b h in
    let valid = take_all-IsValid b earlier (new_bucket-IsValid capacity rate start b h) in
    let c = take_all b earlier in
    let charged = take_all-Charged b earlier in
    let early = take_all-last_ms-le b earlier from (omega arith) earlier_le in
    let bound = window_bound c from stop times valid early all_in le in
    let size : c.capacity ≡ capacity = take_all-capacity b earlier ∙ made.0 in
    let speed : c.refill_per_ms ≡ rate = charged.same_refill ∙ made.1 in
    (rw (size, speed) at bound, (take_all-IsValid c times valid).accounted)

-- A take is admitted when the time since the bucket's last reading refills a whole token; and
-- whenever a take is shed, it leaves the level as the clock alone has made it.
pub take_due :
    (b : TokenBucket) (now : Clock)
    → IsValid b
    → 1 ≤ b.capacity
    → (unit ≤ (floor_ms now - b.last_ms) * b.refill_per_ms → (take b now).1.ok ≡ true)
      × ((take b now).1.ok ≡ false → (take b now).0.level ≡ (refill b now).level)
unfolding take
take_due b now v h = ground arith

pub new_bucket_start :
    (capacity refill : ℕ) (now : Clock) (b : TokenBucket)
    → new_bucket capacity refill now ≡ some b
    → (b.capacity_units ≡ capacity * unit)
      × (b.refill_per_ms ≡ refill)
      × (b.level ≡ b.capacity_units)
      × (b.last_ms ≡ floor_ms now)
unfolding new_bucket
new_bucket_start capacity refill now b e = ground arith
