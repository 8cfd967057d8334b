-- ===== src/Inquiry/Retry.antt =====
-- src/lib/notification-retry-policy.ts: the delay before the next attempt of a delivery.
use native.Mathlib.Nat.{pow-le-pow_right, mul-le-mul_left}
use limitmark.Common.{
  ℕ, ◌-◌, ◌*◌, ◌^◌, ◌≤◌, ◌≡◌, ltb, leb, if◌then◌else◌, Bool, ◌&&◌, Option, none, some, min, arith,
}

pub record RetryPolicy : Type 0 where
  pub max_attempts : ℕ
  pub initial_delay_ms : ℕ
  pub maximum_delay_ms : ℕ

-- `Number.MAX_SAFE_INTEGER`.
abbrev pub max_safe_integer : ℕ
max_safe_integer = 9007199254740991

-- `requirePositiveInteger` does not throw.
abbrev pub is_positive_integer : ℕ → Bool
is_positive_integer value = leb 1 value && leb value max_safe_integer

-- `createExponentialRetryPolicy` with its options given; `none` is a `throw`.
unfoldable pub create_exponential_retry_policy : ℕ → ℕ → ℕ → Option RetryPolicy
create_exponential_retry_policy attempts initial maximum =
    if is_positive_integer attempts && is_positive_integer initial && is_positive_integer maximum
    then if ltb maximum initial
      then none
      else some (record {
        max_attempts = attempts;
        initial_delay_ms = initial;
        maximum_delay_ms = maximum;
      })
    else none

-- The product is a safe integer times a power of two, which a double holds exactly.
unfoldable pub delay_after_failure : RetryPolicy → ℕ → Option ℕ
delay_after_failure p attempts =
    if is_positive_integer attempts
    then some (min (p.initial_delay_ms * 2 ^ min (attempts - 1) 52) p.maximum_delay_ms)
    else none

-- The delays after two attempts, the second not before the first.
pub record Grows (p : RetryPolicy) (attempts later : ℕ) : Type 0 where
  pub delay : ℕ
  pub later_delay : ℕ
  pub given : delay_after_failure p attempts ≡ some delay
  pub later_given : delay_after_failure p later ≡ some later_delay
  pub at_least : p.initial_delay_ms ≤ delay
  pub grows : delay ≤ later_delay
  pub at_most : later_delay ≤ p.maximum_delay_ms
  pub safe : p.maximum_delay_ms ≤ max_safe_integer

-- A policy that was created gives a delay after every number of attempts that is a safe integer: at
-- least the first delay, not shorter than the one after an earlier attempt, and never above the
-- maximum, which is a safe integer too.
pub delay_after_failure-Grows :
    (n initial maximum : ℕ) (p : RetryPolicy) (attempts later : ℕ)
    → create_exponential_retry_policy n initial maximum ≡ some p
    → 1 ≤ attempts
    → attempts ≤ later
    → later ≤ max_safe_integer
    → Grows p attempts later
unfolding create_exponential_retry_policy delay_after_failure
delay_after_failure-Grows n initial maximum p attempts later made first le bound =
    let power : ℕ → ℕ = λ k. 2 ^ min (k - 1) 52 in
    let up : power attempts ≤ power later = pow-le-pow_right (omega arith) (omega arith) in
    let one : 1 ≤ power attempts = pow-le-pow_right (omega arith) {i = 0} (omega arith) in
    let ordered : p.initial_delay_ms ≤ p.maximum_delay_ms = ground arith in
    let low : p.initial_delay_ms * 1 ≤ p.initial_delay_ms * power attempts =
      mul-le-mul_left p.initial_delay_ms one in
    let high : p.initial_delay_ms * power attempts ≤ p.initial_delay_ms * power later =
      mul-le-mul_left p.initial_delay_ms up in
    record {
      delay = min (p.initial_delay_ms * power attempts) p.maximum_delay_ms;
      later_delay = min (p.initial_delay_ms * power later) p.maximum_delay_ms;
      given = ground arith;
      later_given = ground arith;
      at_least = omega (arith, low, ordered);
      grows = omega (arith, high);
      at_most = omega arith;
      safe = ground arith;
    }
