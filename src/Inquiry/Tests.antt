-- ===== src/Inquiry/Tests.antt =====
-- src/lib/notification-retry-policy.ts: the default policy.
use limitmark.Common.{◌≡◌, refl, none, some, arith}
use limitmark.Inquiry.Retry.{
  RetryPolicy, create_exponential_retry_policy, delay_after_failure, Grows,
  delay_after_failure-Grows,
}

abbrev default_policy : RetryPolicy
default_policy = record { max_attempts = 5; initial_delay_ms = 60000; maximum_delay_ms = 3600000 }

default_policy-create : create_exponential_retry_policy 5 60000 3600000 ≡ some default_policy
unfolding create_exponential_retry_policy
default_policy-create = refl

-- The number of attempts behind the last safe integer is refused.
delay_after_failure-unsafe : delay_after_failure default_policy 9007199254740992 ≡ none
unfolding delay_after_failure
delay_after_failure-unsafe = refl

delay_after_failure-Grows_example : Grows default_policy 2 4
delay_after_failure-Grows_example =
    delay_after_failure-Grows 5 60000 3600000 default_policy 2 4 default_policy-create (omega arith)
      (omega arith) (omega arith)
