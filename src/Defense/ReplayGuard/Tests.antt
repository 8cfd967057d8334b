-- ===== src/Defense/ReplayGuard/Tests.antt =====
-- defense/core/replay-guard.ts: a guard for four identifiers.
use limitmark.Common.{◌≡◌, refl, true, false, some, none, List, [], ◌∷◌, arith}
use limitmark.Defense.Bucket.{Clock}
use limitmark.Defense.ReplayGuard.{
  ReplayGuard, ReserveRequest, new_guard, reserve, replayed, to_committed, reserve_purged, purge,
}
use limitmark.Defense.ReplayGuard.Outcome.{is_ok}
use limitmark.Defense.ReplayGuard.SingleUse.{
  GuardCall, reserves, settles, guard_run, reserve-replayed,
}
use limitmark.Defense.ReplayGuard.Accounts.{IsValid}
use limitmark.Defense.ReplayGuard.Settlement.{guard_run-IsValid}

abbrev empty_guard : ReplayGuard
empty_guard = record {
  capacity = 4;
  entries = [];
  last_purge = none;
  counters = record {
    reserved_count = 0;
    committed_count = 0;
    burned_count = 0;
    replay_rejected = 0;
    capacity_rejected = 0;
    purged = 0;
    open_count = 0;
    high_water = 0;
    state_violations = 0;
  };
}

empty_guard-new_guard : new_guard 4 ≡ some empty_guard
unfolding new_guard
empty_guard-new_guard = refl

abbrev two_keys : List ReserveRequest
two_keys =
    record { key = "jti"; retain_ms = 1000 } ∷ record { key = "nonce"; retain_ms = 2000 } ∷ []

abbrev one_key : List ReserveRequest
one_key = record { key = "nonce"; retain_ms = 5 } ∷ []

abbrev some_calls : List (Clock × GuardCall)
some_calls =
    (500000, settles (record { keys = "jti" ∷ "nonce" ∷ []; settled = false }) to_committed)
    ∷ (1500000, reserves (record { key = "other"; retain_ms = 1 } ∷ []))
    ∷ []

granted : is_ok (reserve empty_guard 0 two_keys).1 ≡ true
unfolding reserve reserve_purged purge
granted = refl

reserve-replayed_example :
    (reserve (guard_run (reserve empty_guard 0 two_keys).0 some_calls) 1999999 one_key).1 ≡ replayed
reserve-replayed_example =
    reserve-replayed "nonce" 2000 empty_guard 0 1999999 two_keys one_key some_calls tt granted refl
      (omega arith, (omega arith, tt)) (omega arith) refl

guard_run-IsValid_example : IsValid (guard_run empty_guard some_calls)
guard_run-IsValid_example = guard_run-IsValid 4 empty_guard some_calls empty_guard-new_guard
