-- ===== src/Defense/Lanes/Capacity/Ledger.antt =====
-- defense/core/lanes.ts: a `UseLedger` whose records are paid for never fills up.
use limitmark.Common.{
  ℕ, ◌+◌, ◌-◌, ◌*◌, ◌≤◌, ◌<◌, ◌≡◌, refl, inl, inr, true, not, String, arith, leb, ltb, lt→ltb, ◌==◌,
  length, filter, Bool-cases, Option-cases,
}
use mathlib.Core.List.{[], ◌∷◌}
use native.Mathlib.Nat.{mul-le-mul_right, add-mul, mul_comm}
use limitmark.Common.Table.{Table, get, get-delete_self}
use limitmark.Defense.Bucket.{Clock, TokenBucket, unit, take}
use limitmark.Defense.Bucket.Bound.{IsValid}
use limitmark.Defense.UseLedger.{
  UseEntry, UseLedger, aged_out, purge, maybe_purge, can_allocate, commit, required_capacity,
}
use limitmark.Defense.Lanes.Capacity.Payment.{
  since, since-length, AllSince, AllSince-set, AllSince-filter, AllSince-get, Paid, Paid-filter,
  Paid-take, Paid-take-set, Paid-set_old,
}

-- No record is two epochs older than the last purge.
abbrev pub Fresh : UseLedger → Type 0
Fresh l = AllSince (l.last_purge_epoch - 1) l.entries

AllSince-kept :
    (epoch : ℕ) (m : Table UseEntry)
    → AllSince (epoch - 1) (filter (λ e. not (aged_out epoch e.1)) m)
AllSince-kept epoch [] = tt
AllSince-kept epoch ((k, e) ∷ m) = ground (arith, AllSince-kept epoch m)

pub maybe_purge-Fresh : (l : UseLedger) (epoch : ℕ) → Fresh l → Fresh (maybe_purge l epoch)
unfolding maybe_purge purge
maybe_purge-Fresh l epoch h = elim (Bool-cases (epoch == l.last_purge_epoch)) [
  | inl same ↦ rw same h
  | inr other ↦ rw other (AllSince-kept epoch l.entries)
]

pub maybe_purge-last : (l : UseLedger) (epoch : ℕ) → (maybe_purge l epoch).last_purge_epoch ≡ epoch
unfolding maybe_purge purge
maybe_purge-last l epoch = ground arith

pub maybe_purge-capacity :
    (l : UseLedger) (epoch : ℕ)
    → ((maybe_purge l epoch).capacity ≡ l.capacity)
      × ((maybe_purge l epoch).full_refusals ≡ l.full_refusals)
unfolding maybe_purge purge
maybe_purge-capacity l epoch = ground arith

module _ (base len : ℕ) (b : TokenBucket) where
  pub maybe_purge-Paid :
      (l : UseLedger) (epoch : ℕ)
      → Paid base len b l.entries
      → Paid base len b (maybe_purge l epoch).entries
  unfolding maybe_purge purge
  maybe_purge-Paid l epoch h = elim (Bool-cases (epoch == l.last_purge_epoch)) [
    | inl same ↦ rw same h
    | inr other ↦ rw other (Paid-filter base len b _ l.entries h)
  ]

  -- The bound for which the constructor sizes the ledger: records of two epochs at most, each paid
  -- for out of one bucket.
  pub length-lt-capacity :
      (l : UseLedger) (capacity refill epoch : ℕ)
      → b.capacity_units ≡ capacity * unit
      → b.refill_per_ms ≡ refill
      → required_capacity capacity refill len ≤ l.capacity
      → b.last_ms ≤ base + (epoch + 1) * len
      → l.last_purge_epoch ≡ epoch
      → Fresh l
      → Paid base len b l.entries
      → length l.entries < l.capacity
  unfolding required_capacity
  length-lt-capacity l capacity refill epoch units rate room late last fresh h =
      let span : (epoch + 1) * len ≤ (epoch - 1 + 2) * len = mul-le-mul_right len (omega arith) in
      let window : b.last_ms - (base + (epoch - 1) * len) ≤ 2 * len =
        omega (arith, add-mul (epoch - 1) 2 len) in
      let flow : (b.last_ms - (base + (epoch - 1) * len)) * b.refill_per_ms
          ≤ 2 * len * b.refill_per_ms =
        mul-le-mul_right b.refill_per_ms window in
      let all : since (epoch - 1) l.entries ≡ length l.entries =
        since-length (epoch - 1) l.entries (rw (← last) fresh) in
      let same : 2 * len * b.refill_per_ms ≡ refill * (2 * len) = rw rate (mul_comm _ _) in
      omega (arith, h.paid (epoch - 1), room)

  -- One take and the commit that follows its success.
  pub take-commit-Paid :
      (l : UseLedger) (key : String) (epoch : ℕ) (now : Clock)
      → IsValid b
      → Paid base len b l.entries
      → (take b now).1.ok ≡ true
      → base + epoch * len ≤ (take b now).0.last_ms
      → Paid base len (take b now).0 (commit l key epoch).entries
  unfolding commit
  take-commit-Paid l key epoch now v h ok start = elim (Option-cases (get key l.entries)) [
    | inl absent ↦ rw (absent, commit) (Paid-take-set base len b now v _ h key _ ok start absent)
    | inr (entry, there) ↦ elim (Bool-cases (ltb epoch (entry.first_epoch + 2))) [
      | inl young ↦ elim (Bool-cases (leb l.max_uses entry.committed)) [
        | inl used ↦ rw (there, commit) (rw (young, used) (Paid-take base len b now v _ h))
        | inr left ↦
            rw (there, commit)
              (rw (young, left)
                (Paid-set_old base len _ key _ entry _ (Paid-take base len b now v _ h) there refl))
      ]
      | inr old ↦
          rw (there, commit)
            (rw old (
              Paid-take-set base len b now v _ (Paid-filter base len b _ l.entries h) key _ ok start
                (get-delete_self key l.entries)))
    ]
  ]

pub commit-Fresh :
    (l : UseLedger) (key : String) (epoch : ℕ)
    → l.last_purge_epoch ≡ epoch
    → Fresh l
    → Fresh (commit l key epoch)
unfolding commit
commit-Fresh l key epoch last h = elim (Option-cases (get key l.entries)) [
  | inl absent ↦ rw (absent, commit) (AllSince-set _ key _ _ h (omega arith))
  | inr (entry, there) ↦ elim (Bool-cases (ltb epoch (entry.first_epoch + 2))) [
    | inl young ↦ elim (Bool-cases (leb l.max_uses entry.committed)) [
      | inl used ↦ rw (there, commit) (rw (young, used) h)
      | inr left ↦
          rw (there, commit)
            (rw (young, left)
              (AllSince-set _ key _ _ h (AllSince-get _ key entry l.entries h there)))
    ]
    | inr old ↦
        rw (there, commit)
          (rw old (AllSince-set _ key _ _ (AllSince-filter _ _ l.entries h) (omega arith)))
  ]
]

-- What a commit leaves alone.
pub commit-frame :
    (l : UseLedger) (key : String) (epoch : ℕ)
    → ((commit l key epoch).capacity ≡ l.capacity)
      × ((commit l key epoch).last_purge_epoch ≡ l.last_purge_epoch)
      × ((commit l key epoch).full_refusals ≡ l.full_refusals)
unfolding commit
commit-frame l key epoch = ground arith

pub can_allocate-room :
    (l : UseLedger) (epoch : ℕ) → length l.entries < l.capacity → can_allocate l epoch ≡ (l, true)
unfolding can_allocate
can_allocate-room l epoch h = rw (lt→ltb _ _ h)
