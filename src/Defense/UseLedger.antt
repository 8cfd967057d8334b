-- ===== src/Defense/UseLedger.antt =====
-- defense/core/lanes.ts: `UseLedger`, and the capacity that the constructor of the lanes asks for.
mod Tests
pub mod Laws
use limitmark.Common.{
  ℕ, suc, ◌+◌, ◌-◌, ◌*◌, ◌/◌, leb, ltb, ◌==◌, not, if◌then◌else◌, Bool, true, false, Option, none,
  some, List, [], ◌∷◌, String, length, filter,
}
use limitmark.Common.Table.{Table, get, set, delete}

pub record UseEntry : Type 0 where
  pub committed : ℕ
  pub first_epoch : ℕ

pub record UseLedger : Type 0 where
  pub capacity : ℕ
  pub max_uses : ℕ
  pub entries : Table UseEntry
  pub last_purge_epoch : ℕ
  pub high_water : ℕ
  pub allocated : ℕ
  pub purged_count : ℕ
  pub full_refusals : ℕ
  pub violations : ℕ

-- The constructor; `none` is its `throw`.
unfoldable pub new_ledger : ℕ → ℕ → Option UseLedger
new_ledger capacity max_uses =
    if ltb capacity 1
    then none
    else if ltb max_uses 1
    then none
    else some (record {
      capacity = capacity;
      max_uses = max_uses;
      entries = [];
      last_purge_epoch = 0;
      high_water = 0;
      allocated = 0;
      purged_count = 0;
      full_refusals = 0;
      violations = 0;
    })

-- `epoch >= entry.firstEpoch + 2`
abbrev pub aged_out : ℕ → UseEntry → Bool
aged_out epoch entry = leb (entry.first_epoch + 2) epoch

unfoldable pub committed : UseLedger → String → ℕ → Option ℕ
committed l key epoch = elim (get key l.entries) [
  | none ↦ none
  | some entry ↦ if aged_out epoch entry then none else some entry.committed
]

unfoldable pub purge : UseLedger → ℕ → UseLedger
purge l epoch =
    let kept = filter (λ e. not (aged_out epoch e.1)) l.entries in
    record l {
      last_purge_epoch = epoch;
      entries = kept;
      purged_count = l.purged_count + (length l.entries - length kept);
    }

unfoldable pub maybe_purge : UseLedger → ℕ → UseLedger
maybe_purge l epoch = if epoch == l.last_purge_epoch then l else purge l epoch

unfoldable pub can_allocate : UseLedger → ℕ → UseLedger × Bool
can_allocate l epoch =
    if ltb (length l.entries) l.capacity
    then (l, true)
    else (let p = purge l epoch in
        if ltb (length p.entries) p.capacity
        then (p, true)
        else (record p { full_refusals = p.full_refusals + 1 }, false))

-- The end of `commit`: a new record for the key.
allocate : UseLedger → String → ℕ → UseLedger
allocate l key epoch =
    let entries = set key (record { committed = 1; first_epoch = epoch }) l.entries in
    record l {
      entries = entries;
      allocated = l.allocated + 1;
      high_water = if ltb l.high_water (length entries) then length entries else l.high_water;
    }

unfoldable pub commit : UseLedger → String → ℕ → UseLedger
unfolding allocate
commit l key epoch = elim (get key l.entries) [
  | none ↦ allocate l key epoch
  | some entry ↦
      if ltb epoch (entry.first_epoch + 2)
      then if leb l.max_uses entry.committed
        then record l { violations = l.violations + 1 }
        else record l {
          entries = set key (record entry { committed = entry.committed + 1 }) l.entries;
        }
      else allocate (record l { entries = delete key l.entries; purged_count = l.purged_count + 1 })
          key epoch
]

-- The sum of the committed uses, as `snapshot` reports it.
abbrev pub live_uses : Table UseEntry → ℕ
live_uses [] = 0
live_uses ((k, e) ∷ m) = e.committed + live_uses m

-- `refill` is in thousandths of a token a second; the quotient is rounded up.
unfoldable pub required_capacity : ℕ → ℕ → ℕ → ℕ
required_capacity capacity refill epoch_ms =
    capacity + (refill * (2 * epoch_ms) + 999999) / 1000000 + 1
