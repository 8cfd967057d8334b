-- ===== src/Defense/ReplayGuard/Accounts.antt =====
-- defense/core/replay-guard.ts: the counters of the guard against its table.
use limitmark.Common.{
  ℕ, suc, ◌+◌, ◌*◌, ◌≤◌, ◌≡◌, refl, inl, inr, ltb, if◌then◌else◌, Bool, false, ◌||◌, none, some,
  List, [], ◌∷◌, String, eq_iff, arith, length, filter, Bool-cases,
}
use limitmark.Common.Table.{
  Table, get, set, has-set, length-set, has_iff_get, IsTable, filter-IsTable,
}
use limitmark.Defense.Bucket.{Clock}
use limitmark.Defense.ReplayGuard.{
  ReplayEntryState, reserved, Entry, ReserveRequest, ReplayGuard, is_reserved, is_committed, stays,
  purge, purge_due, purge_if_due, reserve, set_all, any_has, set_size, keys_of, elem,
}
use limitmark.Defense.ReplayGuard.Outcome.{reserve_purged-cases, distinct_rest, set_all-IsTable}

-- How many entries are in a state that the test picks.
abbrev pub count_state : (ReplayEntryState → Bool) → Table Entry → ℕ
count_state p [] = 0
count_state p ((k, e) ∷ m) = let rest = count_state p m in if p e.state then suc rest else rest

pub record IsValid (g : ReplayGuard) : Type 0 where
  pub table : IsTable g.entries
  pub bounded : length g.entries ≤ g.capacity
  pub opened : g.counters.open_count ≡ count_state is_reserved g.entries
  pub settled :
      g.counters.reserved_count
      ≡ g.counters.open_count + g.counters.committed_count + g.counters.burned_count
  pub counted : count_state is_committed g.entries ≤ g.counters.committed_count

module _ (p : ReplayEntryState → Bool) where
  count_state-set_new :
      (k : String) (e : Entry) (m : Table Entry)
      → get k m ≡ none
      → count_state p (set k e m) ≡ count_state p m + (if p e.state then 1 else 0)
  count_state-set_new k e [] h = ground arith
  count_state-set_new k e ((j, w) ∷ m) h = ground (arith, count_state-set_new k e m)

  pub count_state-set_old :
      (k : String) (e w : Entry) (m : Table Entry)
      → get k m ≡ some w
      → count_state p (set k e m) + (if p w.state then 1 else 0)
        ≡ count_state p m + (if p e.state then 1 else 0)
  count_state-set_old k e w [] h = cc
  count_state-set_old k e w ((j, x) ∷ m) h = ground (arith, count_state-set_old k e w m)

count_state-purge :
    (now : Clock) (m : Table Entry)
    → (count_state is_reserved (filter (λ e. stays now e.1) m) ≡ count_state is_reserved m)
      × (count_state is_committed (filter (λ e. stays now e.1) m) ≤ count_state is_committed m)
      × (length (filter (λ e. stays now e.1) m) ≤ length m)
count_state-purge now [] = (refl, omega arith, omega arith)
count_state-purge now ((k, e) ∷ m) = ground (arith, count_state-purge now m)

purge_if_due-IsValid :
    (g : ReplayGuard) (now : Clock) (n : ℕ) → IsValid g → IsValid (purge_if_due g now n)
unfolding purge
purge_if_due-IsValid g now n v =
    let (same, fewer, shorter) = count_state-purge now g.entries in
    elim (Bool-cases (purge_due g.last_purge now || ltb g.capacity (length g.entries + n))) [
      | inl due ↦ rw due (record {
        table = filter-IsTable _ g.entries v.table;
        bounded = omega (arith, shorter, v.bounded);
        opened = omega (arith, same, v.opened);
        settled = v.settled;
        counted = omega (arith, fewer, v.counted);
      })
      | inr not_due ↦ rw not_due v
    ]

any_has-set :
    (rs : List ReserveRequest) (k : String) (e : Entry) (m : Table Entry)
    → elem k (keys_of rs) ≡ false
    → any_has rs m ≡ false
    → any_has rs (set k e m) ≡ false
any_has-set [] k e m h absent = refl
any_has-set (r ∷ rs) k e m h absent =
    ground (arith, any_has-set rs k e m, has-set k r.key e m, eq_iff k r.key)

set_all-counts :
    (rs : List ReserveRequest) (now : Clock) (m : Table Entry)
    → any_has rs m ≡ false
    → set_size (keys_of rs) ≡ length rs
    → (count_state is_reserved (set_all rs now m) ≡ count_state is_reserved m + length rs)
      × (count_state is_committed (set_all rs now m) ≡ count_state is_committed m)
      × (length (set_all rs now m) ≡ length m + length rs)
set_all-counts [] now m absent d = (omega arith, refl, omega arith)
set_all-counts (r ∷ rs) now m absent d =
    let e : Entry = record { state = reserved; retain_until = now + r.retain_ms * 1000 } in
    let (other, left) = distinct_rest r rs d in
    let new : get r.key m ≡ none = ground (arith, has_iff_get r.key m) in
    let rest =
      set_all-counts rs now (set r.key e m) (any_has-set rs r.key e m other (ground arith)) left in
    ground (
      arith,
      rest,
      count_state-set_new is_reserved r.key e m new,
      count_state-set_new is_committed r.key e m new,
      length-set r.key e m,
    )

pub reserve-IsValid :
    (g : ReplayGuard) (now : Clock) (requests : List ReserveRequest)
    → IsValid g
    → IsValid (reserve g now requests).0
unfolding reserve
reserve-IsValid g now requests v =
    let p = purge_if_due g now (length requests) in
    let u = purge_if_due-IsValid g now (length requests) v in
    elim (reserve_purged-cases p now requests) [
      | inl kept ↦ record {
        table = rw kept.entries u.table;
        bounded = rw (kept.entries, kept.same_capacity) u.bounded;
        opened = rw (kept.entries, kept.open_same) u.opened;
        settled =
            rw (kept.reserved_same, kept.open_same, kept.committed_same, kept.burned_same)
              u.settled;
        counted = rw (kept.entries, kept.committed_same) u.counted;
      }
      | inr given ↦
          let (more, same, longer) =
            set_all-counts requests now p.entries given.absent given.distinct in
          record {
            table = rw given.entries (set_all-IsTable requests now p.entries u.table);
            bounded = rw (given.entries, given.same_capacity) (omega (arith, longer, given.room));
            opened = rw (given.entries, given.open_more) (omega (arith, more, u.opened));
            settled = omega (
              arith, given.reserved_more, given.open_more, given.committed_same, given.burned_same,
              u.settled,
            );
            counted = rw (given.entries, given.committed_same) (omega (arith, same, u.counted));
          }
    ]
