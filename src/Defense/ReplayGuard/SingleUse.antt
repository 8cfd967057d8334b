-- ===== src/Defense/ReplayGuard/SingleUse.antt =====
-- defense/core/replay-guard.ts: an identifier is accepted once in its retention.
use limitmark.Common.{
  ℕ, ◌+◌, ◌*◌, ◌≤◌, ◌<◌, ◌≡◌, refl, sym, ◌∙◌, inl, inr, ltb, true, false, ◌||◌, some, List, [], ◌∷◌,
  String, str_eq, eq_iff, arith, length, All, Bool-cases, Option-cases,
}
use limitmark.Common.Table.{
  Table, get, has, set, get-set, get-filter, has_iff_get, IsTable, filter-IsTable, set-IsTable,
}
use limitmark.Defense.Bucket.{Clock}
use limitmark.Defense.ReplayGuard.Outcome.{
  is_ok, reserve_purged-cases, reserve_purged-replayed, retain_of, get-set_all, set_all-IsTable,
}
use limitmark.Defense.ReplayGuard.{
  reserved, Entry, ReserveRequest, ReplayGuard, ReplayTicket, replayed, Settled, purge_due,
  is_reserved, is_committed, purge, purge_if_due, reserve, reserve_purged, any_has, set_all,
  keys_of, elem, transition, transition_key, violation, violation_key, violation_keys, settle,
}

-- The key `k` has an entry that is retained at least until `end`.
pub record Retained (k : String) (end : Clock) (m : Table Entry) : Type 0 where
  pub table : IsTable m
  pub entry : Entry
  pub found : get k m ≡ some entry
  pub lasts : end ≤ entry.retain_until

module _ (k : String) (end : Clock) where
  Retained-purge :
      (g : ReplayGuard) (now : Clock)
      → now < end
      → Retained k end g.entries
      → Retained k end (purge g now).entries
  unfolding purge
  Retained-purge g now lt r = record {
    table = filter-IsTable _ g.entries r.table;
    entry = r.entry;
    found = get-filter _ k r.entry g.entries r.table r.found ∙ ground (arith, r.lasts);
    lasts = r.lasts;
  }

  Retained-purge_if_due :
      (g : ReplayGuard) (now : Clock) (n : ℕ)
      → now < end
      → Retained k end g.entries
      → Retained k end (purge_if_due g now n).entries
  Retained-purge_if_due g now n lt r =
      elim (Bool-cases (purge_due g.last_purge now || ltb g.capacity (length g.entries + n))) [
        | inl due ↦ rw due (Retained-purge g now lt r)
        | inr not_due ↦ rw not_due r
      ]

  -- An entry written at another key, or one that keeps the time at `k`.
  Retained-set :
      (j : String) (e : Entry) (m : Table Entry)
      → Retained k end m
      → (j ≡ k → end ≤ e.retain_until)
      → Retained k end (set j e m)
  Retained-set j e m r keeps = elim (Bool-cases (str_eq j k)) [
    | inl same ↦ record {
      table = set-IsTable j e m r.table;
      entry = e;
      found = rw (get-set j k e m) (rw same refl);
      lasts = keeps (ground (arith, eq_iff j k));
    }
    | inr other ↦ record {
      table = set-IsTable j e m r.table;
      entry = r.entry;
      found = rw (get-set j k e m) (rw other r.found);
      lasts = r.lasts;
    }
  ]

  Retained-set_old :
      (j : String) (e : Entry) (m : Table Entry) (old : Entry)
      → Retained k end m
      → get j m ≡ some old
      → e.retain_until ≡ old.retain_until
      → Retained k end (set j e m)
  Retained-set_old j e m old r there same = Retained-set j e m r (λ eq.
      let here : get k m ≡ some old = rw (sym eq) there in ground (arith, r.found, r.lasts, here))

  Retained-transition_key :
      (g : ReplayGuard) (j : String) (next : Settled)
      → Retained k end g.entries
      → Retained k end (transition_key g j next).entries
  unfolding transition_key
  Retained-transition_key g j next r = elim (Option-cases (get j g.entries)) [
    | inl absent ↦ rw (absent, transition_key) r
    | inr (e, there) ↦ elim (Bool-cases (is_reserved e.state)) [
      | inl live ↦
          rw (there, transition_key) (rw live (Retained-set_old j _ g.entries e r there refl))
      | inr shut ↦ rw (there, transition_key) (rw shut r)
    ]
  ]

  Retained-transition :
      (g : ReplayGuard) (keys : List String) (next : Settled)
      → Retained k end g.entries
      → Retained k end (transition g keys next).entries
  unfolding transition
  Retained-transition g [] next r = r
  Retained-transition g (j ∷ keys) next r =
      Retained-transition (transition_key g j next) keys next (Retained-transition_key g j next r)

  Retained-violation_key :
      (g : ReplayGuard) (j : String)
      → Retained k end g.entries
      → Retained k end (violation_key g j).entries
  unfolding violation_key
  Retained-violation_key g j r = elim (Option-cases (get j g.entries)) [
    | inl absent ↦ rw (absent, violation_key) r
    | inr (e, there) ↦ elim (Bool-cases (is_committed e.state)) [
      | inl done ↦
          rw (there, violation_key) (rw done (Retained-set_old j _ g.entries e r there refl))
      | inr other ↦ rw (there, violation_key) (rw other r)
    ]
  ]

  Retained-violation_keys :
      (g : ReplayGuard) (keys : List String)
      → Retained k end g.entries
      → Retained k end (violation_keys g keys).entries
  unfolding violation_keys
  Retained-violation_keys g [] r = r
  Retained-violation_keys g (j ∷ keys) r =
      Retained-violation_keys (violation_key g j) keys (Retained-violation_key g j r)

  Retained-settle :
      (g : ReplayGuard) (t : ReplayTicket) (next : Settled)
      → Retained k end g.entries
      → Retained k end (settle g t next).0.entries
  unfolding settle violation
  Retained-settle g t next r = elim (Bool-cases t.settled) [
    | inl again ↦ rw again (Retained-violation_keys _ t.keys r)
    | inr first ↦ rw first (Retained-transition g t.keys next r)
  ]

  -- A key that is in the table is none of those asked for.
  elem-any_has :
      (m : Table Entry) (requests : List ReserveRequest)
      → has k m ≡ true
      → any_has requests m ≡ false
      → elem k (keys_of requests) ≡ false
  elem-any_has m [] there h = refl
  elem-any_has m (r ∷ rs) there h = ground (arith, elem-any_has m rs there, eq_iff r.key k)

  Retained-has : (m : Table Entry) → Retained k end m → has k m ≡ true
  Retained-has m r = rw (has_iff_get k m, r.found) refl

  Retained-set_all :
      (requests : List ReserveRequest) (now : Clock) (m : Table Entry)
      → elem k (keys_of requests) ≡ false
      → Retained k end m
      → Retained k end (set_all requests now m)
  Retained-set_all [] now m other r = r
  Retained-set_all (q ∷ requests) now m other r =
      Retained-set_all requests now _ (ground arith)
        (Retained-set q.key _ m r (λ eq. ground (arith, eq_iff q.key k)))

  Retained-reserve_purged :
      (g : ReplayGuard) (now : Clock) (requests : List ReserveRequest)
      → Retained k end g.entries
      → Retained k end (reserve_purged g now requests).0.entries
  Retained-reserve_purged g now requests r = elim (reserve_purged-cases g now requests) [
    | inl kept ↦ rw kept.entries r
    | inr given ↦ rw given.entries (
        Retained-set_all requests now g.entries
          (elem-any_has g.entries requests (Retained-has g.entries r) given.absent) r)
  ]

  Retained-reserve :
      (g : ReplayGuard) (now : Clock) (requests : List ReserveRequest)
      → now < end
      → Retained k end g.entries
      → Retained k end (reserve g now requests).0.entries
  unfolding reserve
  Retained-reserve g now requests lt r =
      Retained-reserve_purged _ now requests (Retained-purge_if_due g now (length requests) lt r)

  any_has-elem :
      (m : Table Entry) (requests : List ReserveRequest)
      → has k m ≡ true
      → elem k (keys_of requests) ≡ true
      → any_has requests m ≡ true
  any_has-elem m [] there h = cc
  any_has-elem m (r ∷ rs) there h = ground (arith, any_has-elem m rs there, eq_iff r.key k)

  -- A key that is retained is refused.
  reserve-refused :
      (g : ReplayGuard) (now : Clock) (requests : List ReserveRequest)
      → now < end
      → Retained k end g.entries
      → elem k (keys_of requests) ≡ true
      → (reserve g now requests).1 ≡ replayed
  unfolding reserve
  reserve-refused g now requests lt r asked =
      let p = Retained-purge_if_due g now (length requests) lt r in
      reserve_purged-replayed _ now requests (any_has-elem _ requests (Retained-has _ p) asked)

-- An operation of the guard or of a ticket, at a reading of the clock.
pub data GuardCall : Type 0 where
  reserves : List ReserveRequest → GuardCall
  settles : ReplayTicket → Settled → GuardCall

unfoldable pub guard_step : ReplayGuard → Clock × GuardCall → ReplayGuard
guard_step g (now, reserves requests) = (reserve g now requests).0
guard_step g (now, settles t next) = (settle g t next).0

unfoldable pub guard_run : ReplayGuard → List (Clock × GuardCall) → ReplayGuard
guard_run g [] = g
guard_run g (c ∷ cs) = guard_run (guard_step g c) cs

guard_run-Retained :
    (k : String) (end : Clock) (g : ReplayGuard) (cs : List (Clock × GuardCall))
    → All (λ c. c.0 < end) cs
    → Retained k end g.entries
    → Retained k end (guard_run g cs).entries
unfolding guard_run guard_step
guard_run-Retained k end g [] before r = r
guard_run-Retained k end g ((now, reserves requests) ∷ cs) before r =
    guard_run-Retained k end (reserve g now requests).0 cs before.1
      (Retained-reserve k end g now requests before.0 r)
guard_run-Retained k end g ((now, settles t next) ∷ cs) before r =
    guard_run-Retained k end (settle g t next).0 cs before.1 (Retained-settle k end g t next r)

purge_if_due-IsTable :
    (g : ReplayGuard) (now : Clock) (n : ℕ)
    → IsTable g.entries
    → IsTable (purge_if_due g now n).entries
unfolding purge
purge_if_due-IsTable g now n t =
    elim (Bool-cases (purge_due g.last_purge now || ltb g.capacity (length g.entries + n))) [
      | inl due ↦ rw due (filter-IsTable _ g.entries t)
      | inr not_due ↦ rw not_due t
    ]

-- The keys of a granted reservation are retained for the time asked for.
reserve-Retained :
    (k : String) (ms : ℕ) (g : ReplayGuard) (now : Clock) (requests : List ReserveRequest)
    → IsTable g.entries
    → is_ok (reserve g now requests).1 ≡ true
    → retain_of k requests ≡ some ms
    → Retained k (now + ms * 1000) (reserve g now requests).0.entries
unfolding reserve
reserve-Retained k ms g now requests t granted asked =
    let p = purge_if_due g now (length requests) in
    elim (reserve_purged-cases p now requests) [
      | inl kept ↦ absurd (ground (arith, kept.refused))
      | inr given ↦ rw given.entries (record {
        table = set_all-IsTable requests now _ (purge_if_due-IsTable g now (length requests) t);
        entry = record { state = reserved; retain_until = now + ms * 1000 };
        found = get-set_all k ms requests now _ given.distinct asked;
        lasts = omega arith;
      })
    ]

-- Single use: once a reservation is granted, a later one that asks for one of its keys within the
-- key's retention is answered `replayed`, whatever reservations and settlements of tickets, as
-- commits or as burns, happen in between.
pub reserve-replayed :
    (k : String) (ms : ℕ) (g : ReplayGuard) (now later : Clock)
    (requests others : List ReserveRequest) (cs : List (Clock × GuardCall))
    → IsTable g.entries
    → is_ok (reserve g now requests).1 ≡ true
    → retain_of k requests ≡ some ms
    → All (λ c. c.0 < now + ms * 1000) cs
    → later < now + ms * 1000
    → elem k (keys_of others) ≡ true
    → (reserve (guard_run (reserve g now requests).0 cs) later others).1 ≡ replayed
reserve-replayed k ms g now later requests others cs t granted asked before early again =
    reserve-refused k (now + ms * 1000) _ later others early
      (guard_run-Retained k (now + ms * 1000) _ cs before
        (reserve-Retained k ms g now requests t granted asked))
      again
