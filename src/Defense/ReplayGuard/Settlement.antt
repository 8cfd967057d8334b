-- ===== src/Defense/ReplayGuard/Settlement.antt =====
-- defense/core/replay-guard.ts: settlements, and whole runs of the guard, against the counters.
use limitmark.Common.{
  ℕ, ◌+◌, ◌≤◌, ◌≡◌, refl, inl, inr, if◌then◌else◌, true, false, some, List, [], ◌∷◌, String, arith,
  Bool-cases, Option-cases,
}
use limitmark.Common.Table.{get, has, set, length-set, has_iff_get, set-IsTable}
use limitmark.Defense.Bucket.{Clock}
use limitmark.Defense.ReplayGuard.{
  ReplayEntryState, reserved, committed, burned, Settled, to_committed, to_burned, Counters,
  count_settled, settled_state, violated, Entry, ReplayGuard, ReplayTicket, new_guard, is_reserved,
  is_committed, reserve, transition, transition_key, violation, violation_key, violation_keys,
  settle,
}
use limitmark.Defense.ReplayGuard.SingleUse.{GuardCall, reserves, settles, guard_step, guard_run}
use limitmark.Defense.ReplayGuard.Accounts.{IsValid, count_state-set_old, reserve-IsValid}

reserved_only : (s : ReplayEntryState) → is_reserved s ≡ true → is_committed s ≡ false
reserved_only reserved h = refl
reserved_only committed h = cc
reserved_only burned h = refl

committed_only : (s : ReplayEntryState) → is_committed s ≡ true → is_reserved s ≡ false
committed_only reserved h = cc
committed_only committed h = refl
committed_only burned h = refl

-- An entry that changes its state, with what that does to the two counts of states.
module _ (g : ReplayGuard) (v : IsValid g) (k : String) (e w : Entry)
    (there : get k g.entries ≡ some w) where
  set_old-IsValid :
      (c : Counters)
      → c.open_count + (if is_reserved w.state then 1 else 0)
        ≡ g.counters.open_count + (if is_reserved e.state then 1 else 0)
      → c.reserved_count ≡ c.open_count + c.committed_count + c.burned_count
      → g.counters.committed_count + (if is_committed e.state then 1 else 0)
        ≤ c.committed_count + (if is_committed w.state then 1 else 0)
      → IsValid (record g { entries = set k e g.entries; counters = c })
  set_old-IsValid c opens settles_all counts =
      let there_has : has k g.entries ≡ true = rw (has_iff_get k g.entries, there) refl in
      record {
        table = set-IsTable k e g.entries v.table;
        bounded = rw (length-set k e g.entries) (rw there_has v.bounded);
        opened =
            omega (arith, count_state-set_old is_reserved k e w g.entries there, v.opened, opens);
        settled = settles_all;
        counted =
            omega
              (arith, count_state-set_old is_committed k e w g.entries there, v.counted, counts);
      }

violated-IsValid : (g : ReplayGuard) → IsValid g → IsValid (violated g)
violated-IsValid g v = record {
  table = v.table;
  bounded = v.bounded;
  opened = v.opened;
  settled = v.settled;
  counted = v.counted;
}

-- A reserved entry is among those that the guard counts as open.
open_some :
    (g : ReplayGuard) (k : String) (w : Entry)
    → IsValid g
    → get k g.entries ≡ some w
    → is_reserved w.state ≡ true
    → 1 ≤ g.counters.open_count
open_some g k w v there live =
    let e : Entry = record { state = burned; retain_until = w.retain_until } in
    let counts = count_state-set_old is_reserved k e w g.entries there in
    ground (arith, counts, v.opened)

committed_some :
    (g : ReplayGuard) (k : String) (w : Entry)
    → IsValid g
    → get k g.entries ≡ some w
    → is_committed w.state ≡ true
    → 1 ≤ g.counters.committed_count
committed_some g k w v there live =
    let e : Entry = record { state = burned; retain_until = w.retain_until } in
    let counts = count_state-set_old is_committed k e w g.entries there in
    ground (arith, counts, v.counted)

transition_key-IsValid :
    (g : ReplayGuard) (k : String) (next : Settled) → IsValid g → IsValid (transition_key g k next)
unfolding transition_key
transition_key-IsValid g k next v = elim (Option-cases (get k g.entries)) [
  | inl absent ↦ rw (absent, transition_key) (violated-IsValid g v)
  | inr (e, there) ↦ elim (Bool-cases (is_reserved e.state)) [
    | inl live ↦ rw (there, transition_key) (rw live (settled-IsValid e there live next))
    | inr shut ↦ rw (there, transition_key) (rw shut (violated-IsValid g v))
  ]
]
  where
    settled-IsValid :
        (e : Entry)
        → get k g.entries ≡ some e
        → is_reserved e.state ≡ true
        → (next : Settled)
        → IsValid (record g {
          entries = set k (record e { state = settled_state next }) g.entries;
          counters = count_settled next g.counters;
        })
    settled-IsValid e there live to_committed =
        let some_open = open_some g k e v there live in
        set_old-IsValid g v k _ e there _ (ground (arith, some_open))
          (omega (arith, some_open, v.settled)) (ground (arith, reserved_only e.state live))
    settled-IsValid e there live to_burned =
        let some_open = open_some g k e v there live in
        set_old-IsValid g v k _ e there _ (ground (arith, some_open))
          (omega (arith, some_open, v.settled)) (ground (arith, reserved_only e.state live))

violation_key-IsValid : (g : ReplayGuard) (k : String) → IsValid g → IsValid (violation_key g k)
unfolding violation_key
violation_key-IsValid g k v = elim (Option-cases (get k g.entries)) [
  | inl absent ↦ rw (absent, violation_key) v
  | inr (e, there) ↦ elim (Bool-cases (is_committed e.state)) [
    | inl done ↦
        let some_committed = committed_some g k e v there done in
        rw (there, violation_key)
          (rw done (
            set_old-IsValid g v k _ e there _ (ground (arith, committed_only e.state done))
              (omega (arith, some_committed, v.settled)) (ground (arith, some_committed))))
    | inr other ↦ rw (there, violation_key) (rw other v)
  ]
]

transition-IsValid :
    (g : ReplayGuard) (keys : List String) (next : Settled)
    → IsValid g
    → IsValid (transition g keys next)
unfolding transition
transition-IsValid g [] next v = v
transition-IsValid g (k ∷ keys) next v =
    transition-IsValid (transition_key g k next) keys next (transition_key-IsValid g k next v)

violation_keys-IsValid :
    (g : ReplayGuard) (keys : List String) → IsValid g → IsValid (violation_keys g keys)
unfolding violation_keys
violation_keys-IsValid g [] v = v
violation_keys-IsValid g (k ∷ keys) v =
    violation_keys-IsValid (violation_key g k) keys (violation_key-IsValid g k v)

settle-IsValid :
    (g : ReplayGuard) (t : ReplayTicket) (next : Settled) → IsValid g → IsValid (settle g t next).0
unfolding settle violation
settle-IsValid g t next v = elim (Bool-cases t.settled) [
  | inl again ↦ rw again (violation_keys-IsValid (violated g) t.keys (violated-IsValid g v))
  | inr first ↦ rw first (transition-IsValid g t.keys next v)
]

new_guard-IsValid : (capacity : ℕ) (g : ReplayGuard) → new_guard capacity ≡ some g → IsValid g
unfolding new_guard
new_guard-IsValid capacity g made = ground arith

-- A guard made by the constructor stays valid over any sequence of reservations and settlements,
-- second ones included: its table has each key once and no more entries than the capacity, `open`
-- is the number of reserved entries, and every reservation is open, committed or burned.
pub guard_run-IsValid :
    (capacity : ℕ) (g : ReplayGuard) (cs : List (Clock × GuardCall))
    → new_guard capacity ≡ some g
    → IsValid (guard_run g cs)
unfolding guard_run guard_step
guard_run-IsValid capacity g cs made = go g cs (new_guard-IsValid capacity g made)
  where
    go : (h : ReplayGuard) (ds : List (Clock × GuardCall)) → IsValid h → IsValid (guard_run h ds)
    go h [] v = v
    go h ((now, reserves requests) ∷ ds) v =
        go (reserve h now requests).0 ds (reserve-IsValid h now requests v)
    go h ((now, settles t next) ∷ ds) v = go (settle h t next).0 ds (settle-IsValid h t next v)
