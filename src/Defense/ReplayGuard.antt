-- ===== src/Defense/ReplayGuard.antt =====
-- defense/core/replay-guard.ts: `ReplayGuard` and `ReplayTicket`. The clock that the guard reads is
-- in microseconds; `last_purge` is `none` until the first purge, for the infinity of the source.
pub mod Outcome
pub mod Accounts
pub mod Settlement
mod Tests
pub mod SingleUse
use limitmark.Common.{
  ℕ, suc, ◌+◌, ◌-◌, ◌*◌, leb, ltb, ◌==◌, not, if◌then◌else◌, Bool, true, false, ◌&&◌, ◌||◌, Option,
  none, some, List, [], ◌∷◌, String, str_eq, length, map, filter, max,
}
use limitmark.Common.Table.{Table, get, has, set}
use limitmark.Defense.Bucket.{Clock}

pub data ReplayEntryState : Type 0 where
  reserved committed burned : ReplayEntryState

-- What a ticket ends as.
pub data Settled : Type 0 where
  to_committed to_burned : Settled

pub record Entry : Type 0 where
  pub state : ReplayEntryState
  pub retain_until : Clock

pub record ReserveRequest : Type 0 where
  pub key : String
  pub retain_ms : ℕ

pub record Counters : Type 0 where
  pub reserved_count : ℕ
  pub committed_count : ℕ
  pub burned_count : ℕ
  pub replay_rejected : ℕ
  pub capacity_rejected : ℕ
  pub purged : ℕ
  pub open_count : ℕ
  pub high_water : ℕ
  pub state_violations : ℕ

pub record ReplayGuard : Type 0 where
  pub capacity : ℕ
  pub entries : Table Entry
  pub last_purge : Option Clock
  pub counters : Counters

pub record ReplayTicket : Type 0 where
  pub keys : List String
  pub settled : Bool

pub data ReserveResult : Type 0 where
  ok : ReplayTicket → ReserveResult
  replayed full : ReserveResult

-- The constructor; `none` is its `throw`.
pub new_guard : ℕ → Option ReplayGuard
new_guard capacity =
    if ltb capacity 1
    then none
    else some (record {
      capacity = capacity;
      entries = [];
      last_purge = none;
      counters = record {
        reserved_count = 0;
        committed_count = 0;
        burned_count = 0;
        replay_rejected = 0;
        capacity_rejected = 0;
        purged = 0;
        open_count = 0;
        high_water = 0;
        state_violations = 0;
      };
    })

abbrev pub is_reserved : ReplayEntryState → Bool
is_reserved reserved = true
is_reserved committed = false
is_reserved burned = false

abbrev pub is_committed : ReplayEntryState → Bool
is_committed reserved = false
is_committed committed = true
is_committed burned = false

-- An entry that `purge` passes over.
abbrev pub stays : Clock → Entry → Bool
stays now e = ltb now e.retain_until || is_reserved e.state

pub purge : ReplayGuard → Clock → ReplayGuard
purge g now =
    let left = filter (λ e. stays now e.1) g.entries in
    record g {
      entries = left;
      last_purge = some now;
      counters = record g.counters {
        purged = g.counters.purged + (length g.entries - length left);
      };
    }

abbrev pub purge_due : Option Clock → Clock → Bool
purge_due none now = true
purge_due (some last) now = leb (last + 250000) now

abbrev pub keys_of : List ReserveRequest → List String
keys_of [] = []
keys_of (r ∷ rs) = r.key ∷ keys_of rs

abbrev pub any_has : List ReserveRequest → Table Entry → Bool
any_has [] m = false
any_has (r ∷ rs) m = has r.key m || any_has rs m

abbrev pub elem : String → List String → Bool
elem k [] = false
elem k (j ∷ js) = str_eq j k || elem k js

-- The size of the `Set` of the keys.
abbrev pub set_size : List String → ℕ
set_size [] = 0
set_size (k ∷ ks) = let rest = set_size ks in if elem k ks then rest else suc rest

abbrev pub set_all : List ReserveRequest → Clock → Table Entry → Table Entry
set_all [] now m = m
set_all (r ∷ rs) now m =
    set_all rs now
      (set r.key (record { state = reserved; retain_until = now + r.retain_ms * 1000 }) m)

abbrev reject_replay : ReplayGuard → ReplayGuard
reject_replay g = record g {
  counters = record g.counters { replay_rejected = g.counters.replay_rejected + 1 };
}

abbrev pub purge_if_due : ReplayGuard → Clock → ℕ → ReplayGuard
purge_if_due g now n =
    if purge_due g.last_purge now || ltb g.capacity (length g.entries + n) then purge g now else g

-- The rest of `reserve`, behind the purge.
pub reserve_purged : ReplayGuard → Clock → List ReserveRequest → ReplayGuard × ReserveResult
reserve_purged g now requests =
    let n = length requests in
    let m = set_all requests now g.entries in
    if any_has requests g.entries
    then (reject_replay g, replayed)
    else if not (set_size (keys_of requests) == n)
    then (reject_replay g, replayed)
    else if ltb g.capacity (length g.entries + n)
    then (
      record g {
        counters = record g.counters { capacity_rejected = g.counters.capacity_rejected + 1 };
      },
      full,
    )
    else (
      record g {
        entries = m;
        counters = record g.counters {
          reserved_count = g.counters.reserved_count + n;
          open_count = g.counters.open_count + n;
          high_water = max g.counters.high_water (length m);
        };
      },
      ok (record { keys = keys_of requests; settled = false }),
    )

pub reserve : ReplayGuard → Clock → List ReserveRequest → ReplayGuard × ReserveResult
unfolding reserve_purged purge
reserve g now requests = reserve_purged (purge_if_due g now (length requests)) now requests

abbrev pub violated : ReplayGuard → ReplayGuard
violated g = record g {
  counters = record g.counters { state_violations = g.counters.state_violations + 1 };
}

abbrev pub settled_state : Settled → ReplayEntryState
settled_state to_committed = committed
settled_state to_burned = burned

abbrev pub count_settled : Settled → Counters → Counters
count_settled to_committed c = record c {
  open_count = c.open_count - 1;
  committed_count = c.committed_count + 1;
}
count_settled to_burned c = record c {
  open_count = c.open_count - 1;
  burned_count = c.burned_count + 1;
}

-- One round of the loop of `transition`.
pub transition_key : ReplayGuard → String → Settled → ReplayGuard
transition_key g key next = elim (get key g.entries) [
  | none ↦ violated g
  | some e ↦
      if is_reserved e.state
      then record g {
        entries = set key (record e { state = settled_state next }) g.entries;
        counters = count_settled next g.counters;
      }
      else violated g
]

pub transition : ReplayGuard → List String → Settled → ReplayGuard
transition g [] next = g
transition g (key ∷ keys) next = transition (transition_key g key next) keys next

-- One round of the loop of `violation`.
pub violation_key : ReplayGuard → String → ReplayGuard
violation_key g key = elim (get key g.entries) [
  | none ↦ g
  | some e ↦
      if is_committed e.state
      then record g {
        entries = set key (record e { state = burned }) g.entries;
        counters = record g.counters {
          committed_count = g.counters.committed_count - 1;
          burned_count = g.counters.burned_count + 1;
        };
      }
      else g
]

pub violation_keys : ReplayGuard → List String → ReplayGuard
violation_keys g [] = g
violation_keys g (key ∷ keys) = violation_keys (violation_key g key) keys

pub violation : ReplayGuard → List String → ReplayGuard
unfolding violation_keys
violation g keys = violation_keys (violated g) keys

-- `commit` and `burn` of a ticket.
pub settle : ReplayGuard → ReplayTicket → Settled → ReplayGuard × ReplayTicket
unfolding violation transition
settle g t next =
    if t.settled
    then (violation g t.keys, t)
    else (transition g t.keys next, record t { settled = true })

-- `UNSEEN` is `none`.
pub state_of : ReplayGuard → String → Option ReplayEntryState
state_of g key = elim (get key g.entries) [ none ↦ none | some e ↦ some e.state ]
