-- ===== src/Defense/ReplayGuard/Outcome.antt =====
-- defense/core/replay-guard.ts: what a `reserve` returns, and the table that it leaves.
use limitmark.Common.{
  ℕ, ◌+◌, ◌*◌, ◌≤◌, ◌≡◌, refl, sym, ◌∙◌, ◌⊎◌, inl, inr, ltb, ◌==◌, if◌then◌else◌, Bool, true, false,
  Option, none, some, List, [], ◌∷◌, String, str_eq, eq_iff, arith, length, Bool-cases,
}
use limitmark.Common.Table.{Table, get, get-set, IsTable, set-IsTable}
use limitmark.Defense.Bucket.{Clock}
use limitmark.Defense.ReplayGuard.{
  Entry, reserved, ReserveRequest, ReplayGuard, ReserveResult, ok, replayed, full, reserve_purged,
  any_has, set_all, set_size, keys_of, elem,
}

abbrev pub is_ok : ReserveResult → Bool
is_ok (ok t) = true
is_ok replayed = false
is_ok full = false

-- A `reserve` that grants every key that it was asked for.
pub record Granted (g h : ReplayGuard) (now : Clock) (requests : List ReserveRequest)
    (result : ReserveResult) : Type 0 where
  pub granted : result ≡ ok (record { keys = keys_of requests; settled = false })
  pub entries : h.entries ≡ set_all requests now g.entries
  pub same_capacity : h.capacity ≡ g.capacity
  pub absent : any_has requests g.entries ≡ false
  pub distinct : set_size (keys_of requests) ≡ length requests
  pub room : length g.entries + length requests ≤ g.capacity
  pub reserved_more : h.counters.reserved_count ≡ g.counters.reserved_count + length requests
  pub open_more : h.counters.open_count ≡ g.counters.open_count + length requests
  pub committed_same : h.counters.committed_count ≡ g.counters.committed_count
  pub burned_same : h.counters.burned_count ≡ g.counters.burned_count

-- A `reserve` that creates nothing.
pub record Refused (g h : ReplayGuard) (result : ReserveResult) : Type 0 where
  pub refused : is_ok result ≡ false
  pub entries : h.entries ≡ g.entries
  pub same_capacity : h.capacity ≡ g.capacity
  pub reserved_same : h.counters.reserved_count ≡ g.counters.reserved_count
  pub open_same : h.counters.open_count ≡ g.counters.open_count
  pub committed_same : h.counters.committed_count ≡ g.counters.committed_count
  pub burned_same : h.counters.burned_count ≡ g.counters.burned_count

pub reserve_purged-cases :
    (g : ReplayGuard) (now : Clock) (requests : List ReserveRequest)
    → let r = reserve_purged g now requests in Refused g r.0 r.1 ⊎ Granted g r.0 now requests r.1
unfolding reserve_purged
reserve_purged-cases g now requests = elim (Bool-cases (any_has requests g.entries)) [
  | inl there ↦ rw there (inl (ground arith))
  | inr absent ↦ elim (Bool-cases (set_size (keys_of requests) == length requests)) [
    | inr double ↦ rw (absent, double) (inl (ground arith))
    | inl distinct ↦ elim (Bool-cases (ltb g.capacity (length g.entries + length requests))) [
      | inl no_room ↦ rw (absent, distinct, no_room) (inl (ground arith))
      | inr room ↦ rw (absent, distinct, room) (inr (ground arith))
    ]
  ]
]

pub reserve_purged-replayed :
    (g : ReplayGuard) (now : Clock) (requests : List ReserveRequest)
    → any_has requests g.entries ≡ true
    → (reserve_purged g now requests).1 ≡ replayed
unfolding reserve_purged
reserve_purged-replayed g now requests there = rw there refl

set_size-le : (ks : List String) → set_size ks ≤ length ks
set_size-le [] = omega arith
set_size-le (k ∷ ks) = ground (arith, set_size-le ks)

length-keys_of : (rs : List ReserveRequest) → length (keys_of rs) ≡ length rs
length-keys_of [] = refl
length-keys_of (r ∷ rs) = ground (arith, length-keys_of rs)

-- Keys that are as many as their set are all different.
pub distinct_rest :
    (r : ReserveRequest) (rs : List ReserveRequest)
    → set_size (keys_of (r ∷ rs)) ≡ length (r ∷ rs)
    → (elem r.key (keys_of rs) ≡ false) × (set_size (keys_of rs) ≡ length rs)
distinct_rest r rs h = ground (arith, set_size-le (keys_of rs), length-keys_of rs)

-- The retention asked for a key.
abbrev pub retain_of : String → List ReserveRequest → Option ℕ
retain_of k [] = none
retain_of k (r ∷ rs) =
    let rest = retain_of k rs in if str_eq r.key k then some r.retain_ms else rest

retain_of-elem :
    (k : String) (rs : List ReserveRequest) → elem k (keys_of rs) ≡ false → retain_of k rs ≡ none
retain_of-elem k [] h = refl
retain_of-elem k (r ∷ rs) h = ground (arith, retain_of-elem k rs)

pub get-set_all_other :
    (k : String) (rs : List ReserveRequest) (now : Clock) (m : Table Entry)
    → elem k (keys_of rs) ≡ false
    → get k (set_all rs now m) ≡ get k m
get-set_all_other k [] now m h = refl
get-set_all_other k (r ∷ rs) now m h =
    get-set_all_other k rs now _ (ground arith)
    ∙ ground (
      arith,
      get-set r.key k (record { state = reserved; retain_until = now + r.retain_ms * 1000 }) m,
    )

pub get-set_all :
    (k : String) (ms : ℕ) (rs : List ReserveRequest) (now : Clock) (m : Table Entry)
    → set_size (keys_of rs) ≡ length rs
    → retain_of k rs ≡ some ms
    → get k (set_all rs now m) ≡ some (record { state = reserved; retain_until = now + ms * 1000 })
get-set_all k ms [] now m d h = cc
get-set_all k ms (r ∷ rs) now m d h =
    let (other, left) = distinct_rest r rs d in
    let written =
      get-set r.key k (record { state = reserved; retain_until = now + r.retain_ms * 1000 }) m in
    elim (Bool-cases (str_eq r.key k)) [
      | inl same ↦
          let here : r.key ≡ k = ground (arith, eq_iff r.key k) in
          let gone : elem k (keys_of rs) ≡ false = rw (sym here) other in
          get-set_all_other k rs now _ gone ∙ ground (arith, written)
      | inr differ ↦ get-set_all k ms rs now _ left (ground arith)
    ]

pub set_all-IsTable :
    (rs : List ReserveRequest) (now : Clock) (m : Table Entry)
    → IsTable m
    → IsTable (set_all rs now m)
set_all-IsTable [] now m t = t
set_all-IsTable (r ∷ rs) now m t = set_all-IsTable rs now _ (set-IsTable r.key _ m t)
