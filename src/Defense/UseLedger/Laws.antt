-- ===== src/Defense/UseLedger/Laws.antt =====
-- defense/core/lanes.ts: what one operation of the `UseLedger` does to a token's record.
use limitmark.Common.{
  ℕ, ◌+◌, ◌≤◌, ◌<◌, ◌≡◌, refl, ◌≢◌, inl, inr, Bool, true, false, not, if◌then◌else◌, Option, none,
  some, List, [], ◌∷◌, String, length, filter, All, arith, str_eq, ltb, leb, leb-eq-false,
  Option-cases, Bool-cases,
}
use mathlib.Core.Path.{subst}
use limitmark.Common.Table.{
  Table, get, set, delete, IsTable, get-filter, get-filter_none, get-set_self, get-set_ne,
  get-delete_ne, set-IsTable, filter-IsTable,
}
use limitmark.Defense.UseLedger.{
  UseEntry, UseLedger, aged_out, committed, purge, maybe_purge, can_allocate, allocate, commit,
  new_ledger,
}

pub record IsValid (l : UseLedger) : Type 0 where
  pub table : IsTable l.entries
  pub capped : All (λ e. e.1.committed ≤ l.max_uses) l.entries
  pub positive : 1 ≤ l.max_uses
  pub sound : l.violations ≡ 0

All-filter {ℓ} :
    {A : Type ℓ} (P : A → Type 0) (p : A → Bool) (xs : List A) → All P xs → All P (filter p xs)
All-filter P p [] h = tt
All-filter P p (x ∷ xs) h = ground (arith, All-filter P p xs h.1)

All-set :
    (P : UseEntry → Type 0) (k : String) (v : UseEntry) (m : Table UseEntry)
    → All (λ e. P e.1) m
    → P v
    → All (λ e. P e.1) (set k v m)
All-set P k v [] h p = (p, tt)
All-set P k v ((j, w) ∷ m) h p = ground (arith, All-set P k v m h.1 p)

get_head :
    (w v : UseEntry) (j k : String) (m : Table UseEntry)
    → str_eq j k ≡ true
    → get k ((j, w) ∷ m) ≡ some v
    → w ≡ v
get_head w v j k m same e = ground arith

pub All-get :
    (P : UseEntry → Type 0) (k : String) (v : UseEntry) (m : Table UseEntry)
    → All (λ e. P e.1) m
    → get k m ≡ some v
    → P v
All-get P k v [] h e = cc
All-get P k v ((j, w) ∷ m) h e = elim (Bool-cases (str_eq j k)) [
  | inl same ↦ subst P (get_head w v j k m same e) h.0
  | inr other ↦ All-get P k v m h.1 (rw other at e)
]

pub purge-IsValid : (l : UseLedger) (epoch : ℕ) → IsValid l → IsValid (purge l epoch)
unfolding purge
purge-IsValid l epoch v = record {
  table = filter-IsTable _ l.entries v.table;
  capped = All-filter _ _ l.entries v.capped;
  positive = v.positive;
  sound = v.sound;
}

-- P2: a record that is not aged out is kept by a purge.
pub committed-purge :
    (l : UseLedger) (key : String) (epoch : ℕ)
    → IsValid l
    → committed (purge l epoch) key epoch ≡ committed l key epoch
unfolding committed purge
committed-purge l key epoch v = elim (Option-cases (get key l.entries)) [
  | inl e ↦ ground (arith, get-filter_none (λ e. not (aged_out epoch e.1)) key l.entries e)
  | inr (entry, e) ↦
      ground (arith, get-filter (λ e. not (aged_out epoch e.1)) key entry l.entries v.table e)
]

pub maybe_purge-IsValid : (l : UseLedger) (epoch : ℕ) → IsValid l → IsValid (maybe_purge l epoch)
unfolding maybe_purge
maybe_purge-IsValid l epoch v = ground (arith, purge-IsValid l epoch v)

pub committed-maybe_purge :
    (l : UseLedger) (key : String) (epoch : ℕ)
    → IsValid l
    → committed (maybe_purge l epoch) key epoch ≡ committed l key epoch
unfolding maybe_purge
committed-maybe_purge l key epoch v = ground (arith, committed-purge l key epoch v)

pub can_allocate-IsValid :
    (l : UseLedger) (epoch : ℕ) → IsValid l → IsValid (can_allocate l epoch).0
unfolding can_allocate
can_allocate-IsValid l epoch v = elim (Bool-cases (ltb (length l.entries) l.capacity)) [
  | inl e ↦ rw e v
  | inr e ↦ rw e (
      let p = purge-IsValid l epoch v in
      elim (Bool-cases (ltb (length (purge l epoch).entries) (purge l epoch).capacity)) [
        | inl k ↦ rw k p
        | inr k ↦
            rw k (record {
              table = p.table;
              capped = p.capped;
              positive = p.positive;
              sound = p.sound;
            })
      ])
]

allocate-IsValid :
    (l : UseLedger) (key : String) (epoch : ℕ) → IsValid l → IsValid (allocate l key epoch)
unfolding allocate
allocate-IsValid l key epoch v = record {
  table = set-IsTable key _ l.entries v.table;
  capped = All-set (λ e. e.committed ≤ l.max_uses) key _ l.entries v.capped v.positive;
  positive = v.positive;
  sound = v.sound;
}

bumped-IsValid :
    (l : UseLedger) (key : String) (entry : UseEntry)
    → IsValid l
    → entry.committed < l.max_uses
    → IsValid (record l {
      entries = set key (record entry { committed = entry.committed + 1 }) l.entries;
    })
bumped-IsValid l key entry v h = record {
  table = set-IsTable key _ l.entries v.table;
  capped = All-set (λ e. e.committed ≤ l.max_uses) key _ l.entries v.capped (omega arith);
  positive = v.positive;
  sound = v.sound;
}

dropped-IsValid :
    (l : UseLedger) (key : String)
    → IsValid l
    → IsValid (record l { entries = delete key l.entries; purged_count = l.purged_count + 1 })
dropped-IsValid l key v = record {
  table = filter-IsTable (λ e. not (str_eq e.0 key)) l.entries v.table;
  capped = All-filter _ (λ e. not (str_eq e.0 key)) l.entries v.capped;
  positive = v.positive;
  sound = v.sound;
}

-- `commit` is called only with uses left: then no use passes the maximum, and no violation is
-- counted.
pub commit-IsValid :
    (l : UseLedger) (key : String) (epoch : ℕ)
    → IsValid l
    → ((n : ℕ) → committed l key epoch ≡ some n → n < l.max_uses)
    → IsValid (commit l key epoch)
unfolding committed commit
commit-IsValid l key epoch v left = elim (Option-cases (get key l.entries)) [
  | inl e ↦ rw (e, commit) (allocate-IsValid l key epoch v)
  | inr (entry, e) ↦ elim (Bool-cases (ltb epoch (entry.first_epoch + 2))) [
    | inl live ↦
        let fewer : entry.committed < l.max_uses =
          left entry.committed (rw (e, committed) (ground arith)) in
        rw (e, commit)
          (rw live (
            rw (leb-eq-false l.max_uses entry.committed fewer)
              (bumped-IsValid l key entry v fewer)))
    | inr old ↦ rw (e, commit) (rw old (allocate-IsValid _ key epoch (dropped-IsValid l key v)))
  ]
]

-- The uses of a token's live record after a commit.
abbrev pub uses_after : ℕ → Option ℕ → Option ℕ
uses_after max_uses none = some 1
uses_after max_uses (some n) = if ltb n max_uses then some (n + 1) else some n

-- The violations that a commit counts.
abbrev pub violations_of : ℕ → Option ℕ → ℕ
violations_of max_uses none = 0
violations_of max_uses (some n) = if ltb n max_uses then 0 else 1

module _ (l : UseLedger) (key other : String) (epoch at : ℕ) where
  committed-allocate :
      (m : Table UseEntry) (p : ℕ)
      → let r = allocate (record l { entries = m; purged_count = p }) key epoch in
        (committed r key epoch ≡ some 1)
        × (get other m ≡ get other l.entries
            → key ≢ other
            → committed r other at ≡ committed l other at)
  unfolding committed allocate
  committed-allocate m p =
      let e : UseEntry = record { committed = 1; first_epoch = epoch } in
      (
        ground (arith, get-set_self key e m),
        λ same differ. ground (arith, get-set_ne key other e m differ),
      )

  -- A commit opens a record with one use for a token without a live record; it adds one use to a
  -- live record that has uses left; and on a live record without uses left it adds none and counts
  -- a violation, which no other commit does. It leaves the record of every other token as it was.
  pub committed-commit :
      (committed (commit l key epoch) key epoch ≡ uses_after l.max_uses (committed l key epoch))
      × ((commit l key epoch).violations
          ≡ l.violations + violations_of l.max_uses (committed l key epoch))
      × (key ≢ other → committed (commit l key epoch) other at ≡ committed l other at)
  unfolding committed commit allocate
  committed-commit = elim (Option-cases (get key l.entries)) [
    | inl e ↦
        let (own, others) = committed-allocate l.entries l.purged_count in
        rw (e, commit, committed) (own, omega arith, λ differ. others refl differ)
    | inr (entry, e) ↦ elim (Bool-cases (ltb epoch (entry.first_epoch + 2))) [
      | inl live ↦
          let bumped : UseEntry = record entry { committed = entry.committed + 1 } in
          let young : aged_out epoch entry ≡ false = ground arith in
          elim (Bool-cases (leb l.max_uses entry.committed)) [
            | inl full ↦
                let spent : ltb entry.committed l.max_uses ≡ false = ground arith in
                rw (e, commit, committed)
                  (rw (live, full, young, e, committed)
                    (rw (young, spent) (refl, refl, λ differ. refl)))
            | inr fewer ↦
                let left : ltb entry.committed l.max_uses ≡ true = ground arith in
                rw (e, commit, committed)
                  (rw (live, fewer, young, get-set_self key bumped l.entries)
                    (rw (young, left)
                      (
                        refl,
                        omega arith,
                        λ differ. rw (get-set_ne key other bumped l.entries differ) refl,
                      )))
          ]
      | inr old ↦
          let aged : aged_out epoch entry ≡ true = ground arith in
          let (own, others) = committed-allocate (delete key l.entries) (l.purged_count + 1) in
          rw (e, commit, committed)
            (rw (old, aged)
              (
                own,
                omega arith,
                λ differ. others (get-delete_ne key other l.entries differ) differ,
              ))
    ]
  ]

pub new_ledger_start :
    (capacity max_uses : ℕ) (l : UseLedger)
    → new_ledger capacity max_uses ≡ some l
    → (l.capacity ≡ capacity) × (l.entries ≡ []) × (l.last_purge_epoch ≡ 0) × (l.full_refusals ≡ 0)
unfolding new_ledger
new_ledger_start capacity max_uses l e = ground arith
