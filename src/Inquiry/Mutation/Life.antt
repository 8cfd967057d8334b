-- ===== src/Inquiry/Mutation/Life.antt =====
-- src/lib/admin-inquiry-mutation-repository.ts: an inquiry over any transactions.
use limitmark.Common.{
  ℕ, ◌+◌, ◌≤◌, ◌<◌, ◌≡◌, refl, sym, ap, ◌∙◌, inl, inr, if◌then◌else◌, true, Bool-cases, List, [],
  ◌∷◌, length, All, arith,
}
use mathlib.Core.Path.{subst}
use limitmark.Inquiry.Workflow.{InquiryStatus, steps_left, can_transition-steps_left, steps_left-le}
use limitmark.Inquiry.Mutation.{
  Inquiry, InquiryEvent, Store, same_status, Mutation, AdminMutationResult, mutate_all,
}
use limitmark.Inquiry.Mutation.Versions.{
  is_consistent, life, Follows, Progress, refused, written, IsHistory, mutate-Progress,
}

same_status_refl : (a : InquiryStatus) → same_status a a ≡ true
same_status_refl a = ground arith

-- How often the status changed, an archiving and a restoring left aside.
abbrev pub life_changes : List Inquiry → ℕ
life_changes [] = 0
life_changes (row ∷ older) = elim older [
  | [] ↦ 0
  | before ∷ rest ↦ (if same_status (life row) (life before) then 0 else 1) + life_changes older
]

-- The versions, of which the first had the revision `start`, and the events beside them.
pub record IsKept (start : ℕ) (row : Inquiry) (older : List Inquiry) (events : List InquiryEvent)
    : Type 0 where
  pub history : IsHistory (row ∷ older)
  pub numbered : row.revision ≡ start + length events
  pub recorded : length events ≡ length older
  pub spent : life_changes (row ∷ older) + steps_left (life row) ≤ 5

-- The latest version of a store, and what holds of it.
pub record Latest (start : ℕ) (s : Store) : Type 0 where
  pub row : Inquiry
  pub older : List Inquiry
  pub there : s.versions ≡ row ∷ older
  pub kept : IsKept start row older s.events

All-weaken :
    (older : List Inquiry) (n m : ℕ)
    → n ≤ m
    → All (λ r. r.revision < n) older
    → All (λ r. r.revision < m) older
All-weaken [] n m le h = tt
All-weaken (r ∷ older) n m le h = (omega (arith, h.0), All-weaken older n m le h.1)

spent_after :
    (row later : Inquiry) (older : List Inquiry)
    → Follows row later
    → life_changes (row ∷ older) + steps_left (life row) ≤ 5
    → life_changes (later ∷ row ∷ older) + steps_left (life later) ≤ 5
spent_after row later older f le = elim f.moves [
  | inl same ↦
      let still : same_status (life later) (life row) ≡ true =
        rw same (same_status_refl (life row)) in
      let left : steps_left (life later) ≡ steps_left (life row) = ap steps_left same in
      rw still (omega (arith, left))
  | inr step ↦
      let fewer = can_transition-steps_left (life row) (life later) step in
      elim (Bool-cases (same_status (life later) (life row))) [
        | inl same ↦ rw same (omega (arith, fewer))
        | inr other ↦ rw other (omega (arith, fewer))
      ]
]

module _ (start : ℕ) where
  Follows-IsKept :
      (row later : Inquiry) (older : List Inquiry) (events : List InquiryEvent)
      (event : InquiryEvent)
      → IsKept start row older events
      → Follows row later
      → IsKept start later (row ∷ older) (event ∷ events)
  Follows-IsKept row later older events event k f = record {
    history = (
      f.consistent,
      f.bounded,
      (
        omega (arith, f.counted),
        All-weaken older row.revision later.revision (omega (arith, f.counted)) k.history.2,
      ),
      k.history,
    );
    numbered = omega (arith, f.counted, k.numbered);
    recorded = omega (arith, k.recorded);
    spent = spent_after row later older f k.spent;
  }

  abbrev Goes : List Mutation → Type 0
  Goes ms =
      (row : Inquiry) (older : List Inquiry) (events : List InquiryEvent) (notes : List (List ℕ))
      → IsKept start row older events
      → Latest start
          (mutate_all (record { versions = row ∷ older; events = events; notes = notes }) ms)

  Progress-Latest :
      {row : Inquiry} {older : List Inquiry} {events : List InquiryEvent} {notes : List (List ℕ)}
      {p : Store × AdminMutationResult} (ms : List Mutation)
      → Progress (record { versions = row ∷ older; events = events; notes = notes }) row p
      → IsKept start row older events
      → Goes ms
      → Latest start (mutate_all p.0 ms)
  Progress-Latest ms (refused why) k go = go _ _ _ _ k
  Progress-Latest ms (written f) k go = go _ _ _ _ (Follows-IsKept _ _ _ _ _ k f)

  mutate_all-Goes : (ms : List Mutation) → Goes ms
  unfolding mutate_all
  mutate_all-Goes [] row older events notes k = record {
    row = row;
    older = older;
    there = refl;
    kept = k;
  }
  mutate_all-Goes (m ∷ ms) row older events notes k =
      Progress-Latest ms (mutate-Progress row older events notes k.history m) k (mutate_all-Goes ms)

-- A row as the intake inserts it, with no event of an administrator.
abbrev pub created : Inquiry → Store
created row = record { versions = row ∷ []; events = []; notes = [] }

abbrev pub revision_of : List Inquiry → ℕ
revision_of [] = 0
revision_of (row ∷ older) = row.revision

created-Latest :
    (row : Inquiry) (ms : List Mutation)
    → is_consistent row ≡ true
    → row.revision ≤ 2147483647
    → Latest row.revision (mutate_all (created row) ms)
created-Latest row ms consistent bounded = mutate_all-Goes row.revision ms row [] [] [] (record {
  history = (consistent, bounded, tt, tt);
  numbered = omega arith;
  recorded = refl;
  spent = omega (arith, steps_left-le (life row));
})

-- From a consistent row, over any transactions whose selects read any versions of it: every version
-- is consistent, so that exactly an archived one has its former status; the revisions grow from
-- version to version and stay in 32 bits; and every change of the row has one revision and one event.
pub mutate_all-IsHistory :
    (row : Inquiry) (ms : List Mutation)
    → is_consistent row ≡ true
    → row.revision ≤ 2147483647
    → let t = mutate_all (created row) ms in
      IsHistory t.versions
      × (length t.versions ≡ length t.events + 1)
      × (revision_of t.versions ≡ row.revision + length t.events)
mutate_all-IsHistory row ms consistent bounded =
    let end = created-Latest row ms consistent bounded in
    (
      subst IsHistory (sym end.there) end.kept.history,
      ap length end.there ∙ omega (arith, end.kept.recorded),
      ap revision_of end.there ∙ end.kept.numbered,
    )

-- From a consistent row, over any transactions whose selects read any versions of it, the status
-- that the inquiry has apart from its being archived changes at most five times.
pub mutate_all-life_changes :
    (row : Inquiry) (ms : List Mutation)
    → is_consistent row ≡ true
    → row.revision ≤ 2147483647
    → life_changes (mutate_all (created row) ms).versions ≤ 5
mutate_all-life_changes row ms consistent bounded =
    let end = created-Latest row ms consistent bounded in
    let spent = end.kept.spent in
    subst (λ versions. life_changes versions ≤ 5) (sym end.there) (omega (arith, spent))
