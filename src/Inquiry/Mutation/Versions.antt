-- ===== src/Inquiry/Mutation/Versions.antt =====
-- src/lib/admin-inquiry-mutation-repository.ts: what a transaction makes of the versions of a row.
use limitmark.Common.{
  ℕ, zero, suc, ◌+◌, ◌≤◌, ◌<◌, ◌≡◌, refl, sym, ◌∙◌, ◌⊎◌, inl, inr, leb, ◌==◌, not, Bool, true,
  false, ◌&&◌, ◌||◌, Option, none, some, is_some, List, [], ◌∷◌, length, get_elem?, All,
  All-get_elem, Bool-cases, Option-cases, arith,
}
use mathlib.Core.Path.{subst}
use limitmark.Inquiry.Workflow.{
  InquiryStatus, archived, is_active_inquiry_status, can_transition_inquiry_status,
}
use limitmark.Inquiry.Mutation.{
  Inquiry, InquiryEvent, note_added, AdminMutationResult, success, conflict, invalid,
  RevisionMutationInput, Store, valid_common_input, same_status, update, is_unchanged, on_current,
  change_status, add_note, archive, restore, Mutation, changes, notes_added, archives, restores,
  mutate,
}

abbrev is_active_or_none : Option InquiryStatus → Bool
is_active_or_none none = false
is_active_or_none (some status) = is_active_inquiry_status status

-- Exactly an archived inquiry has the time of its archiving and the active status before it.
abbrev pub is_consistent : Inquiry → Bool
is_consistent row = elim row.status [
  | archived ↦ is_active_or_none row.pre_archive_status && is_some row.archived_at
  | _ ↦ not (is_some row.pre_archive_status) && not (is_some row.archived_at)
]

abbrev life_status : InquiryStatus → Option InquiryStatus → InquiryStatus
life_status archived (some before) = before
life_status status before = status

-- The status that an inquiry has but for its being archived.
abbrev pub life : Inquiry → InquiryStatus
life row = life_status row.status row.pre_archive_status

-- One version and the next one.
pub record Follows (row later : Inquiry) : Type 0 where
  pub counted : later.revision ≡ row.revision + 1
  pub bounded : later.revision ≤ 2147483647
  pub consistent : is_consistent later ≡ true
  pub moves :
      (life later ≡ life row) ⊎ (can_transition_inquiry_status (life row) (life later) ≡ true)

-- A transaction answers with success and adds one version and one event, or changes nothing.
pub data Progress (s : Store) (row : Inquiry) : Store × AdminMutationResult → Type 0 where
  refused :
      {result : AdminMutationResult}
      → (result ≡ conflict) ⊎ (result ≡ invalid)
      → Progress s row (s, result)
  written :
      {later : Inquiry} {event : InquiryEvent} {notes : List (List ℕ)}
      → Follows row later
      → Progress s row (
        record { versions = later ∷ s.versions; events = event ∷ s.events; notes = notes },
        success (later.revision),
      )

same_status-eq : (a b : InquiryStatus) → same_status a b ≡ true → a ≡ b
same_status-eq a b h = ground arith

can_transition-active :
    (a b : InquiryStatus)
    → can_transition_inquiry_status a b ≡ true
    → (is_active_inquiry_status a ≡ true) × (is_active_inquiry_status b ≡ true)
unfolding can_transition_inquiry_status
can_transition-active a b h = ground arith

life_status-active :
    (a : InquiryStatus) (before : Option InquiryStatus)
    → is_active_inquiry_status a ≡ true
    → life_status a before ≡ a
life_status-active a before h = ground arith

module _ (row : Inquiry) (consistent : is_consistent row ≡ true)
    (bounded : row.revision ≤ 2147483646) (now : ℕ) where
  changed-Follows :
      (new_status : InquiryStatus)
      → can_transition_inquiry_status row.status new_status ≡ true
      → Follows row
          (record row { status = new_status; updated_at = now; revision = row.revision + 1 })
  changed-Follows new_status legal =
      let (from, to) = can_transition-active row.status new_status legal in
      let was = life_status-active row.status row.pre_archive_status from in
      let is = life_status-active new_status row.pre_archive_status to in
      record {
        counted = refl;
        bounded = omega arith;
        consistent = ground arith;
        moves = inr (rw (was, is) legal);
      }

  noted-Follows : Follows row (record row { updated_at = now; revision = row.revision + 1 })
  noted-Follows = record {
    counted = refl;
    bounded = omega arith;
    consistent = consistent;
    moves = inl refl;
  }

  archived-Follows :
      is_active_inquiry_status row.status ≡ true
      → Follows row (record row {
        status = archived;
        pre_archive_status = some row.status;
        archived_at = some now;
        updated_at = now;
        revision = row.revision + 1;
      })
  archived-Follows active = record {
    counted = refl;
    bounded = omega arith;
    consistent = rw active refl;
    moves = inl (sym (life_status-active row.status row.pre_archive_status active));
  }

  restored-Follows :
      (restored : InquiryStatus)
      → row.status ≡ archived
      → row.pre_archive_status ≡ some restored
      → is_active_inquiry_status restored ≡ true
      → Follows row (record row {
        status = restored;
        pre_archive_status = none;
        archived_at = none;
        updated_at = now;
        revision = row.revision + 1;
      })
  restored-Follows restored was before active =
      let same = life_status-active restored none active in
      record {
        counted = refl;
        bounded = omega arith;
        consistent = ground arith;
        moves = inl (ground arith);
      }

-- Every version is consistent, and the revisions grow.
abbrev pub IsHistory : List Inquiry → Type 0
IsHistory [] = Unit
IsHistory (row ∷ older) =
    (is_consistent row ≡ true)
    × (row.revision ≤ 2147483647)
    × All (λ r. r.revision < row.revision) older
    × IsHistory older

is_unchanged-eq :
    (expected : ℕ) (status : InquiryStatus) (row : Inquiry)
    → is_unchanged expected status row ≡ true
    → (row.revision ≡ expected) × (row.status ≡ status)
is_unchanged-eq expected status row h =
    (ground arith, same_status-eq row.status status (ground arith))

-- A select that reads the revision of the latest version has read the latest version.
latest :
    (row r : Inquiry) (older : List Inquiry) (behind : ℕ)
    → IsHistory (row ∷ older)
    → get_elem? (row ∷ older) behind ≡ some r
    → r.revision ≡ row.revision
    → r ≡ row
latest row r older zero h read same = cc
latest row r older (suc behind) h read same =
    absurd
      (omega (arith, All-get_elem (λ v. v.revision < row.revision) older behind r h.2 read, same))

module _ (row : Inquiry) (older : List Inquiry) (events : List InquiryEvent) (notes : List (List ℕ))
    (h : IsHistory (row ∷ older)) where
  abbrev held : Store
  held = record { versions = row ∷ older; events = events; notes = notes }

  update-Progress :
      (fits : Inquiry → Bool) (change : Inquiry → Inquiry) (event : InquiryEvent)
      (kept : List (List ℕ))
      → (fits row ≡ true → Follows row (change row))
      → Progress held row (update held fits change event kept)
  unfolding update
  update-Progress fits change event kept follows = elim (Bool-cases (fits row)) [
    | inr other ↦ rw other (refused (inl refl))
    | inl same ↦ rw same (written (follows same))
  ]

  on_current-Progress :
      (behind : ℕ) (input : RevisionMutationInput) (body : Inquiry → Store × AdminMutationResult)
      → (input.expected_revision ≤ 2147483646
          → (r : Inquiry) → (r.revision ≡ input.expected_revision)
          → (r.revision ≡ row.revision → r ≡ row)
          → Progress held row (body r))
      → Progress held row (on_current held (get_elem? (row ∷ older) behind) input body)
  on_current-Progress behind input body go = elim (Bool-cases (valid_common_input input)) [
    | inr refuses ↦ rw refuses (refused (inr refl))
    | inl valid ↦ elim (Option-cases (get_elem? (row ∷ older) behind)) [
      | inl missing ↦ rw (valid, missing) (refused (inr refl))
      | inr (r, read) ↦ elim (Bool-cases (r.revision == input.expected_revision)) [
        | inr other ↦ rw (valid, read) (rw other (refused (inl refl)))
        | inl same ↦
            rw (valid, read)
              (rw same
                (go (ground arith) r (ground arith) (λ e. latest row r older behind h read e)))
      ]
    ]
  ]

  change_status-Progress :
      (behind : ℕ) (input : RevisionMutationInput) (new_status : InquiryStatus) (now : ℕ)
      → Progress held row (change_status held (get_elem? (row ∷ older) behind) input new_status now)
  unfolding change_status
  change_status-Progress behind input new_status now =
      on_current-Progress behind input _ λ bound r same current.
        elim (Bool-cases (can_transition_inquiry_status r.status new_status)) [
          | inr illegal ↦ rw illegal (refused (inr refl))
          | inl legal ↦ rw legal (
              update-Progress _ _ _ notes λ fits.
                let (at_revision, at_status) = is_unchanged-eq _ _ row fits in
                changed-Follows row h.0 (omega arith) now new_status (
                  subst (λ status. can_transition_inquiry_status status new_status ≡ true)
                    (sym at_status) legal))
        ]

  add_note-Progress :
      (input : RevisionMutationInput) (content : List ℕ) (is_trimmed : Bool) (now : ℕ)
      → Progress held row (add_note held input content is_trimmed now)
  unfolding add_note
  add_note-Progress input content is_trimmed now =
      elim (Bool-cases (
        not (valid_common_input input)
        || not is_trimmed
        || not (leb 1 (length content))
        || not (leb (length content) 10000))) [
          | inl refuses ↦ rw refuses (refused (inr refl))
          | inr valid ↦ rw valid (
              update-Progress _ _ note_added (content ∷ notes)
                λ fits. noted-Follows row h.0 (ground (arith, valid)) now)
        ]

  archive-Progress :
      (behind : ℕ) (input : RevisionMutationInput) (now : ℕ)
      → Progress held row (archive held (get_elem? (row ∷ older) behind) input now)
  unfolding archive
  archive-Progress behind input now = on_current-Progress behind input _ λ bound r same current.
      elim (Bool-cases (is_active_inquiry_status r.status)) [
        | inr idle ↦ rw idle (refused (inr refl))
        | inl active ↦ rw active (
            update-Progress _ _ _ notes λ fits.
              let (at_revision, at_status) = is_unchanged-eq _ _ row fits in
              subst
                (λ status. Follows row (record row {
                  status = archived;
                  pre_archive_status = some status;
                  archived_at = some now;
                  updated_at = now;
                  revision = row.revision + 1;
                }))
                at_status
                (archived-Follows row h.0 (omega arith) now (
                  subst (λ status. is_active_inquiry_status status ≡ true) (sym at_status) active)))
      ]

  restore-Progress :
      (behind : ℕ) (input : RevisionMutationInput) (now : ℕ)
      → Progress held row (restore held (get_elem? (row ∷ older) behind) input now)
  unfolding restore
  restore-Progress behind input now = on_current-Progress behind input _ λ bound r same current.
      elim (Option-cases r.pre_archive_status) [
        | inl missing ↦ rw missing (refused (inr refl))
        | inr (restored, there) ↦
            elim (Bool-cases (same_status r.status archived && is_active_inquiry_status restored)) [
              | inr idle ↦ rw there (rw idle (refused (inr refl)))
              | inl active ↦ rw there (
                  rw active (
                    update-Progress _ _ _ notes λ fits.
                      let (at_revision, at_status) = is_unchanged-eq _ _ row fits in
                      restored-Follows row h.0 (omega arith) now restored at_status
                        (subst (λ v. v.pre_archive_status ≡ some restored)
                          (current (same ∙ sym at_revision)) there)
                        (ground (arith, active))))
            ]
      ]

  pub mutate-Progress : (m : Mutation) → Progress held row (mutate held m)
  unfolding mutate
  mutate-Progress (changes behind input new_status now) =
      change_status-Progress behind input new_status now
  mutate-Progress (notes_added input content is_trimmed now) =
      add_note-Progress input content is_trimmed now
  mutate-Progress (archives behind input now) = archive-Progress behind input now
  mutate-Progress (restores behind input now) = restore-Progress behind input now
