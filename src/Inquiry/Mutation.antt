-- ===== src/Inquiry/Mutation.antt =====
-- src/lib/admin-inquiry-mutation-repository.ts: the mutations of one inquiry by an administrator. The
-- statements of a transaction run on a shared table: what `select` reads is a version of the row at
-- or before the `update`, since other transactions may commit in between, and the `where` of the
-- `update` is looked at on the row as it is then. A transaction that updates nothing writes nothing.
pub mod Versions
pub mod Life
mod Tests
use limitmark.Common.{
  ℕ, suc, ◌+◌, leb, ◌==◌, not, if◌then◌else◌, Bool, true, false, ◌&&◌, ◌||◌, Option, none, some,
  List, [], ◌∷◌, length, get_elem?,
}
use limitmark.Inquiry.Workflow.{
  InquiryStatus, archived, status_index, is_active_inquiry_status, can_transition_inquiry_status,
}

-- The columns of a row of `inquiries` that the repository reads or writes.
pub record Inquiry : Type 0 where
  pub status : InquiryStatus
  pub revision : ℕ
  pub pre_archive_status : Option InquiryStatus
  pub archived_at : Option ℕ
  pub updated_at : ℕ

-- A row of `inquiry_events`, with its metadata.
pub data InquiryEvent : Type 0 where
  status_changed : InquiryStatus → InquiryStatus → InquiryEvent
  note_added : InquiryEvent
  archived_event restored_event : InquiryStatus → InquiryEvent

-- `AdminMutationResult`.
pub data AdminMutationResult : Type 0 where
  success : ℕ → AdminMutationResult
  conflict invalid : AdminMutationResult

-- `RevisionMutationInput`; the actor is the text of its UTF-16 units.
pub record RevisionMutationInput : Type 0 where
  pub expected_revision : ℕ
  pub actor : List ℕ

-- The versions of the row, the latest first, and the rows written beside it.
pub record Store : Type 0 where
  pub versions : List Inquiry
  pub events : List InquiryEvent
  pub notes : List (List ℕ)

abbrev pub valid_common_input : RevisionMutationInput → Bool
valid_common_input input =
    leb input.expected_revision 2147483646
    && leb 1 (length input.actor)
    && leb (length input.actor) 254

abbrev pub same_status : InquiryStatus → InquiryStatus → Bool
same_status a b = status_index a == status_index b

-- The `update` with its `where`, the `returning`, and the insertions that follow it.
unfoldable pub update :
    Store
    → (Inquiry → Bool)
    → (Inquiry → Inquiry)
    → InquiryEvent
    → List (List ℕ)
    → Store × AdminMutationResult
update s fits change event notes = elim s.versions [
  | [] ↦ (s, conflict)
  | row ∷ older ↦
      if fits row
      then (
        record { versions = change row ∷ row ∷ older; events = event ∷ s.events; notes = notes },
        success ((change row).revision),
      )
      else (s, conflict)
]

-- The `where` of the updates but for the identifier.
abbrev pub is_unchanged : ℕ → InquiryStatus → Inquiry → Bool
is_unchanged expected status row = row.revision == expected && same_status row.status status

-- The transaction behind the validation of the input; `current` is what `select` reads.
abbrev pub on_current :
    Store
    → Option Inquiry
    → RevisionMutationInput
    → (Inquiry → Store × AdminMutationResult)
    → Store × AdminMutationResult
on_current s current input body =
    if not (valid_common_input input) then (s, invalid) else elim current [
      | none ↦ (s, invalid)
      | some row ↦ if not (row.revision == input.expected_revision) then (s, conflict) else body row
    ]

unfoldable pub change_status :
    Store → Option Inquiry → RevisionMutationInput → InquiryStatus → ℕ → Store × AdminMutationResult
change_status s current input new_status now = on_current s current input λ row.
    if not (can_transition_inquiry_status row.status new_status)
    then (s, invalid)
    else update s (is_unchanged input.expected_revision row.status)
        (λ r. record r { status = new_status; updated_at = now; revision = r.revision + 1 })
        (status_changed row.status new_status) s.notes

-- `is_trimmed` compares the content with its `trim`.
unfoldable pub add_note :
    Store → RevisionMutationInput → List ℕ → Bool → ℕ → Store × AdminMutationResult
add_note s input content is_trimmed now =
    if not (valid_common_input input)
      || not is_trimmed
      || not (leb 1 (length content))
      || not (leb (length content) 10000)
    then (s, invalid)
    else elim s.versions [
      | [] ↦ (s, invalid)
      | row ∷ older ↦
          update s (λ r. r.revision == input.expected_revision)
            (λ r. record r { updated_at = now; revision = r.revision + 1 }) note_added
            (content ∷ s.notes)
    ]

unfoldable pub archive :
    Store → Option Inquiry → RevisionMutationInput → ℕ → Store × AdminMutationResult
archive s current input now = on_current s current input λ row.
    if not (is_active_inquiry_status row.status)
    then (s, invalid)
    else update s (is_unchanged input.expected_revision row.status)
        (λ r. record r {
          status = archived;
          pre_archive_status = some row.status;
          archived_at = some now;
          updated_at = now;
          revision = r.revision + 1;
        })
        (archived_event row.status) s.notes

unfoldable pub restore :
    Store → Option Inquiry → RevisionMutationInput → ℕ → Store × AdminMutationResult
restore s current input now = on_current s current input λ row. elim row.pre_archive_status [
  | none ↦ (s, invalid)
  | some restored ↦
      if not (same_status row.status archived && is_active_inquiry_status restored)
      then (s, invalid)
      else update s (is_unchanged input.expected_revision archived)
          (λ r. record r {
            status = restored;
            pre_archive_status = none;
            archived_at = none;
            updated_at = now;
            revision = r.revision + 1;
          })
          (restored_event restored) s.notes
]

-- A transaction; its first number says how many versions behind the latest its `select` has read.
pub data Mutation : Type 0 where
  changes : ℕ → RevisionMutationInput → InquiryStatus → ℕ → Mutation
  notes_added : RevisionMutationInput → List ℕ → Bool → ℕ → Mutation
  archives restores : ℕ → RevisionMutationInput → ℕ → Mutation

unfoldable pub mutate : Store → Mutation → Store × AdminMutationResult
unfolding change_status add_note archive restore
mutate s (changes behind input new_status now) =
    change_status s (get_elem? s.versions behind) input new_status now
mutate s (notes_added input content is_trimmed now) = add_note s input content is_trimmed now
mutate s (archives behind input now) = archive s (get_elem? s.versions behind) input now
mutate s (restores behind input now) = restore s (get_elem? s.versions behind) input now

unfoldable pub mutate_all : Store → List Mutation → Store
unfolding mutate
mutate_all s [] = s
mutate_all s (m ∷ ms) = mutate_all (mutate s m).0 ms
