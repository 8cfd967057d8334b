-- ===== src/Inquiry/Mutation/Tests.antt =====
-- src/lib/admin-inquiry-mutation-repository.ts: an inquiry that is reviewed, archived with a stale
-- select in between, and restored.
use limitmark.Common.{ℕ, ◌+◌, ◌≤◌, ◌≡◌, refl, none, List, [], ◌∷◌, length, true, arith}
use limitmark.Inquiry.Workflow.{received, in_review, awaiting_scope, can_transition_inquiry_status}
use limitmark.Inquiry.Mutation.{
  Inquiry, RevisionMutationInput, Mutation, changes, notes_added, archives, restores, mutate_all,
  mutate, update, Store, conflict,
}
use limitmark.Inquiry.Mutation.Versions.{IsHistory}
use limitmark.Inquiry.Mutation.Life.{
  created, revision_of, life_changes, mutate_all-IsHistory, mutate_all-life_changes,
}

abbrev fresh : Inquiry
fresh = record {
  status = received;
  revision = 0;
  pre_archive_status = none;
  archived_at = none;
  updated_at = 0;
}

abbrev at_revision : ℕ → RevisionMutationInput
at_revision n = record { expected_revision = n; actor = 97 ∷ [] }

-- The third call expects the revision before the second one.
abbrev reviewed : List Mutation
reviewed =
    changes 0 (at_revision 0) in_review 1
    ∷ archives 0 (at_revision 1) 2
    ∷ changes 1 (at_revision 1) awaiting_scope 3
    ∷ notes_added (at_revision 2) (104 ∷ []) true 4
    ∷ restores 0 (at_revision 3) 5
    ∷ []

reviewed-revision : revision_of (mutate_all (created fresh) reviewed).versions ≡ 4
unfolding mutate_all update can_transition_inquiry_status
reviewed-revision = refl

reviewed-life_changes : life_changes (mutate_all (created fresh) reviewed).versions ≡ 1
unfolding mutate_all update can_transition_inquiry_status
reviewed-life_changes = refl

abbrev archived_store : Store
archived_store =
    mutate_all (created fresh)
      (changes 0 (at_revision 0) in_review 1 ∷ archives 0 (at_revision 1) 2 ∷ [])

-- A select that read the row before the archiving.
stale-conflict : (mutate archived_store (changes 1 (at_revision 1) awaiting_scope 3)).1 ≡ conflict
unfolding mutate_all mutate update can_transition_inquiry_status
stale-conflict = refl

mutate_all-IsHistory_example :
    let t = mutate_all (created fresh) reviewed in
    IsHistory t.versions
    × (length t.versions ≡ length t.events + 1)
    × (revision_of t.versions ≡ 0 + length t.events)
mutate_all-IsHistory_example = mutate_all-IsHistory fresh reviewed refl (omega arith)

mutate_all-life_changes_example : life_changes (mutate_all (created fresh) reviewed).versions ≤ 5
mutate_all-life_changes_example = mutate_all-life_changes fresh reviewed refl (omega arith)
