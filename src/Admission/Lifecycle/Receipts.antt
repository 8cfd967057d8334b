-- ===== src/Admission/Lifecycle/Receipts.antt =====
-- workers/admission-service/authority.ts: the receipts of the commands.
use limitmark.Common.{
  ◌+◌, ◌≡◌, refl, sym, ap, ◌∙◌, ltb, true, Bool-cases, inl, inr, some, is_some, Option-cases, ◌∷◌,
  String, str_eq, eq_iff,
}
use mathlib.Core.Path.{subst}
use limitmark.Admission.Authority.{Identity}
use limitmark.Admission.Lifecycle.{
  LifecycleReceipt, LifecycleStorage, done, already_done, LifecycleResult, insert_receipt,
  with_receipt, find_receipt, Rotation, rotation_is_valid, rotate_fresh, rotate_authority_release,
  is_foreign, find_release, rotated_releases, last_sequence,
}

-- A command that ends with a receipt has left that receipt under its digest.
abbrev IsReceipted : String → LifecycleResult → Type 0
IsReceipted digest r = (is_some r.receipt ≡ true) × (find_receipt r.storage digest ≡ r.receipt)

with_receipt-IsReceipted :
    (s : LifecycleStorage) (receipt : LifecycleReceipt) (r : LifecycleResult)
    → with_receipt s (some receipt) ≡ some r
    → IsReceipted receipt.digest r
unfolding with_receipt insert_receipt
with_receipt-IsReceipted s receipt r e =
    elim (Bool-cases (is_some (find_receipt s receipt.digest))) [
      | inl taken ↦ absurd (cc (rw (taken, with_receipt) at e))
      | inr free ↦
          let numbered : LifecycleReceipt = record receipt {
            sequence = last_sequence s.receipts + 1;
          } in
          let made : LifecycleResult = record {
            storage = record s { receipts = numbered ∷ s.receipts };
            status = done;
            receipt = some numbered;
          } in
          let same : made ≡ r = cc (rw (free, with_receipt) at e) in
          let self : str_eq receipt.digest receipt.digest ≡ true =
            (eq_iff receipt.digest receipt.digest).1 refl in
          subst (IsReceipted receipt.digest) same (refl, rw self refl)
    ]

rotate_fresh-IsReceipted :
    (s : LifecycleStorage) (input : Rotation) (receipt : LifecycleReceipt) (r : LifecycleResult)
    → rotate_fresh s input (some receipt) ≡ some r
    → IsReceipted receipt.digest r
unfolding rotate_fresh
rotate_fresh-IsReceipted s input receipt r e = elim (Option-cases s.tables.meta) [
  | inl missing ↦ absurd (cc (rw (missing, rotate_fresh) at e))
  | inr (m, here) ↦
      let e1 = rw (here, rotate_fresh) at e in
      elim (Bool-cases (is_foreign s input (some receipt) m)) [
        | inl foreign ↦ absurd (cc (rw foreign at e1))
        | inr ours ↦
            let e2 = rw ours at e1 in
            elim (Option-cases (find_release s.tables.releases input.next_release_id)) [
              | inr (next, found) ↦ absurd (cc (rw found at e2))
              | inl fresh ↦
                  let e3 = rw fresh at e2 in
                  elim (Bool-cases (ltb input.activates_at_ms m.last_now_ms)) [
                    | inl late ↦ absurd (cc (rw late at e3))
                    | inr early ↦
                        let e4 = rw early at e3 in
                        elim (Option-cases (rotated_releases s.tables.releases input)) [
                          | inl refused ↦ absurd (cc (rw refused at e4))
                          | inr (releases, rotated) ↦
                              let t : LifecycleStorage = record s {
                                tables = record s.tables { releases = releases };
                              } in
                              with_receipt-IsReceipted t receipt r (rw rotated at e4)
                        ]
                  ]
            ]
      ]
]

rotated-IsReceipted :
    (ours : Identity) (s : LifecycleStorage) (input : Rotation) (receipt : LifecycleReceipt)
    (r : LifecycleResult)
    → rotate_authority_release ours s input (some receipt) ≡ some r
    → (rotation_is_valid ours input ≡ true) × IsReceipted receipt.digest r
unfolding rotate_authority_release
rotated-IsReceipted ours s input receipt r e = elim (Bool-cases (rotation_is_valid ours input)) [
  | inr invalid ↦ absurd (cc (rw (invalid, rotate_authority_release) at e))
  | inl valid ↦
      let e1 = rw (valid, rotate_authority_release) at e in
      elim (Option-cases (find_receipt s receipt.digest)) [
        | inl fresh ↦ (valid, rotate_fresh-IsReceipted s input receipt r (rw fresh at e1))
        | inr (prior, found) ↦
            let again : LifecycleResult = record {
              storage = s;
              status = already_done;
              receipt = some prior;
            } in
            let same : again ≡ r = cc (rw found at e1) in
            (valid, subst (IsReceipted receipt.digest) same (refl, found))
      ]
]

-- A rotation by a command with a receipt, given again after it has succeeded, changes nothing and
-- answers with the same receipt.
pub rotate_authority_release-again :
    (ours : Identity) (s : LifecycleStorage) (input : Rotation) (receipt : LifecycleReceipt)
    (r : LifecycleResult)
    → rotate_authority_release ours s input (some receipt) ≡ some r
    → (is_some r.receipt ≡ true)
      × (rotate_authority_release ours r.storage input (some receipt)
          ≡ some (record { storage = r.storage; status = already_done; receipt = r.receipt }))
unfolding rotate_authority_release
rotate_authority_release-again ours s input receipt r e =
    let (valid, (given, found)) = rotated-IsReceipted ours s input receipt r e in
    elim (Option-cases r.receipt) [
      | inl missing ↦ absurd (cc (sym (ap is_some missing) ∙ given))
      | inr (kept, same) ↦
          let stored : find_receipt r.storage receipt.digest ≡ some kept = found ∙ same in
          (given, rw (valid, rotate_authority_release) (rw stored (rw same refl)))
    ]
