-- ===== src/Admission/Lifecycle/Commands.antt =====
-- workers/admission-service/authority.ts: the releases of an authority over any commands.
use limitmark.Common.{
  ◌+◌, ◌-◌, ◌≤◌, ◌<◌, ◌≡◌, refl, sym, ◌∙◌, leb, ltb, ltb→lt, leb→le, not, Bool, true, ◌&&◌, ◌||◌,
  Bool-cases, inl, inr, Option, none, some, is_some, Option-cases, List, [], ◌∷◌, arith,
}
use mathlib.Core.Path.{subst}
use limitmark.Admission.Authority.{Identity}
use limitmark.Admission.Lifecycle.{
  LifecycleReceipt, LifecycleStorage, LifecycleResult, insert_receipt, with_receipt,
  AuthorityInitialization, initialize_fresh, initialize_authority, prior_receipt, Rotation,
  rotation_is_valid, fresh_release, rotated_releases, rotate_fresh, rotate_authority_release,
  initial_tables, is_foreign, is_other, is_blocked, find_release, is_repeated,
  initialization_is_valid,
}
use limitmark.Admission.Lifecycle.Pair.{IsReleases, rotated_releases-IsRotated}

pub data LifecycleCall : Type 0 where
  initializes : AuthorityInitialization → Option LifecycleReceipt → LifecycleCall
  rotates : Rotation → Option LifecycleReceipt → LifecycleCall

abbrev settled : LifecycleStorage → Option LifecycleResult → LifecycleStorage
settled s none = s
settled s (some result) = result.storage

unfoldable pub lifecycle_step : Identity → LifecycleStorage → LifecycleCall → LifecycleStorage
lifecycle_step ours s (initializes spec receipt) =
    settled s (initialize_authority ours s spec receipt)
lifecycle_step ours s (rotates input receipt) =
    settled s (rotate_authority_release ours s input receipt)

unfoldable pub lifecycle_run : Identity → LifecycleStorage → List LifecycleCall → LifecycleStorage
unfolding lifecycle_step
lifecycle_run ours s [] = s
lifecycle_run ours s (call ∷ calls) = lifecycle_run ours (lifecycle_step ours s call) calls

-- Releases in order, and none before the initialization.
record IsKept (s : LifecycleStorage) : Type 0 where
  ordered : IsReleases s.tables.releases
  empty : s.tables.meta ≡ none → s.tables.releases ≡ []

with_receipt-tables :
    (s : LifecycleStorage) (receipt : Option LifecycleReceipt) (r : LifecycleResult)
    → with_receipt s receipt ≡ some r
    → r.storage.tables ≡ s.tables
unfolding with_receipt insert_receipt
with_receipt-tables s none r e = ground arith
with_receipt-tables s (some receipt) r e = ground arith

tables-IsKept : (s t : LifecycleStorage) → t.tables ≡ s.tables → IsKept s → IsKept t
tables-IsKept s t e v = record {
  ordered = subst (λ x. IsReleases x.releases) (sym e) v.ordered;
  empty = subst (λ x. x.meta ≡ none → x.releases ≡ []) (sym e) v.empty;
}

overlap-rotation :
    (ours : Identity) (input : Rotation)
    → rotation_is_valid ours input ≡ true
    → (input.activates_at_ms < input.previous_retires_at_ms)
      × (input.previous_retires_at_ms ≤ input.activates_at_ms + 300000)
unfolding rotation_is_valid
overlap-rotation ours input h =
    let long = leb (input.previous_retires_at_ms - input.activates_at_ms) 300000 in
    let late = ltb input.activates_at_ms input.previous_retires_at_ms in
    let (a, b) = last-two _ late long h in
    let after : input.activates_at_ms < input.previous_retires_at_ms = ltb→lt _ _ a in
    let near : input.previous_retires_at_ms - input.activates_at_ms ≤ 300000 = leb→le _ _ b in
    (after, omega arith)
  where
    last-two : (x y z : Bool) → (x && y && z) ≡ true → (y ≡ true) × (z ≡ true)
    last-two x y z h = (ground arith, ground arith)

rotate_fresh-IsKept :
    (s : LifecycleStorage) (input : Rotation) (receipt : Option LifecycleReceipt)
    (r : LifecycleResult)
    → (input.activates_at_ms < input.previous_retires_at_ms)
      × (input.previous_retires_at_ms ≤ input.activates_at_ms + 300000)
    → IsKept s
    → rotate_fresh s input receipt ≡ some r
    → IsKept r.storage
unfolding rotate_fresh
rotate_fresh-IsKept s input receipt r overlap v e = elim (Option-cases s.tables.meta) [
  | inl missing ↦ absurd (cc (rw (missing, rotate_fresh) at e))
  | inr (m, here) ↦
      let e1 = rw (here, rotate_fresh) at e in
      elim (Bool-cases (is_foreign s input receipt m)) [
        | inl foreign ↦ absurd (cc (rw foreign at e1))
        | inr ours ↦
            let e2 = rw ours at e1 in
            elim (Option-cases (find_release s.tables.releases input.next_release_id)) [
              | inr (next, found) ↦
                  let e3 = rw found at e2 in
                  elim (Bool-cases
                    (not (is_some receipt) && is_repeated s.tables.releases input next)) [
                      | inl again ↦
                          let same = rw again at e3 in tables-IsKept s r.storage (ground arith) v
                      | inr wrong ↦ absurd (cc (rw wrong at e3))
                    ]
              | inl fresh ↦
                  let e3 = rw fresh at e2 in
                  elim (Bool-cases (ltb input.activates_at_ms m.last_now_ms)) [
                    | inl late ↦ absurd (cc (rw late at e3))
                    | inr early ↦
                        let e4 = rw early at e3 in
                        elim (Option-cases (rotated_releases s.tables.releases input)) [
                          | inl refused ↦ absurd (cc (rw refused at e4))
                          | inr (releases, rotated) ↦
                              let t : LifecycleStorage = record s {
                                tables = record s.tables { releases = releases };
                              } in
                              let out =
                                rotated_releases-IsRotated s.tables.releases input releases
                                  v.ordered overlap rotated in
                              let kept = with_receipt-tables t receipt r (rw rotated at e4) in
                              tables-IsKept t r.storage kept (record {
                                ordered = out.ordered;
                                empty = λ none_left. absurd (cc (sym here ∙ none_left));
                              })
                        ]
                  ]
            ]
      ]
]

initialize_fresh-IsKept :
    (s : LifecycleStorage) (spec : AuthorityInitialization) (receipt : Option LifecycleReceipt)
    (r : LifecycleResult)
    → IsKept s
    → initialize_fresh s spec receipt ≡ some r
    → IsKept r.storage
unfolding initialize_fresh IsReleases
initialize_fresh-IsKept s spec receipt r v e = elim (Option-cases s.tables.meta) [
  | inr (m, here) ↦
      let e1 = rw (here, initialize_fresh) at e in
      elim (Bool-cases (is_other s spec receipt m)) [
        | inl other ↦ absurd (cc (rw other at e1))
        | inr same ↦ let kept = rw same at e1 in tables-IsKept s r.storage (ground arith) v
      ]
  | inl missing ↦
      let e1 = rw (missing, initialize_fresh) at e in
      elim (Bool-cases (is_blocked s spec receipt)) [
        | inl blocked ↦ absurd (cc (rw blocked at e1))
        | inr free ↦
            let t : LifecycleStorage = record s {
              tables = initial_tables s.tables spec;
              coverage = s.coverage || is_some receipt;
            } in
            tables-IsKept t r.storage (with_receipt-tables t receipt r (rw free at e1)) (record {
              ordered =
                  subst
                    (λ rs.
                      IsReleases
                        (fresh_release spec.release_id spec.release_key_id spec.now_ms ∷ rs))
                    (sym (v.empty missing)) refl;
              empty = λ none_left. absurd cc;
            })
      ]
]

initialize_authority-IsKept :
    (ours : Identity) (s : LifecycleStorage) (spec : AuthorityInitialization)
    (receipt : Option LifecycleReceipt)
    → IsKept s
    → IsKept (settled s (initialize_authority ours s spec receipt))
unfolding initialize_authority
initialize_authority-IsKept ours s spec receipt v =
    elim (Bool-cases (initialization_is_valid ours spec)) [
      | inr invalid ↦ rw (invalid, initialize_authority) v
      | inl valid ↦ elim (Option-cases (prior_receipt s receipt)) [
        | inr (prior, found) ↦ rw (valid, initialize_authority) (rw found v)
        | inl fresh ↦ elim (Option-cases (initialize_fresh s spec receipt)) [
          | inl fault ↦ rw (valid, initialize_authority) (rw fresh (rw fault v))
          | inr (r, finished_with) ↦
              rw (valid, initialize_authority)
                (rw fresh
                  (rw finished_with (initialize_fresh-IsKept s spec receipt r v finished_with)))
        ]
      ]
    ]

rotate_authority_release-IsKept :
    (ours : Identity) (s : LifecycleStorage) (input : Rotation) (receipt : Option LifecycleReceipt)
    → IsKept s
    → IsKept (settled s (rotate_authority_release ours s input receipt))
unfolding rotate_authority_release
rotate_authority_release-IsKept ours s input receipt v =
    elim (Bool-cases (rotation_is_valid ours input)) [
      | inr invalid ↦ rw (invalid, rotate_authority_release) v
      | inl valid ↦ elim (Option-cases (prior_receipt s receipt)) [
        | inr (prior, found) ↦ rw (valid, rotate_authority_release) (rw found v)
        | inl fresh ↦ elim (Option-cases (rotate_fresh s input receipt)) [
          | inl fault ↦ rw (valid, rotate_authority_release) (rw fresh (rw fault v))
          | inr (r, finished_with) ↦
              rw (valid, rotate_authority_release)
                (rw fresh (
                  rw finished_with (
                    rotate_fresh-IsKept s input receipt r (overlap-rotation ours input valid) v
                      finished_with)))
        ]
      ]
    ]

run-IsKept :
    (ours : Identity) (s : LifecycleStorage) (calls : List LifecycleCall)
    → IsKept s
    → IsKept (lifecycle_run ours s calls)
unfolding lifecycle_run lifecycle_step
run-IsKept ours s [] v = v
run-IsKept ours s (initializes spec receipt ∷ calls) v =
    run-IsKept ours (lifecycle_step ours s (initializes spec receipt)) calls
      (initialize_authority-IsKept ours s spec receipt v)
run-IsKept ours s (rotates input receipt ∷ calls) v =
    run-IsKept ours (lifecycle_step ours s (rotates input receipt)) calls
      (rotate_authority_release-IsKept ours s input receipt v)

-- From empty tables, over any initializations and rotations: there is no release, or one that is
-- current, or a current one and the previous one, which retires after the current one is active and
-- at most five minutes later, and differs from it in its name and its key.
pub lifecycle_run-IsReleases :
    (ours : Identity) (s : LifecycleStorage) (calls : List LifecycleCall)
    → s.tables.releases ≡ []
    → IsReleases (lifecycle_run ours s calls).tables.releases
unfolding IsReleases
lifecycle_run-IsReleases ours s calls e =
    (run-IsKept ours s calls (record { ordered = rw e tt; empty = λ missing. e })).ordered
