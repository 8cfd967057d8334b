-- ===== src/Admission/Authority/Limits.antt =====
-- workers/admission-service/authority.ts: how many admissions any window holds, over any calls.
use limitmark.Common.{
  ℕ, ◌≤◌, max, ◌≡◌, refl, sym, ◌∙◌, ltb, not, ◌||◌, Bool-cases, inl, inr, some, Option-cases, List,
  [], ◌∷◌, String, str_eq, any, count, find, arith,
}
use mathlib.Core.Path.{subst}
use limitmark.Admission.Authority.{
  pre, post, ObservationRow, Storage, ClaimPreInput, ConsumePostInput, Decision, limited, replay,
  unavailable, Identity, is_ours, is_fresh, is_claim, authority_now, is_expired, prune, Draw,
  pre_is_limited, post_is_limited, claim_body, claim_pre, valid_pre, valid_post, consume_body,
  consume_post, cleanup,
}
use limitmark.Admission.Authority.Window.{count-delete_some, expired-in_window}
use limitmark.Admission.Authority.History.{
  AuthorityCall, claims, consumes, cleans, History, rows_of, authority_step, authority_run,
  IsOrdered, Rule, rate, phase_of, scope_of, subject_of, matches, IsBounded, window-le,
}
use limitmark.Admission.Authority.Entering.{
  history, authority_now-Read, pre-room, post-room, some-eq, admit_pre-Rows, admit_post-Rows,
  read-IsBounded, pruned-IsBounded, pruned-entered,
}

-- A transaction that admits nothing leaves the log as it was.
settled :
    (cleaned : ℕ) (t : Storage) (d : Decision) (log : List ObservationRow)
    (f : Decision → List ObservationRow) (p : Storage × Decision)
    → IsBounded cleaned (history p.0 log)
    → f p.1 ≡ log
    → p ≡ (t, d)
    → IsBounded cleaned (history t (f d))
settled cleaned t d log f p v same pair =
    subst (λ q. IsBounded cleaned (history q.0 (f q.1))) pair (rw same v)

module _ (identity : Identity) (cleaned now : ℕ) (s t : Storage) (log : List ObservationRow)
    (d : Decision) (draw : Draw) (le : cleaned ≤ now) (v : IsBounded cleaned (history s log)) where
  claim_body-IsBounded :
      (input : ClaimPreInput)
      → claim_body identity s input draw now ≡ some (t, d)
      → IsBounded cleaned (history t (rows_of pre draw.attempt input.client_pseudonym now d log))
  unfolding claim_body
  claim_body-IsBounded input e =
      elim (Option-cases (authority_now identity s input.release_id now)) [
        | inl refused ↦
            settled cleaned t d log (λ o. rows_of pre draw.attempt input.client_pseudonym now o log)
              (s, unavailable) v refl (some-eq (rw (refused, claim_body) at e))
        | inr (u, given) ↦
            let read = authority_now-Read identity s u input.release_id now given in
            let e1 = rw (given, claim_body) at e in
            let pruned = pruned-IsBounded cleaned now s u log read le v in
            elim (Bool-cases (is_fresh input.issued_at_ms now)) [
              | inr stale ↦
                  settled cleaned t d log
                    (λ o. rows_of pre draw.attempt input.client_pseudonym now o log)
                    (u, unavailable) (read-IsBounded cleaned now s u log read le v) refl
                    (some-eq (rw stale at e1))
              | inl fresh ↦
                  let e2 = rw fresh at e1 in
                  elim (Bool-cases (any (λ n. str_eq n.nonce input.nonce) (prune u now).nonces)) [
                    | inl seen ↦
                        settled cleaned t d log
                          (λ o. rows_of pre draw.attempt input.client_pseudonym now o log)
                          (prune u now, replay) pruned refl (some-eq (rw seen at e2))
                    | inr unseen ↦
                        let e3 = rw unseen at e2 in
                        elim (Bool-cases
                          (pre_is_limited (prune u now) input.client_pseudonym now)) [
                            | inl full ↦
                                settled cleaned t d log
                                  (λ o. rows_of pre draw.attempt input.client_pseudonym now o log)
                                  (prune u now, limited) pruned refl (some-eq (rw full at e3))
                            | inr free ↦
                                let (kept, rows, outcome) =
                                  admit_pre-Rows (prune u now) t input draw now d (rw free at e3) in
                                rw outcome (
                                  pruned-entered cleaned now s u log read le v t draw.attempt pre
                                    input.client_pseudonym kept rows
                                    (pre-room (prune u now) input.client_pseudonym now free))
                          ]
                  ]
            ]
      ]

  consume_body-IsBounded :
      (input : ConsumePostInput)
      → consume_body identity s input draw now ≡ some (t, d)
      → IsBounded cleaned (history t (rows_of post draw.attempt input.client_pseudonym now d log))
  unfolding consume_body
  consume_body-IsBounded input e =
      let f : Decision → List ObservationRow =
        λ o. rows_of post draw.attempt input.client_pseudonym now o log in
      elim (Option-cases (authority_now identity s input.release_id now)) [
        | inl refused ↦
            settled cleaned t d log f (s, unavailable) v refl
              (some-eq (rw (refused, consume_body) at e))
        | inr (u, given) ↦
            let read = authority_now-Read identity s u input.release_id now given in
            let e1 = rw (given, consume_body) at e in
            let p = prune u now in
            let pruned = pruned-IsBounded cleaned now s u log read le v in
            elim (Option-cases (find (λ n. str_eq n.nonce input.nonce) p.nonces)) [
              | inl missing ↦
                  settled cleaned t d log f (p, unavailable) pruned refl
                    (some-eq (rw missing at e1))
              | inr (n, found) ↦
                  let e2 = rw found at e1 in
                  elim (Bool-cases (is_claim input now n)) [
                    | inr wrong ↦
                        settled cleaned t d log f (p, unavailable) pruned refl
                          (some-eq (rw wrong at e2))
                    | inl claim ↦
                        let e3 = rw claim at e2 in
                        elim (Bool-cases n.post_consumed) [
                          | inl used ↦
                              settled cleaned t d log f (p, replay) pruned refl
                                (some-eq (rw used at e3))
                          | inr unused ↦
                              let e4 = rw unused at e3 in
                              elim (Bool-cases (post_is_limited p input.client_pseudonym now)) [
                                | inl full ↦
                                    settled cleaned t d log f (p, limited) pruned refl
                                      (some-eq (rw full at e4))
                                | inr free ↦
                                    let (kept, rows, outcome) =
                                      admit_post-Rows p t input draw now d (rw free at e4) in
                                    rw outcome (
                                      pruned-entered cleaned now s u log read le v t draw.attempt
                                        post input.client_pseudonym kept rows
                                        (post-room p input.client_pseudonym now free))
                              ]
                        ]
                  ]
            ]
      ]

claim_pre-IsBounded :
    (identity : Identity) (cleaned now : ℕ) (h : History) (input : ClaimPreInput) (draw : Draw)
    → cleaned ≤ now
    → IsBounded cleaned h
    → IsBounded cleaned (authority_step identity h (claims input draw now))
unfolding authority_step claim_pre
claim_pre-IsBounded identity cleaned now h input draw le v = elim (Bool-cases (valid_pre input)) [
  | inr invalid ↦ rw (invalid, claim_pre) v
  | inl valid ↦ elim (Option-cases (claim_body identity h.storage input draw now)) [
    | inl fault ↦ rw (valid, claim_pre) (rw fault v)
    | inr ((t, d), done) ↦
        rw (valid, claim_pre)
          (rw done
            (claim_body-IsBounded identity cleaned now h.storage t h.log d draw le v input done))
  ]
]

consume_post-IsBounded :
    (identity : Identity) (cleaned now : ℕ) (h : History) (input : ConsumePostInput) (draw : Draw)
    → cleaned ≤ now
    → IsBounded cleaned h
    → IsBounded cleaned (authority_step identity h (consumes input draw now))
unfolding authority_step consume_post
consume_post-IsBounded identity cleaned now h input draw le v =
    elim (Bool-cases (valid_post input)) [
      | inr invalid ↦ rw (invalid, consume_post) v
      | inl valid ↦ elim (Option-cases (consume_body identity h.storage input draw now)) [
        | inl fault ↦ rw (valid, consume_post) (rw fault v)
        | inr ((t, d), done) ↦
            rw (valid, consume_post)
              (rw done (
                consume_body-IsBounded identity cleaned now h.storage t h.log d draw le v input
                  done))
      ]
    ]

cleanup-meta :
    (identity : Identity) (s : Storage) (n now : ℕ) → (cleanup identity s n now).meta ≡ s.meta
unfolding cleanup
cleanup-meta identity s n now = ground arith

-- What a cleanup removes stands in no window from its reading on.
cleanup-matches :
    (identity : Identity) (s : Storage) (n now : ℕ) (rule : Rule) (subject : String) (u : ℕ)
    → now ≤ u
    → count (matches rule subject u) (cleanup identity s n now).observations
      ≡ count (matches rule subject u) s.observations
unfolding cleanup
cleanup-matches identity s n now rule subject u le = elim (Bool-cases (ltb n 1 || ltb 500 n)) [
  | inl refused ↦ rw (refused, cleanup) refl
  | inr sized ↦ elim (Option-cases s.meta) [
    | inl missing ↦ rw (sized, missing, cleanup) refl
    | inr (m, here) ↦ elim (Bool-cases (not (is_ours identity m) || ltb now m.last_now_ms)) [
      | inl away ↦ rw (sized, here, cleanup) (rw away refl)
      | inr ours ↦
          rw (sized, here, cleanup)
            (rw ours (
              count-delete_some (matches rule subject u) (is_expired now) n s.observations (λ o h.
                expired-in_window (phase_of rule) (scope_of rule) (subject_of rule subject)
                  ((rate rule).window_ms) now u o (window-le rule) le h)))
    ]
  ]
]

cleanup-IsBounded :
    (identity : Identity) (cleaned n now : ℕ) (h : History)
    → IsBounded cleaned h
    → IsBounded (max cleaned now) (record h { storage = cleanup identity h.storage n now })
cleanup-IsBounded identity cleaned n now h v = record {
  past = λ m e. v.past m (sym (cleanup-meta identity h.storage n now) ∙ e);
  covered = λ m rule subject u e f g. omega (
    arith,
    v.covered m rule subject u (sym (cleanup-meta identity h.storage n now) ∙ e) f (omega arith),
    cleanup-matches identity h.storage n now rule subject u (omega arith),
  );
  bounded = v.bounded;
}

run-IsBounded :
    (identity : Identity) (cleaned : ℕ) (h : History) (calls : List AuthorityCall)
    → IsOrdered cleaned calls
    → IsBounded cleaned h
    → (rule : Rule) (subject : String) (t : ℕ)
    → count (matches rule subject t) (authority_run identity h calls).log ≤ (rate rule).limit
unfolding authority_run IsOrdered authority_step claim_pre consume_post
run-IsBounded identity cleaned h [] ordered v = v.bounded
run-IsBounded identity cleaned h (claims input draw now ∷ calls) ordered v =
    run-IsBounded identity cleaned (authority_step identity h (claims input draw now)) calls
      ordered.1 (claim_pre-IsBounded identity cleaned now h input draw ordered.0 v)
run-IsBounded identity cleaned h (consumes input draw now ∷ calls) ordered v =
    run-IsBounded identity cleaned (authority_step identity h (consumes input draw now)) calls
      ordered.1 (consume_post-IsBounded identity cleaned now h input draw ordered.0 v)
run-IsBounded identity cleaned h (cleans n now ∷ calls) ordered v =
    run-IsBounded identity (max cleaned now) (authority_step identity h (cleans n now)) calls
      ordered (cleanup-IsBounded identity cleaned n now h v)

-- From any storage, over any calls with any random values and faults, whose readings of the clock
-- are not behind that of an earlier cleanup: of the admissions that these calls make, every window
-- that ends at any time holds at most as many as its rate allows, of one client for the client's
-- rates and of all clients for the others.
pub authority_run-Limited :
    (identity : Identity) (s : Storage) (calls : List AuthorityCall) (rule : Rule)
    (subject : String) (t : ℕ)
    → IsOrdered 0 calls
    → count
        (matches rule subject t)
        (authority_run identity (record { storage = s; log = [] }) calls).log
      ≤ (rate rule).limit
authority_run-Limited identity s calls rule subject t ordered =
    run-IsBounded identity 0 (history s []) calls ordered
      (record {
        past = λ m e. tt;
        covered = λ m r x u e f g. omega arith;
        bounded = λ r x u. omega arith;
      })
      rule subject t
