-- ===== src/Admission/Authority/Ending.antt =====
-- workers/admission-service/authority.ts: the ways in which a transaction ends.
use limitmark.Common.{
  ℕ, ◌+◌, ◌≡◌, ◌≢◌, refl, sym, ap, ◌∙◌, ◌⊎◌, ltb, Bool, true, false, Bool-cases, inl, inr, some,
  Option-cases, ◌∷◌, String, str_eq, any, filter, find, map, arith,
}
use limitmark.Admission.Authority.{
  Phase, post, pre, NonceRow, Storage, ClaimPreInput, ConsumePostInput, Decision, allowed, limited,
  replay, unavailable, Identity, authority_now, prune, insert_observation, insert_nonce,
  observe_both, Draw, pre_is_limited, post_is_limited, admit_pre, claim_body, is_claim, is_fresh,
  consume, admit_post, consume_body,
}
use limitmark.Admission.Authority.Entering.{authority_now-Read, some-eq}

-- What a reading of the clock, a prune and the two observations leave of the claims.
authority_now-nonces :
    (identity : Identity) (s t : Storage) (release_id : String) (now : ℕ)
    → authority_now identity s release_id now ≡ some t
    → t.nonces ≡ s.nonces
authority_now-nonces identity s t release_id now e =
    ap (λ x. x.nonces) (authority_now-Read identity s t release_id now e).result

observe_both-nonces :
    (s t : Storage) (attempt : String) (phase : Phase) (subject : String) (now : ℕ) (fault : Bool)
    → observe_both s attempt phase subject now fault ≡ some t
    → t.nonces ≡ s.nonces
unfolding observe_both insert_observation
observe_both-nonces s t attempt phase subject now fault e = ground arith

insert_nonce-nonces :
    (s t : Storage) (n : NonceRow) → insert_nonce s n ≡ some t → t.nonces ≡ n ∷ s.nonces
unfolding insert_nonce
insert_nonce-nonces s t n e = ground arith

admit_post-nonces :
    (s t : Storage) (input : ConsumePostInput) (draw : Draw) (now : ℕ) (d : Decision)
    → admit_post s input draw now ≡ some (t, d)
    → t.nonces ≡ map (consume input.nonce) s.nonces
unfolding admit_post
admit_post-nonces s t input draw now d e =
    elim (Option-cases (observe_both s draw.attempt post input.client_pseudonym now draw.fault)) [
      | inl refused ↦ absurd (cc (rw (refused, admit_post) at e))
      | inr (u, entered) ↦
          let kept =
            observe_both-nonces s u draw.attempt post input.client_pseudonym now draw.fault
              entered in
          let pair = some-eq (rw (entered, admit_post) at e) in
          sym (ap (λ x. x.0.nonces) pair) ∙ ap (map (consume input.nonce)) kept
    ]

admit_pre-nonces :
    (s t : Storage) (input : ClaimPreInput) (draw : Draw) (now : ℕ) (d : Decision)
    → admit_pre s input draw now ≡ some (t, d)
    → (n : NonceRow) × (n.permit ≡ draw.permit) × (t.nonces ≡ n ∷ s.nonces)
unfolding admit_pre
admit_pre-nonces s t input draw now d e =
    elim (Option-cases (observe_both s draw.attempt pre input.client_pseudonym now draw.fault)) [
      | inl refused ↦ absurd (cc (rw (refused, admit_pre) at e))
      | inr (u, entered) ↦
          let kept =
            observe_both-nonces s u draw.attempt pre input.client_pseudonym now draw.fault
              entered in
          let e1 = rw (entered, admit_pre) at e in
          let n : NonceRow = record {
            nonce = input.nonce;
            release_id = input.release_id;
            client_id = input.client_pseudonym;
            request_binding = input.request_binding;
            permit = draw.permit;
            claimed_ms = now;
            permit_expires_ms = now + 60000;
            retain_until_ms = now + 120000;
            post_consumed = false;
          } in
          elim (Option-cases (insert_nonce u n)) [
            | inl taken ↦ absurd (cc (rw taken at e1))
            | inr (w, inserted) ↦
                let rows = insert_nonce-nonces u w n inserted in
                let pair = some-eq (rw inserted at e1) in
                (n, refl, sym (ap (λ x. x.0.nonces) pair) ∙ rows ∙ ap (λ r. n ∷ r) kept)
          ]
    ]

-- How a consumption ends: with no admission and rows left from those before, or by consuming the
-- row of a claim that was not consumed.
pub record Consumed (s t : Storage) (input : ConsumePostInput) (now : ℕ) : Type 0 where
  pub row : NonceRow
  pub found : find (λ n. str_eq n.nonce input.nonce) (prune s now).nonces ≡ some row
  pub claimed : is_claim input now row ≡ true
  pub unused : row.post_consumed ≡ false
  pub after : t.nonces ≡ map (consume input.nonce) (prune s now).nonces

pub consume_body-cases :
    (identity : Identity) (s t : Storage) (input : ConsumePostInput) (draw : Draw) (now : ℕ)
    (d : Decision)
    → consume_body identity s input draw now ≡ some (t, d)
    → ((d ≢ allowed) × ((t.nonces ≡ s.nonces) ⊎ (t.nonces ≡ (prune s now).nonces)))
      ⊎ Consumed s t input now
unfolding consume_body prune
consume_body-cases identity s t input draw now d e =
    elim (Option-cases (authority_now identity s input.release_id now)) [
      | inl refused ↦
          let pair = some-eq (rw (refused, consume_body) at e) in
          inl (apart (ap (λ x. x.1) pair), inl (sym (ap (λ x. x.0.nonces) pair)))
      | inr (u, given) ↦
          let kept = authority_now-nonces identity s u input.release_id now given in
          let pruned : (prune u now).nonces ≡ (prune s now).nonces =
            ap (filter (λ n. ltb now n.retain_until_ms)) kept in
          let e1 = rw (given, consume_body) at e in
          elim (Option-cases (find (λ n. str_eq n.nonce input.nonce) (prune u now).nonces)) [
            | inl missing ↦ inl (
                none_left (prune u now, unavailable) pruned (λ k. absurd cc)
                  (some-eq (rw missing at e1)))
            | inr (n, found) ↦
                let e2 = rw found at e1 in
                elim (Bool-cases (is_claim input now n)) [
                  | inr wrong ↦ inl (
                      none_left (prune u now, unavailable) pruned (λ k. absurd cc)
                        (some-eq (rw wrong at e2)))
                  | inl claim ↦
                      let e3 = rw claim at e2 in
                      elim (Bool-cases n.post_consumed) [
                        | inl used ↦ inl (
                            none_left (prune u now, replay) pruned (λ k. absurd cc)
                              (some-eq (rw used at e3)))
                        | inr unused ↦
                            let e4 = rw unused at e3 in
                            elim (Bool-cases
                              (post_is_limited (prune u now) input.client_pseudonym now)) [
                                | inl full ↦ inl (
                                    none_left (prune u now, limited) pruned (λ k. absurd cc)
                                      (some-eq (rw full at e4)))
                                | inr free ↦
                                    let rows =
                                      admit_post-nonces (prune u now) t input draw now d
                                        (rw free at e4) in
                                    inr (record {
                                      row = n;
                                      found =
                                          ap (find (λ n. str_eq n.nonce input.nonce)) (sym pruned)
                                          ∙ found;
                                      claimed = claim;
                                      unused = unused;
                                      after = rows ∙ ap (map (consume input.nonce)) pruned;
                                    })
                              ]
                      ]
                ]
          ]
    ]
  where
    apart : unavailable ≡ d → d ≢ allowed
    apart e f = absurd cc

    none_left :
        (p : Storage × Decision)
        → p.0.nonces ≡ (prune s now).nonces
        → p.1 ≢ allowed
        → p ≡ (t, d)
        → (d ≢ allowed) × ((t.nonces ≡ s.nonces) ⊎ (t.nonces ≡ (prune s now).nonces))
    none_left p pruned differ pair =
        (λ k. differ (ap (λ x. x.1) pair ∙ k), inr (sym (ap (λ x. x.0.nonces) pair) ∙ pruned))

pub record Claimed (s t : Storage) (draw : Draw) (now : ℕ) : Type 0 where
  pub row : NonceRow
  pub drawn : row.permit ≡ draw.permit
  pub after : t.nonces ≡ row ∷ (prune s now).nonces

pub claim_body-cases :
    (identity : Identity) (s t : Storage) (input : ClaimPreInput) (draw : Draw) (now : ℕ)
    (d : Decision)
    → claim_body identity s input draw now ≡ some (t, d)
    → ((t.nonces ≡ s.nonces) ⊎ (t.nonces ≡ (prune s now).nonces)) ⊎ Claimed s t draw now
unfolding claim_body prune
claim_body-cases identity s t input draw now d e =
    elim (Option-cases (authority_now identity s input.release_id now)) [
      | inl refused ↦
          inl (inl (rows_left (s, unavailable) (some-eq (rw (refused, claim_body) at e))))
      | inr (u, given) ↦
          let kept = authority_now-nonces identity s u input.release_id now given in
          let pruned : (prune u now).nonces ≡ (prune s now).nonces =
            ap (filter (λ n. ltb now n.retain_until_ms)) kept in
          let e1 = rw (given, claim_body) at e in
          elim (Bool-cases (is_fresh input.issued_at_ms now)) [
            | inr stale ↦ inl (inl (rows_left (u, unavailable) (some-eq (rw stale at e1)) ∙ kept))
            | inl fresh ↦
                let e2 = rw fresh at e1 in
                elim (Bool-cases (any (λ n. str_eq n.nonce input.nonce) (prune u now).nonces)) [
                  | inl seen ↦
                      inl (inr (rows_left (prune u now, replay) (some-eq (rw seen at e2)) ∙ pruned))
                  | inr unseen ↦
                      let e3 = rw unseen at e2 in
                      elim (Bool-cases (pre_is_limited (prune u now) input.client_pseudonym now)) [
                        | inl full ↦ inl (
                            inr
                              (rows_left (prune u now, limited) (some-eq (rw full at e3)) ∙ pruned))
                        | inr free ↦
                            let (n, drawn, rows) =
                              admit_pre-nonces (prune u now) t input draw now d (rw free at e3) in
                            inr (record {
                              row = n;
                              drawn = drawn;
                              after = rows ∙ ap (λ r. n ∷ r) pruned;
                            })
                      ]
                ]
          ]
    ]
  where
    rows_left : (p : Storage × Decision) → p ≡ (t, d) → t.nonces ≡ p.0.nonces
    rows_left p pair = sym (ap (λ x. x.0.nonces) pair)
