-- ===== src/Admission/Authority/Single.antt =====
-- workers/admission-service/authority.ts: a permit is consumed once.
use limitmark.Common.{
  ℕ, zero, suc, ◌≡◌, ◌≢◌, refl, sym, ap, ◌∙◌, leb, ltb, not, Bool, true, ◌||◌, Bool-cases, inl, inr,
  some, Option-cases, List, [], ◌∷◌, String, str_eq, eq_iff, filter, find, map, arith, All,
}
use mathlib.Core.Path.{subst}
use limitmark.Admission.Authority.{
  NonceRow, Storage, ClaimPreInput, ConsumePostInput, allowed, Identity, prune, Draw, claim_body,
  claim_pre, is_claim, consume, consume_body, consume_post, valid_pre, valid_post, delete_some,
  cleanup, is_ours,
}
use limitmark.Admission.Authority.History.{
  AuthorityCall, claims, consumes, cleans, History, authority_step, authority_run,
}
use limitmark.Admission.Authority.Ending.{Consumed, consume_body-cases, claim_body-cases}

-- Every row of the permit is consumed.
abbrev IsSpent : String → List NonceRow → Type 0
IsSpent permit rows = All (λ n. str_eq n.permit permit ≡ true → n.post_consumed ≡ true) rows

-- The permit stands at most in the row of one nonce, as its column is unique.
abbrev pub IsOwned : String → String → List NonceRow → Type 0
IsOwned permit nonce rows =
    All (λ n. str_eq n.permit permit ≡ true → str_eq n.nonce nonce ≡ true) rows

All-filter :
    (P : NonceRow → Type 0) (p : NonceRow → Bool) (rows : List NonceRow)
    → All P rows
    → All P (filter p rows)
All-filter P p [] h = tt
All-filter P p (n ∷ rows) h = ground (arith, All-filter P p rows h.1)

All-delete_some :
    (P : NonceRow → Type 0) (p : NonceRow → Bool) (k : ℕ) (rows : List NonceRow)
    → All P rows
    → All P (delete_some p k rows)
All-delete_some P p zero rows h = h
All-delete_some P p (suc k) [] h = tt
All-delete_some P p (suc k) (n ∷ rows) h =
    ground (arith, All-delete_some P p k rows h.1, All-delete_some P p (suc k) rows h.1)

All-find :
    (P : NonceRow → Type 0) (p : NonceRow → Bool) (rows : List NonceRow) (n : NonceRow)
    → All P rows
    → find p rows ≡ some n
    → P n
All-find P p [] n h e = absurd cc
All-find P p (m ∷ rows) n h e = elim (Bool-cases (p m)) [
  | inl here ↦ let same : m ≡ n = cc (rw here at e) in subst P same h.0
  | inr later ↦ All-find P p rows n h.1 (rw later at e)
]

consume-IsSpent :
    (permit nonce : String) (rows : List NonceRow)
    → IsOwned permit nonce rows
    → IsSpent permit (map (consume nonce) rows)
consume-IsSpent permit nonce [] h = tt
consume-IsSpent permit nonce (n ∷ rows) h =
    ground (arith, consume-IsSpent permit nonce rows h.1, h.0)

consume-IsSpent_other :
    (permit nonce : String) (rows : List NonceRow)
    → IsSpent permit rows
    → IsSpent permit (map (consume nonce) rows)
consume-IsSpent_other permit nonce [] h = tt
consume-IsSpent_other permit nonce (n ∷ rows) h =
    ground (arith, consume-IsSpent_other permit nonce rows h.1, h.0)

prune-Rows :
    (P : NonceRow → Type 0) (s : Storage) (now : ℕ) → All P s.nonces → All P (prune s now).nonces
unfolding prune
prune-Rows P s now h = All-filter P (λ n. ltb now n.retain_until_ms) s.nonces h

claim-permit :
    (input : ConsumePostInput) (now : ℕ) (n : NonceRow)
    → is_claim input now n ≡ true
    → str_eq n.permit input.permit ≡ true
claim-permit input now n h = ground arith

-- The claim that a consumption finds carries the permit that the submission shows.
Consumed-permit :
    (permit : String) (s t : Storage) (input : ConsumePostInput) (now : ℕ)
    → input.permit ≡ permit
    → IsSpent permit s.nonces
    → Consumed s t input now
    → ⊥
Consumed-permit permit s t input now same spent c =
    let used = All-find _ _ (prune s now).nonces c.row (prune-Rows _ s now spent) c.found in
    let shown : str_eq c.row.permit permit ≡ true =
      ap (str_eq c.row.permit) (sym same) ∙ claim-permit input now c.row c.claimed in
    let consumed : c.row.post_consumed ≡ true = used shown in let unused = c.unused in absurd cc

module _ (identity : Identity) (permit : String) where
  consume_post-IsSpent :
      (s : Storage) (input : ConsumePostInput) (draw : Draw) (now : ℕ)
      → IsSpent permit s.nonces
      → IsSpent permit (consume_post identity s input draw now).0.nonces
        × (input.permit ≡ permit → (consume_post identity s input draw now).1 ≢ allowed)
  unfolding consume_post
  consume_post-IsSpent s input draw now spent = elim (Bool-cases (valid_post input)) [
    | inr invalid ↦ rw (invalid, consume_post) (spent, λ e k. absurd cc)
    | inl valid ↦ elim (Option-cases (consume_body identity s input draw now)) [
      | inl fault ↦ rw (valid, consume_post) (rw fault (spent, λ e k. absurd cc))
      | inr ((t, d), done) ↦
          rw (valid, consume_post)
            (rw done (elim (consume_body-cases identity s t input draw now d done) [
              | inl (refused, inl same) ↦ (subst (IsSpent permit) (sym same) spent, λ e. refused)
              | inl (refused, inr same) ↦
                  (subst (IsSpent permit) (sym same) (prune-Rows _ s now spent), λ e. refused)
              | inr c ↦ (
                subst (IsSpent permit) (sym c.after) (
                    consume-IsSpent_other permit input.nonce (prune s now).nonces
                      (prune-Rows _ s now spent)),
                λ e k. Consumed-permit permit s t input now e spent c,
              )
            ]))
    ]
  ]

  consume_post-allowed :
      (s : Storage) (input : ConsumePostInput) (draw : Draw) (now : ℕ)
      → input.permit ≡ permit
      → IsOwned permit input.nonce s.nonces
      → (consume_post identity s input draw now).1 ≡ allowed
      → IsSpent permit (consume_post identity s input draw now).0.nonces
  unfolding consume_post
  consume_post-allowed s input draw now same owned e = elim (Bool-cases (valid_post input)) [
    | inr invalid ↦ absurd (cc (rw (invalid, consume_post) at e))
    | inl valid ↦ elim (Option-cases (consume_body identity s input draw now)) [
      | inl fault ↦ let e1 = rw (valid, consume_post) at e in absurd (cc (rw fault at e1))
      | inr ((t, d), done) ↦
          let e1 = rw (valid, consume_post) at e in
          let admitted : d ≡ allowed = rw done at e1 in
          rw (valid, consume_post)
            (rw done (elim (consume_body-cases identity s t input draw now d done) [
              | inl (refused, kept) ↦ absurd (refused admitted)
              | inr c ↦ subst (IsSpent permit) (sym c.after) (
                  consume-IsSpent permit input.nonce (prune s now).nonces
                    (prune-Rows _ s now owned))
            ]))
    ]
  ]

claim_pre-IsSpent :
    (identity : Identity) (permit : String) (s : Storage) (input : ClaimPreInput) (draw : Draw)
    (now : ℕ)
    → draw.permit ≢ permit
    → IsSpent permit s.nonces
    → IsSpent permit (claim_pre identity s input draw now).0.nonces
unfolding claim_pre
claim_pre-IsSpent identity permit s input draw now differ spent =
    elim (Bool-cases (valid_pre input)) [
      | inr invalid ↦ rw (invalid, claim_pre) spent
      | inl valid ↦ elim (Option-cases (claim_body identity s input draw now)) [
        | inl fault ↦ rw (valid, claim_pre) (rw fault spent)
        | inr ((t, d), done) ↦
            rw (valid, claim_pre)
              (rw done (elim (claim_body-cases identity s t input draw now d done) [
                | inl (inl same) ↦ subst (IsSpent permit) (sym same) spent
                | inl (inr same) ↦ subst (IsSpent permit) (sym same) (prune-Rows _ s now spent)
                | inr c ↦ subst (IsSpent permit) (sym c.after) (
                  λ same. absurd (differ (sym c.drawn ∙ (eq_iff c.row.permit permit).0 same)),
                  prune-Rows _ s now spent,
                )
              ]))
      ]
    ]

cleanup-IsSpent :
    (identity : Identity) (permit : String) (s : Storage) (n now : ℕ)
    → IsSpent permit s.nonces
    → IsSpent permit (cleanup identity s n now).nonces
unfolding cleanup
cleanup-IsSpent identity permit s n now spent =
    let fewer = All-delete_some _ (λ r. leb r.retain_until_ms now) n s.nonces spent in
    elim (Bool-cases (ltb n 1 || ltb 500 n)) [
      | inl refused ↦ rw (refused, cleanup) spent
      | inr sized ↦ elim (Option-cases s.meta) [
        | inl missing ↦ rw (sized, missing, cleanup) spent
        | inr (m, here) ↦ elim (Bool-cases (not (is_ours identity m) || ltb now m.last_now_ms)) [
          | inl away ↦ rw (sized, here, cleanup) (rw away spent)
          | inr ours ↦ rw (sized, here, cleanup) (rw ours fewer)
        ]
      ]
    ]

-- No claim draws the permit again.
unfoldable pub IsFresh : String → List AuthorityCall → Type 0
IsFresh permit [] = Unit
IsFresh permit (claims input draw now ∷ calls) = (draw.permit ≢ permit) × IsFresh permit calls
IsFresh permit (call ∷ calls) = IsFresh permit calls

run-IsSpent :
    (identity : Identity) (permit : String) (h : History) (calls : List AuthorityCall)
    → IsFresh permit calls
    → IsSpent permit h.storage.nonces
    → IsSpent permit (authority_run identity h calls).storage.nonces
unfolding authority_run authority_step IsFresh
run-IsSpent identity permit h [] fresh spent = spent
run-IsSpent identity permit h (claims input draw now ∷ calls) fresh spent =
    run-IsSpent identity permit (authority_step identity h (claims input draw now)) calls fresh.1
      (claim_pre-IsSpent identity permit h.storage input draw now fresh.0 spent)
run-IsSpent identity permit h (consumes input draw now ∷ calls) fresh spent =
    run-IsSpent identity permit (authority_step identity h (consumes input draw now)) calls fresh
      (consume_post-IsSpent identity permit h.storage input draw now spent).0
run-IsSpent identity permit h (cleans n now ∷ calls) fresh spent =
    run-IsSpent identity permit (authority_step identity h (cleans n now)) calls fresh
      (cleanup-IsSpent identity permit h.storage n now spent)

-- Once a submission with a permit is allowed, no later one with that permit is, whatever calls
-- come in between, as long as no claim draws the same permit again; the permit stands, as its
-- column is unique, in the row of one nonce.
pub consume_post-Single :
    (identity : Identity) (s : Storage) (input later : ConsumePostInput) (draw again : Draw)
    (now then_at : ℕ) (calls : List AuthorityCall)
    → IsOwned input.permit input.nonce s.nonces
    → (consume_post identity s input draw now).1 ≡ allowed
    → IsFresh input.permit calls
    → later.permit ≡ input.permit
    → let h : History = record { storage = (consume_post identity s input draw now).0; log = [] } in
      (consume_post identity (authority_run identity h calls).storage later again then_at).1
      ≢ allowed
consume_post-Single identity s input later draw again now then_at calls owned first fresh same =
    let h : History = record { storage = (consume_post identity s input draw now).0; log = [] } in
    let spent = consume_post-allowed identity input.permit s input draw now refl owned first in
    (consume_post-IsSpent identity input.permit (authority_run identity h calls).storage later again
        then_at (run-IsSpent identity input.permit h calls fresh spent)).1
      same
