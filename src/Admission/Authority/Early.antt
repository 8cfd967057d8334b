-- ===== src/Admission/Authority/Early.antt =====
-- workers/admission-service/authority.ts: a cleanup whose clock is ahead of that of a later claim.
use limitmark.Common.{
  ℕ, zero, suc, ◌≤◌, ◌≡◌, ◌≢◌, refl, ◌∙◌, Bool, true, false, not, ◌||◌, ltb, some, List, [], ◌∷◌,
  String, All, length, Bool-cases, Option-cases, inl, inr, arith,
}
use limitmark.Admission.Authority.{
  Meta, Storage, ClaimPreInput, Decision, limited, Identity, is_ours, authority_now, is_expired,
  delete_some, prune, Draw, admit_pre, claim_body, valid_pre, claim_pre, cleanup, pre_is_limited,
}

delete_some-nil {ℓ} :
    {A : Type ℓ} (p : A → Bool) (n : ℕ) (xs : List A)
    → All (λ x. p x ≡ true) xs
    → length xs ≤ n
    → delete_some p n xs ≡ []
delete_some-nil p zero [] h le = refl
delete_some-nil p (suc n) [] h le = refl
delete_some-nil p zero (x ∷ xs) h le = absurd (omega arith)
delete_some-nil p (suc n) (x ∷ xs) h le = ground (arith, delete_some-nil p n xs h.1)

admit_pre-ne :
    (s t : Storage) (input : ClaimPreInput) (draw : Draw) (now : ℕ) (d : Decision)
    → admit_pre s input draw now ≡ some (t, d)
    → d ≢ limited
unfolding admit_pre
admit_pre-ne s t input draw now d e same = ground arith

authority_now-observations :
    (identity : Identity) (s t : Storage) (release : String) (now : ℕ)
    → authority_now identity s release now ≡ some t
    → t.observations ≡ s.observations
unfolding authority_now
authority_now-observations identity s t release now e = ground arith

prune-nil : (s : Storage) (now : ℕ) → s.observations ≡ [] → (prune s now).observations ≡ []
unfolding prune
prune-nil s now e = rw e refl

-- With no observation nothing is limited.
claim_body-ne :
    (identity : Identity) (s t : Storage) (input : ClaimPreInput) (draw : Draw) (now : ℕ)
    (d : Decision)
    → s.observations ≡ []
    → claim_body identity s input draw now ≡ some (t, d)
    → d ≢ limited
unfolding claim_body
claim_body-ne identity s t input draw now d e h =
    elim (Option-cases (authority_now identity s input.release_id now)) [
      | inl refused ↦ λ same. ground (arith, rw (refused, claim_body) at h)
      | inr (u, given) ↦
          let bare : (prune u now).observations ≡ [] =
            prune-nil u now
              (authority_now-observations identity s u input.release_id now given ∙ e) in
          let free : pre_is_limited (prune u now) input.client_pseudonym now ≡ false =
            rw bare refl in
          λ same. ground (
            arith,
            rw (given, claim_body) at h,
            free,
            admit_pre-ne (prune u now) t input draw now d,
          )
    ]

claim_pre-ne :
    (identity : Identity) (s : Storage) (input : ClaimPreInput) (draw : Draw) (now : ℕ)
    → s.observations ≡ []
    → (claim_pre identity s input draw now).1 ≢ limited
unfolding claim_pre
claim_pre-ne identity s input draw now e = elim (Bool-cases (valid_pre input)) [
  | inr invalid ↦ rw (invalid, claim_pre) (λ same. cc)
  | inl valid ↦ elim (Option-cases (claim_body identity s input draw now)) [
    | inl fault ↦ rw (valid, claim_pre) (rw fault (λ same. cc))
    | inr ((t, d), done) ↦
        rw (valid, claim_pre) (rw done (claim_body-ne identity s t input draw now d e done))
  ]
]

-- A cleanup by the authority of the recorded identity, whose reading is not behind the recorded time
-- and so far ahead that every row has left its window: where it may delete as many rows as there
-- are, it deletes them all and leaves the recorded time as it was; and a claim that comes next, with
-- any reading, is not limited.
pub cleanup-early :
    (identity : Identity) (s : Storage) (m : Meta) (n ahead back : ℕ) (input : ClaimPreInput)
    (draw : Draw)
    → s.meta ≡ some m
    → is_ours identity m ≡ true
    → m.last_now_ms ≤ ahead
    → 1 ≤ n
    → n ≤ 500
    → length s.observations ≤ n
    → All (λ o. is_expired ahead o ≡ true) s.observations
    → ((cleanup identity s n ahead).meta ≡ some m)
      × ((cleanup identity s n ahead).observations ≡ [])
      × ((claim_pre identity (cleanup identity s n ahead) input draw back).1 ≢ limited)
unfolding cleanup
cleanup-early identity s m n ahead back input draw here ours later one most few old =
    let sized : (ltb n 1 || ltb 500 n) ≡ false = ground arith in
    let goes : (not (is_ours identity m) || ltb ahead m.last_now_ms) ≡ false = ground arith in
    let gone : (cleanup identity s n ahead).observations ≡ [] =
      rw (sized, here, cleanup)
        (rw goes (delete_some-nil (is_expired ahead) n s.observations old few)) in
    (
      rw (sized, here, cleanup) (rw goes here),
      gone,
      claim_pre-ne identity (cleanup identity s n ahead) input draw back gone,
    )
