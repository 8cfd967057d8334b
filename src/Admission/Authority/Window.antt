-- ===== src/Admission/Authority/Window.antt =====
-- workers/admission-service/authority.ts: what a window counts, and what a prune leaves in it.
use limitmark.Common.{
  ℕ, zero, suc, ◌+◌, ◌≤◌, ◌<◌, ◌≡◌, refl, leb, ltb, leb→le, Bool, true, false, ◌&&◌, Bool-cases,
  inl, inr, List, [], ◌∷◌, String, str_eq, All, count, filter, arith,
}
use limitmark.Admission.Authority.{
  Phase, Scope, ObservationRow, kept_ms, is_expired, in_window, delete_some, same_phase, same_scope,
}

module _ {A : Type 0} where
  pub count-filter :
      (q p : A → Bool) (xs : List A)
      → ((x : A) → p x ≡ false → q x ≡ false)
      → count q (filter p xs) ≡ count q xs
  count-filter q p [] h = refl
  count-filter q p (x ∷ xs) h = ground (arith, count-filter q p xs h, h x)

  pub count-delete_some :
      (q p : A → Bool) (n : ℕ) (xs : List A)
      → ((x : A) → p x ≡ true → q x ≡ false)
      → count q (delete_some p n xs) ≡ count q xs
  count-delete_some q p zero xs h = refl
  count-delete_some q p (suc n) [] h = refl
  count-delete_some q p (suc n) (x ∷ xs) h =
      ground (arith, count-delete_some q p n xs h, count-delete_some q p (suc n) xs h, h x)

  pub count-le :
      (q r : A → Bool) (xs : List A)
      → All (λ x. q x ≡ true → r x ≡ true) xs
      → count q xs ≤ count r xs
  count-le q r [] h = omega arith
  count-le q r (x ∷ xs) h = ground (arith, count-le q r xs h.1, h.0)

  pub All-map {κ} : (P Q : A → Type κ) (xs : List A) → ((x : A) → P x → Q x) → All P xs → All Q xs
  All-map P Q [] f h = tt
  All-map P Q (x ∷ xs) f h = (f x h.0, All-map P Q xs f h.1)

kept_ms-same :
    (a b : Phase) (c d : Scope)
    → same_phase a b ≡ true
    → same_scope c d ≡ true
    → kept_ms a c ≡ kept_ms b d
kept_ms-same a b c d h k = ground arith

le-ltb : (a b : ℕ) → b ≤ a → ltb a b ≡ false
le-ltb a b h = ground arith

no_match : (b c : Bool) → (true && b && false && c) ≡ false
no_match true c = refl
no_match false c = refl

-- A row that the prune at one time removes stands in no window of its phase and scope that ends at
-- that time or later.
pub expired-in_window :
    (phase : Phase) (scope : Scope) (subject : String) (window now t : ℕ) (o : ObservationRow)
    → window ≤ kept_ms phase scope
    → now ≤ t
    → is_expired now o ≡ true
    → in_window phase scope subject window t o ≡ false
expired-in_window phase scope subject window now t o w le e =
    elim (Bool-cases (same_phase o.phase phase)) [
      | inr other ↦ rw other refl
      | inl phases ↦ elim (Bool-cases (same_scope o.scope scope)) [
        | inr other ↦ rw (phases, other) refl
        | inl scopes ↦
            let same = kept_ms-same o.phase phase o.scope scope phases scopes in
            let out : ltb t (o.observed_at_ms + window) ≡ false =
              le-ltb _ _ (omega (arith, leb→le _ _ e)) in
            rw (phases, scopes, out) (no_match (str_eq o.subject subject) (leb o.observed_at_ms t))
      ]
    ]

-- The part of a later window that lies in the past is in the window that ends now.
pub later-in_window :
    (phase : Phase) (scope : Scope) (subject : String) (window now t : ℕ) (o : ObservationRow)
    → o.observed_at_ms ≤ now
    → now ≤ t
    → in_window phase scope subject window t o ≡ true
    → in_window phase scope subject window now o ≡ true
later-in_window phase scope subject window now t o h le e = ground arith

-- A row of a later time is in no window that ends before.
pub future-in_window :
    (phase : Phase) (scope : Scope) (subject : String) (window t : ℕ) (o : ObservationRow)
    → t < o.observed_at_ms
    → in_window phase scope subject window t o ≡ false
future-in_window phase scope subject window t o h = ground arith
