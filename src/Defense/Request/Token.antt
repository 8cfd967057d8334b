-- ===== src/Defense/Request/Token.antt =====
-- defense/core/lanes.ts: `extractSubmissionToken` against the fields of the body.
use limitmark.Common.{
  ℕ, zero, suc, ◌<◌, ◌≡◌, refl, ◌⊎◌, inl, inr, Bool, true, ◌&&◌, not, Option, none, some, List, [],
  ◌∷◌, arith, ◌==◌, if◌then◌else◌, length, Option-cases, str_eq,
}
use limitmark.Defense.Request.{
  LayerRequest, Round, weigh, found_so_far, gave_up, is_complete, token_field, is_token_value,
  strip_prefix, before_amp, after_amp, token_round, token_loop, extract_submission_token,
}

-- The fields of a text, as `text.split("&")` gives them.
abbrev cons_head : ℕ → List (List ℕ) → List (List ℕ)
cons_head c [] = (c ∷ []) ∷ []
cons_head c (f ∷ fs) = (c ∷ f) ∷ fs

abbrev pub fields : List ℕ → List (List ℕ)
fields [] = [] ∷ []
fields (c ∷ text) = let rest = fields text in if c == b'&' then [] ∷ rest else cons_head c rest

-- The values of the fields that begin with the token's name.
abbrev consider : Option (List ℕ) → List (List ℕ) → List (List ℕ)
consider none rest = rest
consider (some value) rest = value ∷ rest

abbrev pub candidates : List (List ℕ) → List (List ℕ)
candidates [] = []
candidates (f ∷ fs) = consider (strip_prefix token_field f) (candidates fs)

-- The specification: the one candidate, if it is well formed.
abbrev pub sole_token : List (List ℕ) → Option (List ℕ)
sole_token [] = none
sole_token (value ∷ []) = if is_token_value value then some value else none
sole_token (value ∷ other ∷ more) = none

fields-eq :
    (text : List ℕ)
    → fields text
      ≡ before_amp text ∷ (elim (after_amp text) [ none ↦ [] | some rest ↦ fields rest ])
fields-eq [] = refl
fields-eq (c ∷ text) = ground (arith, fields-eq text)

length-after_amp : (text rest : List ℕ) → after_amp text ≡ some rest → length rest < length text
length-after_amp [] rest h = cc
length-after_amp (c ∷ text) rest h = ground (arith, length-after_amp text rest)

abbrev has_no_amp : List ℕ → Bool
has_no_amp [] = true
has_no_amp (p ∷ ps) = not (p == b'&') && has_no_amp ps

abbrev cut : Option (List ℕ) → Option (List ℕ)
cut none = none
cut (some rest) = some (before_amp rest)

strip_prefix-before_amp :
    (ps text : List ℕ)
    → has_no_amp ps ≡ true
    → strip_prefix ps (before_amp text) ≡ cut (strip_prefix ps text)
unfolding strip_prefix
strip_prefix-before_amp [] text h = refl
strip_prefix-before_amp (p ∷ ps) [] h = refl
strip_prefix-before_amp (p ∷ ps) (c ∷ text) h = ground (arith, strip_prefix-before_amp ps text)

-- What the loop makes of the candidates that are left, given what it has found.
abbrev resume : Option (List ℕ) → List (List ℕ) → Option (List ℕ)
resume none cs = sole_token cs
resume (some v) [] = some v
resume (some v) (c ∷ cs) = none

after_round : Round → List (List ℕ) → Option (List ℕ)
after_round gave_up cs = none
after_round (found_so_far now) cs = resume now cs

weigh-resume :
    (s found : Option (List ℕ)) (cs : List (List ℕ))
    → after_round (weigh s found) cs ≡ resume found (consider (cut s) cs)
unfolding after_round
weigh-resume none found cs = refl
weigh-resume (some rest) (some v) cs = refl
weigh-resume (some rest) none [] = ground arith
weigh-resume (some rest) none (c ∷ cs) = ground arith

-- One round takes the candidate of the first field into account.
token_round-resume :
    (text : List ℕ) (found : Option (List ℕ)) (fs : List (List ℕ))
    → after_round (token_round text found) (candidates fs)
      ≡ resume found (candidates (before_amp text ∷ fs))
unfolding token_round
token_round-resume text found fs =
    rw (strip_prefix-before_amp token_field text refl)
      (weigh-resume (strip_prefix token_field text) found (candidates fs))

Round-cases : (r : Round) → (r ≡ gave_up) ⊎ ((now : Option (List ℕ)) × (r ≡ found_so_far now))
Round-cases gave_up = inl refl
Round-cases (found_so_far now) = inr (now, refl)

token_loop-resume :
    (fuel : ℕ) (text : List ℕ) (found : Option (List ℕ))
    → length text < fuel
    → token_loop fuel text found ≡ some (resume found (candidates (fields text)))
unfolding token_loop after_round
token_loop-resume zero text found h = elim h [ ]
token_loop-resume (suc fuel) text found h = elim (Option-cases (after_amp text)) [
  | inl e ↦
      rw (fields-eq text, e, ← token_round-resume text found [])
        (ground (arith, Round-cases (token_round text found)))
  | inr (rest, e) ↦
      rw (fields-eq text, e, ← token_round-resume text found (fields rest))
        (elim (Round-cases (token_round text found)) [
          | inl r ↦ rw (r, token_loop)
          | inr (now, r) ↦
              rw (r, token_loop)
                (rw e
                  (token_loop-resume fuel rest now (omega (arith, length-after_amp text rest e))))
        ])
]

-- A complete POST body yields a token exactly when one of its fields, and only one, bears the
-- token's name, and that field's value is 43 base64url characters; else it yields none.
pub extract_submission_token-sole :
    (request : LayerRequest) (text : List ℕ)
    → str_eq request.method "POST" ≡ true
    → is_complete request.body_status ≡ true
    → request.body ≡ some text
    → extract_submission_token request ≡ sole_token (candidates (fields text))
unfolding extract_submission_token
extract_submission_token-sole request text m c b =
    rw (m, c, b) (rw (token_loop-resume (suc (length text)) text none (omega arith)))
