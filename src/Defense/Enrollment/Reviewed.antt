-- ===== src/Defense/Enrollment/Reviewed.antt =====
-- defense/core/enrollment.ts: the structure around a token that the matcher accepts.
use limitmark.Common.{
  ℕ, ap, zero, suc, ◌+◌, ◌-◌, ◌≤◌, ◌≡◌, refl, sym, ◌∙◌, ◌≢◌, ltb, ltb-eq-false→le, ==_iff, ◌==◌,
  true, false, Bool-cases, inl, inr, none, some, Option-cases, List, [], ◌∷◌, ◌++◌, arith, length,
  drop, take, all, get_or,
}
use limitmark.Defense.Enrollment.{
  name_literal, input_head, value_head, form_any, form_open, form_close, token_length, quote,
  token_byte, closes, has_prefix, index_of, last_index_of, compare_at, matched, check_form,
  check_token, check_input, match_form_token, byte_at,
}
use limitmark.Defense.Enrollment.Search.{
  has_prefix-append, drop_add, take-drop, length-take, length-drop, index_of-Found,
}

-- The token stands in the body behind the reviewed input's head, name and value, before a quote.
pub record IsReviewed (body token : List ℕ) : Type 0 where
  pub before : List ℕ
  pub after : List ℕ
  pub whole :
      body ≡ before ++ (input_head ++ (name_literal ++ (value_head ++ (token ++ (quote ∷ after)))))
  pub long : length token ≡ token_length
  pub bytes : all token_byte token ≡ true
  pub single :
      index_of body name_literal (length before + length input_head + length name_literal) ≡ none

prefix-drop :
    (needle body : List ℕ) (n m : ℕ)
    → has_prefix needle (drop n body) ≡ true
    → n + length needle ≡ m
    → drop n body ≡ needle ++ drop m body
prefix-drop needle body n m h e =
    rw (← e) (rw (drop_add n (length needle) body) (has_prefix-append needle (drop n body) h))

get_or-drop :
    (xs : List ℕ) (n d v : ℕ) → get_or xs n d ≡ v → v ≢ d → drop n xs ≡ v ∷ drop (suc n) xs
get_or-drop [] n d v e ne = absurd (ne (sym e))
get_or-drop (x ∷ xs) zero d v e ne = ap (λ y. y ∷ xs) e
get_or-drop (x ∷ xs) (suc n) d v e ne = get_or-drop xs n d v e ne

check_form-Same :
    (body : List ℕ) (input_start : ℕ) (token t : List ℕ)
    → check_form body input_start token ≡ some (matched t)
    → t ≡ token
unfolding check_form
check_form-Same body input_start token t e =
    elim (Option-cases (last_index_of body form_any input_start)) [
      | inl missing ↦ absurd (cc (rw (missing, check_form) at e))
      | inr (form_at, found) ↦
          let opened = rw (found, check_form) at e in
          elim (Option-cases (compare_at body form_open form_at)) [
            | inl outside ↦ absurd (cc (rw outside at opened))
            | inr (false, other) ↦ absurd (cc (rw other at opened))
            | inr (true, same) ↦
                let reviewed = rw same at opened in
                elim (Option-cases (index_of body form_close form_at)) [
                  | inl unclosed ↦ let last = rw unclosed at reviewed in cc
                  | inr (close_at, closed) ↦ let last = rw closed at reviewed in ground arith
                ]
          ]
    ]

record Accepted (body : List ℕ) (token_start : ℕ) (token : List ℕ) : Type 0 where
  taken : token ≡ take token_length (drop token_start body)
  inside : token_start + token_length + 2 ≤ length body
  bytes : all token_byte (take token_length (drop token_start body)) ≡ true
  quoted : byte_at body (token_start + token_length) ≡ quote

check_token-Accepted :
    (body : List ℕ) (input_start token_start : ℕ) (token : List ℕ)
    → check_token body input_start token_start ≡ some (matched token)
    → Accepted body token_start token
unfolding check_token
check_token-Accepted body input_start token_start token e =
    let taken = take token_length (drop token_start body) in
    let token_end = token_start + token_length in
    elim (Bool-cases (ltb (length body) (token_end + 2))) [
      | inl short ↦ absurd (cc (rw (short, check_token) at e))
      | inr long ↦
          let e1 = rw (long, check_token) at e in
          elim (Bool-cases (all token_byte taken)) [
            | inr bad ↦ absurd (cc (rw bad at e1))
            | inl good ↦
                let e2 = rw good at e1 in
                elim (Bool-cases (byte_at body token_end == quote)) [
                  | inr other ↦ absurd (cc (rw other at e2))
                  | inl quoted ↦
                      let e3 = rw quoted at e2 in
                      elim (Bool-cases (closes body token_end)) [
                        | inr unclosed ↦ absurd (cc (rw unclosed at e3))
                        | inl closed ↦ record {
                          taken = check_form-Same body input_start taken token (rw closed at e3);
                          inside = ltb-eq-false→le _ _ long;
                          bytes = good;
                          quoted = (==_iff _ _).0 quoted;
                        }
                      ]
                ]
          ]
    ]

record Placed (body : List ℕ) (first : ℕ) (token : List ℕ) : Type 0 where
  room : length input_head ≤ first
  head : has_prefix input_head (drop (first - length input_head) body) ≡ true
  value : has_prefix value_head (drop (first + length name_literal) body) ≡ true
  accepted : Accepted body (first + length name_literal + length value_head) token

compare_at-prefix :
    (body target : List ℕ) (start : ℕ)
    → compare_at body target start ≡ some true
    → has_prefix target (drop start body) ≡ true
unfolding compare_at
compare_at-prefix body target start e = ground arith

check_input-Placed :
    (body : List ℕ) (first : ℕ) (token : List ℕ)
    → check_input body first ≡ some (matched token)
    → Placed body first token
unfolding check_input
check_input-Placed body first token e = elim (Bool-cases (ltb first (length input_head))) [
  | inl early ↦ absurd (cc (rw (early, check_input) at e))
  | inr room ↦
      let start = first - length input_head in
      let e1 = rw (room, check_input) at e in
      elim (Option-cases (compare_at body input_head start)) [
        | inl outside ↦ absurd (cc (rw outside at e1))
        | inr (false, other) ↦ absurd (cc (rw other at e1))
        | inr (true, head) ↦
            let e2 = rw head at e1 in
            elim (Option-cases (compare_at body value_head (first + length name_literal))) [
              | inl outside ↦ absurd (cc (rw outside at e2))
              | inr (false, other) ↦ absurd (cc (rw other at e2))
              | inr (true, value) ↦ record {
                room = ltb-eq-false→le _ _ room;
                head = compare_at-prefix body input_head start head;
                value = compare_at-prefix body value_head (first + length name_literal) value;
                accepted =
                    check_token-Accepted body start
                      (first + length name_literal + length value_head) token (rw value at e2);
              }
            ]
      ]
]

Placed-IsReviewed :
    (body : List ℕ) (first : ℕ) (token : List ℕ)
    → index_of body name_literal 0 ≡ some first
    → index_of body name_literal (first + length name_literal) ≡ none
    → Placed body first token
    → IsReviewed body token
Placed-IsReviewed body first token found single p =
    let start = first - length input_head in
    let value_at = first + length name_literal in
    let token_at = value_at + length value_head in
    let token_end = token_at + token_length in
    let (low, named, inside) = index_of-Found body name_literal 0 first found in
    let behind_head = prefix-drop input_head body start first p.head (omega (arith, p.room)) in
    let behind_name = prefix-drop name_literal body first value_at named refl in
    let behind_value = prefix-drop value_head body value_at token_at p.value refl in
    let behind_token : drop token_at body ≡ token ++ drop token_end body = rw (p.accepted.taken) (
      rw (drop_add token_at token_length body)
        (sym (take-drop token_length (drop token_at body)))) in
    let apart : quote ≢ 256 = λ e. absurd (omega arith) in
    let quoted = get_or-drop body token_end 256 quote p.accepted.quoted apart in
    let size : length (take start body) ≡ start = length-take start body (omega (arith, p.room)) in
    let end : length (take start body) + length input_head + length name_literal ≡ value_at =
      omega (arith, p.room) in
    record {
      before = take start body;
      after = drop (suc token_end) body;
      whole =
          sym (take-drop start body)
          ∙ ap (λ t. take start body ++ t)
              (behind_head
                ∙ ap (λ t. input_head ++ t)
                    (behind_name
                      ∙ ap (λ t. name_literal ++ t)
                          (behind_value
                            ∙ ap (λ t. value_head ++ t)
                                (behind_token ∙ ap (λ t. token ++ t) quoted))));
      long =
          ap length p.accepted.taken
          ∙ length-take token_length (drop token_at body)
              (omega (arith, length-drop token_at body, p.accepted.inside));
      bytes = ap (all token_byte) p.accepted.taken ∙ p.accepted.bytes;
      single = rw end single;
    }

-- A token that the matcher returns stands in the body exactly as the reviewed input writes it, has
-- 43 bytes, all of the token's alphabet, and the name occurs nowhere behind it.
pub match_form_token-IsReviewed :
    (body token : List ℕ) → match_form_token body ≡ some (matched token) → IsReviewed body token
unfolding match_form_token
match_form_token-IsReviewed body token e = elim (Option-cases (index_of body name_literal 0)) [
  | inl missing ↦ absurd (cc (rw (missing, match_form_token) at e))
  | inr (first, found) ↦
      let located = rw (found, match_form_token) at e in
      elim (Option-cases (index_of body name_literal (first + length name_literal))) [
        | inr (second, again) ↦ absurd (cc (rw again at located))
        | inl single ↦
            Placed-IsReviewed body first token found single
              (check_input-Placed body first token (rw single at located))
      ]
]
