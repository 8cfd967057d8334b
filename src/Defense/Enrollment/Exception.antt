-- ===== src/Defense/Enrollment/Exception.antt =====
-- defense/core/enrollment.ts: when the matcher raises an exception.
use limitmark.Common.{
  ℕ, ap, ◌+◌, ◌-◌, ◌≤◌, ◌<◌, ◌≡◌, refl, ◌∙◌, ◌≢◌, ◌↔◌, ltb, ltb-eq-false→le, ltb→lt, true, false,
  Bool-cases, inl, inr, none, some, Option-cases, List, arith, length, drop, take,
}
use limitmark.Defense.Enrollment.{
  name_literal, input_head, value_head, form_any, form_open, form_close, token_length, has_prefix,
  index_of, last_index_of, check_form, check_token, check_input, match_form_token,
}
use limitmark.Defense.Enrollment.Search.{
  index_of-Found, last_index_of-le, compare_at-inside, compare_at-outside,
}

-- A body that has the name once, behind the head of a hidden input, and ends before the 8 bytes of
-- the value's head are complete.
pub record IsCut (body : List ℕ) : Type 0 where
  pub first : ℕ
  pub found : index_of body name_literal 0 ≡ some first
  pub single : index_of body name_literal (first + length name_literal) ≡ none
  pub room : length input_head ≤ first
  pub head : has_prefix input_head (drop (first - length input_head) body) ≡ true
  pub short : length body < first + length name_literal + length value_head

check_form-Returns :
    (body : List ℕ) (input_start : ℕ) (token : List ℕ)
    → input_start + length form_open ≤ length body
    → check_form body input_start token ≢ none
unfolding check_form
check_form-Returns body input_start token h e =
    elim (Option-cases (last_index_of body form_any input_start)) [
      | inl missing ↦ absurd (cc (rw (missing, check_form) at e))
      | inr (form_at, found) ↦
          let before = last_index_of-le body form_any input_start form_at found in
          let inside = compare_at-inside body form_open form_at (omega arith) in
          let opened = rw (found, check_form) at e in
          elim (Bool-cases (has_prefix form_open (drop form_at body))) [
            | inl same ↦
                let reviewed = rw (inside ∙ ap some same) at opened in
                elim (Option-cases (index_of body form_close form_at)) [
                  | inl unclosed ↦ absurd (cc (rw unclosed at reviewed))
                  | inr (close_at, closed) ↦ let last = rw closed at reviewed in ground arith
                ]
            | inr other ↦ absurd (cc (rw (inside ∙ ap some other) at opened))
          ]
    ]

check_token-Returns :
    (body : List ℕ) (input_start token_start : ℕ)
    → input_start ≤ token_start
    → check_token body input_start token_start ≢ none
unfolding check_token
check_token-Returns body input_start token_start h e =
    let token = take token_length (drop token_start body) in
    elim (Bool-cases (ltb (length body) (token_start + token_length + 2))) [
      | inl short ↦ absurd (cc (rw (short, check_token) at e))
      | inr long ↦ check_form-Returns body input_start token (ground arith) (ground arith)
    ]

check_input-Cut :
    (body : List ℕ) (first : ℕ)
    → first + length name_literal ≤ length body
    → check_input body first ≡ none
    → (length input_head ≤ first)
      × (has_prefix input_head (drop (first - length input_head) body) ≡ true)
      × (length body < first + length name_literal + length value_head)
unfolding check_input
check_input-Cut body first h e = elim (Bool-cases (ltb first (length input_head))) [
  | inl early ↦ absurd (cc (rw (early, check_input) at e))
  | inr room ↦
      let start = first - length input_head in
      let inside =
        compare_at-inside body input_head start (omega (arith, ltb-eq-false→le _ _ room)) in
      let placed = rw (room, check_input) at e in
      elim (Bool-cases (has_prefix input_head (drop start body))) [
        | inr other ↦ absurd (cc (rw (inside ∙ ap some other) at placed))
        | inl same ↦
            let headed = rw (inside ∙ ap some same) at placed in
            elim (Bool-cases
              (ltb (length body) (first + length name_literal + length value_head))) [
                | inl short ↦ (ltb-eq-false→le _ _ room, same, ltb→lt _ _ short)
                | inr long ↦
                    let value =
                      compare_at-inside body value_head (first + length name_literal)
                        (ltb-eq-false→le _ _ long) in
                    elim (Bool-cases
                      (has_prefix value_head (drop (first + length name_literal) body))) [
                        | inr other ↦ absurd (cc (rw (value ∙ ap some other) at headed))
                        | inl reviewed ↦ absurd (
                            check_token-Returns body start
                              (first + length name_literal + length value_head) (omega arith)
                              (rw (value ∙ ap some reviewed) at headed))
                      ]
              ]
      ]
]

throws-IsCut : (body : List ℕ) → match_form_token body ≡ none → IsCut body
unfolding match_form_token
throws-IsCut body e = elim (Option-cases (index_of body name_literal 0)) [
  | inl missing ↦ absurd (cc (rw (missing, match_form_token) at e))
  | inr (first, found) ↦
      let next = index_of body name_literal (first + length name_literal) in
      let located = rw (found, match_form_token) at e in
      elim (Option-cases next) [
        | inr (second, again) ↦ absurd (cc (rw again at located))
        | inl single ↦
            let (start, named, inside) = index_of-Found body name_literal 0 first found in
            let (room, head, short) = check_input-Cut body first inside (rw single at located) in
            record {
              first = first;
              found = found;
              single = single;
              room = room;
              head = head;
              short = short;
            }
      ]
]

IsCut-throws : (body : List ℕ) → IsCut body → match_form_token body ≡ none
unfolding match_form_token check_input
IsCut-throws body cut =
    let first = cut.first in
    let (start, named, inside) = index_of-Found body name_literal 0 first cut.found in
    let room : ltb first (length input_head) ≡ false = ground (arith, cut.room) in
    let head =
      compare_at-inside body input_head (first - length input_head) (omega (arith, cut.room))
      ∙ ap some cut.head in
    let value = compare_at-outside body value_head (first + length name_literal) cut.short in
    rw (cut.found, match_form_token)
      (rw cut.single (rw (room, check_input) (rw head (rw value refl))))

-- The matcher raises an exception exactly for a body that has the name once, behind the head of a
-- hidden input, and ends before the 8 bytes of the value's head are complete; for every other body
-- it returns a verdict.
pub match_form_token-IsCut : (body : List ℕ) → (match_form_token body ≡ none) ↔ IsCut body
match_form_token-IsCut body = (throws-IsCut body, IsCut-throws body)
