-- ===== src/Defense/Enrollment.antt =====
-- defense/core/enrollment.ts: the response observation contract. A body and a header are lists of
-- latin-1 bytes; `none` is an exception, which `Buffer.compare` raises for a range that ends behind
-- the buffer.
mod Search
pub mod Exception
pub mod Reviewed
mod Tests
use limitmark.Common.{
  ℕ, suc, ◌+◌, ◌-◌, leb, ltb, ◌==◌, not, if◌then◌else◌, Bool, true, false, ◌&&◌, ◌||◌, Option, none,
  some, is_some, List, [], ◌∷◌, ◌++◌, length, all, take, drop, get_or,
}
use limitmark.Defense.Request.{codes}
use limitmark.Defense.Events.{
  EnrollSkipReason, status_not_200, content_type, body_too_large_skip, token_count_zero,
  token_count_multiple,
}

abbrev pub quote : ℕ
quote = 34

abbrev pub name_literal : List ℕ
name_literal = codes "name=" ++ (quote ∷ codes "submissionToken") ++ (quote ∷ [])

abbrev pub input_head : List ℕ
input_head = codes "<input type=" ++ (quote ∷ codes "hidden") ++ (quote ∷ codes " ")

abbrev pub value_head : List ℕ
value_head = codes " value=" ++ (quote ∷ [])

abbrev pub form_any : List ℕ
form_any = codes "<form "

abbrev pub form_open : List ℕ
form_open = codes "<form class=" ++ (quote ∷ codes "request-form") ++ (quote ∷ [])

abbrev pub form_close : List ℕ
form_close = codes "</form>"

abbrev pub token_length : ℕ
token_length = 43

-- `isTokenByte`.
pub token_byte : ℕ → Bool
token_byte byte =
    leb 0x41 byte && leb byte 0x5a
    || leb 0x61 byte && leb byte 0x7a
    || leb 0x30 byte && leb byte 0x39
    || byte == 0x2d
    || byte == 0x5f

abbrev pub has_prefix : List ℕ → List ℕ → Bool
has_prefix [] text = true
has_prefix (p ∷ ps) [] = false
has_prefix (p ∷ ps) (c ∷ text) = c == p && has_prefix ps text

-- `Buffer.indexOf` from a position on, for the text that stands at `at`.
abbrev index_from : List ℕ → List ℕ → ℕ → ℕ → Option ℕ
index_from needle [] at from = none
index_from needle (c ∷ text) at from =
    let rest = index_from needle text (suc at) from in
    if leb from at && has_prefix needle (c ∷ text) then some at else rest

pub index_of : List ℕ → List ℕ → ℕ → Option ℕ
index_of body needle from = index_from needle body 0 from

-- `Buffer.lastIndexOf` up to a position.
abbrev last_index_from : List ℕ → List ℕ → ℕ → ℕ → Option ℕ
last_index_from needle [] at upto = none
last_index_from needle (c ∷ text) at upto =
    let rest = last_index_from needle text (suc at) upto in
    if is_some rest
    then rest
    else if leb at upto && has_prefix needle (c ∷ text)
    then some at
    else none

pub last_index_of : List ℕ → List ℕ → ℕ → Option ℕ
last_index_of body needle upto = last_index_from needle body 0 upto

-- `body.compare(target, 0, target.length, start, start + target.length) === 0`.
pub compare_at : List ℕ → List ℕ → ℕ → Option Bool
compare_at body target start =
    if ltb (length body) (start + length target)
    then none
    else some (has_prefix target (drop start body))

-- `TokenMatch` and `ObservationVerdict`.
pub data ObservationVerdict : Type 0 where
  matched : List ℕ → ObservationVerdict
  unmatched : EnrollSkipReason → ObservationVerdict

-- The reviewed form around the input that starts at a position.
pub check_form : List ℕ → ℕ → List ℕ → Option ObservationVerdict
unfolding index_of last_index_of compare_at
check_form body input_start token = elim (last_index_of body form_any input_start) [
  | none ↦ some (unmatched token_count_zero)
  | some form_at ↦ elim (compare_at body form_open form_at) [
    | none ↦ none
    | some false ↦ some (unmatched token_count_zero)
    | some true ↦ elim (index_of body form_close form_at) [
      | none ↦ some (matched token)
      | some close_at ↦
          if ltb close_at input_start
          then some (unmatched token_count_zero)
          else some (matched token)
    ]
  ]
]

-- `undefined` is no byte.
abbrev byte_at : List ℕ → ℕ → ℕ
byte_at body i = get_or body i 256

abbrev pub closes : List ℕ → ℕ → Bool
closes body token_end =
    byte_at body (token_end + 1) == 0x3e
    || byte_at body (token_end + 1) == 0x2f && byte_at body (token_end + 2) == 0x3e

-- The token behind the value's head, and what closes it.
pub check_token : List ℕ → ℕ → ℕ → Option ObservationVerdict
unfolding token_byte check_form
check_token body input_start token_start =
    let token_end = token_start + token_length in
    let token = take token_length (drop token_start body) in
    if ltb (length body) (token_end + 2)
    then some (unmatched token_count_zero)
    else if not (all token_byte token)
    then some (unmatched token_count_zero)
    else if not (byte_at body token_end == quote)
    then some (unmatched token_count_zero)
    else if not (closes body token_end)
    then some (unmatched token_count_zero)
    else check_form body input_start token

-- What stands before and behind the only occurrence of the name.
pub check_input : List ℕ → ℕ → Option ObservationVerdict
unfolding compare_at check_token
check_input body first =
    if ltb first (length input_head)
    then some (unmatched token_count_zero)
    else elim (compare_at body input_head (first - length input_head)) [
      | none ↦ none
      | some false ↦ some (unmatched token_count_zero)
      | some true ↦ elim (compare_at body value_head (first + length name_literal)) [
        | none ↦ none
        | some false ↦ some (unmatched token_count_zero)
        | some true ↦
            check_token body (first - length input_head)
              (first + length name_literal + length value_head)
      ]
    ]

pub match_form_token : List ℕ → Option ObservationVerdict
unfolding index_of check_input
match_form_token body = elim (index_of body name_literal 0) [
  | none ↦ some (unmatched token_count_zero)
  | some first ↦
      if is_some (index_of body name_literal (first + length name_literal))
      then some (unmatched token_count_multiple)
      else check_input body first
]

-- `toLowerCase` on latin-1.
unfoldable pub lower : List ℕ → List ℕ
lower [] = []
lower (c ∷ text) =
    let rest = lower text in
    if leb 0x41 c && leb c 0x5a || leb 0xc0 c && leb c 0xde && not (c == 0xd7)
    then (c + 32) ∷ rest
    else c ∷ rest

abbrev is_space : ℕ → Bool
is_space c = leb 9 c && leb c 13 || c == 32 || c == 160

abbrev trim_start : List ℕ → List ℕ
trim_start [] = []
trim_start (c ∷ text) = let rest = trim_start text in if is_space c then rest else c ∷ text

abbrev trim_end : List ℕ → List ℕ
trim_end [] = []
trim_end (c ∷ text) = elim (trim_end text) [
  | [] ↦ if is_space c then [] else c ∷ []
  | d ∷ rest ↦ c ∷ d ∷ rest
]

-- `trim` on latin-1.
pub trim : List ℕ → List ℕ
trim text = trim_end (trim_start text)

abbrev pub same_text : List ℕ → List ℕ → Bool
same_text [] [] = true
same_text (c ∷ cs) (d ∷ ds) = c == d && same_text cs ds
same_text _ _ = false

-- The loop over the raw headers, name and value in turn: how many content types there are, and
-- `representationOk`.
pub scan_headers : List (List ℕ) → ℕ × Bool
unfolding lower trim
scan_headers (name ∷ value ∷ rest) =
    let (types, ok) = scan_headers rest in
    let known = lower name in
    if same_text known (codes "content-type")
    then (suc types, ok && same_text (lower (trim value)) (codes "text/html; charset=utf-8"))
    else (types, ok && not (same_text known (codes "content-encoding")))
scan_headers _ = (0, true)

pub evaluate_observation : ℕ → List (List ℕ) → List ℕ → ℕ → Option ObservationVerdict
unfolding scan_headers match_form_token
evaluate_observation status raw_headers payload max_bytes =
    let (types, ok) = scan_headers raw_headers in
    if not (status == 200)
    then some (unmatched status_not_200)
    else if not (types == 1) || not ok
    then some (unmatched content_type)
    else if ltb max_bytes (length payload)
    then some (unmatched body_too_large_skip)
    else match_form_token payload
