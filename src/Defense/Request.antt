-- ===== src/Defense/Request.antt =====
-- defense/core/types.ts: `LayerRequest`; defense/core/enrollment.ts: the form route;
-- defense/core/lanes.ts: the operation classes and the token of a body. A body is the list of its
-- bytes; the model leaves out the headers, which no function here reads.
pub mod Tests
pub mod Token
use Prim.Native.Char.{code}
use limitmark.Common.{
  ℕ, zero, suc, ◌+◌, leb, ◌==◌, not, if◌then◌else◌, Bool, true, false, ◌&&◌, ◌||◌, Option, none,
  some, List, [], ◌∷◌, String, str_eq, any, all, length,
}

pub data BodyStatus : Type 0 where
  no_body complete declared_oversize overflow timeout aborted : BodyStatus

pub record LayerRequest : Type 0 where
  pub method : String
  pub target : String
  pub body_status : BodyStatus
  pub body : Option (List ℕ)

abbrev pub is_complete : BodyStatus → Bool
is_complete complete = true
is_complete _ = false

abbrev pub form_route_targets : List String
form_route_targets =
    "/test-talep-et" ∷ "/test-talep-et?hizmet=web" ∷ "/test-talep-et?hizmet=network"
    ∷ "/test-talep-et?hizmet=protection" ∷ "/test-talep-et?hizmet=unsure" ∷ []

unfoldable pub is_form_route : String → String → Bool
is_form_route method target = str_eq method "GET" && any (str_eq target) form_route_targets

abbrev pub open_targets : List String
open_targets = "/" ∷ "/gizlilik" ∷ "/test-talep-et/tesekkurler" ∷ form_route_targets

pub data OperationClass : Type 0 where
  open_class mutation unknown : OperationClass

unfoldable pub operation_class_of : String → String → OperationClass
operation_class_of method target =
    if str_eq method "GET" && any (str_eq target) open_targets
    then open_class
    else if str_eq method "POST" && str_eq target "/api/public-inquiries"
    then mutation
    else unknown

-- The bytes of an ASCII text.
abbrev pub codes : String → List ℕ
codes String.[] = []
codes (String.◌∷◌ c s) = code c ∷ codes s

abbrev pub token_field : List ℕ
token_field = codes "submissionToken="

pub is_token_byte : ℕ → Bool
is_token_byte c =
    leb b'A' c && leb c b'Z'
    || leb b'a' c && leb c b'z'
    || leb b'0' c && leb c b'9'
    || c == b'_'
    || c == b'-'

-- `TOKEN_VALUE.test(value)`
pub is_token_value : List ℕ → Bool
unfolding is_token_byte
is_token_value value = length value == 43 && all is_token_byte value

-- The rest behind a prefix; `none` if the text does not start with it.
unfoldable pub strip_prefix : List ℕ → List ℕ → Option (List ℕ)
strip_prefix [] text = some text
strip_prefix (p ∷ ps) [] = none
strip_prefix (p ∷ ps) (c ∷ text) = let rest = strip_prefix ps text in if c == p then rest else none

-- `text.slice(0, stop)` where `stop` is the position of the first `&`, or the end.
abbrev pub before_amp : List ℕ → List ℕ
before_amp [] = []
before_amp (c ∷ text) = let rest = before_amp text in if c == b'&' then [] else c ∷ rest

-- The text behind the first `&`; `none` if there is no `&`.
abbrev pub after_amp : List ℕ → Option (List ℕ)
after_amp [] = none
after_amp (c ∷ text) = let rest = after_amp text in if c == b'&' then some text else rest

-- The answer of one round of the loop: the token found so far, or the early `return null`.
pub data Round : Type 0 where
  found_so_far : Option (List ℕ) → Round
  gave_up : Round

-- The branch of a round, by the text behind the field's name, if the name stands there.
abbrev pub weigh : Option (List ℕ) → Option (List ℕ) → Round
weigh none found = found_so_far found
weigh (some rest) (some _) = gave_up
weigh (some rest) none =
    if is_token_value (before_amp rest) then found_so_far (some (before_amp rest)) else gave_up

pub token_round : List ℕ → Option (List ℕ) → Round
token_round text found = weigh (strip_prefix token_field text) found

-- The loop over the rest of the text. Each round but the last drops an `&`, so the length of the
-- text is enough fuel; `none` in the outer option means that the fuel ran out.
pub token_loop : ℕ → List ℕ → Option (List ℕ) → Option (Option (List ℕ))
token_loop zero text found = none
token_loop (suc fuel) text found = elim (token_round text found) [
  | gave_up ↦ some none
  | found_so_far now ↦ elim (after_amp text) [
    | none ↦ some now
    | some rest ↦ token_loop fuel rest now
  ]
]

abbrev flatten_result : Option (Option (List ℕ)) → Option (List ℕ)
flatten_result none = none
flatten_result (some r) = r

pub extract_submission_token : LayerRequest → Option (List ℕ)
extract_submission_token request =
    if not (str_eq request.method "POST") || not (is_complete request.body_status)
    then none
    else elim request.body [
      | none ↦ none
      | some text ↦ flatten_result (token_loop (suc (length text)) text none)
    ]
