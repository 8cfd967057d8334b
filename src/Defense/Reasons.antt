-- ===== src/Defense/Reasons.antt =====
-- defense/core/types.ts: the reasons of a layer's refusal, with their status codes and stages.
use limitmark.Common.{
  ℕ, ◌≡◌, refl, if◌then◌else◌, Option, none, some, List, [], ◌∷◌, String, str_eq, eq_iff, arith,
}

pub data RejectReason : Type 0 where
  method_not_allowed target_too_long target_malformed path_not_allowed query_not_allowed
        header_count_exceeded header_bytes_exceeded header_name_invalid header_value_invalid
        host_header_invalid framing_invalid content_type_invalid body_too_large body_incomplete
        body_read_timeout body_encoding_invalid form_grammar_invalid form_field_not_allowed
        form_field_duplicate form_field_count_exceeded form_field_too_long form_token_malformed
        semantic_duplicate semantic_refused_header semantic_value_invalid lane_credited_budget
        lane_unverified_budget :
      RejectReason

pub data RejectStage : Type 0 where
  pre_parse grammar : RejectStage

-- `REJECT_STATUS`.
pub reject_status : RejectReason → ℕ
reject_status method_not_allowed = 405
reject_status target_too_long = 414
reject_status target_malformed = 400
reject_status path_not_allowed = 404
reject_status query_not_allowed = 400
reject_status header_count_exceeded = 431
reject_status header_bytes_exceeded = 431
reject_status header_name_invalid = 400
reject_status header_value_invalid = 400
reject_status host_header_invalid = 400
reject_status framing_invalid = 400
reject_status content_type_invalid = 415
reject_status body_too_large = 413
reject_status body_incomplete = 400
reject_status body_read_timeout = 408
reject_status body_encoding_invalid = 400
reject_status form_grammar_invalid = 400
reject_status form_field_not_allowed = 422
reject_status form_field_duplicate = 422
reject_status form_field_count_exceeded = 422
reject_status form_field_too_long = 422
reject_status form_token_malformed = 422
reject_status semantic_duplicate = 400
reject_status semantic_refused_header = 400
reject_status semantic_value_invalid = 400
reject_status lane_credited_budget = 503
reject_status lane_unverified_budget = 503

-- `REJECT_STAGE`.
pub reject_stage : RejectReason → RejectStage
reject_stage method_not_allowed = pre_parse
reject_stage target_too_long = pre_parse
reject_stage target_malformed = pre_parse
reject_stage path_not_allowed = pre_parse
reject_stage query_not_allowed = pre_parse
reject_stage header_count_exceeded = pre_parse
reject_stage header_bytes_exceeded = pre_parse
reject_stage header_name_invalid = pre_parse
reject_stage header_value_invalid = pre_parse
reject_stage host_header_invalid = pre_parse
reject_stage framing_invalid = pre_parse
reject_stage content_type_invalid = pre_parse
reject_stage body_too_large = pre_parse
reject_stage body_incomplete = pre_parse
reject_stage body_read_timeout = pre_parse
reject_stage body_encoding_invalid = grammar
reject_stage form_grammar_invalid = grammar
reject_stage form_field_not_allowed = grammar
reject_stage form_field_duplicate = grammar
reject_stage form_field_count_exceeded = grammar
reject_stage form_field_too_long = grammar
reject_stage form_token_malformed = grammar
reject_stage semantic_duplicate = pre_parse
reject_stage semantic_refused_header = pre_parse
reject_stage semantic_value_invalid = pre_parse
reject_stage lane_credited_budget = pre_parse
reject_stage lane_unverified_budget = pre_parse

-- `ALL_REJECT_REASONS`: the members of the two tuples of reasons.
pub all_reject_reasons : List RejectReason
all_reject_reasons =
    method_not_allowed ∷ target_too_long ∷ target_malformed ∷ path_not_allowed ∷ query_not_allowed
    ∷ header_count_exceeded ∷ header_bytes_exceeded ∷ header_name_invalid ∷ header_value_invalid
    ∷ host_header_invalid ∷ framing_invalid ∷ content_type_invalid ∷ body_too_large
    ∷ body_incomplete ∷ body_read_timeout ∷ body_encoding_invalid ∷ form_grammar_invalid
    ∷ form_field_not_allowed ∷ form_field_duplicate ∷ form_field_count_exceeded
    ∷ form_field_too_long ∷ form_token_malformed ∷ semantic_duplicate ∷ semantic_refused_header
    ∷ semantic_value_invalid ∷ lane_credited_budget ∷ lane_unverified_budget ∷ []

-- The text that stands for a reason.
pub reason_name : RejectReason → String
reason_name method_not_allowed = "a7.method_not_allowed"
reason_name target_too_long = "a7.target_too_long"
reason_name target_malformed = "a7.target_malformed"
reason_name path_not_allowed = "a7.path_not_allowed"
reason_name query_not_allowed = "a7.query_not_allowed"
reason_name header_count_exceeded = "a7.header_count_exceeded"
reason_name header_bytes_exceeded = "a7.header_bytes_exceeded"
reason_name header_name_invalid = "a7.header_name_invalid"
reason_name header_value_invalid = "a7.header_value_invalid"
reason_name host_header_invalid = "a7.host_header_invalid"
reason_name framing_invalid = "a7.framing_invalid"
reason_name content_type_invalid = "a7.content_type_invalid"
reason_name body_too_large = "a7.body_too_large"
reason_name body_incomplete = "a7.body_incomplete"
reason_name body_read_timeout = "a7.body_read_timeout"
reason_name body_encoding_invalid = "a7.body_encoding_invalid"
reason_name form_grammar_invalid = "a7.form_grammar_invalid"
reason_name form_field_not_allowed = "a7.form_field_not_allowed"
reason_name form_field_duplicate = "a7.form_field_duplicate"
reason_name form_field_count_exceeded = "a7.form_field_count_exceeded"
reason_name form_field_too_long = "a7.form_field_too_long"
reason_name form_token_malformed = "a7.form_token_malformed"
reason_name semantic_duplicate = "a7.semantic_duplicate"
reason_name semantic_refused_header = "a7.semantic_refused_header"
reason_name semantic_value_invalid = "a7.semantic_value_invalid"
reason_name lane_credited_budget = "a7.lane_credited_budget"
reason_name lane_unverified_budget = "a7.lane_unverified_budget"

abbrev find_reason : List RejectReason → String → Option RejectReason
find_reason [] text = none
find_reason (r ∷ rs) text =
    let rest = find_reason rs text in if str_eq text (reason_name r) then some r else rest

-- The member of `REJECT_SET` that a text names.
pub reason_of : String → Option RejectReason
unfolding all_reject_reasons reason_name
reason_of text = find_reason all_reject_reasons text

find_reason-Named :
    (rs : List RejectReason) (text : String) (r : RejectReason)
    → find_reason rs text ≡ some r
    → text ≡ reason_name r
find_reason-Named [] text r e = absurd cc
find_reason-Named (q ∷ rs) text r e =
    ground (arith, eq_iff text (reason_name q), find_reason-Named rs text r)

pub reason_of-Named :
    (text : String) (r : RejectReason) → reason_of text ≡ some r → text ≡ reason_name r
unfolding reason_of
reason_of-Named text r e = find_reason-Named all_reject_reasons text r e

pub reason_of-reason_name : (r : RejectReason) → reason_of (reason_name r) ≡ some r
unfolding reason_of
reason_of-reason_name method_not_allowed = refl
reason_of-reason_name target_too_long = refl
reason_of-reason_name target_malformed = refl
reason_of-reason_name path_not_allowed = refl
reason_of-reason_name query_not_allowed = refl
reason_of-reason_name header_count_exceeded = refl
reason_of-reason_name header_bytes_exceeded = refl
reason_of-reason_name header_name_invalid = refl
reason_of-reason_name header_value_invalid = refl
reason_of-reason_name host_header_invalid = refl
reason_of-reason_name framing_invalid = refl
reason_of-reason_name content_type_invalid = refl
reason_of-reason_name body_too_large = refl
reason_of-reason_name body_incomplete = refl
reason_of-reason_name body_read_timeout = refl
reason_of-reason_name body_encoding_invalid = refl
reason_of-reason_name form_grammar_invalid = refl
reason_of-reason_name form_field_not_allowed = refl
reason_of-reason_name form_field_duplicate = refl
reason_of-reason_name form_field_count_exceeded = refl
reason_of-reason_name form_field_too_long = refl
reason_of-reason_name form_token_malformed = refl
reason_of-reason_name semantic_duplicate = refl
reason_of-reason_name semantic_refused_header = refl
reason_of-reason_name semantic_value_invalid = refl
reason_of-reason_name lane_credited_budget = refl
reason_of-reason_name lane_unverified_budget = refl
