-- ===== src/Defense/Enrollment/Tests.antt =====
-- defense/core/enrollment.ts: a small reviewed page, whole and cut.
use limitmark.Common.{ℕ, ◌≡◌, refl, ◌↔◌, none, some, List, [], ◌∷◌, ◌++◌, replicate}
use limitmark.Defense.Request.{codes}
use limitmark.Defense.Events.{content_type, token_count_multiple}
use limitmark.Defense.Enrollment.{
  quote, name_literal, input_head, value_head, form_open, matched, unmatched, match_form_token,
  evaluate_observation, index_of, last_index_of, compare_at, token_byte, check_form, check_token,
  check_input, lower, trim, scan_headers,
}
use limitmark.Defense.Enrollment.Exception.{IsCut, match_form_token-IsCut}
use limitmark.Defense.Enrollment.Reviewed.{IsReviewed, match_form_token-IsReviewed}

abbrev pub page_token : List ℕ
page_token = replicate 43 65

abbrev pub cut_page : List ℕ
cut_page = form_open ++ codes ">" ++ input_head ++ name_literal

abbrev pub page : List ℕ
page = cut_page ++ value_head ++ page_token ++ (quote ∷ codes "></form>")

abbrev html_headers : List (List ℕ)
html_headers = codes "Content-Type" ∷ codes " Text/HTML; charset=utf-8" ∷ []

page-matched : match_form_token page ≡ some (matched page_token)
unfolding match_form_token index_of last_index_of compare_at token_byte check_form check_token
    check_input
page-matched = refl

twice-refused : match_form_token (page ++ page) ≡ some (unmatched token_count_multiple)
unfolding match_form_token index_of
twice-refused = refl

page-observed : evaluate_observation 200 html_headers page 4096 ≡ some (matched page_token)
unfolding evaluate_observation scan_headers lower trim match_form_token index_of last_index_of
    compare_at token_byte check_form check_token check_input
page-observed = refl

encoded-refused :
    evaluate_observation 200 (codes "content-encoding" ∷ codes "gzip" ∷ html_headers) page 4096
    ≡ some (unmatched content_type)
unfolding evaluate_observation scan_headers lower trim
encoded-refused = refl

pub cut-throws : match_form_token cut_page ≡ none
unfolding match_form_token index_of compare_at check_input
cut-throws = refl

match_form_token-IsReviewed_example : IsReviewed page page_token
match_form_token-IsReviewed_example = match_form_token-IsReviewed page page_token page-matched

match_form_token-IsCut_example : (match_form_token cut_page ≡ none) ↔ IsCut cut_page
match_form_token-IsCut_example = match_form_token-IsCut cut_page
