-- ===== src/Defense/Request/Tests.antt =====
-- defense/core/lanes.ts: a form body whose second field is the token.
use limitmark.Common.{ℕ, ◌≡◌, refl, some, List, ◌++◌, replicate}
use limitmark.Defense.Request.{LayerRequest, complete, codes, extract_submission_token}
use limitmark.Defense.Request.Token.{sole_token, candidates, fields, extract_submission_token-sole}

abbrev posted_text : List ℕ
posted_text = codes "name=x&submissionToken=" ++ replicate 43 65

abbrev pub posted : LayerRequest
posted = record {
  method = "POST";
  target = "/api/public-inquiries";
  body_status = complete;
  body = some posted_text;
}

extract_submission_token-sole_example :
    extract_submission_token posted ≡ sole_token (candidates (fields posted_text))
extract_submission_token-sole_example =
    extract_submission_token-sole posted posted_text refl refl refl
