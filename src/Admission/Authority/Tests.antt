-- ===== src/Admission/Authority/Tests.antt =====
-- workers/admission-service/authority.ts: a client that claims three times and a fourth time, and
-- the submission of one claim, twice.
use limitmark.Common.{
  ◌≤◌, ◌≡◌, refl, ◌≢◌, true, false, none, some, List, [], ◌∷◌, String, count, arith,
}
use limitmark.Admission.Authority.{
  ObservationRow, pre, global_row, client_row, limited, cleanup, Storage, ClaimPreInput,
  ConsumePostInput, permitted, allowed, Identity, Draw, claim_pre, consume_post, valid_pre,
  valid_post, valid_release, is_opaque, claim_body, authority_now, prune, admit_pre, observe_both,
  insert_observation, insert_nonce, consume_body, admit_post,
}
use limitmark.Admission.Authority.History.{
  AuthorityCall, claims, consumes, cleans, History, authority_run, IsOrdered, pre_burst_rule,
  matches,
}
use limitmark.Admission.Authority.Early.{cleanup-early}
use limitmark.Admission.Authority.Limits.{authority_run-Limited}
use limitmark.Admission.Authority.Single.{IsOwned, IsFresh, consume_post-Single}

abbrev production : Identity
production = record { authority_id = "authority"; policy_epoch = "epoch" }

abbrev empty : Storage
empty = record {
  meta = some (record { authority_id = "authority"; policy_epoch = "epoch"; last_now_ms = 1000 });
  releases = record { release_id = "r1"; key_id = "k1"; activated_ms = 0; retired_ms = none } ∷ [];
  observations = [];
  nonces = [];
}

-- 43 characters for 32 bytes, 22 for 16.
abbrev wide : String
wide = "AAAAAAAAAAAAAAAAAAAAAAAAAAAAAAAAAAAAAAAAAAA"

abbrev narrow : String
narrow = "AAAAAAAAAAAAAAAAAAAAAA"

abbrev other_narrow : String
other_narrow = "BAAAAAAAAAAAAAAAAAAAAA"

abbrev claim : String → ClaimPreInput
claim nonce = record {
  release_id = "r1";
  client_pseudonym = wide;
  request_binding = wide;
  nonce = nonce;
  issued_at_ms = 2000;
}

abbrev draw : String → Draw
draw tag = record { permit = tag; attempt = tag; fault = false }

abbrev shown : ConsumePostInput
shown = record {
  release_id = "r1";
  client_pseudonym = wide;
  request_binding = wide;
  nonce = narrow;
  permit = wide;
}

opaque-checked : is_opaque narrow 16 ≡ true
unfolding is_opaque
opaque-checked = refl

-- The last character has bits that belong to no byte.
opaque-refused : is_opaque "AAAAAAAAAAAAAAAAAAAAAB" 16 ≡ false
unfolding is_opaque
opaque-refused = refl

abbrev claimed : Storage
claimed = (claim_pre production empty (claim narrow) (draw wide) 2000).0

claim-permitted :
    (claim_pre production empty (claim narrow) (draw wide) 2000).1 ≡ permitted wide 62000
unfolding claim_pre valid_pre valid_release is_opaque claim_body authority_now prune admit_pre
    observe_both insert_observation insert_nonce
claim-permitted = refl

post-allowed : (consume_post production claimed shown (draw "p") 3000).1 ≡ allowed
unfolding claim_pre valid_pre valid_release is_opaque claim_body authority_now prune admit_pre
    observe_both insert_observation insert_nonce consume_post valid_post consume_body admit_post
post-allowed = refl

abbrev burst : List AuthorityCall
burst =
    claims (claim narrow) (draw wide) 2000
    ∷ cleans 10 2500
    ∷ consumes shown (draw "p") 3000
    ∷ claims (claim other_narrow) (draw other_narrow) 4000
    ∷ []

burst-IsOrdered : IsOrdered 0 burst
unfolding IsOrdered
burst-IsOrdered = (omega arith, (omega arith, (omega arith, tt)))

authority_run-Limited_example :
    count
      (matches pre_burst_rule wide 4000)
      (authority_run production (record { storage = empty; log = [] }) burst).log
    ≤ 3
authority_run-Limited_example =
    authority_run-Limited production empty burst pre_burst_rule wide 4000 burst-IsOrdered

abbrev between : List AuthorityCall
between = claims (claim other_narrow) (draw other_narrow) 4000 ∷ cleans 10 5000 ∷ []

-- Other random values than the first permit.
between-IsFresh : IsFresh wide between
unfolding IsFresh
between-IsFresh = (λ e. absurd cc, tt)

claimed-IsOwned : IsOwned wide narrow claimed.nonces
unfolding claim_pre valid_pre valid_release is_opaque claim_body authority_now prune admit_pre
    observe_both insert_observation insert_nonce
claimed-IsOwned = (λ e. refl, tt)

abbrev consumed : History
consumed = record { storage = (consume_post production claimed shown (draw "p") 3000).0; log = [] }

consume_post-Single_example :
    (consume_post production
      (authority_run production consumed between).storage
      shown
      (draw "q")
      6000).1
    ≢ allowed
consume_post-Single_example =
    consume_post-Single production claimed shown shown (draw "p") (draw "q") 3000 6000 between
      claimed-IsOwned post-allowed between-IsFresh refl

abbrev attempts_of : List String → List ObservationRow
attempts_of [] = []
attempts_of (attempt ∷ attempts) =
    global_row attempt pre 2000 ∷ client_row attempt pre wide 2000 ∷ attempts_of attempts

-- Three admissions of a client at 2000, the whole of its burst.
abbrev burst_taken : Storage
burst_taken = record empty { observations = attempts_of ("a" ∷ "b" ∷ "c" ∷ []) }

fourth-limited : (claim_pre production burst_taken (claim narrow) (draw wide) 2001).1 ≡ limited
unfolding claim_pre valid_pre valid_release is_opaque claim_body authority_now prune
fourth-limited = refl

-- The same claim, behind a cleanup with a reading of ten minutes later.
fourth-permitted :
    (claim_pre production
      (cleanup production burst_taken 500 602000)
      (claim narrow)
      (draw wide)
      2001).1
    ≡ permitted wide 62001
unfolding claim_pre valid_pre valid_release is_opaque claim_body authority_now prune admit_pre
    observe_both insert_observation insert_nonce cleanup
fourth-permitted = refl

cleanup-early_example :
    ((cleanup production burst_taken 500 602000).meta
      ≡ some (record { authority_id = "authority"; policy_epoch = "epoch"; last_now_ms = 1000 }))
    × ((cleanup production burst_taken 500 602000).observations ≡ [])
    × ((claim_pre production
          (cleanup production burst_taken 500 602000)
          (claim narrow)
          (draw wide)
          2001).1
        ≢ limited)
cleanup-early_example =
    cleanup-early production burst_taken
      (record { authority_id = "authority"; policy_epoch = "epoch"; last_now_ms = 1000 }) 500 602000
      2001 (claim narrow) (draw wide) refl refl (omega arith) (omega arith) (omega arith)
      (omega arith) (refl, (refl, (refl, (refl, (refl, (refl, tt))))))
