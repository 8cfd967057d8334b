-- ===== src/Admission/Authority.antt =====
-- workers/admission-service/authority.ts: `PublicInquiryAdmissionAuthority`. A table is the list of
-- its rows the latest first, and an insertion that a key forbids is `none`, an
-- exception, on which the transaction is rolled back. Random values are arguments, as is the reading
-- of the clock that one call makes, in whole milliseconds.
pub mod Window
pub mod History
pub mod Entering
pub mod Limits
pub mod Ending
pub mod Single
pub mod Early
mod Tests
use Prim.Native.String.{◌++◌}
use limitmark.Common.{
  ℕ, suc, zero, ◌+◌, ◌-◌, ◌/◌, ◌%◌, ◌*◌, leb, ltb, ◌==◌, not, if◌then◌else◌, Bool, true, false,
  ◌&&◌, ◌||◌, Option, none, some, is_some, List, [], ◌∷◌, String, str_eq, any, all, length, filter,
  find, count, get_or, map,
}
use limitmark.Defense.Request.{codes}

pub record Meta : Type 0 where
  pub authority_id : String
  pub policy_epoch : String
  pub last_now_ms : ℕ

pub record Release : Type 0 where
  pub release_id : String
  pub key_id : String
  pub activated_ms : ℕ
  pub retired_ms : Option ℕ

pub data Phase : Type 0 where
  pre post : Phase

pub data Scope : Type 0 where
  client global : Scope

-- A row of the table `observations`.
pub record ObservationRow : Type 0 where
  pub id : String
  pub phase : Phase
  pub scope : Scope
  pub subject : String
  pub observed_at_ms : ℕ

-- A row of the table `nonces`.
pub record NonceRow : Type 0 where
  pub nonce : String
  pub release_id : String
  pub client_id : String
  pub request_binding : String
  pub permit : String
  pub claimed_ms : ℕ
  pub permit_expires_ms : ℕ
  pub retain_until_ms : ℕ
  pub post_consumed : Bool

pub record Storage : Type 0 where
  pub meta : Option Meta
  pub releases : List Release
  pub observations : List ObservationRow
  pub nonces : List NonceRow

pub record Rate : Type 0 where
  pub limit : ℕ
  pub window_ms : ℕ

-- `admissionPolicy`.
abbrev pub pre_client : Rate
pre_client = record { limit = 30; window_ms = 600000 }

abbrev pub pre_client_burst : Rate
pre_client_burst = record { limit = 3; window_ms = 60000 }

abbrev pub pre_global : Rate
pre_global = record { limit = 300; window_ms = 60000 }

abbrev pub post_client : Rate
post_client = record { limit = 5; window_ms = 600000 }

abbrev pub post_global : Rate
post_global = record { limit = 100; window_ms = 60000 }

pub record ClaimPreInput : Type 0 where
  pub release_id : String
  pub client_pseudonym : String
  pub request_binding : String
  pub nonce : String
  pub issued_at_ms : ℕ

pub record ConsumePostInput : Type 0 where
  pub release_id : String
  pub client_pseudonym : String
  pub request_binding : String
  pub nonce : String
  pub permit : String

pub data Decision : Type 0 where
  allowed : Decision
  permitted : String → ℕ → Decision
  limited replay unavailable : Decision

abbrev pub is_letter_or_digit : ℕ → Bool
is_letter_or_digit c = leb 65 c && leb c 90 || leb 97 c && leb c 122 || leb 48 c && leb c 57

-- `validRelease`: letters, digits and `_.:-`.
unfoldable pub valid_release : String → Bool
valid_release value =
    let text = codes value in
    leb 1 (length text)
    && leb (length text) 128
    && all (λ c. is_letter_or_digit c || c == 95 || c == 46 || c == 58 || c == 45) text

-- The six bits of a character of the alphabet.
abbrev sextet : ℕ → ℕ
sextet c =
    if leb 97 c
    then c - 71
    else if c == 95
    then 63
    else if leb 65 c
    then c - 65
    else if c == 45
    then 62
    else c + 4

abbrev last_sextet : List ℕ → ℕ
last_sextet [] = 0
last_sextet (c ∷ text) = let rest = last_sextet text in elim text [ [] ↦ sextet c | d ∷ ds ↦ rest ]

-- The bits of the last character that belong to no byte.
abbrev spare_bits : List ℕ → ℕ
spare_bits text =
    if length text % 4 == 2
    then last_sextet text % 16
    else if length text % 4 == 3
    then last_sextet text % 4
    else 0

-- `isOpaque`: canonical base64url of a number of bytes.
pub is_opaque : String → ℕ → Bool
is_opaque value bytes =
    let text = codes value in
    leb 1 (length text)
    && all (λ c. is_letter_or_digit c || c == 45 || c == 95) text
    && not (length text % 4 == 1)
    && (length text * 6) / 8 == bytes
    && spare_bits text == 0

pub valid_pre : ClaimPreInput → Bool
unfolding valid_release is_opaque
valid_pre input =
    valid_release input.release_id
    && is_opaque input.client_pseudonym 32
    && is_opaque input.request_binding 32
    && is_opaque input.nonce 16

pub valid_post : ConsumePostInput → Bool
unfolding valid_release is_opaque
valid_post input =
    valid_release input.release_id
    && is_opaque input.client_pseudonym 32
    && is_opaque input.request_binding 32
    && is_opaque input.nonce 16
    && is_opaque input.permit 32

-- `assertIngressFresh`.
abbrev is_fresh : ℕ → ℕ → Bool
is_fresh issued_at_ms now = leb issued_at_ms (now + 5000) && leb now (issued_at_ms + 30000)

-- The identity that an instance of the authority expects.
pub record Identity : Type 0 where
  pub authority_id : String
  pub policy_epoch : String

abbrev pub is_ours : Identity → Meta → Bool
is_ours identity m =
    str_eq m.authority_id identity.authority_id && str_eq m.policy_epoch identity.policy_epoch

abbrev is_retired : Release → ℕ → Bool
is_retired r now = elim r.retired_ms [ none ↦ false | some t ↦ leb t now ]

abbrev is_active : String → ℕ → Release → Bool
is_active release_id now r =
    str_eq r.release_id release_id && leb r.activated_ms now && not (is_retired r now)

-- `authorityNow`: the storage with the reading recorded, or `none`.
pub authority_now : Identity → Storage → String → ℕ → Option Storage
authority_now identity s release_id now = elim s.meta [
  | none ↦ none
  | some m ↦
      if not (is_ours identity m) || ltb now m.last_now_ms
      then none
      else if not (length (filter (is_active release_id now) s.releases) == 1)
      then none
      else some (record s { meta = some (record m { last_now_ms = now }) })
]

abbrev same_phase : Phase → Phase → Bool
same_phase pre pre = true
same_phase post post = true
same_phase a b = false

abbrev same_scope : Scope → Scope → Bool
same_scope client client = true
same_scope global global = true
same_scope a b = false

-- The longest window that a row counts in.
abbrev pub kept_ms : Phase → Scope → ℕ
kept_ms pre client = pre_client.window_ms
kept_ms pre global = pre_global.window_ms
kept_ms post client = post_client.window_ms
kept_ms post global = post_global.window_ms

abbrev pub is_expired : ℕ → ObservationRow → Bool
is_expired now o = leb (o.observed_at_ms + kept_ms o.phase o.scope) now

unfoldable pub prune : Storage → ℕ → Storage
prune s now = record s {
  observations = filter (λ o. not (is_expired now o)) s.observations;
  nonces = filter (λ n. ltb now n.retain_until_ms) s.nonces;
}

-- A row of one subject in the window that ends at a time.
abbrev pub in_window : Phase → Scope → String → ℕ → ℕ → ObservationRow → Bool
in_window phase scope subject window_ms now o =
    same_phase o.phase phase
    && same_scope o.scope scope
    && str_eq o.subject subject
    && ltb now (o.observed_at_ms + window_ms)
    && leb o.observed_at_ms now

-- `count`.
abbrev pub count_window : Storage → Phase → Scope → String → ℕ → ℕ → ℕ
count_window s phase scope subject window_ms now =
    count (in_window phase scope subject window_ms now) s.observations

-- The primary key of `observations`.
unfoldable pub insert_observation : Storage → ObservationRow → Option Storage
insert_observation s o =
    if any (λ p. str_eq p.id o.id) s.observations
    then none
    else some (record s { observations = o ∷ s.observations })

-- The primary key of `nonces`, and the unique permit.
unfoldable pub insert_nonce : Storage → NonceRow → Option Storage
insert_nonce s n =
    if any (λ p. str_eq p.nonce n.nonce || str_eq p.permit n.permit) s.nonces
    then none
    else some (record s { nonces = n ∷ s.nonces })

abbrev pub client_row : String → Phase → String → ℕ → ObservationRow
client_row attempt phase subject now = record {
  id = attempt ++ ":c";
  phase = phase;
  scope = client;
  subject = subject;
  observed_at_ms = now;
}

abbrev pub global_row : String → Phase → ℕ → ObservationRow
global_row attempt phase now = record {
  id = attempt ++ ":g";
  phase = phase;
  scope = global;
  subject = "*";
  observed_at_ms = now;
}

-- The two insertions of an admission; a fault between them is an exception.
unfoldable pub observe_both : Storage → String → Phase → String → ℕ → Bool → Option Storage
unfolding insert_observation
observe_both s attempt phase subject now fault =
    elim (insert_observation s (client_row attempt phase subject now)) [
      | none ↦ none
      | some t ↦ if fault then none else insert_observation t (global_row attempt phase now)
    ]

-- What a call draws at random, and whether the hook of the harness throws.
pub record Draw : Type 0 where
  pub permit : String
  pub attempt : String
  pub fault : Bool

abbrev pre_is_limited : Storage → String → ℕ → Bool
pre_is_limited s subject now =
    leb pre_client_burst.limit (count_window s pre client subject pre_client_burst.window_ms now)
    || leb pre_client.limit (count_window s pre client subject pre_client.window_ms now)
    || leb pre_global.limit (count_window s pre global "*" pre_global.window_ms now)

abbrev post_is_limited : Storage → String → ℕ → Bool
post_is_limited s subject now =
    leb post_client.limit (count_window s post client subject post_client.window_ms now)
    || leb post_global.limit (count_window s post global "*" post_global.window_ms now)

-- The insertions of `claimPre`, behind its guards.
unfoldable pub admit_pre : Storage → ClaimPreInput → Draw → ℕ → Option (Storage × Decision)
unfolding observe_both insert_nonce
admit_pre s input draw now =
    elim (observe_both s draw.attempt pre input.client_pseudonym now draw.fault) [
      | none ↦ none
      | some t ↦
          elim (insert_nonce t (record {
            nonce = input.nonce;
            release_id = input.release_id;
            client_id = input.client_pseudonym;
            request_binding = input.request_binding;
            permit = draw.permit;
            claimed_ms = now;
            permit_expires_ms = now + 60000;
            retain_until_ms = now + 120000;
            post_consumed = false;
          })) [ none ↦ none | some u ↦ some (u, permitted draw.permit (now + 60000)) ]
    ]

-- The transaction of `claimPre`; `none` is an exception.
unfoldable pub claim_body :
    Identity → Storage → ClaimPreInput → Draw → ℕ → Option (Storage × Decision)
unfolding authority_now prune admit_pre
claim_body identity s input draw now = elim (authority_now identity s input.release_id now) [
  | none ↦ some (s, unavailable)
  | some t ↦
      if not (is_fresh input.issued_at_ms now)
      then some (t, unavailable)
      else (let p = prune t now in
          if any (λ n. str_eq n.nonce input.nonce) p.nonces
          then some (p, replay)
          else if pre_is_limited p input.client_pseudonym now
          then some (p, limited)
          else admit_pre p input draw now)
]

-- `transactionSync` in a `try`: an exception leaves the storage as it was.
abbrev pub committed : Storage → Option (Storage × Decision) → Storage × Decision
committed s none = (s, unavailable)
committed s (some result) = result

pub claim_pre : Identity → Storage → ClaimPreInput → Draw → ℕ → Storage × Decision
unfolding valid_pre claim_body
claim_pre identity s input draw now =
    if valid_pre input then committed s (claim_body identity s input draw now) else (s, unavailable)

abbrev pub consume : String → NonceRow → NonceRow
consume nonce n = if str_eq n.nonce nonce then record n { post_consumed = true } else n

-- The claim that a submission shows.
abbrev pub is_claim : ConsumePostInput → ℕ → NonceRow → Bool
is_claim input now n =
    str_eq n.release_id input.release_id
    && str_eq n.client_id input.client_pseudonym
    && str_eq n.request_binding input.request_binding
    && str_eq n.permit input.permit
    && ltb now n.permit_expires_ms

unfoldable pub admit_post : Storage → ConsumePostInput → Draw → ℕ → Option (Storage × Decision)
unfolding observe_both
admit_post s input draw now =
    elim (observe_both s draw.attempt post input.client_pseudonym now draw.fault) [
      | none ↦ none
      | some t ↦ some (record t { nonces = map (consume input.nonce) t.nonces }, allowed)
    ]

-- The transaction of `consumePost`.
unfoldable pub consume_body :
    Identity → Storage → ConsumePostInput → Draw → ℕ → Option (Storage × Decision)
unfolding authority_now prune admit_post
consume_body identity s input draw now = elim (authority_now identity s input.release_id now) [
  | none ↦ some (s, unavailable)
  | some t ↦
      let p = prune t now in
      elim (find (λ n. str_eq n.nonce input.nonce) p.nonces) [
        | none ↦ some (p, unavailable)
        | some n ↦
            if not (is_claim input now n)
            then some (p, unavailable)
            else if n.post_consumed
            then some (p, replay)
            else if post_is_limited p input.client_pseudonym now
            then some (p, limited)
            else admit_post p input draw now
      ]
]

pub consume_post : Identity → Storage → ConsumePostInput → Draw → ℕ → Storage × Decision
unfolding valid_post consume_body
consume_post identity s input draw now =
    if valid_post input
    then committed s (consume_body identity s input draw now)
    else (s, unavailable)

-- `DELETE ... LIMIT n`: the rows without the first ones that pass the test.
abbrev pub delete_some {ℓ} : {A : Type ℓ} → (A → Bool) → ℕ → List A → List A
delete_some p zero rows = rows
delete_some p (suc n) [] = []
delete_some p (suc n) (x ∷ rows) =
    let fewer = delete_some p n rows in
    let rest = delete_some p (suc n) rows in if p x then fewer else x ∷ rest

-- `cleanup`, which removes expired rows and leaves the recorded time.
pub cleanup : Identity → Storage → ℕ → ℕ → Storage
cleanup identity s maximum_rows now =
    if ltb maximum_rows 1 || ltb 500 maximum_rows then s else elim s.meta [
      | none ↦ s
      | some m ↦ if not (is_ours identity m) || ltb now m.last_now_ms then s else record s {
        observations = delete_some (is_expired now) maximum_rows s.observations;
        nonces = delete_some (λ n. leb n.retain_until_ms now) maximum_rows s.nonces;
      }
    ]
