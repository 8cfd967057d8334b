-- ===== src/Admission/Lifecycle.antt =====
-- workers/admission-service/authority.ts: the initialization of an authority and the rotation of its
-- releases, with the receipts of the commands. `none` is an exception, on which the storage is as
-- before.
pub mod Pair
pub mod Commands
pub mod Receipts
mod Tests
use limitmark.Common.{
  ℕ, suc, ◌+◌, ◌-◌, ◌*◌, leb, ltb, ◌==◌, not, if◌then◌else◌, Bool, true, false, ◌&&◌, ◌||◌, Option,
  none, some, is_some, List, [], ◌∷◌, String, str_eq, any, all, length, filter, find, map, max,
}
use limitmark.Defense.Request.{codes}
use limitmark.Admission.Authority.{
  Meta, Release, Storage, Identity, is_ours, is_letter_or_digit, valid_release,
}

pub data Operation : Type 0 where
  initialize rotate_release : Operation

pub data Environment : Type 0 where
  production staging : Environment

pub record LifecycleReceipt : Type 0 where
  pub digest : String
  pub operation : Operation
  pub environment : Environment
  pub authority_id : String
  pub policy_epoch : String
  pub key_fingerprint : String
  pub sequence : ℕ
  pub applied_ms : ℕ
  pub current_release_id : String
  pub next_release_id : String
  pub next_key_id : String
  pub activates_ms : ℕ
  pub retires_ms : Option ℕ

-- The tables of the authority with those of the receipts.
pub record LifecycleStorage : Type 0 where
  pub tables : Storage
  pub coverage : Bool
  pub receipts : List LifecycleReceipt

-- `validKeyId`.
pub valid_key_id : String → Bool
valid_key_id value =
    let text = codes value in
    leb 1 (length text)
    && leb (length text) 64
    && all (λ c. is_letter_or_digit c || c == 95 || c == 45) text

abbrev pub find_receipt : LifecycleStorage → String → Option LifecycleReceipt
find_receipt s digest = find (λ r. str_eq r.digest digest) s.receipts

abbrev pub receipt_capacity : ℕ
receipt_capacity = 4096

-- `ensureNewReceiptCapacity`, as a test.
abbrev pub has_capacity : LifecycleStorage → Bool
has_capacity s = ltb (length s.receipts) receipt_capacity

abbrev pub last_sequence : List LifecycleReceipt → ℕ
last_sequence [] = 0
last_sequence (r ∷ rs) = max r.sequence (last_sequence rs)

-- `insertReceipt`: the receipt under the next number; its digest is a key.
unfoldable pub insert_receipt :
    LifecycleStorage → LifecycleReceipt → Option (LifecycleStorage × LifecycleReceipt)
insert_receipt s receipt =
    let numbered : LifecycleReceipt = record receipt { sequence = last_sequence s.receipts + 1 } in
    if is_some (find_receipt s receipt.digest)
    then none
    else some (record s { receipts = numbered ∷ s.receipts }, numbered)

pub data LifecycleStatus : Type 0 where
  done : LifecycleStatus
  already_done : LifecycleStatus

pub record LifecycleResult : Type 0 where
  pub storage : LifecycleStorage
  pub status : LifecycleStatus
  pub receipt : Option LifecycleReceipt

abbrev pub finished :
    LifecycleStorage → LifecycleStatus → Option LifecycleReceipt → Option LifecycleResult
finished s status receipt = some (record { storage = s; status = status; receipt = receipt })

-- The end of both commands: a receipt, where the command has one.
unfoldable pub with_receipt : LifecycleStorage → Option LifecycleReceipt → Option LifecycleResult
unfolding insert_receipt
with_receipt s none = finished s done none
with_receipt s (some receipt) = elim (insert_receipt s receipt) [
  | none ↦ none
  | some result ↦ finished result.0 done (some result.1)
]

pub record AuthorityInitialization : Type 0 where
  pub environment : Environment
  pub authority_id : String
  pub policy_epoch : String
  pub release_id : String
  pub release_key_id : String
  pub now_ms : ℕ
  pub confirm_production : Bool

abbrev is_production : Environment → Bool
is_production production = true
is_production staging = false

pub initialization_is_valid : Identity → AuthorityInitialization → Bool
unfolding valid_key_id
initialization_is_valid expected spec =
    str_eq spec.authority_id expected.authority_id
    && str_eq spec.policy_epoch expected.policy_epoch
    && valid_release spec.release_id
    && valid_key_id spec.release_key_id
    && not (is_production spec.environment && not spec.confirm_production)

abbrev fresh_release : String → String → ℕ → Release
fresh_release release_id key_id activated_ms = record {
  release_id = release_id;
  key_id = key_id;
  activated_ms = activated_ms;
  retired_ms = none;
}

abbrev same_release : AuthorityInitialization → List Release → Bool
same_release spec (r ∷ []) =
    str_eq r.release_id spec.release_id
    && str_eq r.key_id spec.release_key_id
    && r.activated_ms == spec.now_ms
    && not (is_some r.retired_ms)
same_release spec releases = false

-- A release with this name or this key, which are both keys of the table.
abbrev is_release : String → String → Release → Bool
is_release release_id key_id r = str_eq r.release_id release_id || str_eq r.key_id key_id

abbrev initial_tables : Storage → AuthorityInitialization → Storage
initial_tables t spec = record t {
  meta = some (record {
    authority_id = spec.authority_id;
    policy_epoch = spec.policy_epoch;
    last_now_ms = spec.now_ms;
  });
  releases = fresh_release spec.release_id spec.release_key_id spec.now_ms ∷ t.releases;
}

-- An authority that was initialized in another way, or by another command.
abbrev is_other : LifecycleStorage → AuthorityInitialization → Option LifecycleReceipt → Meta → Bool
is_other s spec receipt m =
    is_some receipt
    || not (str_eq m.authority_id spec.authority_id && str_eq m.policy_epoch spec.policy_epoch)
    || not (same_release spec s.tables.releases)

-- A key of the tables that the insertions meet, or no room for the receipt.
abbrev is_blocked : LifecycleStorage → AuthorityInitialization → Option LifecycleReceipt → Bool
is_blocked s spec receipt =
    is_some receipt && (not (has_capacity s) || s.coverage)
    || any (is_release spec.release_id spec.release_key_id) s.tables.releases

-- The part of `initializeAuthority` behind the look at an earlier receipt.
unfoldable pub initialize_fresh :
    LifecycleStorage → AuthorityInitialization → Option LifecycleReceipt → Option LifecycleResult
unfolding with_receipt
initialize_fresh s spec receipt = elim s.tables.meta [
  | some m ↦ if is_other s spec receipt m then none else finished s already_done none
  | none ↦
      if is_blocked s spec receipt
      then none
      else with_receipt
          (record s {
            tables = initial_tables s.tables spec;
            coverage = s.coverage || is_some receipt;
          })
          receipt
]

abbrev prior_receipt : LifecycleStorage → Option LifecycleReceipt → Option LifecycleReceipt
prior_receipt s none = none
prior_receipt s (some receipt) = find_receipt s receipt.digest

pub initialize_authority :
    Identity
    → LifecycleStorage
    → AuthorityInitialization
    → Option LifecycleReceipt
    → Option LifecycleResult
unfolding initialization_is_valid initialize_fresh
initialize_authority expected s spec receipt =
    if not (initialization_is_valid expected spec) then none else elim (prior_receipt s receipt) [
      | some prior ↦ finished s already_done (some prior)
      | none ↦ initialize_fresh s spec receipt
    ]

pub record Rotation : Type 0 where
  pub authority_id : String
  pub policy_epoch : String
  pub current_release_id : String
  pub next_release_id : String
  pub next_key_id : String
  pub activates_at_ms : ℕ
  pub previous_retires_at_ms : ℕ

pub rotation_is_valid : Identity → Rotation → Bool
unfolding valid_key_id
rotation_is_valid ours input =
    str_eq input.authority_id ours.authority_id
    && str_eq input.policy_epoch ours.policy_epoch
    && valid_release input.current_release_id
    && valid_release input.next_release_id
    && not (str_eq input.current_release_id input.next_release_id)
    && valid_key_id input.next_key_id
    && ltb input.activates_at_ms input.previous_retires_at_ms
    && leb (input.previous_retires_at_ms - input.activates_at_ms) 300000

abbrev find_release : List Release → String → Option Release
find_release releases release_id = find (λ r. str_eq r.release_id release_id) releases

abbrev is_current : String → Release → Bool
is_current release_id r = str_eq r.release_id release_id && not (is_some r.retired_ms)

-- The releases after the removal of an old one, where there are two.
abbrev pub without_retired : List Release → ℕ → Option (List Release)
without_retired releases activates_at_ms =
    if not (length releases == 2)
    then some releases
    else elim (find (λ r. is_some r.retired_ms) releases) [
      | none ↦ none
      | some old ↦ elim old.retired_ms [
        | none ↦ none
        | some retired_ms ↦
            if ltb activates_at_ms (retired_ms + 720000)
            then none
            else some (
                filter (λ r. not (str_eq r.release_id old.release_id && is_some r.retired_ms))
                  releases)
      ]
    ]

abbrev retire : Rotation → Release → Release
retire input r =
    if str_eq r.release_id input.current_release_id
    then record r { retired_ms = some input.previous_retires_at_ms }
    else r

-- The update of the current release and the insertion of the next; its name and key are keys.
unfoldable pub replace_release : List Release → Rotation → Option (List Release)
replace_release releases input =
    let retired = map (retire input) releases in
    if any (is_release input.next_release_id input.next_key_id) retired
    then none
    else some
        (fresh_release input.next_release_id input.next_key_id input.activates_at_ms ∷ retired)

-- The releases after a rotation.
unfoldable pub rotated_releases : List Release → Rotation → Option (List Release)
unfolding replace_release
rotated_releases releases input = elim (without_retired releases input.activates_at_ms) [
  | none ↦ none
  | some left ↦
      if not (any (is_current input.current_release_id) releases) || not (length left == 1)
      then none
      else replace_release left input
]

abbrev is_repeated : List Release → Rotation → Release → Bool
is_repeated releases input next =
    str_eq next.key_id input.next_key_id
    && next.activated_ms == input.activates_at_ms
    && not (is_some next.retired_ms)
    && (elim (find_release releases input.current_release_id) [
      | none ↦ false
      | some prior ↦ (elim prior.retired_ms [
        | none ↦ false
        | some t ↦ t == input.previous_retires_at_ms
      ])
    ])

-- Another authority, or a command whose receipt has no history or no room.
abbrev is_foreign : LifecycleStorage → Rotation → Option LifecycleReceipt → Meta → Bool
is_foreign s input receipt m =
    not (str_eq m.authority_id input.authority_id && str_eq m.policy_epoch input.policy_epoch)
    || is_some receipt && (not s.coverage || not (has_capacity s))

-- The part of `rotateAuthorityRelease` behind the look at an earlier receipt.
unfoldable pub rotate_fresh :
    LifecycleStorage → Rotation → Option LifecycleReceipt → Option LifecycleResult
unfolding rotated_releases with_receipt
rotate_fresh s input receipt = elim s.tables.meta [
  | none ↦ none
  | some m ↦
      if is_foreign s input receipt m
      then none
      else elim (find_release s.tables.releases input.next_release_id) [
        | some next ↦
            if not (is_some receipt) && is_repeated s.tables.releases input next
            then finished s already_done none
            else none
        | none ↦
            if ltb input.activates_at_ms m.last_now_ms
            then none
            else elim (rotated_releases s.tables.releases input) [
              | none ↦ none
              | some releases ↦
                  with_receipt (record s { tables = record s.tables { releases = releases } })
                    receipt
            ]
      ]
]

pub rotate_authority_release :
    Identity → LifecycleStorage → Rotation → Option LifecycleReceipt → Option LifecycleResult
unfolding rotation_is_valid rotate_fresh
rotate_authority_release ours s input receipt =
    if not (rotation_is_valid ours input) then none else elim (prior_receipt s receipt) [
      | some prior ↦ finished s already_done (some prior)
      | none ↦ rotate_fresh s input receipt
    ]
