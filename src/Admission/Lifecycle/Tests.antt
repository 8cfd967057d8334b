-- ===== src/Admission/Lifecycle/Tests.antt =====
-- workers/admission-service/authority.ts: an authority that is initialized and rotated once.
use limitmark.Common.{◌≡◌, refl, true, false, none, some, is_some, List, [], ◌∷◌}
use limitmark.Admission.Authority.{Identity, Release, valid_release}
use limitmark.Admission.Lifecycle.{
  LifecycleReceipt, LifecycleStorage, done, already_done, LifecycleResult, AuthorityInitialization,
  staging, rotate_release, Rotation, initialize_authority, initialization_is_valid,
  initialize_fresh, valid_key_id, with_receipt, insert_receipt, rotation_is_valid, rotate_fresh,
  rotated_releases, replace_release, rotate_authority_release,
}
use limitmark.Admission.Lifecycle.Pair.{IsReleases}
use limitmark.Admission.Lifecycle.Commands.{
  LifecycleCall, initializes, rotates, lifecycle_step, lifecycle_run, lifecycle_run-IsReleases,
}
use limitmark.Admission.Lifecycle.Receipts.{rotate_authority_release-again}

abbrev ours : Identity
ours = record { authority_id = "authority"; policy_epoch = "epoch" }

abbrev blank : LifecycleStorage
blank = record {
  tables = record { meta = none; releases = []; observations = []; nonces = [] };
  coverage = true;
  receipts = [];
}

abbrev first : AuthorityInitialization
first = record {
  environment = staging;
  authority_id = "authority";
  policy_epoch = "epoch";
  release_id = "r1";
  release_key_id = "k1";
  now_ms = 1000;
  confirm_production = false;
}

abbrev second : Rotation
second = record {
  authority_id = "authority";
  policy_epoch = "epoch";
  current_release_id = "r1";
  next_release_id = "r2";
  next_key_id = "k2";
  activates_at_ms = 5000;
  previous_retires_at_ms = 65000;
}

abbrev command : LifecycleReceipt
command = record {
  digest = "digest";
  operation = rotate_release;
  environment = staging;
  authority_id = "authority";
  policy_epoch = "epoch";
  key_fingerprint = "print";
  sequence = 0;
  applied_ms = 4000;
  current_release_id = "r1";
  next_release_id = "r2";
  next_key_id = "k2";
  activates_ms = 5000;
  retires_ms = some 65000;
}

abbrev calls : List LifecycleCall
calls = initializes first none ∷ rotates second (some command) ∷ []

abbrev rotated : List Release
rotated =
    record { release_id = "r2"; key_id = "k2"; activated_ms = 5000; retired_ms = none }
    ∷ record { release_id = "r1"; key_id = "k1"; activated_ms = 1000; retired_ms = some 65000 }
    ∷ []

calls-rotated : (lifecycle_run ours blank calls).tables.releases ≡ rotated
unfolding lifecycle_run lifecycle_step initialize_authority initialization_is_valid valid_release
    valid_key_id initialize_fresh with_receipt insert_receipt rotate_authority_release
    rotation_is_valid rotate_fresh rotated_releases replace_release
calls-rotated = refl

lifecycle_run-IsReleases_example : IsReleases (lifecycle_run ours blank calls).tables.releases
lifecycle_run-IsReleases_example = lifecycle_run-IsReleases ours blank calls refl

abbrev initialized : LifecycleStorage
initialized = lifecycle_run ours blank (initializes first none ∷ [])

abbrev after : LifecycleStorage
after = lifecycle_run ours blank calls

abbrev rotation : LifecycleResult
rotation = record {
  storage = after;
  status = done;
  receipt = some (record command { sequence = 1 });
}

rotation-made : rotate_authority_release ours initialized second (some command) ≡ some rotation
unfolding lifecycle_run lifecycle_step initialize_authority initialization_is_valid valid_release
    valid_key_id initialize_fresh with_receipt insert_receipt rotate_authority_release
    rotation_is_valid rotate_fresh rotated_releases replace_release
rotation-made = refl

rotate_authority_release-again_example :
    (is_some rotation.receipt ≡ true)
    × (rotate_authority_release ours after second (some command)
        ≡ some (record { storage = after; status = already_done; receipt = rotation.receipt }))
rotate_authority_release-again_example =
    rotate_authority_release-again ours initialized second command rotation rotation-made
