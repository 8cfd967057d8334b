-- ===== src/Defense/UseLedger/Tests.antt =====
-- defense/core/lanes.ts: a ledger with one token used once.
use limitmark.Common.{◌+◌, ◌≡◌, ◌≢◌, [], ◌∷◌, String}
use limitmark.Defense.UseLedger.{UseLedger, committed, commit}
use limitmark.Defense.UseLedger.Laws.{uses_after, violations_of, committed-commit}

abbrev key_a : String
key_a = "a"

abbrev key_b : String
key_b = "b"

abbrev used_once : UseLedger
used_once = record {
  capacity = 4;
  max_uses = 3;
  entries = (key_a, record { committed = 1; first_epoch = 0 }) ∷ [];
  last_purge_epoch = 0;
  high_water = 1;
  allocated = 1;
  purged_count = 0;
  full_refusals = 0;
  violations = 0;
}

abbrev used_up : UseLedger
used_up = record used_once { max_uses = 1 }

-- A commit on a live record without uses left.
committed-commit_example :
    (committed (commit used_up key_a 1) key_a 1 ≡ uses_after 1 (committed used_up key_a 1))
    × ((commit used_up key_a 1).violations ≡ 0 + violations_of 1 (committed used_up key_a 1))
    × (key_a ≢ key_b → committed (commit used_up key_a 1) key_b 1 ≡ committed used_up key_b 1)
committed-commit_example = committed-commit used_up key_a key_b 1 1
