-- ===== src/Defense/CreditFilter/Tests.antt =====
-- defense/core/credit-filter.ts: a filter of 64 bits and one hash, in epochs of one second.
use limitmark.Common.{◌≡◌, refl, true, false, some, [], ◌∷◌, arith}
use limitmark.Defense.CreditFilter.{CreditFilter, Digest, blank, new_filter, insert, has_digest}
use limitmark.Defense.CreditFilter.Rotation.{new_filter-IsValid}
use limitmark.Defense.CreditFilter.Window.{has_calls, inserts, filter_run, has-insert, has-idle}

abbrev small_filter : CreditFilter
small_filter = record {
  bits = 64;
  hashes = 1;
  epoch_ms = 1000;
  t0 = 0;
  even = blank 64;
  odd = blank 64;
  current_epoch = 0;
  inserts = 0;
  lookups = 0;
  hits = 0;
  rotations = 0;
}

abbrev some_digest : Digest
some_digest = 7 ∷ 1 ∷ 2 ∷ 3 ∷ []

small_filter-new_filter : new_filter 64 1 1000 0 ≡ some small_filter
unfolding new_filter
small_filter-new_filter = refl

has-insert_example :
    (has_digest
      (filter_run
        (insert small_filter 5 some_digest)
        ((900000, inserts (9 ∷ [])) ∷ (1200000, has_calls (9 ∷ [])) ∷ []))
      1999999
      some_digest).1
    ≡ true
has-insert_example =
    has-insert small_filter 5 some_digest
      ((900000, inserts (9 ∷ [])) ∷ (1200000, has_calls (9 ∷ [])) ∷ []) 1999999
      (new_filter-IsValid 64 1 1000 0 small_filter small_filter-new_filter)
      (omega arith, (omega arith, tt)) (omega arith)

has-idle_example : (has_digest small_filter 2000000 some_digest).1 ≡ false
has-idle_example =
    has-idle small_filter 2000000 some_digest
      (new_filter-IsValid 64 1 1000 0 small_filter small_filter-new_filter) (omega arith)
