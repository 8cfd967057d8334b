-- ===== src/Defense/Composer/Tests.antt =====
-- defense/core/composer.ts: a bulkhead of one place.
use limitmark.Common.{◌≡◌, refl, ◌↔◌, false, none, some, List, [], ◌∷◌, String}
use limitmark.Defense.Reasons.{RejectReason}
use limitmark.Defense.Composer.{
  pass, reject, Composer, Run, Winner, deadline, verdict, object, start, resume, settle, reclaim,
  ComposerCall, starts, resumes, settles, reclaims, new_composer, composer_step, composer_run,
  occupancy, judge, tally, release, valid_verdict,
}
use limitmark.Defense.Composer.Count.{IsConsistent}
use limitmark.Defense.Composer.Bound.{fresh_bulkhead, composer_run-IsConsistent}
use limitmark.Defense.Composer.Verdict.{IsPass, IsReject, resume-IsPass}

abbrev pub narrow : Composer
narrow = record {
  timeout_ms = 50;
  max_concurrent = 1;
  in_flight = 0;
  abandoned_live = 0;
  evaluated = 0;
  pass_count = 0;
  reject_count = 0;
  shed_count = 0;
  throw_count = 0;
  timeout_count = 0;
  invalid_count = 0;
  in_flight_high_water = 0;
  abandoned = 0;
  abandoned_reclaimed = 0;
  late_verdicts_discarded = 0;
}

narrow-made : new_composer "fail_closed" 50 1 ≡ some narrow
unfolding new_composer
narrow-made = refl

policy-refused : new_composer "fail_open" 50 1 ≡ none
unfolding new_composer
policy-refused = refl

abbrev says : String → Winner
says kind = verdict (object (some kind) none)

-- A run misses its deadline; while it hangs, the next is shed; the timer makes room for a third.
abbrev hung : List ComposerCall
hung =
    starts 0
    ∷ resumes 0 deadline 50000
    ∷ starts 50001
    ∷ reclaims 0
    ∷ starts 250000
    ∷ resumes 1 (says "pass") 250010
    ∷ settles 0
    ∷ []

hung-counts : (composer_run (fresh_bulkhead narrow) hung).composer ≡ record narrow {
  evaluated = 3;
  shed_count = 1;
  pass_count = 1;
  timeout_count = 1;
  in_flight_high_water = 1;
  abandoned = 1;
  abandoned_reclaimed = 1;
}
unfolding composer_run composer_step start resume judge valid_verdict release tally settle reclaim
    occupancy
hung-counts = refl

composer_run-IsConsistent_example : IsConsistent (composer_run (fresh_bulkhead narrow) hung)
composer_run-IsConsistent_example =
    composer_run-IsConsistent "fail_closed" 50 1 narrow hung narrow-made

abbrev waiting : Run
waiting = record { started_at = 0; settled = false; abandoned_counted = false; outcome = none }

resume-IsPass_example :
    (((resume narrow waiting (says "pass") 50000).1.outcome ≡ some pass)
      ↔ IsPass narrow waiting (says "pass") 50000)
    × ((r : RejectReason)
        → ((resume narrow waiting (says "pass") 50000).1.outcome ≡ some (reject r))
          ↔ IsReject narrow waiting (says "pass") 50000 r)
resume-IsPass_example = resume-IsPass narrow waiting (says "pass") 50000
