-- ===== src/Defense/Composer/Count.antt =====
-- defense/core/composer.ts: what the counters of the composer count.
use limitmark.Common.{
  ℕ, ◌+◌, ◌≤◌, ◌≡◌, refl, ◌≢◌, inl, inr, Bool, true, false, if◌then◌else◌, none, some, Option-cases,
  arith, length, count, All,
}
use limitmark.Defense.Composer.{
  LayerOutcome, pass, reject, shed, error, throw, timeout, invalid_verdict, Composer, Run, Winner,
  deadline, thrown, verdict, valid_verdict, passes, rejects, is_deadline, judge, tally, occupancy,
  is_running, Bulkhead,
}

abbrev pub same_kind : LayerOutcome → LayerOutcome → Bool
same_kind pass pass = true
same_kind (reject r) (reject q) = true
same_kind shed shed = true
same_kind (error throw) (error throw) = true
same_kind (error timeout) (error timeout) = true
same_kind (error invalid_verdict) (error invalid_verdict) = true
same_kind o p = false

-- The run has answered with an outcome of this kind.
abbrev pub answered : LayerOutcome → Run → Bool
answered o run = elim run.outcome [ none ↦ false | some p ↦ same_kind p o ]

-- The five counters of the runs that have answered.
pub record Tallies : Type 0 where
  pub passed : ℕ
  pub rejected : ℕ
  pub thrown_count : ℕ
  pub timed_out : ℕ
  pub invalid : ℕ

abbrev pub tallies : Composer → Tallies
tallies c = record {
  passed = c.pass_count;
  rejected = c.reject_count;
  thrown_count = c.throw_count;
  timed_out = c.timeout_count;
  invalid = c.invalid_count;
}

-- The counter of an outcome; no run answers `shed`.
abbrev pub counter : Tallies → LayerOutcome → ℕ
counter t pass = t.passed
counter t (reject r) = t.rejected
counter t shed = 0
counter t (error throw) = t.thrown_count
counter t (error timeout) = t.timed_out
counter t (error invalid_verdict) = t.invalid

abbrev pub is_abandoned : Run → Bool
is_abandoned run = run.abandoned_counted

abbrev pub IsTimedOut : Run → Type 0
IsTimedOut run = run.abandoned_counted ≡ true → run.outcome ≡ some (error timeout)

pub record IsConsistent (b : Bulkhead) : Type 0 where
  pub running : count is_running b.runs ≡ b.composer.in_flight
  pub stranded : count is_abandoned b.runs ≡ b.composer.abandoned_live
  pub within : occupancy b.composer ≤ b.composer.max_concurrent
  pub started : b.composer.evaluated ≡ b.composer.shed_count + length b.runs
  pub tallied : (o : LayerOutcome) → count (answered o) b.runs ≡ counter (tallies b.composer) o
  pub late : All IsTimedOut b.runs
  pub peak :
      (b.composer.in_flight ≤ b.composer.in_flight_high_water)
      × (b.composer.in_flight_high_water ≤ b.composer.max_concurrent)
  pub reclaimed : b.composer.abandoned_reclaimed + b.composer.abandoned_live ≤ b.composer.abandoned

pub counter-tally :
    (c : Composer) (o p : LayerOutcome)
    → o ≢ shed
    → counter (tallies (tally c o)) p ≡ counter (tallies c) p + (if same_kind o p then 1 else 0)
unfolding tally
counter-tally c o p h = ground arith

pub judge-NotShed :
    (c : Composer) (run : Run) (winner : Winner) (now : ℕ) → (judge c run winner now).0 ≢ shed
unfolding judge
judge-NotShed c run deadline now e = absurd cc
judge-NotShed c run thrown now e = absurd cc
judge-NotShed c run (verdict value) now e = elim (Option-cases (valid_verdict value)) [
  | inl bad ↦ absurd (cc (rw (bad, judge) at e))
  | inr (passes, good) ↦ ground arith
  | inr (rejects r, good) ↦ ground arith
]

pub judge-deadline :
    (c : Composer) (run : Run) (winner : Winner) (now : ℕ)
    → is_deadline winner ≡ true
    → ((judge c run winner now).0 ≡ error timeout) × ((judge c run winner now).1 ≡ false)
unfolding judge
judge-deadline c run deadline now e = (refl, refl)
judge-deadline c run thrown now e = absurd cc
judge-deadline c run (verdict value) now e = absurd cc

-- Two composers that differ at most in their tallies and in the late verdicts discarded.
pub record Keeps (c d : Composer) : Type 0 where
  pub in_flight : c.in_flight ≡ d.in_flight
  pub abandoned_live : c.abandoned_live ≡ d.abandoned_live
  pub max_concurrent : c.max_concurrent ≡ d.max_concurrent
  pub evaluated : c.evaluated ≡ d.evaluated
  pub shed_count : c.shed_count ≡ d.shed_count
  pub high_water : c.in_flight_high_water ≡ d.in_flight_high_water
  pub abandoned : c.abandoned ≡ d.abandoned
  pub reclaimed : c.abandoned_reclaimed ≡ d.abandoned_reclaimed

pub tally-Keeps : (c : Composer) (o : LayerOutcome) → Keeps (tally c o) c
unfolding tally
tally-Keeps c o = record {
  in_flight = ground arith;
  abandoned_live = ground arith;
  max_concurrent = ground arith;
  evaluated = ground arith;
  shed_count = ground arith;
  high_water = ground arith;
  abandoned = ground arith;
  reclaimed = ground arith;
}
