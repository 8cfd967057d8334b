-- ===== src/Defense/Composer/Turn.antt =====
-- defense/core/composer.ts: one turn of the event loop keeps the counters right.
use limitmark.Common.{
  ℕ, ◌+◌, ◌-◌, ◌<◌, ◌≡◌, ap, ◌≢◌, leb, inl, inr, true, false, not, ◌&&◌, Bool-cases, none, some, [],
  ◌∷◌, arith, write, get_elem?, length-append, length-write, count-append, count-write, All-write,
  All-append, All-get_elem,
}
use limitmark.Defense.Composer.{
  LayerOutcome, shed, error, timeout, Composer, Run, Winner, is_deadline, judge, tally, release,
  resume, start, settle, reclaim, occupancy, is_running, Bulkhead, starts, composer_step,
}
use limitmark.Defense.Composer.Count.{
  answered, is_abandoned, IsTimedOut, IsConsistent, counter-tally, judge-NotShed, judge-deadline,
  tally-Keeps,
}

pub start-IsConsistent :
    (b : Bulkhead) (now : ℕ) → IsConsistent b → IsConsistent (composer_step b (starts now))
unfolding composer_step start occupancy
start-IsConsistent b now v =
    elim (Bool-cases
      (leb b.composer.max_concurrent (b.composer.in_flight + b.composer.abandoned_live))) [
        | inl full ↦ rw full (record {
          running = v.running;
          stranded = v.stranded;
          within = v.within;
          started = omega (arith, v.started);
          tallied = v.tallied;
          late = v.late;
          peak = v.peak;
          reclaimed = v.reclaimed;
        })
        | inr free ↦
            let fresh : Run = record {
              started_at = now;
              settled = false;
              abandoned_counted = false;
              outcome = none;
            } in
            let room : b.composer.in_flight + b.composer.abandoned_live
                < b.composer.max_concurrent =
              ground arith in
            rw free (record {
              running = omega (arith, v.running, count-append is_running b.runs (fresh ∷ []));
              stranded = omega (arith, v.stranded, count-append is_abandoned b.runs (fresh ∷ []));
              within = omega arith;
              started = omega (arith, v.started, length-append b.runs (fresh ∷ []));
              tallied =
                  λ o. omega (arith, v.tallied o, count-append (answered o) b.runs (fresh ∷ []));
              late = All-append IsTimedOut b.runs (fresh ∷ []) v.late (λ e. absurd cc, tt);
              peak = ground (arith, v.peak);
              reclaimed = v.reclaimed;
            })
      ]

-- One turn for a run: what each count of the runs becomes.
module _ (b : Bulkhead) (i : ℕ) (run : Run) (at : get_elem? b.runs i ≡ some run)
    (v : IsConsistent b) where
  pub settle-IsConsistent :
      let (c, next) = settle b.composer run in
      IsConsistent (record { composer = c; runs = write b.runs i next })
  unfolding settle occupancy
  settle-IsConsistent = elim (Bool-cases run.abandoned_counted) [
    | inl stranded ↦
        let next : Run = record run { settled = true; abandoned_counted = false } in
        rw stranded (record {
          running = omega (arith, v.running, count-write is_running b.runs i run next at);
          stranded = ground (arith, v.stranded, count-write is_abandoned b.runs i run next at);
          within = ground (arith, v.within);
          started = omega (arith, v.started, length-write b.runs i next);
          tallied = λ o. omega (arith, v.tallied o, count-write (answered o) b.runs i run next at);
          late = All-write IsTimedOut b.runs i next v.late (λ e. absurd cc);
          peak = v.peak;
          reclaimed = ground (arith, v.reclaimed);
        })
    | inr free ↦
        let next : Run = record run { settled = true; abandoned_counted = false } in
        rw free (record {
          running = omega (arith, v.running, count-write is_running b.runs i run next at);
          stranded = ground (arith, v.stranded, count-write is_abandoned b.runs i run next at);
          within = v.within;
          started = omega (arith, v.started, length-write b.runs i next);
          tallied = λ o. omega (arith, v.tallied o, count-write (answered o) b.runs i run next at);
          late = All-write IsTimedOut b.runs i next v.late (λ e. absurd cc);
          peak = v.peak;
          reclaimed = v.reclaimed;
        })
  ]

  pub reclaim-IsConsistent :
      let (c, next) = reclaim b.composer run in
      IsConsistent (record { composer = c; runs = write b.runs i next })
  unfolding reclaim occupancy
  reclaim-IsConsistent =
      let next : Run = record run { abandoned_counted = false } in
      elim (Bool-cases run.abandoned_counted) [
        | inl stranded ↦ rw stranded (record {
          running = omega (arith, v.running, count-write is_running b.runs i run next at);
          stranded = ground (arith, v.stranded, count-write is_abandoned b.runs i run next at);
          within = ground (arith, v.within);
          started = omega (arith, v.started, length-write b.runs i next);
          tallied = λ o. omega (arith, v.tallied o, count-write (answered o) b.runs i run next at);
          late = All-write IsTimedOut b.runs i next v.late (λ e. absurd cc);
          peak = v.peak;
          reclaimed =
              ground
                (arith, v.reclaimed, v.stranded, count-write is_abandoned b.runs i run next at);
        })
        | inr free ↦ rw free (record {
          running = omega (arith, v.running, count-write is_running b.runs i run next at);
          stranded = ground (arith, v.stranded, count-write is_abandoned b.runs i run next at);
          within = v.within;
          started = omega (arith, v.started, length-write b.runs i next);
          tallied = λ o. omega (arith, v.tallied o, count-write (answered o) b.runs i run next at);
          late = All-write IsTimedOut b.runs i next v.late (λ e. absurd cc);
          peak = v.peak;
          reclaimed = v.reclaimed;
        })
      ]

  module _ (o : LayerOutcome) (apart : o ≢ shed) (free : is_running run ≡ true) where
    waiting-NotAbandoned : run.abandoned_counted ≡ false
    waiting-NotAbandoned =
        let waiting : run.outcome ≡ none = ground arith in
        elim (Bool-cases run.abandoned_counted) [
          | inl stale ↦ let late = All-get_elem IsTimedOut b.runs i run v.late at stale in absurd cc
          | inr fresh ↦ fresh
        ]

    abandoned-IsConsistent :
        o ≡ error timeout
        → let c = b.composer in
          let left = record c {
            in_flight = c.in_flight - 1;
            abandoned_live = c.abandoned_live + 1;
            abandoned = c.abandoned + 1;
          } in
          let next = record run { abandoned_counted = true; outcome = some o } in
          IsConsistent (record { composer = tally left o; runs = write b.runs i next })
    unfolding occupancy
    abandoned-IsConsistent e =
        let c = b.composer in
        let left : Composer = record c {
          in_flight = c.in_flight - 1;
          abandoned_live = c.abandoned_live + 1;
          abandoned = c.abandoned + 1;
        } in
        let next : Run = record run { abandoned_counted = true; outcome = some o } in
        let k = tally-Keeps left o in
        let fresh = waiting-NotAbandoned in
        record {
          running =
              ground (arith, k.in_flight, v.running, count-write is_running b.runs i run next at);
          stranded =
              ground (
                arith,
                k.abandoned_live,
                v.stranded,
                count-write is_abandoned b.runs i run next at,
              );
          within = ground (
            arith,
            v.within,
            k.in_flight,
            k.abandoned_live,
            k.max_concurrent,
            v.running,
            count-write is_running b.runs i run next at,
          );
          started = omega (arith, k.evaluated, k.shed_count, v.started, length-write b.runs i next);
          tallied = λ p. ground (
            arith,
            counter-tally left o p apart,
            v.tallied p,
            count-write (answered p) b.runs i run next at,
          );
          late = All-write IsTimedOut b.runs i next v.late (λ t. ap some e);
          peak = ground (arith, v.peak, k.in_flight, k.high_water, k.max_concurrent);
          reclaimed = ground (arith, v.reclaimed, k.abandoned, k.abandoned_live, k.reclaimed);
        }

    left-IsConsistent :
        (n : ℕ)
        → let c = b.composer in
          let left = record c { in_flight = c.in_flight - 1; late_verdicts_discarded = n } in
          let next = record run { outcome = some o } in
          IsConsistent (record { composer = tally left o; runs = write b.runs i next })
    unfolding occupancy
    left-IsConsistent n =
        let c = b.composer in
        let left : Composer = record c {
          in_flight = c.in_flight - 1;
          late_verdicts_discarded = n;
        } in
        let next : Run = record run { outcome = some o } in
        let k = tally-Keeps left o in
        let fresh = waiting-NotAbandoned in
        record {
          running =
              ground (arith, k.in_flight, v.running, count-write is_running b.runs i run next at);
          stranded =
              omega (
                arith,
                k.abandoned_live,
                v.stranded,
                count-write is_abandoned b.runs i run next at,
              );
          within = ground (arith, v.within, k.in_flight, k.abandoned_live, k.max_concurrent);
          started = omega (arith, k.evaluated, k.shed_count, v.started, length-write b.runs i next);
          tallied = λ p. ground (
            arith,
            counter-tally left o p apart,
            v.tallied p,
            count-write (answered p) b.runs i run next at,
          );
          late = All-write IsTimedOut b.runs i next v.late (λ t. absurd cc);
          peak = ground (arith, v.peak, k.in_flight, k.high_water, k.max_concurrent);
          reclaimed = ground (arith, v.reclaimed, k.abandoned, k.abandoned_live, k.reclaimed);
        }

  pub resume-IsConsistent :
      (winner : Winner) (now : ℕ)
      → is_running run ≡ true
      → let (c, next) = resume b.composer run winner now in
        IsConsistent (record { composer = c; runs = write b.runs i next })
  unfolding resume release
  resume-IsConsistent winner now free =
      let o = (judge b.composer run winner now).0 in
      let apart = judge-NotShed b.composer run winner now in
      elim (Bool-cases (is_deadline winner && not run.settled)) [
        | inl abandon ↦
            let (missed, prompt) = judge-deadline b.composer run winner now (ground arith) in
            rw (abandon, prompt) (abandoned-IsConsistent o apart free missed)
        | inr going ↦ elim (Bool-cases (judge b.composer run winner now).1) [
          | inl late ↦
              rw (going, late)
                (left-IsConsistent o apart free (b.composer.late_verdicts_discarded + 1))
          | inr prompt ↦
              rw (going, prompt) (left-IsConsistent o apart free b.composer.late_verdicts_discarded)
        ]
      ]
