-- ===== src/Defense/Composer/Bound.antt =====
-- defense/core/composer.ts: what holds of the composer after any turns of the event loop.
use limitmark.Common.{
  ℕ, ◌≡◌, inl, inr, Bool, true, Bool-cases, some, Option-cases, List, [], ◌∷◌, String, arith, write,
  get_elem?,
}
use limitmark.Defense.Composer.{
  Composer, Run, resume, settle, reclaim, occupancy, is_running, Bulkhead, ComposerCall, starts,
  resumes, settles, reclaims, composer_step, composer_run, new_composer, turn,
}
use limitmark.Defense.Composer.Count.{IsConsistent}
use limitmark.Defense.Composer.Turn.{
  start-IsConsistent, settle-IsConsistent, reclaim-IsConsistent, resume-IsConsistent,
}

turn-IsConsistent :
    (takes : Run → Bool) (f : Composer → Run → Composer × Run) (b : Bulkhead) (i : ℕ)
    → ((run : Run)
        → get_elem? b.runs i ≡ some run
        → takes run ≡ true
        → IsConsistent (record {
          composer = (f b.composer run).0;
          runs = write b.runs i (f b.composer run).1;
        }))
    → IsConsistent b
    → IsConsistent (turn takes f b i)
turn-IsConsistent takes f b i h v = elim (Option-cases (get_elem? b.runs i)) [
  | inl out ↦ rw (out, turn) v
  | inr (run, at) ↦ elim (Bool-cases (takes run)) [
    | inl taken ↦ rw (at, turn) (rw taken (h run at taken))
    | inr left ↦ rw (at, turn) (rw left v)
  ]
]

step-IsConsistent :
    (b : Bulkhead) (call : ComposerCall) → IsConsistent b → IsConsistent (composer_step b call)
unfolding composer_step
step-IsConsistent b (starts now) v = start-IsConsistent b now v
step-IsConsistent b (resumes i winner now) v =
    turn-IsConsistent is_running (λ c run. resume c run winner now) b i
      (λ run at free. resume-IsConsistent b i run at v winner now free) v
step-IsConsistent b (settles i) v =
    turn-IsConsistent (λ run. true) settle b i (λ run at taken. settle-IsConsistent b i run at v) v
step-IsConsistent b (reclaims i) v =
    turn-IsConsistent (λ run. true) reclaim b i (λ run at taken. reclaim-IsConsistent b i run at v)
      v

run-IsConsistent :
    (b : Bulkhead) (calls : List ComposerCall)
    → IsConsistent b
    → IsConsistent (composer_run b calls)
unfolding composer_run
run-IsConsistent b [] v = v
run-IsConsistent b (call ∷ calls) v =
    run-IsConsistent (composer_step b call) calls (step-IsConsistent b call v)

-- A composer that was just made.
abbrev pub fresh_bulkhead : Composer → Bulkhead
fresh_bulkhead c = record { composer = c; runs = [] }

new_composer-IsConsistent :
    (policy : String) (timeout_ms max_concurrent : ℕ) (c : Composer)
    → new_composer policy timeout_ms max_concurrent ≡ some c
    → IsConsistent (fresh_bulkhead c)
unfolding new_composer occupancy
new_composer-IsConsistent policy timeout_ms max_concurrent c made = record {
  running = ground arith;
  stranded = ground arith;
  within = ground arith;
  started = ground arith;
  tallied = λ o. ground arith;
  late = tt;
  peak = ground arith;
  reclaimed = ground arith;
}

-- From a composer that its constructor has made, after any turns of the event loop: the runs in
-- flight and those abandoned that still count are at most the configured number, and they are the
-- runs without an outcome and those that are marked so; every call is a shed or a run; each counter
-- of outcomes is the number of runs that answered with such an outcome; every abandoned run
-- has answered with a missed deadline; and no abandoned evaluation is both reclaimed and live.
pub composer_run-IsConsistent :
    (policy : String) (timeout_ms max_concurrent : ℕ) (c : Composer) (calls : List ComposerCall)
    → new_composer policy timeout_ms max_concurrent ≡ some c
    → IsConsistent (composer_run (fresh_bulkhead c) calls)
composer_run-IsConsistent policy timeout_ms max_concurrent c calls made =
    run-IsConsistent (fresh_bulkhead c) calls
      (new_composer-IsConsistent policy timeout_ms max_concurrent c made)
