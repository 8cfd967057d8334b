-- ===== src/Defense/Composer.antt =====
-- defense/core/composer.ts: `LayerComposer`. One `run` is cut where it awaits: its start, the
-- resumption after the race with the deadline, the settling of the layer's promise, and the timer
-- that reclaims an abandoned evaluation. The clock of the process is in whole microseconds.
pub mod Verdict
pub mod Count
pub mod Turn
pub mod Bound
pub mod Tests
use limitmark.Common.{
  ℕ, ◌+◌, ◌-◌, ◌*◌, leb, ltb, not, if◌then◌else◌, Bool, true, false, ◌&&◌, ◌||◌, Option, none, some,
  List, [], ◌∷◌, ◌++◌, String, str_eq, write, get_elem?,
}
use limitmark.Defense.Reasons.{RejectReason, reason_of}

pub data LayerErrorKind : Type 0 where
  throw timeout invalid_verdict : LayerErrorKind

pub data LayerOutcome : Type 0 where
  pass : LayerOutcome
  reject : RejectReason → LayerOutcome
  shed : LayerOutcome
  error : LayerErrorKind → LayerOutcome

pub data LayerVerdict : Type 0 where
  passes : LayerVerdict
  rejects : RejectReason → LayerVerdict

-- A value that a layer returned: an object has its fields `kind` and `reason`, where `none` is a
-- field that is absent or no string.
pub data Value : Type 0 where
  not_object : Value
  object : Option String → Option String → Value

abbrev rejection : Option String → Option LayerVerdict
rejection none = none
rejection (some text) = elim (reason_of text) [ none ↦ none | some r ↦ some (rejects r) ]

-- `validVerdict`: the verdict that the value is, `none` where the type guard is false.
pub valid_verdict : Value → Option LayerVerdict
valid_verdict not_object = none
valid_verdict (object none reason) = none
valid_verdict (object (some kind) reason) =
    if str_eq kind "pass"
    then some passes
    else if str_eq kind "reject"
    then rejection reason
    else none

pub record Composer : Type 0 where
  pub timeout_ms : ℕ
  pub max_concurrent : ℕ
  pub in_flight : ℕ
  pub abandoned_live : ℕ
  pub evaluated : ℕ
  pub pass_count : ℕ
  pub reject_count : ℕ
  pub shed_count : ℕ
  pub throw_count : ℕ
  pub timeout_count : ℕ
  pub invalid_count : ℕ
  pub in_flight_high_water : ℕ
  pub abandoned : ℕ
  pub abandoned_reclaimed : ℕ
  pub late_verdicts_discarded : ℕ

abbrev max_safe : ℕ
max_safe = 9007199254740991

-- The constructor; `none` is a `throw`.
pub new_composer : String → ℕ → ℕ → Option Composer
new_composer policy timeout_ms max_concurrent =
    if not (str_eq policy "fail_closed")
    then none
    else if ltb timeout_ms 1 || ltb max_safe timeout_ms
    then none
    else if ltb max_concurrent 1 || ltb max_safe max_concurrent
    then none
    else some (record {
      timeout_ms = timeout_ms;
      max_concurrent = max_concurrent;
      in_flight = 0;
      abandoned_live = 0;
      evaluated = 0;
      pass_count = 0;
      reject_count = 0;
      shed_count = 0;
      throw_count = 0;
      timeout_count = 0;
      invalid_count = 0;
      in_flight_high_water = 0;
      abandoned = 0;
      abandoned_reclaimed = 0;
      late_verdicts_discarded = 0;
    })

unfoldable pub occupancy : Composer → ℕ
occupancy c = c.in_flight + c.abandoned_live

-- The local variables of one `run`; the outcome is the value that it returns.
pub record Run : Type 0 where
  pub started_at : ℕ
  pub settled : Bool
  pub abandoned_counted : Bool
  pub outcome : Option LayerOutcome

-- The winner of `Promise.race`.
pub data Winner : Type 0 where
  deadline : Winner
  thrown : Winner
  verdict : Value → Winner

-- `run` up to its `await`; no run is the immediate answer `shed`.
pub start : Composer → ℕ → Composer × Option Run
unfolding occupancy
start c now =
    let counted = record c { evaluated = c.evaluated + 1 } in
    if leb c.max_concurrent (occupancy c)
    then (record counted { shed_count = c.shed_count + 1 }, none)
    else (
      record counted {
        in_flight = c.in_flight + 1;
        in_flight_high_water =
            if ltb c.in_flight_high_water (c.in_flight + 1)
            then c.in_flight + 1
            else c.in_flight_high_water;
      },
      some
          (record { started_at = now; settled = false; abandoned_counted = false; outcome = none }),
    )

abbrev is_late : Composer → Run → ℕ → Bool
is_late c run now = ltb (c.timeout_ms * 1000) (now - run.started_at)

abbrev verdict_outcome : LayerVerdict → LayerOutcome
verdict_outcome passes = pass
verdict_outcome (rejects reason) = reject reason

-- The `try` block behind the `await`: the outcome, and whether a late verdict was discarded.
pub judge : Composer → Run → Winner → ℕ → LayerOutcome × Bool
unfolding valid_verdict
judge c run deadline now = (error timeout, false)
judge c run thrown now = (error throw, false)
judge c run (verdict value) now = elim (valid_verdict value) [
  | none ↦ (error invalid_verdict, false)
  | some v ↦ if is_late c run now then (error timeout, true) else (verdict_outcome v, false)
]

abbrev is_deadline : Winner → Bool
is_deadline deadline = true
is_deadline winner = false

-- The counters at the end of `run`.
pub tally : Composer → LayerOutcome → Composer
tally c pass = record c { pass_count = c.pass_count + 1 }
tally c (reject reason) = record c { reject_count = c.reject_count + 1 }
tally c shed = c
tally c (error throw) = record c { throw_count = c.throw_count + 1 }
tally c (error timeout) = record c { timeout_count = c.timeout_count + 1 }
tally c (error invalid_verdict) = record c { invalid_count = c.invalid_count + 1 }

-- The `finally` block: an evaluation that still runs at its deadline stays counted.
pub release : Composer → Run → Bool → Composer × Bool
release c run abandon =
    let left = record c { in_flight = c.in_flight - 1 } in
    if abandon
    then (record left { abandoned_live = c.abandoned_live + 1; abandoned = c.abandoned + 1 }, true)
    else (left, run.abandoned_counted)

-- `run` behind its `await`.
pub resume : Composer → Run → Winner → ℕ → Composer × Run
unfolding judge tally release
resume c run winner now =
    let (outcome, late) = judge c run winner now in
    let noted =
      if late then record c { late_verdicts_discarded = c.late_verdicts_discarded + 1 } else c in
    let (released, counted) = release noted run (is_deadline winner && not run.settled) in
    (tally released outcome, record run { abandoned_counted = counted; outcome = some outcome })

-- The handler behind the evaluation's promise.
pub settle : Composer → Run → Composer × Run
settle c run =
    if run.abandoned_counted
    then (
      record c { abandoned_live = c.abandoned_live - 1 },
      record run { settled = true; abandoned_counted = false },
    )
    else (c, record run { settled = true })

-- The reclaim timer.
pub reclaim : Composer → Run → Composer × Run
reclaim c run =
    if run.abandoned_counted
    then (
      record c {
        abandoned_live = c.abandoned_live - 1;
        abandoned_reclaimed = c.abandoned_reclaimed + 1;
      },
      record run { abandoned_counted = false },
    )
    else (c, run)

-- The composer with every run that it has started, in the order of their starts.
pub record Bulkhead : Type 0 where
  pub composer : Composer
  pub runs : List Run

-- What the event loop does next; a number is the place of the run.
pub data ComposerCall : Type 0 where
  starts : ℕ → ComposerCall
  resumes : ℕ → Winner → ℕ → ComposerCall
  settles : ℕ → ComposerCall
  reclaims : ℕ → ComposerCall

-- One turn for the run at a place, if there is such a run and it takes the turn.
abbrev turn : (Run → Bool) → (Composer → Run → Composer × Run) → Bulkhead → ℕ → Bulkhead
turn takes f b i = elim (get_elem? b.runs i) [
  | none ↦ b
  | some run ↦
      let (c, next) = f b.composer run in
      if takes run then record { composer = c; runs = write b.runs i next } else b
]

abbrev pub is_running : Run → Bool
is_running run = elim run.outcome [ none ↦ true | some _ ↦ false ]

abbrev launched : List Run → Option Run → List Run
launched runs none = runs
launched runs (some run) = runs ++ (run ∷ [])

-- The code behind the `await` runs once, so only for a run that has no outcome yet.
pub composer_step : Bulkhead → ComposerCall → Bulkhead
unfolding start resume settle reclaim
composer_step b (starts now) =
    let (c, run) = start b.composer now in record { composer = c; runs = launched b.runs run }
composer_step b (resumes i winner now) = turn is_running (λ c run. resume c run winner now) b i
composer_step b (settles i) = turn (λ run. true) settle b i
composer_step b (reclaims i) = turn (λ run. true) reclaim b i

pub composer_run : Bulkhead → List ComposerCall → Bulkhead
unfolding composer_step
composer_run b [] = b
composer_run b (call ∷ calls) = composer_run (composer_step b call) calls
