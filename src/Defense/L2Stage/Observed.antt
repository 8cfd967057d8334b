-- ===== src/Defense/L2Stage/Observed.antt =====
-- defense/plane/l2-stage.ts: the observation of one render, over any order of its callbacks.
use limitmark.Common.{
  ℕ, ◌≡◌, refl, sym, ap, ◌∙◌, inl, inr, Bool, true, false, ◌||◌, Bool-cases, Option, none, some,
  is_some, Option-cases, List, [], ◌∷◌, ◌++◌, length, length-append, arith,
}
use limitmark.Defense.Request.{LayerRequest}
use limitmark.Defense.Bucket.{Clock}
use limitmark.Defense.Lanes.{LaneDecision, Hasher, JourneyLanes, Reads, enroll}
use limitmark.Defense.Events.{EnrollSkipReason, already_enrolled}
use limitmark.Defense.CreditFilter.{filter_stats}
use limitmark.Defense.L2Stage.{
  Observation, observe, Upstream, on_upstream, EnrollmentEvent, enrolled, skipped, waiting_token,
  on_delivered, final_reason, finalize, early_reason,
}

pub data ObserverCall : Type 0 where
  upstream : Upstream → ObserverCall
  delivered : Reads → Clock → ObserverCall
  finalizes : ObserverCall

-- The observation with the lanes that it enrolls in and the events that it has emitted.
pub record Render : Type 0 where
  pub lanes : JourneyLanes
  pub observation : Observation
  pub emitted : List EnrollmentEvent

module _ (h : Hasher) (max_bytes : ℕ) where
  pub observer_step : Render → ObserverCall → Render
  unfolding on_upstream on_delivered finalize
  observer_step s (upstream u) = record s { observation = on_upstream s.observation u max_bytes }
  observer_step s (delivered r now) =
      let (lanes, observation, events) = on_delivered h s.lanes r now s.observation in
      record { lanes = lanes; observation = observation; emitted = s.emitted ++ events }
  observer_step s finalizes =
      let (observation, events) = finalize s.observation in
      record s { observation = observation; emitted = s.emitted ++ events }

  pub observer_run : Render → List ObserverCall → Render
  unfolding observer_step
  observer_run s [] = s
  observer_run s (call ∷ calls) = observer_run (observer_step s call) calls

abbrev emitted_count : Bool → ℕ
emitted_count true = 1
emitted_count false = 0

abbrev is_enrolled : EnrollmentEvent → Bool
is_enrolled (enrolled tag fill) = true
is_enrolled (skipped reason) = false

-- Nothing is emitted before the observation is done, and one disposition afterwards; with a reason
-- that was there from the start, the only disposition is a skip for that reason.
record IsSingle (early : Option EnrollSkipReason) (s : Render) : Type 0 where
  once : length s.emitted ≡ emitted_count s.observation.done
  kept : s.observation.early ≡ early
  barred :
      (reason : EnrollSkipReason)
      → early ≡ some reason
      → s.observation.done ≡ true
      → s.emitted ≡ skipped reason ∷ []

append-empty : (events : List EnrollmentEvent) → events ++ [] ≡ events
append-empty [] = refl
append-empty (x ∷ xs) = ap (λ t. x ∷ t) (append-empty xs)

length-zero : (events : List EnrollmentEvent) → length events ≡ 0 → events ≡ []
length-zero [] e = refl
length-zero (x ∷ xs) e = absurd (omega arith)

final_reason-early :
    (o : Observation) (reason : EnrollSkipReason) → o.early ≡ some reason → final_reason o ≡ reason
final_reason-early o reason e = rw e refl

module _ (h : Hasher) (max_bytes : ℕ) (early : Option EnrollSkipReason) where
  upstream-IsSingle :
      (s : Render) (u : Upstream)
      → IsSingle early s
      → IsSingle early (observer_step h max_bytes s (upstream u))
  unfolding observer_step on_upstream
  upstream-IsSingle s u v =
      elim (Bool-cases
        (s.observation.done || is_some s.observation.early || is_some s.observation.verdict)) [
          | inl closed ↦ rw closed (record { once = v.once; kept = v.kept; barred = v.barred })
          | inr open_still ↦
              rw open_still (record { once = v.once; kept = v.kept; barred = v.barred })
        ]

  delivered-IsSingle :
      (s : Render) (r : Reads) (now : Clock)
      → IsSingle early s
      → IsSingle early (observer_step h max_bytes s (delivered r now))
  unfolding observer_step on_delivered
  delivered-IsSingle s r now v = elim (Option-cases (waiting_token s.observation)) [
    | inl idle ↦
        rw (idle, on_delivered)
          (rw (append-empty s.emitted) (record { once = v.once; kept = v.kept; barred = v.barred }))
    | inr (token, waiting) ↦
        let undone : s.observation.done ≡ false = ground arith in
        let free : early ≡ none = ground (arith, v.kept) in
        elim (Option-cases (enroll h s.lanes r token).1) [
          | inl known ↦
              rw (waiting, on_delivered)
                (rw known (record {
                  once = omega (
                    arith,
                    v.once,
                    ap emitted_count undone,
                    length-append s.emitted (skipped already_enrolled ∷ []),
                  );
                  kept = v.kept;
                  barred = λ reason e done. absurd (cc (sym free ∙ e));
                }))
          | inr (tag, fresh) ↦
              rw (waiting, on_delivered)
                (rw fresh (record {
                  once = omega (
                    arith,
                    v.once,
                    ap emitted_count undone,
                    length-append s.emitted (
                        enrolled tag (filter_stats (enroll h s.lanes r token).0.filter now).1 ∷ []),
                  );
                  kept = v.kept;
                  barred = λ reason e done. absurd (cc (sym free ∙ e));
                }))
        ]
  ]

  finalize-IsSingle :
      (s : Render) → IsSingle early s → IsSingle early (observer_step h max_bytes s finalizes)
  unfolding observer_step finalize
  finalize-IsSingle s v = elim (Bool-cases s.observation.done) [
    | inl done ↦
        rw (done, finalize)
          (rw (append-empty s.emitted) (record {
            once = v.once ∙ ap emitted_count done;
            kept = v.kept;
            barred = λ reason e again. v.barred reason e done;
          }))
    | inr undone ↦
        let empty : s.emitted ≡ [] = length-zero s.emitted (v.once ∙ ap emitted_count undone) in
        rw (undone, finalize)
          (rw empty (record {
            once = refl;
            kept = v.kept;
            barred = λ reason e done.
                ap (λ q. skipped q ∷ []) (final_reason-early s.observation reason (v.kept ∙ e));
          }))
  ]

  step-IsSingle :
      (s : Render) (call : ObserverCall)
      → IsSingle early s
      → IsSingle early (observer_step h max_bytes s call)
  step-IsSingle s (upstream u) v = upstream-IsSingle s u v
  step-IsSingle s (delivered r now) v = delivered-IsSingle s r now v
  step-IsSingle s finalizes v = finalize-IsSingle s v

  run-IsSingle :
      (s : Render) (calls : List ObserverCall)
      → IsSingle early s
      → IsSingle early (observer_run h max_bytes s calls)
  unfolding observer_run
  run-IsSingle s [] v = v
  run-IsSingle s (call ∷ calls) v =
      run-IsSingle (observer_step h max_bytes s call) calls (step-IsSingle s call v)

-- Once an observation is done it stays so.
done-observer_step :
    (h : Hasher) (max_bytes : ℕ) (s : Render) (call : ObserverCall)
    → s.observation.done ≡ true
    → (observer_step h max_bytes s call).observation.done ≡ true
unfolding observer_step on_upstream on_delivered finalize
done-observer_step h max_bytes s (upstream u) e = rw e refl
done-observer_step h max_bytes s (delivered r now) e = rw e refl
done-observer_step h max_bytes s finalizes e = rw e refl

done-finalize : (o : Observation) → (finalize o).0.done ≡ true
unfolding finalize
done-finalize o = ground arith

done-observer_run :
    (h : Hasher) (max_bytes : ℕ) (s : Render) (calls : List ObserverCall)
    → s.observation.done ≡ true
    → (observer_run h max_bytes s calls).observation.done ≡ true
unfolding observer_run
done-observer_run h max_bytes s [] e = e
done-observer_run h max_bytes s (call ∷ calls) e =
    done-observer_run h max_bytes (observer_step h max_bytes s call) calls
      (done-observer_step h max_bytes s call e)

start-IsSingle :
    (lanes : JourneyLanes) (o : Observation)
    → o.done ≡ false
    → IsSingle o.early (record { lanes = lanes; observation = o; emitted = [] })
start-IsSingle lanes o e = record {
  once = sym (ap emitted_count e);
  kept = refl;
  barred = λ reason f done. absurd (cc (sym e ∙ done));
}

-- A render on which the observation has started, in any order of its callbacks with a call of
-- `finalize` among them, gets exactly one disposition; and where the decision was degraded, or
-- the render was simulated, that disposition is the skip for this reason.
pub observer_run-Single :
    (h : Hasher) (max_bytes : ℕ) (lanes : JourneyLanes) (request : LayerRequest) (d : LaneDecision)
    (simulated : Bool) (o : Observation) (before after : List ObserverCall)
    → observe request d simulated ≡ some o
    → let begun : Render = record { lanes = lanes; observation = o; emitted = [] } in
      let end =
        observer_run h max_bytes
          (observer_step h max_bytes (observer_run h max_bytes begun before) finalizes)
          after in
      (length end.emitted ≡ 1)
      × ((reason : EnrollSkipReason)
          → early_reason d simulated ≡ some reason
          → end.emitted ≡ skipped reason ∷ [])
unfolding observe observer_step finalize
observer_run-Single h max_bytes lanes request d simulated o before after e =
    let begun : Render = record { lanes = lanes; observation = o; emitted = [] } in
    let undone : o.done ≡ false = ground arith in
    let early : o.early ≡ early_reason d simulated = ground arith in
    let middle = observer_run h max_bytes begun before in
    let closed = observer_step h max_bytes middle finalizes in
    let end = observer_run h max_bytes closed after in
    let done = done-observer_run h max_bytes closed after (done-finalize middle.observation) in
    let v = run-IsSingle h max_bytes o.early closed after (
      finalize-IsSingle h max_bytes o.early middle
        (run-IsSingle h max_bytes o.early begun before (start-IsSingle lanes o undone))) in
    (v.once ∙ ap emitted_count done, λ reason f. v.barred reason (early ∙ f) done)
