-- ===== src/Defense/Composer/Verdict.antt =====
-- defense/core/composer.ts: what the code behind the `await` makes of the winner of the race.
use limitmark.Common.{
  ℕ, ap, sym, ◌≢◌, if◌then◌else◌, ◌-◌, ◌*◌, ◌≤◌, ◌≡◌, refl, ◌∙◌, ◌↔◌, inl, inr, String, eq_iff,
  false, Bool-cases, Option, none, some, Option-cases, arith,
}
use limitmark.Defense.Reasons.{
  RejectReason, reason_name, reason_of, reason_of-Named, reason_of-reason_name,
}
use limitmark.Defense.Composer.{
  pass, reject, error, LayerErrorKind, verdict_outcome, LayerVerdict, passes, rejects, Value,
  object, not_object, valid_verdict, rejection, Composer, Run, Winner, deadline, thrown, verdict,
  judge, resume, timeout, invalid_verdict, is_late,
}

-- The winner that lets a request pass: a value whose `kind` is "pass", in time.
pub record IsPass (c : Composer) (run : Run) (winner : Winner) (now : ℕ) : Type 0 where
  pub reason : Option String
  pub said : winner ≡ verdict (object (some "pass") reason)
  pub timely : now - run.started_at ≤ c.timeout_ms * 1000

-- The winner that refuses a request with a reason.
pub record IsReject (c : Composer) (run : Run) (winner : Winner) (now : ℕ) (r : RejectReason)
    : Type 0 where
  pub said : winner ≡ verdict (object (some "reject") (some (reason_name r)))
  pub timely : now - run.started_at ≤ c.timeout_ms * 1000

rejects-rejection :
    (reason : Option String) (r : RejectReason)
    → rejection reason ≡ some (rejects r)
    → reason ≡ some (reason_name r)
rejects-rejection none r e = absurd cc
rejects-rejection (some text) r e = elim (Option-cases (reason_of text)) [
  | inl missing ↦ absurd (cc (rw (missing, rejection) at e))
  | inr (q, found) ↦
      let same : some (rejects q) ≡ some (rejects r) = rw (found, rejection) at e in
      let name : q ≡ r = cc in ap some (reason_of-Named text q found ∙ ap reason_name name)
]

rejection-reason_name : (r : RejectReason) → rejection (some (reason_name r)) ≡ some (rejects r)
rejection-reason_name r = rw (reason_of-reason_name r, rejection) refl

apart-error : (v : LayerVerdict) (k : LayerErrorKind) → error k ≢ verdict_outcome v
apart-error passes k e = absurd cc
apart-error (rejects r) k e = absurd cc

verdict_outcome-injective : (v w : LayerVerdict) → verdict_outcome v ≡ verdict_outcome w → v ≡ w
verdict_outcome-injective passes passes e = refl
verdict_outcome-injective passes (rejects r) e = absurd cc
verdict_outcome-injective (rejects r) passes e = absurd cc
verdict_outcome-injective (rejects r) (rejects q) e = let same : r ≡ q = cc in ap rejects same

passes-valid_verdict :
    (value : Value)
    → valid_verdict value ≡ some passes
    → (reason : Option String) × (value ≡ object (some "pass") reason)
unfolding valid_verdict
passes-valid_verdict not_object e = absurd cc
passes-valid_verdict (object none reason) e = absurd cc
passes-valid_verdict (object (some kind) reason) e = (reason, ground (arith, eq_iff kind "pass"))

rejects-valid_verdict :
    (value : Value) (r : RejectReason)
    → valid_verdict value ≡ some (rejects r)
    → value ≡ object (some "reject") (some (reason_name r))
unfolding valid_verdict
rejects-valid_verdict not_object r e = absurd cc
rejects-valid_verdict (object none reason) r e = absurd cc
rejects-valid_verdict (object (some kind) reason) r e =
    ground (arith, eq_iff kind "pass", eq_iff kind "reject", rejects-rejection reason r)

judge-valid_verdict :
    (c : Composer) (run : Run) (value : Value) (now : ℕ) (v : LayerVerdict)
    → valid_verdict value ≡ some v
    → (judge c run (verdict value) now).0
      ≡ (if is_late c run now then error timeout else verdict_outcome v)
unfolding judge
judge-valid_verdict c run value now v e = elim (Bool-cases (is_late c run now)) [
  | inl late ↦ rw (e, judge) (rw late refl)
  | inr timely ↦ rw (e, judge) (rw timely refl)
]

-- An outcome of a verdict is the layer's own answer, in time.
judge-Answered :
    (c : Composer) (run : Run) (winner : Winner) (now : ℕ) (v : LayerVerdict)
    → (judge c run winner now).0 ≡ verdict_outcome v
    → (value : Value) × (winner ≡ verdict value)
      × (valid_verdict value ≡ some v)
      × (now - run.started_at ≤ c.timeout_ms * 1000)
unfolding judge
judge-Answered c run deadline now passes e = absurd cc
judge-Answered c run deadline now (rejects r) e = absurd cc
judge-Answered c run thrown now passes e = absurd cc
judge-Answered c run thrown now (rejects r) e = absurd cc
judge-Answered c run (verdict value) now v e = elim (Option-cases (valid_verdict value)) [
  | inl bad ↦
      let wrong : error invalid_verdict ≡ verdict_outcome v = rw (bad, judge) at e in
      absurd (apart-error v invalid_verdict wrong)
  | inr (w, good) ↦
      let answer = sym (judge-valid_verdict c run value now w good) ∙ e in
      elim (Bool-cases (is_late c run now)) [
        | inl late ↦ absurd (apart-error v timeout (rw late at answer))
        | inr timely ↦ (
          value,
          refl,
          good ∙ ap some (verdict_outcome-injective w v (rw timely at answer)),
          ground arith,
        )
      ]
]

judged-Timely :
    (c : Composer) (run : Run) (winner : Winner) (now : ℕ) (value : Value) (v : LayerVerdict)
    → winner ≡ verdict value
    → valid_verdict value ≡ some v
    → now - run.started_at ≤ c.timeout_ms * 1000
    → (judge c run winner now).0 ≡ verdict_outcome v
judged-Timely c run winner now value v said good timely =
    let prompt : is_late c run now ≡ false = ground arith in
    let answer = judge-valid_verdict c run value now v good in rw said (rw prompt at answer)

-- A run passes a request exactly when the layer returned an object whose `kind` is "pass", not
-- later than the deadline; it rejects a request exactly when the layer returned, not later than
-- that, an object whose `kind` is "reject" and whose `reason` is the text of the reason. So an
-- exception, a missed deadline and any other value is neither.
pub resume-IsPass :
    (c : Composer) (run : Run) (winner : Winner) (now : ℕ)
    → (((resume c run winner now).1.outcome ≡ some pass) ↔ IsPass c run winner now)
      × ((r : RejectReason)
          → ((resume c run winner now).1.outcome ≡ some (reject r)) ↔ IsReject c run winner now r)
unfolding resume valid_verdict
resume-IsPass c run winner now = (
  (
    λ e.
        let (value, said, good, timely) = judge-Answered c run winner now passes cc in
        let (reason, shape) = passes-valid_verdict value good in
        record { reason = reason; said = said ∙ ap verdict shape; timely = timely },
    λ p. ap some (
        judged-Timely c run winner now (object (some "pass") p.reason) passes p.said refl p.timely),
  ),
  λ r. (
    λ e.
        let (value, said, good, timely) = judge-Answered c run winner now (rejects r) cc in
        record { said = said ∙ ap verdict (rejects-valid_verdict value r good); timely = timely },
    λ p. ap some (
        judged-Timely c run winner now (object (some "reject") (some (reason_name r))) (rejects r)
          p.said (rejection-reason_name r) p.timely),
  ),
)

pub resume-outcome :
    (c : Composer) (run : Run) (winner : Winner) (now : ℕ)
    → (resume c run winner now).1.outcome ≡ some (judge c run winner now).0
unfolding resume
resume-outcome c run winner now = refl
