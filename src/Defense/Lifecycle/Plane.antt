-- ===== src/Defense/Lifecycle/Plane.antt =====
-- defense/core/ledger.ts: the plane's stream against the automaton of its composition.
use limitmark.Common.{
  ℕ, suc, ◌≤◌, ◌≡◌, refl, sym, ◌∙◌, ltb, not, Bool, true, false, Option, none, some, List, [], ◌∷◌,
  ◌++◌, arith,
}
use limitmark.Defense.Anomaly.{AnomalyCode, impossible_order}
use limitmark.Defense.Events.{PlaneEventKind, PlaneEvent, LifecycleView}
use limitmark.Defense.Lifecycle.{
  includes, is_final, next_of, when, walk, classify_violation, verdict_count,
}
use limitmark.Defense.Lifecycle.Check.{
  protected_like, protected_plane_check, end_check, harness_check, plane_check, origin_check,
  validate_lifecycle,
}

-- The events lead the automaton from one state to another, with increasing sequence numbers.
pub data Steps (l2 : Bool)
    : Option PlaneEventKind → ℕ → List PlaneEvent → Option PlaneEventKind → Type 0 where
  stops : {p : Option PlaneEventKind} {above : ℕ} → Steps l2 p above [] p
  steps :
      {p last : Option PlaneEventKind} {above : ℕ} {e : PlaneEvent} {es : List PlaneEvent}
      → includes e.kind (next_of l2 p) ≡ true
      → above ≤ e.seq
      → Steps l2 (some e.kind) (suc e.seq) es last
      → Steps l2 p above (e ∷ es) last

pub append-nil {ℓ} : {A : Type ℓ} (xs ys : List A) → xs ++ ys ≡ [] → (xs ≡ []) × (ys ≡ [])
append-nil [] ys h = (refl, h)
append-nil (x ∷ xs) ys h = cc

pub when-nil : (b : Bool) (code : AnomalyCode) → when b code ≡ [] → b ≡ false
when-nil true code h = cc
when-nil false code h = refl

-- The loop finds nothing exactly when the automaton takes every event.
walk-Steps :
    (l2 : Bool) (p : Option PlaneEventKind) (seen : List PlaneEventKind) (above : ℕ)
    (es : List PlaneEvent)
    → (walk l2 p seen above es).0 ≡ []
    → Steps l2 p above es (walk l2 p seen above es).1
unfolding walk
walk-Steps l2 p seen above [] h = stops
walk-Steps l2 p seen above (e ∷ es) h =
    let a = when (ltb e.seq above) impossible_order in
    let b = when (not (includes e.kind (next_of l2 p))) (classify_violation p e.kind seen) in
    let (here, left) = append-nil (a ++ b) _ h in
    let (ordered, legal) = append-nil a b here in
    let in_order : ltb e.seq above ≡ false = when-nil _ _ ordered in
    let allowed : not (includes e.kind (next_of l2 p)) ≡ false = when-nil _ _ legal in
    steps (ground arith) (ground arith)
      (walk-Steps l2 (some e.kind) (e.kind ∷ seen) (suc e.seq) es left)

Steps-walk :
    (l2 : Bool) (p last : Option PlaneEventKind) (seen : List PlaneEventKind) (above : ℕ)
    (es : List PlaneEvent)
    → Steps l2 p above es last
    → walk l2 p seen above es ≡ ([], last)
unfolding walk
Steps-walk l2 p last seen above [] stops = refl
Steps-walk l2 p last seen above (e ∷ es) (steps legal up more) =
    let rest = Steps-walk l2 (some e.kind) last (e.kind ∷ seen) (suc e.seq) es more in
    let in_order : ltb e.seq above ≡ false = ground arith in rw (rest, in_order, legal) refl

-- The last event of a stream is one of the two that end a lifecycle.
abbrev pub Ends : Option PlaneEventKind → Type 0
Ends none = ⊥
Ends (some k) = is_final k ≡ true

-- What a clean validation says of the plane's stream.
pub record CleanPlane (view : LifecycleView) (final : Bool) : Type 0 where
  pub last : Option PlaneEventKind
  pub legal : Steps view.l2 none 0 view.plane last
  pub ended : final ≡ true → Ends last
  pub one_verdict : verdict_count view.plane ≤ 1

plane_check-protected :
    (view : LifecycleView) (final : Bool)
    → protected_like view.expected ≡ true
    → plane_check view final ≡ protected_plane_check view final
plane_check-protected view final like = rw like refl

end_check-Ends :
    (final : Bool) (last : Option PlaneEventKind)
    → end_check final last ≡ []
    → final ≡ true
    → Ends last
end_check-Ends false last h e = cc
end_check-Ends true none h e = cc
end_check-Ends true (some k) h e = ground arith

plane_check-CleanPlane :
    (view : LifecycleView) (final : Bool)
    → protected_like view.expected ≡ true
    → plane_check view final ≡ []
    → CleanPlane view final
plane_check-CleanPlane view final like h =
    let w = walk view.l2 none [] 0 view.plane in
    let checked : protected_plane_check view final ≡ [] =
      sym (plane_check-protected view final like) ∙ h in
    let (most, verdicts) = append-nil (((w.0 ++ end_check final w.1) ++ _) ++ _) _ checked in
    let (more, _) = append-nil ((w.0 ++ end_check final w.1) ++ _) _ most in
    let (found, _) = append-nil (w.0 ++ end_check final w.1) _ more in
    let (none_found, ends) = append-nil w.0 _ found in
    let single : ltb 1 (verdict_count view.plane) ≡ false = when-nil _ _ verdicts in
    record {
      last = w.1;
      legal = walk-Steps view.l2 none [] 0 view.plane none_found;
      ended = end_check-Ends final w.1 ends;
      one_verdict = ground arith;
    }

-- A protected or external request whose validation finds no anomaly has a plane stream that the
-- automaton of its composition takes, in increasing sequence numbers and with at most one verdict
-- of the first layer; at finalization the stream ends with the response or the abort.
pub validate_lifecycle-CleanPlane :
    (view : LifecycleView) (final : Bool)
    → protected_like view.expected ≡ true
    → validate_lifecycle view final ≡ []
    → CleanPlane view final
unfolding validate_lifecycle
validate_lifecycle-CleanPlane view final like h =
    let (most, _) =
      append-nil ((harness_check view final ++ plane_check view final) ++ origin_check view) _ h in
    let (fewer, _) = append-nil (harness_check view final ++ plane_check view final) _ most in
    let (_, plane) = append-nil (harness_check view final) _ fewer in
    plane_check-CleanPlane view final like plane
