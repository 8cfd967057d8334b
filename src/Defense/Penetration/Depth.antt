-- ===== src/Defense/Penetration/Depth.antt =====
-- defense/core/penetration.ts: what the deepest stage stands for.
use limitmark.Common.{
  ◌≡◌, ◌≢◌, refl, sym, ap, ◌∙◌, ◌⊎◌, inl, inr, Bool, true, false, is_some, List, [], arith,
  Bool-cases, Option-cases,
}
use limitmark.Defense.Events.{
  l1_entered, l1_passed, egress_attempted, egress_failed, proof_issued, PlaneEvent,
  boundary_rejected, boundary_admitted, app_proof_issued, app_admitted, app_executed, app_mutated,
  protected, LifecycleView,
}
use limitmark.Defense.Lifecycle.{find_kind, some_kind}
use limitmark.Defense.Lifecycle.Check.{protected_like, validate_lifecycle}
use limitmark.Defense.Lifecycle.Plane.{validate_lifecycle-CleanPlane}
use limitmark.Defense.Lifecycle.Passage.{Steps-entered, Steps-passed}
use limitmark.Defense.Lineage.{
  find_boundary, find_app, events_of, protected_lineage_complete, validate_origin_lineage,
}
use limitmark.Defense.Lineage.Chain.{app_acted, validate_origin_lineage-protected_lineage_complete}
use limitmark.Defense.L2Lifecycle.{validate_l2_lifecycle}
use limitmark.Defense.L2Lifecycle.Egress.{
  Proceeds, find_kind-some_kind, validate_l2_lifecycle-Proceeds,
}
use limitmark.Defense.Penetration.{
  PenetrationStage, app_mutated_stage, L1State, natural_pass, simulated_pass, L2State, l1_stopped,
  l1_state_of, l2_state_of, depth_after_proof, depth_after_egress, depth_after_l1,
  stage_before_egress, l2_stopped, penetration_of,
}

-- Every stage up to the mutation has left its event.
pub record IsMutated (view : LifecycleView) : Type 0 where
  pub attempted : some_kind egress_attempted view.plane ≡ true
  pub issued : some_kind proof_issued view.plane ≡ true
  pub admitted : is_some (find_boundary boundary_admitted (events_of view.boundary)) ≡ true
  pub unrejected : is_some (find_boundary boundary_rejected (events_of view.boundary)) ≡ false
  pub issued_ba : is_some (find_boundary app_proof_issued (events_of view.boundary)) ≡ true
  pub entered : is_some (find_app app_admitted (events_of view.app)) ≡ true
  pub executed : is_some (find_app app_executed (events_of view.app)) ≡ true
  pub mutated : is_some (find_app app_mutated (events_of view.app)) ≡ true

proof-IsMutated :
    (view : LifecycleView)
    → (depth_after_proof view).0 ≡ app_mutated_stage
    → some_kind egress_attempted view.plane ≡ true
    → some_kind proof_issued view.plane ≡ true
    → IsMutated view
unfolding depth_after_proof
proof-IsMutated view h a i = ground arith

egress-IsMutated :
    (before : PenetrationStage) (view : LifecycleView)
    → before ≢ app_mutated_stage
    → (depth_after_egress before view).0 ≡ app_mutated_stage
    → some_kind egress_attempted view.plane ≡ true
    → IsMutated view
unfolding depth_after_egress
egress-IsMutated before view ne h a = elim (Bool-cases (some_kind proof_issued view.plane)) [
  | inl issued ↦
      let rest : depth_after_egress before view ≡ depth_after_proof view = rw issued refl in
      proof-IsMutated view (ap (λ p. p.0) (sym rest) ∙ h) a issued
  | inr not_issued ↦ absurd (elim (Option-cases (find_kind egress_failed view.plane)) [
    | inl absent ↦ ground arith
    | inr (e, failed) ↦ ground arith
  ])
]

stage_before_egress-ne : (l2 : L2State) → stage_before_egress l2 ≢ app_mutated_stage
stage_before_egress-ne l2 h = ground arith

l1-IsMutated :
    (l2 : L2State) (view : LifecycleView)
    → (depth_after_l1 l2 view).0 ≡ app_mutated_stage
    → IsMutated view
unfolding depth_after_l1
l1-IsMutated l2 view h = elim (Option-cases (l2_stopped l2)) [
  | inr (why, stopped) ↦ absurd (ground arith)
  | inl on ↦ elim (Bool-cases (some_kind egress_attempted view.plane)) [
    | inl attempted ↦
        let rest : depth_after_l1 l2 view ≡ depth_after_egress (stage_before_egress l2) view =
          rw (on, depth_after_l1) (rw attempted refl) in
        egress-IsMutated (stage_before_egress l2) view (stage_before_egress-ne l2)
          (ap (λ p. p.0) (sym rest) ∙ h) attempted
    | inr idle ↦ absurd (stage_before_egress-ne l2 (ground arith))
  ]
]

-- The events from the egress on.
penetration_of-IsMutated :
    (view : LifecycleView) → (penetration_of view).deepest ≡ app_mutated_stage → IsMutated view
unfolding penetration_of
penetration_of-IsMutated view h = elim (Option-cases (l1_stopped (l1_state_of view.plane))) [
  | inr (why, stopped) ↦ absurd (ground arith)
  | inl passed ↦
      let depth : (penetration_of view).deepest ≡ (depth_after_l1 (l2_state_of view).0 view).0 =
        rw (passed, penetration_of) refl in
      l1-IsMutated (l2_state_of view).0 view (sym depth ∙ h)
]

abbrev pub is_pass : L1State → Bool
is_pass natural_pass = true
is_pass simulated_pass = true
is_pass state = false

-- Every layer in front of a mutation has let the request through.
pub record MutatedThrough (view : LifecycleView) : Type 0 where
  pub passed : is_pass (penetration_of view).l1 ≡ true
  pub let_through : (view.l2 ≡ false) ⊎ Proceeds view.plane
  pub chained : protected_lineage_complete view ≡ true
  pub executed : IsMutated view

l1_state_of-pass :
    (plane : List PlaneEvent)
    → some_kind l1_entered plane ≡ true
    → some_kind l1_passed plane ≡ true
    → is_pass (l1_state_of plane) ≡ true
unfolding l1_state_of
l1_state_of-pass plane entered passed = ground (arith, find_kind-some_kind l1_passed plane)

penetration_of-l1 : (view : LifecycleView) → (penetration_of view).l1 ≡ l1_state_of view.plane
unfolding penetration_of
penetration_of-l1 view = elim (Option-cases (l1_stopped (l1_state_of view.plane))) [
  | inl passed ↦ rw (passed, penetration_of) refl
  | inr (why, stopped) ↦ rw (stopped, penetration_of) refl
]

acted : (view : LifecycleView) → IsMutated view → app_acted (events_of view.app) ≡ true
acted view through = rw (through.entered) refl

-- A protected request in which the three validators find no anomaly, and whose record says that it
-- reached a mutation, was passed by the first layer, has a decision of the second layer that
-- proceeds where the composition has that layer, and has the whole chain of hops and tags from the
-- plane over the boundary to the application, which executed and mutated.
pub penetration_of-MutatedThrough :
    (view : LifecycleView) (final : Bool)
    → view.expected ≡ protected
    → validate_lifecycle view final ≡ []
    → validate_origin_lineage view final ≡ []
    → validate_l2_lifecycle view final ≡ []
    → (penetration_of view).deepest ≡ app_mutated_stage
    → MutatedThrough view
penetration_of-MutatedThrough view final lane plane_clean lineage_clean l2_clean deepest =
    let through = penetration_of-IsMutated view deepest in
    let like : protected_like view.expected ≡ true = rw lane refl in
    let path = validate_lifecycle-CleanPlane view final like plane_clean in
    let entered = Steps-entered view.l2 path.last view.plane path.legal through.attempted in
    let passed = Steps-passed view.l2 path.last view.plane path.legal through.attempted in
    record {
      passed = ap is_pass (penetration_of-l1 view) ∙ l1_state_of-pass view.plane entered passed;
      let_through = elim (Bool-cases view.l2) [
        | inr off ↦ inl off
        | inl on ↦ inr (
            validate_l2_lifecycle-Proceeds view final on like plane_clean l2_clean
              through.attempted)
      ];
      chained =
          validate_origin_lineage-protected_lineage_complete view final lane (acted view through)
            lineage_clean;
      executed = through;
    }
