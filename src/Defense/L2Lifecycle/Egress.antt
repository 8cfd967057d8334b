-- ===== src/Defense/L2Lifecycle/Egress.antt =====
-- defense/core/l2-lifecycle.ts: a refusal of the second layer and what leaves the plane.
use mathlib.Core.Path.{subst}
use limitmark.Common.{
  ◌≡◌, refl, sym, ap, ◌∙◌, inl, inr, ltb, if◌then◌else◌, Bool, true, ◌&&◌, none, some, is_some,
  List, [], ◌∷◌, ◌++◌, arith, Option-cases, Bool-cases,
}
use limitmark.Defense.Anomaly.{AnomalyCode, l2_enrollment_invalid}
use limitmark.Defense.Events.{
  PlaneEvent, PlaneEventKind, l2_decided, egress_attempted, LifecycleView,
}
use limitmark.Defense.Lanes.{LaneDecision, proceeds, is_valid_decision}
use limitmark.Defense.Lifecycle.{find_kind, some_kind, is_kind}
use limitmark.Defense.Lifecycle.Check.{protected_like, validate_lifecycle}
use limitmark.Defense.Lifecycle.Plane.{Steps, append-nil, validate_lifecycle-CleanPlane}
use limitmark.Defense.Lifecycle.Passage.{Steps-decided}
use limitmark.Defense.Lineage.{collect}
use limitmark.Defense.Lineage.Chain.{collect-AllHold}
use limitmark.Defense.L2Lifecycle.{
  decision_rules, egress_rules, decided, decided_check, entry_rules, each_disposition, count_kind,
  is_disposition, validate_l2_lifecycle,
}

pub find_kind-some_kind :
    (k : PlaneEventKind) (es : List PlaneEvent) → is_some (find_kind k es) ≡ some_kind k es
find_kind-some_kind k [] = refl
find_kind-some_kind k (e ∷ es) = elim (Bool-cases (is_kind k e)) [
  | inl here ↦ rw here refl
  | inr other ↦ rw other (find_kind-some_kind k es)
]

abbrev decision_check : List PlaneEvent → Bool → List AnomalyCode
decision_check plane final =
    if some_kind l2_decided plane then decided_check plane final (decided plane) else []

validate_l2_lifecycle-nil :
    (view : LifecycleView) (final : Bool)
    → (view.l2 && protected_like view.expected) ≡ true
    → validate_l2_lifecycle view final ≡ []
    → decision_check view.plane final ≡ []
unfolding validate_l2_lifecycle
validate_l2_lifecycle-nil view final on h =
    let plane = view.plane in
    let a = collect (entry_rules plane final) in
    let b = decision_check plane final in
    let c = collect ((ltb 1 (count_kind is_disposition plane), l2_enrollment_invalid) ∷ []) in
    let d = each_disposition plane (decided plane) plane in
    let whole : validate_l2_lifecycle view final ≡ a ++ b ++ c ++ d = rw on refl in
    let (first, _) = append-nil (a ++ b ++ c) d (sym whole ∙ h) in
    (append-nil a b (append-nil (a ++ b) c first).0).1

-- What the validator finds of a decision that it has checked together with an egress.
decided_check-proceeds :
    (plane : List PlaneEvent) (final : Bool) (d : LaneDecision)
    → decided_check plane final (some d) ≡ []
    → some_kind egress_attempted plane ≡ true
    → (proceeds d ≡ true) × (is_valid_decision d ≡ true)
unfolding decision_rules egress_rules
decided_check-proceeds plane final d clean attempted =
    let (rules, egress) = append-nil (collect (decision_rules d)) _ clean in
    let own = collect-AllHold (decision_rules d) rules in
    let out = collect-AllHold (egress_rules plane final d) egress in
    (ground (arith, out.0, attempted), ground (arith, own.0))

-- The decision of the second layer that lets a request leave the plane.
pub record Proceeds (plane : List PlaneEvent) : Type 0 where
  pub decision : LaneDecision
  pub reported : decided plane ≡ some decision
  pub lets : proceeds decision ≡ true
  pub closed : is_valid_decision decision ≡ true

-- A request of a composition with the second layer in which neither validator finds an anomaly, and
-- whose egress was attempted, has a decision of the second layer in its stream, which can be read
-- off the event, lies in the closed matrix and proceeds.
pub validate_l2_lifecycle-Proceeds :
    (view : LifecycleView) (final : Bool)
    → view.l2 ≡ true
    → protected_like view.expected ≡ true
    → validate_lifecycle view final ≡ []
    → validate_l2_lifecycle view final ≡ []
    → some_kind egress_attempted view.plane ≡ true
    → Proceeds view.plane
validate_l2_lifecycle-Proceeds view final l2 like plane_clean h attempted =
    let plane = view.plane in
    let path = validate_lifecycle-CleanPlane view final like plane_clean in
    let made =
      Steps-decided path.last plane (subst (λ b. Steps b none 0 plane path.last) l2 path.legal)
        attempted in
    let clean = validate_l2_lifecycle-nil view final (rw (l2, like) refl) h in
    let checks : decision_check plane final ≡ decided_check plane final (decided plane) =
      rw made refl in
    elim (Option-cases (decided plane)) [
      | inl unread ↦
          absurd
            (ground (arith, sym (ap (decided_check plane final) unread) ∙ (sym checks ∙ clean)))
      | inr (d, there) ↦
          let both =
            decided_check-proceeds plane final d
              (sym (ap (decided_check plane final) there) ∙ (sym checks ∙ clean)) attempted in
          record { decision = d; reported = there; lets = both.0; closed = both.1 }
    ]
