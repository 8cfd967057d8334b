-- ===== src/Defense/Lineage/Chain.antt =====
-- defense/core/lineage.ts: what a clean validation says of the application's events.
use limitmark.Common.{
  ◌≡◌, refl, sym, ap, ◌∙◌, ◌⊎◌, inl, inr, ltb, if◌then◌else◌, Bool, true, false, ◌||◌, Option, none,
  some, is_some, List, [], ◌∷◌, ◌++◌, arith, Option-cases,
}
use limitmark.Defense.Events.{
  boundary_admitted, app_proof_issued, app_admitted, app_executed, BoundaryEvent, AppEvent,
  protected, direct_boundary_rejected, direct_app_rejected, LifecycleView, PlaneEvent,
  egress_attempted, proof_issued,
}
use limitmark.Defense.Lifecycle.{find_kind}
use limitmark.Defense.Lifecycle.Plane.{append-nil}
use limitmark.Defense.Lineage.{
  find_boundary, find_app, mutation_count, events_of, protected_lineage_complete, Rules, collect,
  has_lineage, app_lineage, direct_rules, chain_rules, final_rules, lane_check, stream_check,
  validate_origin_lineage, rooted, chain_complete, tag_of, seq_of,
}

-- None of the rules is broken.
abbrev pub AllHold : Rules → Type 0
AllHold [] = Unit
AllHold ((broken, code) ∷ rules) = (broken ≡ false) × AllHold rules

pub collect-AllHold : (rules : Rules) → collect rules ≡ [] → AllHold rules
collect-AllHold [] h = tt
collect-AllHold ((true, code) ∷ rules) h = cc
collect-AllHold ((false, code) ∷ rules) h = (refl, collect-AllHold rules h)

lane_check-nil :
    (view : LifecycleView) (final : Bool)
    → is_some view.app ≡ true
    → validate_origin_lineage view final ≡ []
    → lane_check view final ≡ []
unfolding validate_origin_lineage
lane_check-nil view final there h =
    let streams = stream_check (events_of view.boundary) (events_of view.app) in
    let present : (is_some view.boundary || is_some view.app) ≡ true = ground arith in
    let whole : validate_origin_lineage view final ≡ streams ++ lane_check view final =
      rw present refl in
    let clean : streams ++ lane_check view final ≡ [] = sym whole ∙ h in
    (append-nil streams (lane_check view final) clean).1

rooted-chain_complete :
    (attempted issued : Option PlaneEvent) (admitted issued_ba : Option BoundaryEvent)
    (app : AppEvent)
    → rooted (tag_of issued) (seq_of attempted) admitted issued_ba app ≡ true
    → chain_complete attempted issued admitted issued_ba (some app) ≡ true
rooted-chain_complete attempted none admitted issued_ba app h = cc
rooted-chain_complete none (some i) admitted issued_ba app h = ground arith
rooted-chain_complete (some a) (some i) none issued_ba app h = ground arith
rooted-chain_complete (some a) (some i) (some b) none app h = ground arith
rooted-chain_complete (some a) (some i) (some b) (some ba) app h = elim (Option-cases i.pb_tag) [
  | inl none_there ↦ ground arith
  | inr (root, there) ↦ ground arith
]

has_lineage-protected :
    (view : LifecycleView) (app : AppEvent)
    → view.expected ≡ protected
    → has_lineage view app
      ≡ rooted
          (tag_of (find_kind proof_issued view.plane))
          (seq_of (find_kind egress_attempted view.plane))
          (find_boundary boundary_admitted (events_of view.boundary))
          (find_boundary app_proof_issued (events_of view.boundary))
          app
unfolding has_lineage
has_lineage-protected view app lane = rw (lane, has_lineage) refl

-- The chain of the protected lane is the one that the accounting counts.
rooted-chain :
    (view : LifecycleView) (app : AppEvent)
    → view.expected ≡ protected
    → find_app app_admitted (events_of view.app) ≡ some app
    → has_lineage view app ≡ true
    → protected_lineage_complete view ≡ true
unfolding has_lineage protected_lineage_complete
rooted-chain view app lane found h = rw found (
    rooted-chain_complete (find_kind egress_attempted view.plane)
      (find_kind proof_issued view.plane)
      (find_boundary boundary_admitted (events_of view.boundary))
      (find_boundary app_proof_issued (events_of view.boundary)) app
      (sym (has_lineage-protected view app lane) ∙ h))

-- Any event that the application reports of a request that it took in.
abbrev pub app_acted : List AppEvent → Bool
app_acted apps =
    is_some (find_app app_admitted apps)
    || is_some (find_app app_executed apps)
    || ltb 0 (mutation_count apps)

chain_rules-lineage :
    (view : LifecycleView) (final : Bool)
    → AllHold (chain_rules view final)
    → app_acted (events_of view.app) ≡ true
    → app_lineage view (find_app app_admitted (events_of view.app)) ≡ true
chain_rules-lineage view final h acted = ground (arith, h)

lane_check-protected :
    (view : LifecycleView) (final : Bool)
    → view.expected ≡ protected
    → lane_check view final
      ≡ collect (chain_rules view final) ++ (if final then collect (final_rules view) else [])
lane_check-protected view final lane = rw lane refl

-- On the protected lane nothing reaches the application without its chain: when the validation finds
-- no anomaly and the application has admitted, executed or mutated anything, then the plane's
-- attempt and proof, the boundary's admission and proof and the application's admission are all
-- there and agree on the hop and on both tags.
pub validate_origin_lineage-protected_lineage_complete :
    (view : LifecycleView) (final : Bool)
    → view.expected ≡ protected
    → app_acted (events_of view.app) ≡ true
    → validate_origin_lineage view final ≡ []
    → protected_lineage_complete view ≡ true
validate_origin_lineage-protected_lineage_complete view final lane acted h =
    let lanes =
      sym (lane_check-protected view final lane) ∙ lane_check-nil view final (ground arith) h in
    let rules =
      collect-AllHold (chain_rules view final)
        (append-nil (collect (chain_rules view final)) _ lanes).0 in
    let lineage = chain_rules-lineage view final rules acted in
    elim (Option-cases (find_app app_admitted (events_of view.app))) [
      | inl missing ↦ ground arith
      | inr (app, found) ↦
          rooted-chain view app lane found (sym (ap (app_lineage view) found) ∙ lineage)
    ]

pub lane_check-direct :
    (view : LifecycleView) (final : Bool)
    → (view.expected ≡ direct_boundary_rejected) ⊎ (view.expected ≡ direct_app_rejected)
    → lane_check view final ≡ collect (direct_rules view)
lane_check-direct view final (inl lane) = rw lane refl
lane_check-direct view final (inr lane) = rw lane refl
