-- ===== src/Defense/Lineage.antt =====
-- defense/core/lineage.ts: one request's plane, boundary and application streams, joined.
pub mod Chain
pub mod Direct
mod Tests
use limitmark.Common.{
  ℕ, suc, ◌+◌, ◌*◌, ◌^◌, ltb, leb, ◌==◌, not, if◌then◌else◌, Bool, true, false, ◌&&◌, ◌||◌, Option,
  none, some, is_some, List, [], ◌∷◌, ◌++◌, String, str_eq, length, any,
}
use limitmark.Defense.Anomaly.{
  AnomalyCode, duplicate_terminal, duplicate_event, impossible_order, missing_transition,
  unresolved_at_finalization, boundary_lane_mismatch, direct_not_rejected, direct_app_execution,
  direct_app_mutation, hop_range_violation, boundary_rejected_plane_egress, boundary_hop_mismatch,
  plane_egress_not_admitted, app_admit_without_lineage, app_execution_without_lineage,
  app_mutation_without_lineage, boundary_decision_missing, app_refused_boundary_admitted,
  origin_status_mismatch, positive_control_failed,
}
use limitmark.Defense.Events.{
  PlaneEvent, egress_attempted, proof_issued, egress_failed, egress_responded, BoundaryEventKind,
  boundary_index, boundary_arrived, boundary_rejected, boundary_admitted, app_proof_issued,
  boundary_forward_responded, boundary_responded, boundary_aborted, BoundaryEvent, AppEventKind,
  app_index, app_admitted, app_refused, app_executed, app_mutated, app_completed, app_aborted,
  AppEvent, ExpectedLane, protected, control, pre_ingress, external, direct_boundary_rejected,
  direct_app_rejected, positive_control_boundary, positive_control_app, LifecycleView,
}
use limitmark.Defense.Automata.{next_boundary, next_app, boundary_rank, app_rank}
use limitmark.Defense.Lifecycle.{find_kind, when}
use limitmark.Defense.Lifecycle.Check.{same_number}

-- `ORACLE_HOP_BASE`.
abbrev pub oracle_hop_base : ℕ
oracle_hop_base = 2 ^ 40

module _ {K : Type 0} (index : K → ℕ) (next : Option K → List K) (rank : K → ℕ) where
  abbrev member : K → List K → Bool
  member k [] = false
  member k (j ∷ js) = (index j == index k) || member k js

  abbrev has_ended : Option K → Bool
  has_ended none = false
  has_ended (some p) = elim (next (some p)) [ [] ↦ true | _ ∷ _ ↦ false ]

  abbrev rank_of : Option K → ℕ
  rank_of none = 0
  rank_of (some p) = rank p

  abbrev classify : Option K → K → List K → AnomalyCode
  classify previous k seen =
      if has_ended previous
      then duplicate_terminal
      else if member k seen
      then duplicate_event
      else if leb (rank k) (rank_of previous)
      then impossible_order
      else missing_transition

  -- `automaton`, over the sequence numbers and the kinds; `above` is one more than the last number.
  unfoldable pub automaton : Option K → List K → ℕ → List (ℕ × K) → List AnomalyCode
  automaton previous seen above [] = []
  automaton previous seen above ((seq, k) ∷ es) =
      let rest = automaton (some k) (k ∷ seen) (suc seq) es in
      when (ltb seq above) impossible_order
      ++ when (not (member k (next previous))) (classify previous k seen)
      ++ rest

abbrev pub boundary_kinds : List BoundaryEvent → List (ℕ × BoundaryEventKind)
boundary_kinds [] = []
boundary_kinds (e ∷ es) = (e.seq, e.kind) ∷ boundary_kinds es

abbrev pub app_kinds : List AppEvent → List (ℕ × AppEventKind)
app_kinds [] = []
app_kinds (e ∷ es) = (e.seq, e.kind) ∷ app_kinds es

-- `b` and `a` of the source.
abbrev pub find_boundary : BoundaryEventKind → List BoundaryEvent → Option BoundaryEvent
find_boundary k [] = none
find_boundary k (e ∷ es) =
    let rest = find_boundary k es in
    if boundary_index e.kind == boundary_index k then some e else rest

abbrev pub find_app : AppEventKind → List AppEvent → Option AppEvent
find_app k [] = none
find_app k (e ∷ es) =
    let rest = find_app k es in if app_index e.kind == app_index k then some e else rest

abbrev pub mutation_count : List AppEvent → ℕ
mutation_count [] = 0
mutation_count (e ∷ es) =
    let rest = mutation_count es in
    if app_index e.kind == app_index app_mutated then suc rest else rest

abbrev pub same_tag : Option String → Option String → Bool
same_tag none none = true
same_tag (some a) (some b) = str_eq a b
same_tag a b = false

-- The hop and the tag of the Plane's proof.
abbrev pub carries : ℕ → Option String → Option ℕ → Option String → Bool
carries seq tag hop pb_tag = same_number hop (some seq) && same_tag pb_tag tag

abbrev pub chain_complete :
    Option PlaneEvent
    → Option PlaneEvent
    → Option BoundaryEvent
    → Option BoundaryEvent
    → Option AppEvent
    → Bool
chain_complete (some attempted) (some issued) (some admitted) (some issued_ba) (some app) =
    is_some issued.pb_tag
    && is_some issued_ba.ba_tag
    && carries attempted.seq issued.pb_tag admitted.hop admitted.pb_tag
    && carries attempted.seq issued.pb_tag issued_ba.hop issued_ba.pb_tag
    && carries attempted.seq issued.pb_tag app.hop app.pb_tag
    && same_tag app.ba_tag issued_ba.ba_tag
chain_complete attempted issued admitted issued_ba app = false

abbrev pub events_of {ℓ} : {A : Type ℓ} → Option (List A) → List A
events_of none = []
events_of (some es) = es

pub protected_lineage_complete : LifecycleView → Bool
protected_lineage_complete view =
    chain_complete (find_kind egress_attempted view.plane) (find_kind proof_issued view.plane)
      (find_boundary boundary_admitted (events_of view.boundary))
      (find_boundary app_proof_issued (events_of view.boundary))
      (find_app app_admitted (events_of view.app))

-- The rules that add an anomaly, in their order.
abbrev pub Rules : Type 0
Rules = List (Bool × AnomalyCode)

abbrev pub collect : Rules → List AnomalyCode
collect [] = []
collect ((broken, code) ∷ rules) = let rest = collect rules in if broken then code ∷ rest else rest

abbrev hop_from : Option ℕ → Bool
hop_from none = false
hop_from (some hop) = leb oracle_hop_base hop

abbrev hop_below : Option ℕ → Bool
hop_below none = false
hop_below (some hop) = ltb hop oracle_hop_base

-- What both directions of a stream say of the hop range.
abbrev pub any_oracle_hop : List BoundaryEvent → List AppEvent → Bool
any_oracle_hop bs apps = any (λ e. hop_from e.hop) bs || any (λ e. hop_from e.hop) apps

abbrev pub any_plane_hop : List BoundaryEvent → List AppEvent → Bool
any_plane_hop bs apps = any (λ e. hop_below e.hop) bs || any (λ e. hop_below e.hop) apps

abbrev is_protected : ExpectedLane → Bool
is_protected protected = true
is_protected lane = false

abbrev is_control_app : ExpectedLane → Bool
is_control_app positive_control_app = true
is_control_app lane = false

abbrev is_positive_control : ExpectedLane → Bool
is_positive_control positive_control_boundary = true
is_positive_control positive_control_app = true
is_positive_control lane = false

abbrev admitted_mismatch : Option BoundaryEvent → Option PlaneEvent → Option PlaneEvent → Bool
admitted_mismatch none attempted issued = false
admitted_mismatch (some b) (some attempted) (some issued) =
    not (same_number b.hop (some attempted.seq)) || not (same_tag b.pb_tag issued.pb_tag)
admitted_mismatch (some b) attempted issued = true

-- `lineage`, when the root's tag and the hop are known.
abbrev pub rooted :
    Option String → Option ℕ → Option BoundaryEvent → Option BoundaryEvent → AppEvent → Bool
rooted (some root) (some hop) (some admitted) (some issued_ba) app =
    same_number admitted.hop (some hop)
    && same_tag admitted.pb_tag (some root)
    && same_number issued_ba.hop (some hop)
    && same_tag issued_ba.pb_tag (some root)
    && same_number app.hop (some hop)
    && same_tag app.pb_tag (some root)
    && is_some issued_ba.ba_tag
    && same_tag app.ba_tag issued_ba.ba_tag
rooted root hop admitted issued_ba app = false

abbrev pub tag_of : Option PlaneEvent → Option String
tag_of none = none
tag_of (some e) = e.pb_tag

abbrev pub seq_of : Option PlaneEvent → Option ℕ
seq_of none = none
seq_of (some e) = some e.seq

abbrev boundary_tag : Option BoundaryEvent → Option String
boundary_tag none = none
boundary_tag (some e) = e.pb_tag

abbrev boundary_hop : Option BoundaryEvent → Option ℕ
boundary_hop none = none
boundary_hop (some e) = e.hop

-- `lineage` of the application's admission in its lane.
unfoldable pub has_lineage : LifecycleView → AppEvent → Bool
has_lineage view app =
    let bs = events_of view.boundary in
    let admitted = find_boundary boundary_admitted bs in
    let issued_ba = find_boundary app_proof_issued bs in
    elim view.expected [
      | positive_control_app ↦ (length bs == 0) && is_some app.ba_tag && is_some app.pb_tag
      | protected ↦
          rooted (tag_of (find_kind proof_issued view.plane))
            (seq_of (find_kind egress_attempted view.plane)) admitted issued_ba app
      | _ ↦ rooted (boundary_tag admitted) (boundary_hop admitted) admitted issued_ba app
    ]

abbrev pub app_lineage : LifecycleView → Option AppEvent → Bool
app_lineage view none = false
app_lineage view (some app) = has_lineage view app

abbrev statuses_differ : Option BoundaryEvent → Option AppEvent → Bool
statuses_differ (some b) (some a) = not (same_number b.status a.status)
statuses_differ b a = false

abbrev pub direct_rules : LifecycleView → Rules
direct_rules view =
    let bs = events_of view.boundary in
    let apps = events_of view.app in
    let seen = λ (k : BoundaryEventKind). is_some (find_boundary k bs) in
    let done = λ (k : AppEventKind). is_some (find_app k apps) in
    (
      (elim view.expected [ direct_app_rejected ↦ true | _ ↦ false ]) && ltb 0 (length bs),
      boundary_lane_mismatch,
    )
    ∷ (seen boundary_admitted || seen app_proof_issued, direct_not_rejected)
    ∷ (done app_admitted || done app_executed || done app_completed, direct_app_execution)
    ∷ (ltb 0 (mutation_count apps), direct_app_mutation)
    ∷ []

abbrev pub chain_rules : LifecycleView → Bool → Rules
chain_rules view final =
    let bs = events_of view.boundary in
    let apps = events_of view.app in
    let seen = λ (k : BoundaryEventKind). is_some (find_boundary k bs) in
    let done = λ (k : AppEventKind). is_some (find_app k apps) in
    let attempted = find_kind egress_attempted view.plane in
    let issued = find_kind proof_issued view.plane in
    let admitted = find_boundary boundary_admitted bs in
    let mine = is_protected view.expected in
    let lineage = app_lineage view (find_app app_admitted apps) in
    (mine && any_oracle_hop bs apps, hop_range_violation)
    ∷ (
      mine
          && final
          && is_some attempted
          && not (is_some issued)
          && not (is_some (find_kind egress_failed view.plane)),
      missing_transition,
    )
    ∷ (mine && seen boundary_rejected, boundary_rejected_plane_egress)
    ∷ (mine && admitted_mismatch admitted attempted issued, boundary_hop_mismatch)
    ∷ (
      mine && final && is_some (find_kind egress_responded view.plane) && not (is_some admitted),
      plane_egress_not_admitted,
    )
    ∷ (not mine && any_plane_hop bs apps, hop_range_violation)
    ∷ (done app_admitted && not lineage, app_admit_without_lineage)
    ∷ (done app_executed && not (done app_admitted && lineage), app_execution_without_lineage)
    ∷ (
      ltb 0 (mutation_count apps) && not (done app_executed && lineage),
      app_mutation_without_lineage,
    )
    ∷ (is_control_app view.expected && ltb 0 (length bs), boundary_lane_mismatch)
    ∷ []

abbrev pub final_rules : LifecycleView → Rules
final_rules view =
    let bs = events_of view.boundary in
    let apps = events_of view.app in
    let seen = λ (k : BoundaryEventKind). is_some (find_boundary k bs) in
    let done = λ (k : AppEventKind). is_some (find_app k apps) in
    let forwarded = find_boundary boundary_forward_responded bs in
    let lineage = app_lineage view (find_app app_admitted apps) in
    (
      seen boundary_arrived && not (seen boundary_rejected) && not (seen boundary_admitted),
      boundary_decision_missing,
    )
    ∷ (
      seen boundary_arrived && not (seen boundary_responded || seen boundary_aborted),
      unresolved_at_finalization,
    )
    ∷ (
      seen app_proof_issued && not (done app_admitted) && done app_refused,
      app_refused_boundary_admitted,
    )
    ∷ (is_some forwarded && not (done app_admitted), missing_transition)
    ∷ (
      done app_admitted && not (done app_completed || done app_aborted),
      unresolved_at_finalization,
    )
    ∷ (statuses_differ forwarded (find_app app_completed apps), origin_status_mismatch)
    ∷ (
      is_positive_control view.expected && not (done app_admitted && lineage),
      positive_control_failed,
    )
    ∷ []

abbrev pub stream_check : List BoundaryEvent → List AppEvent → List AnomalyCode
stream_check bs apps =
    automaton boundary_index next_boundary boundary_rank none [] 0 (boundary_kinds bs)
    ++ automaton app_index next_app app_rank none [] 0 (app_kinds apps)
    ++ when (ltb 1 (mutation_count apps)) duplicate_event

abbrev pub lane_check : LifecycleView → Bool → List AnomalyCode
lane_check view final =
    let bs = events_of view.boundary in
    let apps = events_of view.app in
    let outside = when (ltb 0 (length bs) || ltb 0 (length apps)) boundary_lane_mismatch in
    let chain =
      collect (chain_rules view final) ++ (if final then collect (final_rules view) else []) in
    elim view.expected [
      | control ↦ outside
      | pre_ingress ↦ outside
      | direct_boundary_rejected ↦ collect (direct_rules view)
      | direct_app_rejected ↦ collect (direct_rules view)
      | _ ↦ chain
    ]

unfoldable pub validate_origin_lineage : LifecycleView → Bool → List AnomalyCode
unfolding has_lineage
validate_origin_lineage view final =
    let found =
      stream_check (events_of view.boundary) (events_of view.app) ++ lane_check view final in
    if is_some view.boundary || is_some view.app then found else []
