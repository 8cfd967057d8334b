-- ===== src/Defense/Lifecycle/Check.antt =====
-- defense/core/ledger.ts: `validateLifecycle`, as the list of the anomalies in the order found.
use limitmark.Common.{
  ℕ, ltb, ◌==◌, not, if◌then◌else◌, Bool, true, false, ◌&&◌, ◌||◌, Option, none, some, List, [],
  ◌∷◌, ◌++◌, String, str_eq, length, filter, any,
}
use limitmark.Defense.Anomaly.{
  AnomalyCode, duplicate_terminal, duplicate_event, impossible_order, missing_transition,
  ingress_loss, disappeared_after_ingress, unresolved_at_finalization, sent_without_completion,
  plane_event_on_unexpected_lane, uncorrelated_ingress, external_unclaimed_downstream,
  duplicate_origin_processing, origin_lane_mismatch, origin_spoofed_header_seen,
  origin_without_l1_pass, origin_hop_mismatch, origin_status_mismatch, plane_status_mismatch,
  client_status_mismatch, outcome_header_mismatch,
}
use limitmark.Defense.Events.{
  PlaneEventKind, egress_attempted, egress_responded, ingress_responded, PlaneEvent, Instance,
  protected_instance, control_instance, origin_received, origin_completed, OriginEvent, sent,
  client_completed, response, HarnessEvent, ExpectedLane, protected, control, pre_ingress, external,
  positive_control_boundary, positive_control_app, LifecycleView,
}
use limitmark.Defense.Lifecycle.{
  find_kind, is_final, verdict_count, plane_status_for, terminal_outcome, terminal_outcome_l2,
  outcome_header_value, when, walk,
}

abbrev pub same_number : Option ℕ → Option ℕ → Bool
same_number none none = true
same_number (some a) (some b) = a == b
same_number a b = false

abbrev pub is_external : ExpectedLane → Bool
is_external external = true
is_external lane = false

abbrev pub protected_like : ExpectedLane → Bool
protected_like protected = true
protected_like external = true
protected_like lane = false

abbrev is_sent : HarnessEvent → Bool
is_sent e = elim e.kind [ sent ↦ true | client_completed ↦ false ]

abbrev starts_sent : List HarnessEvent → Bool
starts_sent [] = false
starts_sent (e ∷ es) = is_sent e

abbrev pub harness_check : LifecycleView → Bool → List AnomalyCode
harness_check view final =
    let completed = filter (λ e. not (is_sent e)) view.harness in
    if is_external view.expected
    then when (ltb 0 (length view.harness)) plane_event_on_unexpected_lane
    else when (not (length (filter is_sent view.harness) == 1) || not (starts_sent view.harness))
        duplicate_event
      ++ when (ltb 1 (length completed)) duplicate_terminal
      ++ when (final && (length completed == 0)) sent_without_completion

abbrev pub unresolved : Option PlaneEventKind → List AnomalyCode
unresolved none = ingress_loss ∷ []
unresolved (some last) =
    if is_final last then [] else disappeared_after_ingress ∷ unresolved_at_finalization ∷ []

abbrev pub end_check : Bool → Option PlaneEventKind → List AnomalyCode
end_check true last = unresolved last
end_check false last = []

abbrev pub protected_plane_check : LifecycleView → Bool → List AnomalyCode
protected_plane_check view final =
    let (found, last) = walk view.l2 none [] 0 view.plane in
    found
    ++ end_check final last
    ++ when (not (is_external view.expected) && any (λ e. e.uncorrelated) view.plane)
        uncorrelated_ingress
    ++ when (is_external view.expected && not (any (λ e. e.external) view.plane))
        external_unclaimed_downstream
    ++ when (ltb 1 (verdict_count view.plane)) duplicate_terminal

abbrev pub plane_check : LifecycleView → Bool → List AnomalyCode
plane_check view final =
    if protected_like view.expected
    then protected_plane_check view final
    else when (ltb 0 (length view.plane)) plane_event_on_unexpected_lane

abbrev is_received : OriginEvent → Bool
is_received e = elim e.kind [ origin_received ↦ true | _ ↦ false ]

abbrev pub received : List OriginEvent → List OriginEvent
received origin = filter is_received origin

abbrev pub finished : List OriginEvent → List OriginEvent
finished origin = filter (λ e. not (is_received e)) origin

abbrev wanted_instance : ExpectedLane → Option Instance
wanted_instance protected = some protected_instance
wanted_instance external = some protected_instance
wanted_instance positive_control_boundary = some protected_instance
wanted_instance positive_control_app = some protected_instance
wanted_instance control = some control_instance
wanted_instance lane = none

abbrev is_instance : Option Instance → Instance → Bool
is_instance (some protected_instance) protected_instance = true
is_instance (some control_instance) control_instance = true
is_instance wanted instance_of = false

abbrev starts_received : List OriginEvent → Bool
starts_received [] = true
starts_received (e ∷ es) = is_received e

abbrev pub origin_check : LifecycleView → List AnomalyCode
origin_check view =
    when (ltb 1 (length (received view.origin))) duplicate_origin_processing
    ++ when (ltb 1 (length (finished view.origin))) duplicate_terminal
    ++ when (not (starts_received view.origin)) impossible_order
    ++ when (any (λ e. not (is_instance (wanted_instance view.expected) e.instance_of)) view.origin)
        origin_lane_mismatch
    ++ when (any (λ e. ltb 0 e.spoofed) view.origin) origin_spoofed_header_seen

abbrev hop_check : List OriginEvent → Option PlaneEvent → List AnomalyCode
hop_check [] attempted = []
hop_check (e ∷ es) none = origin_without_l1_pass ∷ []
hop_check (e ∷ es) (some a) = when (not (same_number e.hop (some a.seq))) origin_hop_mismatch

abbrev is_pre_ingress : ExpectedLane → Bool
is_pre_ingress pre_ingress = true
is_pre_ingress lane = false

abbrev is_control : ExpectedLane → Bool
is_control control = true
is_control lane = false

-- An origin that is waited for must have received the request, and have ended with it.
abbrev waited : List OriginEvent → List OriginEvent → List AnomalyCode
waited [] done = missing_transition ∷ []
waited (e ∷ es) [] = missing_transition ∷ []
waited (e ∷ es) (d ∷ ds) = []

abbrev completed_status : Option ℕ → List OriginEvent → List AnomalyCode
completed_status status [] = []
completed_status status (d ∷ ds) = elim d.kind [
  | origin_completed ↦ when (not (same_number d.status status)) origin_status_mismatch
  | _ ↦ []
]

abbrev responded_check : LifecycleView → Option PlaneEvent → List AnomalyCode
responded_check view none = []
responded_check view (some responded) =
    waited (received view.origin) (finished view.origin) ++ (elim (received view.origin) [
      | [] ↦ []
      | e ∷ es ↦ completed_status responded.status (finished view.origin)
    ])

abbrev plane_status_check : Option ℕ → Option PlaneEvent → List AnomalyCode
plane_status_check (some status) (some e) =
    when (not (same_number e.status (some status))) plane_status_mismatch
plane_status_check status e = []

abbrev first_completed : List HarnessEvent → Option HarnessEvent
first_completed [] = none
first_completed (e ∷ es) = let rest = first_completed es in if is_sent e then rest else some e

abbrev is_response : HarnessEvent → Bool
is_response e = elim e.result [ none ↦ false | some r ↦ (elim r [ response ↦ true | _ ↦ false ]) ]

abbrev client_check : Option HarnessEvent → Option PlaneEvent → List AnomalyCode
client_check (some c) (some e) =
    when (is_response c && not (same_number c.status e.status)) client_status_mismatch
client_check client e = []

abbrev header_check : Option HarnessEvent → Option String → List AnomalyCode
header_check none wanted = []
header_check (some c) none = []
header_check (some c) (some wanted) = elim c.outcome_header [
  | none ↦ []
  | some header ↦ when (is_response c && not (str_eq wanted header)) outcome_header_mismatch
]

abbrev wanted_header : LifecycleView → Option String
wanted_header view =
    elim (if view.l2 then terminal_outcome_l2 view.plane else terminal_outcome view.plane) [
      | none ↦ none
      | some outcome ↦ some (outcome_header_value outcome)
    ]

-- The rules that relate two streams.
unfoldable pub final_check : LifecycleView → List AnomalyCode
final_check view =
    let is_protected = protected_like view.expected in
    let answered = find_kind ingress_responded view.plane in
    let client = first_completed view.harness in
    (if is_protected
      then hop_check (received view.origin) (find_kind egress_attempted view.plane)
      else [])
    ++ when (ltb 0 (length (received view.origin)) && is_pre_ingress view.expected)
        origin_without_l1_pass
    ++ (if is_control view.expected
        then waited (received view.origin) (finished view.origin)
        else [])
    ++ (if is_protected
        then responded_check view (find_kind egress_responded view.plane)
          ++ plane_status_check (plane_status_for view) answered
          ++ client_check client answered
          ++ header_check client (wanted_header view)
        else [])

unfoldable pub validate_lifecycle : LifecycleView → Bool → List AnomalyCode
unfolding final_check
validate_lifecycle view final =
    harness_check view final
    ++ plane_check view final
    ++ origin_check view
    ++ (if final then final_check view else [])
