-- ===== src/Defense/Anomaly.antt =====
-- defense/core/ledger.ts: the anomalies. The nonce of an anomaly is that of its request, and its
-- detail is a text for a reader: both are left out.
pub data AnomalyCode : Type 0 where
  duplicate_terminal duplicate_event duplicate_nonce_sent duplicate_sequence missing_transition
        impossible_order ingress_loss disappeared_after_ingress unresolved_at_finalization
        sent_without_completion duplicate_origin_processing origin_without_l1_pass
        origin_lane_mismatch origin_hop_mismatch origin_status_mismatch plane_status_mismatch
        client_status_mismatch outcome_header_mismatch plane_event_on_unexpected_lane unknown_nonce
        event_before_sent uncorrelated_ingress late_event_after_finalization event_channel_loss
        plane_crashed plane_not_finalized journal_overflow ledger_capacity_exceeded
        parser_reject_unreconciled origin_spoofed_header_seen corpus_expectation_violated
        boundary_crashed boundary_not_finalized boundary_channel_loss boundary_decision_missing
        boundary_hop_mismatch boundary_rejected_plane_egress plane_egress_not_admitted
        boundary_lane_mismatch app_crashed app_not_finalized app_channel_loss
        app_admit_without_lineage app_execution_without_lineage app_mutation_without_lineage
        app_refused_boundary_admitted direct_app_execution direct_app_mutation direct_not_rejected
        hop_range_violation unattributed_app_execution unattributed_app_mutation
        app_counter_mismatch boundary_counter_mismatch replay_state_violation admitted_hop_duplicate
        clock_step_detected positive_control_failed layer_skipped l2_decision_invalid
        l2_refused_but_egressed l2_enrollment_invalid enrollment_after_decision l2_counter_mismatch
        l2_bucket_replay_mismatch l2_state_violation simulated_in_normal_runtime
        unconsumed_override_arm override_applied_without_arm l2_decision_untraced
        external_state_overflow external_unresolved external_unclaimed_downstream
        external_late_event external_duplicate_nonce :
      AnomalyCode
