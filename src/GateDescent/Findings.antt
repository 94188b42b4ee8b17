-- ===== src/GateDescent/Findings.antt =====
-- The constants of eve_q/gate_descent.py and its findings, by message.
use codex_trading_engine.Prelude.{ℕ, String, List, [], ◌∷◌}

pub data Finding : Type 0 where
  artifact_type_wrong contract_version_wrong artifact_id_mismatch : Finding
  invalid_ttl_fields ttl_mismatch ttl_out_of_range ttl_stale : Finding
  gate_count_wrong : Finding
  gate_not_object gate_index_wrong : ℕ → Finding
  gate_name_wrong gate_status_wrong : ℕ → String → Finding
  transition_not_object not_adjacent not_one_gate one_gate_only_not_true inheritance_not_false :
      Finding
  flag_must_be_true flag_must_be_false : String → Finding
  connector_not_read_only prohibited_not_array : Finding
  prohibited_missing : List String → Finding
  checks_not_object : Finding
  checks_missing : List String → Finding
  draft_eligible ready_not_eligible : Finding
  checks_incomplete evidence_missing : List String → Finding
  rollback_untested rollback_target_wrong readiness_unknown : Finding

abbrev pub gates : List String
gates =
    "SIMULATION_ONLY" ∷ "LIVE_READ_ONLY_TELEMETRY" ∷ "LIVE_PROPOSAL_GENERATION"
    ∷ "TESTNET_MANUAL_EXTERNAL" ∷ "CAPPED_MANUAL_EXTERNAL" ∷ "EXECUTION_ASSISTANCE"
    ∷ "NARROW_AUTOMATION" ∷ []

-- The sets, sorted.
abbrev pub required_prohibited_actions : List String
required_prohibited_actions =
    "capital_movement" ∷ "multi_gate_descent" ∷ "order_submission" ∷ "self_promotion" ∷ "signing"
    ∷ "transaction_broadcast" ∷ "transaction_construction" ∷ "wallet_access" ∷ []

abbrev pub ready_evidence_types : List String
ready_evidence_types =
    "baseline_soak" ∷ "live_read_only_soak" ∷ "rollback_test" ∷ "threat_model" ∷ []

abbrev pub ready_checks : List String
ready_checks =
    "adjacent_gate_only" ∷ "all_downstream_gates_locked" ∷ "bounded_live_read_only_soak_passed"
    ∷ "live_inputs_content_addressed" ∷ "malformed_input_rejection_proven"
    ∷ "no_execution_surface_introduced" ∷ "read_only_interfaces_only"
    ∷ "replayable_snapshots_retained" ∷ "rollback_to_simulation_proven"
    ∷ "source_outage_behavior_proven" ∷ "stale_input_rejection_proven"
    ∷ "zero_write_capable_secrets" ∷ []
