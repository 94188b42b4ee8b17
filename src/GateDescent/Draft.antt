-- ===== src/GateDescent/Draft.antt =====
-- `build_gate_0_to_1_draft` of eve_q/gate_descent.py, and the validation of its drafts.
use codex_trading_engine.Prelude.{
  ℕ, ◌+◌, String, ◌≡◌, refl, true, false, ◌||◌, Option, none, some, List, [], ◌∷◌, without, eq_refl,
  arith,
}
use codex_trading_engine.Prelude.Int.{ℤ, pos, ◌-ℤ◌, ◌≤ℤ◌, ◌<ℤ◌, eqb_ℤ, ltb_ℤ, leb_ℤ}
use codex_trading_engine.Prelude.Times.{IsoTime}
use codex_trading_engine.Value.{
  Value, null, bool, int, str, list, dict, Items, nil, cons, Dict, empty, field, strings,
}
use codex_trading_engine.Receipts.Hashing.{Hashing}
use codex_trading_engine.GateDescent.Findings
use codex_trading_engine.GateDescent.Findings.{Finding}
use codex_trading_engine.GateDescent.Validate.{
  parse_utc, compute_artifact_id, refresh_artifact_id, seconds, status_at, ttl_tests,
  validate_gate_descent,
}

-- The checks: all `False`, then five set to `True`.
abbrev pub draft_checks : Dict
draft_checks = field "adjacent_gate_only" (bool true) (
    field "all_downstream_gates_locked" (bool true) (
      field "bounded_live_read_only_soak_passed" (bool false) (
        field "live_inputs_content_addressed" (bool false) (
          field "malformed_input_rejection_proven" (bool false) (
            field "no_execution_surface_introduced" (bool true) (
              field "read_only_interfaces_only" (bool true) (
                field "replayable_snapshots_retained" (bool false) (
                  field "rollback_to_simulation_proven" (bool false) (
                    field "source_outage_behavior_proven" (bool false) (
                      field "stale_input_rejection_proven" (bool false)
                        (field "zero_write_capable_secrets" (bool true) empty)))))))))))

-- `enumerate(GATES)`
abbrev pub gate_states_from : ℕ → List String → Items
gate_states_from i [] = nil
gate_states_from i (name ∷ names) =
    cons
      (dict (
        field "index" (int (pos i))
          (field "name" (str name) (field "status" (str (status_at i)) empty))))
      (gate_states_from (i + 1) names)

abbrev pub draft_fields : String → String → ℤ → Items → Dict
draft_fields created_at expires_at ttl_seconds evidence =
    field "artifact_type" (str "GateDescentProposal") (
      field "contract_version" (str "eve_q_gate_descent_v0.1") (
        field "created_at" (str created_at) (
          field "expires_at" (str expires_at) (
            field "ttl_seconds" (int ttl_seconds) (
              field "readiness" (str "DRAFT") (
                field "promotion_eligible" (bool false) (
                  field "transition"
                    (dict (
                      field "current_gate" (int (pos 0)) (
                        field "requested_gate" (int (pos 1)) (
                          field "one_gate_only" (bool true)
                            (field "downstream_inheritance" (bool false) empty)))))
                    (field "gate_states" (list (gate_states_from 0 Findings.gates)) (
                      field "connector_mode" (str "read_only") (
                        field "write_capable_secrets_present" (bool false) (
                          field "acceptance_checks" (dict draft_checks) (
                            field "evidence" (list evidence) (
                              field "rollback"
                                (dict (
                                  field "target_gate" (int (pos 0)) (
                                    field "tested" (bool false) (
                                      field "plan_sha256" null
                                        (field "test_receipt_sha256" null empty)))))
                                (field "prohibited_actions"
                                  (list (strings Findings.required_prohibited_actions))
                                  (field "artifact_is_command" (bool false) (
                                    field "authority" (bool false) (
                                      field "human_promotion_required" (bool true) (
                                        field "may_execute" (bool false) (
                                          field "may_move_capital" (bool false)
                                            empty)))))))))))))))))))

adjacent : eqb_ℤ (pos 1 -ℤ pos 0) (pos 1) ≡ true
unfolding ◌-ℤ◌
adjacent = refl

module _ (h : Hashing) (to_str : Value → String) (parse_int : String → Option ℤ)
    (fromisoformat : String → IsoTime) where
  abbrev pub draft_between : String → String → Items → Option ℤ → Option ℤ → Option Dict
  draft_between created_at expires_at evidence (some created) (some expires) = some (
      refresh_artifact_id h
        (draft_fields created_at expires_at (seconds (expires -ℤ created)) evidence))
  draft_between created_at expires_at evidence _ _ = none

  -- `none` where a time does not parse.
  unfoldable pub build_gate_0_to_1_draft : String → String → Items → Option Dict
  build_gate_0_to_1_draft created_at expires_at evidence =
      draft_between created_at expires_at evidence (parse_utc fromisoformat created_at)
        (parse_utc fromisoformat expires_at)

  ttl_tests-nil :
      (now created expires ttl : ℤ)
      → ttl ≡ seconds (expires -ℤ created)
      → pos 1 ≤ℤ ttl
      → ttl ≤ℤ pos 86400
      → now <ℤ expires
      → ttl_tests now (some (created, expires, ttl)) ≡ []
  ttl_tests-nil now created expires ttl e one day fresh =
      let a : eqb_ℤ ttl (seconds (expires -ℤ created)) ≡ true = rw (← e) (ground arith) in
      let b : (ltb_ℤ ttl (pos 1) || ltb_ℤ (pos 86400) ttl) ≡ false = ground arith in
      let c : leb_ℤ expires now ≡ false = ground arith in rw (a, b, c) refl

  -- A draft between two times that parse, 1 to 86400 whole seconds apart, passes validation at any
  -- time before its expiry.
  pub draft-valid :
      (created_at expires_at : String) (evidence : Items) (created expires now : ℤ)
      → parse_utc fromisoformat created_at ≡ some created
      → parse_utc fromisoformat expires_at ≡ some expires
      → pos 1 ≤ℤ seconds (expires -ℤ created)
      → seconds (expires -ℤ created) ≤ℤ pos 86400
      → now <ℤ expires
      → (draft : Dict) × (build_gate_0_to_1_draft created_at expires_at evidence ≡ some draft)
        × (validate_gate_descent h to_str parse_int fromisoformat now draft ≡ [])
  unfolding build_gate_0_to_1_draft validate_gate_descent compute_artifact_id without
  draft-valid created_at expires_at evidence created expires now pc pe one day fresh = (
    refresh_artifact_id h
        (draft_fields created_at expires_at (seconds (expires -ℤ created)) evidence),
    rw (pc, pe) refl,
    rw
        (
          pc,
          pe,
          ttl_tests-nil now created expires (seconds (expires -ℤ created)) refl one day fresh,
          eq_refl,
          adjacent,
        )
        refl,
  )
