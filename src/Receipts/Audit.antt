-- ===== src/Receipts/Audit.antt =====
-- `audit_receipt_ledger` of eve_q/receipt_ledger_audit.py, over the entries that `read_events`
-- gives. The proofs are in the modules below.
pub mod Chain
pub mod Tamper
use codex_trading_engine.Prelude.{
  ℕ, ◌+◌, String, false, List, [], ◌∷◌, ◌++◌, length, is_empty, map, unless, if◌then◌else◌,
}
use codex_trading_engine.Prelude.Int.{pos}
use codex_trading_engine.Value.{
  Value, null, bool, int, str, list, dict, Dict, empty, field, get, items, strings, truthy,
  is_false, is_num, is_str, eq,
}
use codex_trading_engine.Receipts.Seal.{Ledger}

abbrev pub audit_error : Dict → String → Dict → Value
audit_error event message rest =
    dict (field "sequence" (get event "sequence") (field "error" (str message) rest))

-- The tests that one event meets, in order; a test that fails gives one error.
unfoldable pub event_errors : ℕ → Value → Dict → List Value
event_errors index expected_previous_cid event =
    unless (is_num (get event "sequence") index) (
      audit_error event "sequence_gap_or_mismatch"
        (field "expected_sequence" (int (pos index)) empty))
    ++ (unless (truthy (get event "cid")) (audit_error event "missing_cid" empty)
        ++ (unless (truthy (get event "local_sha256"))
              (audit_error event "missing_local_sha256" empty)
            ++ (unless (is_str (get event "execution_authority") "none")
                  (audit_error event "execution_authority_not_none" empty)
                ++ (unless (is_false (get event "artifact_is_command"))
                      (audit_error event "artifact_is_command_not_false" empty)
                    ++ (unless (is_false (get event "may_execute"))
                          (audit_error event "may_execute_not_false" empty)
                        ++ (unless (is_false (get event "may_move_capital"))
                              (audit_error event "may_move_capital_not_false" empty)
                            ++ unless (eq (get event "previous_cid") expected_previous_cid) (
                                audit_error event "previous_cid_chain_mismatch" (
                                  field "expected_previous_cid" expected_previous_cid (
                                    field "actual_previous_cid" (get event "previous_cid")
                                      empty)))))))))

-- The loop: the errors, and the last `expected_previous_cid`.
unfoldable pub audit_events : ℕ → Value → Ledger → List Value × Value
unfolding event_errors
audit_events index expected [] = ([], expected)
audit_events index expected (event ∷ events) =
    let (errors, latest) = audit_events (index + 1) (get event "cid") events in
    (event_errors index expected event ++ errors, latest)

abbrev pub receipt_event : Dict → Value
receipt_event event = dict (
    field "sequence" (get event "sequence") (
      field "cid" (get event "cid") (
        field "receipt_type" (get event "receipt_type")
          (field "previous_cid" (get event "previous_cid") empty))))

unfoldable pub receipt_cids : Ledger → List Value
receipt_cids [] = []
receipt_cids (event ∷ events) =
    (if truthy (get event "cid") then get event "cid" ∷ [] else []) ++ receipt_cids events

unfoldable pub audit_receipt_ledger : String → Ledger → Dict
audit_receipt_ledger ledger_path events =
    let (errors, latest) = audit_events 1 null events in
    field "schema" (str "eve_q.receipt_ledger_audit.v0.1") (
      field "version" (str "0.1.0") (
        field "ledger_path" (str ledger_path) (
          field "event_count" (int (pos (length events))) (
            field "valid" (bool (is_empty errors)) (
              field "errors" (list (items errors)) (
                field "receipt_cids" (list (items (receipt_cids events))) (
                  field "receipt_events" (list (items (map receipt_event events))) (
                    field "latest_cid" latest (
                      field "execution_authority" (str "none") (
                        field "artifact_is_command" (bool false) (
                          field "may_execute" (bool false) (
                            field "may_move_capital" (bool false) (
                              field "boundary_law"
                                (list (
                                  strings (
                                    "No receipt CID, no completion."
                                    ∷ "No pin verification, no completion."
                                    ∷ "No receipt chain, no next action." ∷ "The audit observes."
                                    ∷ "The artifact records." ∷ "The human promotes."
                                    ∷ "The chain remembers." ∷ [])))
                                empty)))))))))))))
