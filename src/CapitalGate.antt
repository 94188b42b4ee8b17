-- ===== src/CapitalGate.antt =====
-- eve_q/capital_action_gate.py: the certificate that a trade or a charity transaction is accounted.
pub mod Safety
use codex_trading_engine.Prelude.{
  String, Bool, true, false, not, ◌&&◌, ◌||◌, Option, none, some, List, [], ◌∷◌, str_eq, Result, ok,
  err, ◌>>=◌, ◌>>◌, require, if◌then◌else◌,
}
use codex_trading_engine.Value.{
  Value, null, bool, str, list, Items, nil, cons, Dict, empty, field, get, strings, is_true,
  is_false, is_list, is_str,
}
use codex_trading_engine.Receipts.Envelope.{opt_str}
use codex_trading_engine.Receipts.Seal.{absent, is_complete_status}

-- `CapitalActionGateError`, by its message.
pub data GateError : Type 0 where
  unsupported_action_kind unsupported_status : String → GateError
  no_receipt_cid no_source_receipt_cid no_merkle_anchor_cid : GateError
  invalid_audit no_membership_list cid_not_in_ledger : GateError
  audit_has_authority audit_is_command audit_may_execute audit_may_move_capital : GateError

-- `receipt_cid in receipt_cids`
abbrev pub member : Items → String → Bool
member nil s = false
member (cons x xs) s = is_str x s || member xs s

abbrev pub listed : Value → String → Bool
listed (list xs) s = member xs s
listed _ s = false

unfoldable pub validate_ledger_audit : Dict → String → Result GateError Unit
validate_ledger_audit ledger_audit receipt_cid = do
  require (is_true (get ledger_audit "valid")) invalid_audit
  require (is_list (get ledger_audit "receipt_cids")) no_membership_list
  require (listed (get ledger_audit "receipt_cids") receipt_cid) cid_not_in_ledger
  require (is_str (get ledger_audit "execution_authority") "none") audit_has_authority
  require (is_false (get ledger_audit "artifact_is_command")) audit_is_command
  require (is_false (get ledger_audit "may_execute")) audit_may_execute
  require (is_false (get ledger_audit "may_move_capital")) audit_may_move_capital

abbrev pub is_action_kind : String → Bool
is_action_kind s = str_eq s "trade" || str_eq s "charity_tx"

-- The arguments of `build_completion_certificate`.
pub record Completion : Type 0 where
  pub action_kind : String
  pub target_status : String
  pub receipt_cid : Option String
  pub ledger_audit : Dict
  pub source_receipt_cid : Option String
  pub merkle_anchor_cid : Option String
  pub require_merkle_anchor : Bool

abbrev pub certificate : Completion → Dict
certificate c = field "schema" (str "eve_q.capital_action_completion_gate.v0.1") (
    field "version" (str "0.1.0") (
      field "action_kind" (str c.action_kind) (
        field "target_status" (str c.target_status) (
          field "completion_status" (str "ACCOUNTED") (
            field "receipt_cid" (opt_str c.receipt_cid) (
              field "source_receipt_cid" (opt_str c.source_receipt_cid) (
                field "ledger_path" (get c.ledger_audit "ledger_path") (
                  field "ledger_event_count" (get c.ledger_audit "event_count") (
                    field "ledger_latest_cid" (get c.ledger_audit "latest_cid") (
                      field "merkle_anchor_required" (bool c.require_merkle_anchor) (
                        field "merkle_anchor_cid" (opt_str c.merkle_anchor_cid) (
                          field "execution_authority" (str "none") (
                            field "artifact_is_command" (bool false) (
                              field "may_execute" (bool false) (
                                field "may_move_capital" (bool false) (
                                  field "human_promotion_required" (bool true) (
                                    field "boundary_law"
                                      (list (
                                        strings (
                                          "No receipt CID, no completion."
                                          ∷ "No valid ledger audit, no completion."
                                          ∷ "No charity completion without source trade receipt."
                                          ∷ "No required Merkle anchor, no completion."
                                          ∷ "The completion gate accounts."
                                          ∷ "The artifact records." ∷ "The human promotes."
                                          ∷ "The chain remembers." ∷ [])))
                                      empty)))))))))))))))))

-- The text of a CID that is there.
abbrev pub cid_text : Option String → String
cid_text none = ""
cid_text (some s) = s

unfoldable pub build_completion_certificate : Completion → Result GateError Dict
unfolding validate_ledger_audit
build_completion_certificate c = do
  require (is_action_kind c.action_kind) (unsupported_action_kind c.action_kind)
  require (is_complete_status c.target_status) (unsupported_status c.target_status)
  require (not (absent c.receipt_cid)) no_receipt_cid
  require (not (str_eq c.action_kind "charity_tx" && absent c.source_receipt_cid))
      no_source_receipt_cid
  require (not (c.require_merkle_anchor && absent c.merkle_anchor_cid)) no_merkle_anchor_cid
  validate_ledger_audit c.ledger_audit (cid_text c.receipt_cid)
  ok (certificate c)
