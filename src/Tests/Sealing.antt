-- ===== src/Tests/Sealing.antt =====
-- Sealing receipts with the in-memory writer.
use codex_trading_engine.Prelude.{some, ◌≡◌, refl, ◌⊎◌, ◌↔◌, true, false, none, [], ◌∷◌, ok}
use codex_trading_engine.Value.{Dict, get, bool, str, list, items, truthy}
use codex_trading_engine.Receipts.Hashing.{sha256_hex}
use codex_trading_engine.Receipts.Hex.{to_hex}
use codex_trading_engine.Receipts.Payload.{
  forbidden_fields, forbidden_paths, validate_receipt_payload,
}
use codex_trading_engine.Receipts.Payload.Clean.{IsCleanDict, validate_receipt_payload_iff}
use codex_trading_engine.Receipts.Ipfs.{FaithfulWriter, in_memory, in_memory-FaithfulWriter}
use codex_trading_engine.Receipts.Envelope.{build_receipt_envelope}
use codex_trading_engine.Receipts.Seal.{
  seal_receipt, absent, is_complete_status, mark_action_complete,
}
use codex_trading_engine.Receipts.Seal.Outcome.{Outcome, seal_receipt-Outcome}
use codex_trading_engine.Receipts.Seal.InMemory.{seal_receipt-succeeds}
use codex_trading_engine.Receipts.Seal.Chain.{audit-seal_receipt}
use codex_trading_engine.Receipts.Audit.{audit_events, audit_receipt_ledger, receipt_cids}
use codex_trading_engine.Receipts.Seal.Completion.{mark_action_complete_iff}
use codex_trading_engine.Tests.World.{
  toy, toy-LawfulHashing, trade, no_objects, first_cid, first_sealed, first_ledger, first_store,
}

-- Sealing a trade receipt with an empty store and ledger.
pub first_run :
    seal_receipt (in_memory toy) toy trade none no_objects []
    ≡ (ok first_sealed, first_store, first_ledger)
unfolding seal_receipt build_receipt_envelope validate_receipt_payload in_memory forbidden_paths
    sha256_hex to_hex
first_run = refl

seal_receipt-Outcome_example :
    Outcome
      (in_memory toy)
      toy
      trade
      none
      []
      (seal_receipt (in_memory toy) toy trade none no_objects [])
seal_receipt-Outcome_example = seal_receipt-Outcome (in_memory toy) toy trade none no_objects []

seal_receipt-succeeds_example :
    seal_receipt (in_memory toy) toy trade none no_objects []
    ≡ (ok first_sealed, first_store, first_ledger)
unfolding validate_receipt_payload in_memory forbidden_paths
seal_receipt-succeeds_example =
    seal_receipt-succeeds (in_memory toy) (in_memory-FaithfulWriter toy) toy trade none no_objects
      first_store [] first_cid refl refl

audit-seal_receipt_example :
    (get (audit_receipt_ledger "receipts.jsonl" first_ledger) "valid" ≡ bool true)
    × (get (audit_receipt_ledger "receipts.jsonl" first_ledger) "latest_cid" ≡ str first_cid)
    × (get (audit_receipt_ledger "receipts.jsonl" first_ledger) "receipt_cids"
        ≡ list (items (str first_cid ∷ [])))
unfolding audit_receipt_ledger receipt_cids audit_events sha256_hex to_hex
audit-seal_receipt_example =
    audit-seal_receipt toy toy-LawfulHashing (in_memory toy) "receipts.jsonl" trade none no_objects
      first_store [] first_ledger first_sealed first_run refl refl refl

validate_receipt_payload_iff_example :
    (validate_receipt_payload trade ≡ ok tt)
    ↔ ((truthy (get trade "receipt_type") ≡ true) × IsCleanDict forbidden_fields trade)
validate_receipt_payload_iff_example = validate_receipt_payload_iff trade

in_memory_keeps : FaithfulWriter (in_memory toy)
in_memory_keeps = in_memory-FaithfulWriter toy

settled_trade :
    ((record' : Dict) × (mark_action_complete "trade" (some first_cid) "SETTLED" ≡ ok record'))
    ↔ ((is_complete_status "SETTLED" ≡ false) ⊎ (absent (some first_cid) ≡ false))
settled_trade = mark_action_complete_iff "trade" (some first_cid) "SETTLED"
