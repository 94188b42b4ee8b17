-- ===== src/Receipts/Anchor.antt =====
-- eve_q/receipt_merkle_anchor.py: the root of a Merkle packet sealed as a receipt of its own. The
-- backend's writer is an argument.
pub mod Accepted
use codex_trading_engine.Prelude.{
  String, Bool, true, false, Option, none, some, List, Result, ok, err, if◌then◌else◌,
}
use codex_trading_engine.Value.{Value, bool, str, Dict, empty, field, get, truthy}
use codex_trading_engine.Receipts.Hashing.{Hashing, sha256_hex}
use codex_trading_engine.Receipts.Payload.{
  SealError, anchor_invalid_packet, anchor_without_root, writer_failed,
}
use codex_trading_engine.Receipts.Ipfs.{IpfsWriter}
use codex_trading_engine.Receipts.Seal.{Ledger, Sealed, seal_receipt}
use codex_trading_engine.Receipts.Merkle.{build_receipt_merkle_audit}

abbrev pub merkle_packet_digest : Hashing → Dict → String
merkle_packet_digest h packet = sha256_hex h (h.canonical_json_bytes packet)

abbrev pub anchor_receipt : Hashing → Dict → Dict
anchor_receipt h packet = field "receipt_type" (str "ReceiptMerkleAnchorReceipt") (
    field "receipt_version" (str "0.1.0") (
      field "period" (get packet "period") (
        field "source_ledger_path" (get packet "ledger_path") (
          field "event_count" (get packet "event_count") (
            field "ledger_valid" (get packet "ledger_valid") (
              field "latest_cid" (get packet "latest_cid") (
                field "merkle_root" (get packet "merkle_root") (
                  field "merkle_packet_schema" (get packet "schema") (
                    field "merkle_packet_sha256" (str (merkle_packet_digest h packet)) (
                      field "anchor_scope" (str "audit_root_only") (
                        field "execution_authority" (str "none") (
                          field "artifact_is_command" (bool false) (
                            field "may_execute" (bool false)
                              (field "may_move_capital" (bool false) empty))))))))))))))

unfoldable pub build_merkle_anchor_receipt : Hashing → Dict → Result SealError Dict
build_merkle_anchor_receipt h packet =
    if truthy (get packet "valid")
    then (if truthy (get packet "merkle_root")
        then ok (anchor_receipt h packet)
        else err anchor_without_root)
    else err anchor_invalid_packet

pub record Anchored (S : Type 0) : Type 0 where
  pub packet : Dict
  pub receipt : Dict
  pub result : Result SealError Sealed × S × Ledger

module _ {S : Type 0} (w : IpfsWriter S) (h : Hashing) where
  abbrev seal_anchor :
      Dict → Option String → Result SealError Dict → S → Ledger → Result SealError (Anchored S)
  seal_anchor packet previous (err e) s anchors = err e
  seal_anchor packet previous (ok receipt) s anchors = ok (record {
    packet = packet;
    receipt = receipt;
    result = seal_receipt w h receipt previous s anchors;
  })

  -- `none` is a `ValueError` in the Merkle root.
  unfoldable pub seal_merkle_anchor :
      String
      → Ledger
      → Option String
      → Option String
      → S
      → Ledger
      → Option (Result SealError (Anchored S))
  seal_merkle_anchor path source period previous s anchors =
      elim (build_receipt_merkle_audit h path period source) [
        | none ↦ none
        | some packet ↦
            some (seal_anchor packet previous (build_merkle_anchor_receipt h packet) s anchors)
      ]
