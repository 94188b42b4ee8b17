-- ===== src/Tests/Audits.antt =====
-- Audits of small ledgers.
use codex_trading_engine.Prelude.{
  ℕ, ◌+◌, String, ◌≡◌, ◌≢◌, ◌⊎◌, refl, ◌↔◌, true, false, Option, none, some, List, [], ◌∷◌, ◌++◌,
  is_empty, ok, get_elem?, map,
}
use codex_trading_engine.Value.{eq, Dict, get, bool, null}
use codex_trading_engine.Receipts.Hex.{to_hex, from_hex}
use codex_trading_engine.Receipts.Hashing.{sha256_hex}
use codex_trading_engine.Receipts.Audit.{audit_receipt_ledger, audit_events}
use codex_trading_engine.Receipts.Audit.Chain.{IsLink, cid_before, audit-valid_iff}
use codex_trading_engine.Receipts.Audit.Tamper.{audit-detects_removal}
use codex_trading_engine.Receipts.Merkle.{
  event_leaf_hash, merkle_parent, next_level, reduce_level, merkle_root, merkle_packet,
  build_receipt_merkle_audit,
}
use codex_trading_engine.Receipts.Merkle.Digests.{build_receipt_merkle_audit-total}
use codex_trading_engine.Receipts.Merkle.Binding.{Collision, root_inputs, merkle_root-binding}
use codex_trading_engine.Receipts.Merkle.Duplicate.{merkle_root-duplicate}
use codex_trading_engine.Receipts.Anchor.{anchor_receipt, build_merkle_anchor_receipt}
use codex_trading_engine.Receipts.Anchor.Accepted.{anchor-accepted_iff}
use codex_trading_engine.Tests.World.{
  checksum, toy, toy-LawfulHashing, first_sealed, second_sealed, second_ledger,
}

audit-valid_iff_example :
    (get (audit_receipt_ledger "receipts.jsonl" second_ledger) "valid" ≡ bool true) ↔ (
      (i : ℕ) (e : Dict)
      → get_elem? second_ledger i ≡ some e
      → IsLink (1 + i) (cid_before null second_ledger i) e)
audit-valid_iff_example = audit-valid_iff "receipts.jsonl" second_ledger

audit-detects_removal_example :
    get (audit_receipt_ledger "receipts.jsonl" (second_sealed.ledger_event ∷ [])) "valid"
    ≢ bool true
unfolding audit_receipt_ledger audit_events sha256_hex to_hex eq
audit-detects_removal_example =
    audit-detects_removal "receipts.jsonl" [] first_sealed.ledger_event second_sealed.ledger_event
      [] refl

build_receipt_merkle_audit-total_example :
    (root : Option String) × (merkle_root toy (map (event_leaf_hash toy) second_ledger) ≡ some root)
    × (build_receipt_merkle_audit toy "receipts.jsonl" none second_ledger
        ≡ some (merkle_packet toy "receipts.jsonl" none second_ledger root))
    × ((second_ledger ≡ []) ↔ (root ≡ none))
build_receipt_merkle_audit-total_example =
    build_receipt_merkle_audit-total toy toy-LawfulHashing "receipts.jsonl" none second_ledger

abbrev leaf : ℕ → String
leaf n = sha256_hex toy (n ∷ [])

abbrev two_leaves : List String
two_leaves = leaf 1 ∷ leaf 2 ∷ []

abbrev swapped_leaves : List String
swapped_leaves = leaf 2 ∷ leaf 1 ∷ []

abbrev checksum_root : String
checksum_root = sha256_hex toy (checksum (1 ∷ []) ++ checksum (2 ∷ []))

merkle_root-binding_example :
    (two_leaves ≡ swapped_leaves)
    ⊎ Collision toy (root_inputs toy 2 two_leaves) (root_inputs toy 2 swapped_leaves)
unfolding merkle_root reduce_level next_level merkle_parent sha256_hex to_hex from_hex
merkle_root-binding_example =
    merkle_root-binding toy toy-LawfulHashing two_leaves swapped_leaves (some checksum_root) refl
      ((1 ∷ [], refl), ((2 ∷ [], refl), tt)) ((2 ∷ [], refl), ((1 ∷ [], refl), tt)) refl refl

merkle_root-duplicate_example :
    merkle_root toy (leaf 1 ∷ leaf 2 ∷ leaf 3 ∷ leaf 3 ∷ [])
    ≡ merkle_root toy (leaf 1 ∷ leaf 2 ∷ leaf 3 ∷ [])
merkle_root-duplicate_example = merkle_root-duplicate toy (leaf 1) (leaf 2) [] (leaf 3) refl

anchor-accepted_iff_example :
    (packet : Dict) × (build_receipt_merkle_audit toy "receipts.jsonl" none second_ledger
      ≡ some packet)
    × ((build_merkle_anchor_receipt toy packet ≡ ok (anchor_receipt toy packet)) ↔ (
        (is_empty second_ledger ≡ false)
        × (get (audit_receipt_ledger "receipts.jsonl" second_ledger) "valid" ≡ bool true)))
anchor-accepted_iff_example =
    anchor-accepted_iff toy toy-LawfulHashing "receipts.jsonl" none second_ledger
