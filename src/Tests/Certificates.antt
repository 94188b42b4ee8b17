-- ===== src/Tests/Certificates.antt =====
-- Completion certificates over the ledger with one trade.
use codex_trading_engine.Prelude.{◌≡◌, refl, ◌↔◌, false, none, some, [], ok}
use codex_trading_engine.Receipts.Hex.{to_hex}
use codex_trading_engine.Receipts.Hashing.{sha256_hex}
use codex_trading_engine.Receipts.Ipfs.{in_memory}
use codex_trading_engine.Receipts.Audit.{audit_receipt_ledger, audit_events}
use codex_trading_engine.CapitalGate.{Completion, certificate, build_completion_certificate}
use codex_trading_engine.CapitalGate.Safety.{
  IsAccounted, build_completion_certificate_iff, seal-then-certify,
}
use codex_trading_engine.Tests.World.{
  toy, toy-LawfulHashing, trade, no_objects, first_cid, first_sealed, first_ledger, first_store,
}
use codex_trading_engine.Tests.Sealing.{first_run}

abbrev settled_trade : Completion
settled_trade = record {
  action_kind = "trade";
  target_status = "SETTLED";
  receipt_cid = some first_cid;
  ledger_audit = audit_receipt_ledger "receipts.jsonl" first_ledger;
  source_receipt_cid = none;
  merkle_anchor_cid = none;
  require_merkle_anchor = false;
}

build_completion_certificate_iff_example :
    (build_completion_certificate settled_trade ≡ ok (certificate settled_trade))
    ↔ (IsAccounted settled_trade × (certificate settled_trade ≡ certificate settled_trade))
build_completion_certificate_iff_example =
    build_completion_certificate_iff settled_trade (certificate settled_trade)

seal-then-certify_example :
    build_completion_certificate settled_trade ≡ ok (certificate settled_trade)
unfolding audit_receipt_ledger audit_events sha256_hex to_hex
seal-then-certify_example =
    seal-then-certify toy toy-LawfulHashing (in_memory toy) "receipts.jsonl" trade none no_objects
      first_store [] first_ledger first_sealed first_run refl refl refl
