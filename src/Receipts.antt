-- ===== src/Receipts.antt =====
-- The receipt chain: eve_q/immutable_receipts.py, receipt_ledger_audit.py, receipt_merkle_audit.py
-- and receipt_merkle_anchor.py. `Payload`, `Envelope`, `Ipfs` and `Seal` are the sealing of one
-- receipt, `Audit` the audit of a ledger.
pub mod Hex
pub mod Hashing
pub mod Payload
pub mod Envelope
pub mod Ipfs
pub mod Seal
pub mod Audit
pub mod Merkle
pub mod Anchor
