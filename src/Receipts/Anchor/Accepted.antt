-- ===== src/Receipts/Anchor/Accepted.antt =====
-- Which ledgers get an anchor receipt.
use codex_trading_engine.Prelude.{
  String, ◌≡◌, refl, ◌↔◌, Bool, true, false, Option, none, some, [], ◌∷◌, is_empty, map, ok,
}
use codex_trading_engine.Value.{null, bool, Dict, get, truthy}
use codex_trading_engine.Receipts.Hashing.{Hashing, LawfulHashing, digest_not_empty}
use codex_trading_engine.Receipts.Seal.{Ledger}
use codex_trading_engine.Receipts.Audit.{audit_events, audit_receipt_ledger}
use codex_trading_engine.Receipts.Merkle.{
  merkle_root, event_leaf_hash, merkle_packet, build_receipt_merkle_audit,
}
use codex_trading_engine.Receipts.Merkle.Digests.{map-IsDigest, merkle_root-IsDigest}
use codex_trading_engine.Receipts.Anchor.{anchor_receipt, build_merkle_anchor_receipt}

module _ (h : Hashing) (lawful : LawfulHashing h) where
  bool_inj : (a b : Bool) → bool a ≡ bool b → a ≡ b
  bool_inj a b e = cc

  accepted_from :
      (path : String) (period : Option String) (e : Dict) (events : Ledger) (root : String)
      (b : Bool)
      → truthy (get (merkle_packet h path period (e ∷ events) (some root)) "merkle_root") ≡ true
      → is_empty (audit_events 1 null (e ∷ events)).0 ≡ b
      → (build_merkle_anchor_receipt h (merkle_packet h path period (e ∷ events) (some root))
          ≡ ok (anchor_receipt h (merkle_packet h path period (e ∷ events) (some root))))
        ↔ ((is_empty (e ∷ events) ≡ false)
            × (get (audit_receipt_ledger path (e ∷ events)) "valid" ≡ bool true))
  unfolding build_merkle_anchor_receipt audit_receipt_ledger
  accepted_from path period e events root true t v = (λ _. (refl, rw v refl), λ _. rw (v, t) refl)
  accepted_from path period e events root false t v = (
    λ q. absurd (let z = rw v at q in cc),
    λ (_, q). absurd (let z = bool_inj _ _ (rw v at q) in cc),
  )

  -- The Merkle audit of a ledger gives a packet, and an anchor receipt is built from that packet
  -- exactly when the ledger has an entry and its audit is valid.
  pub anchor-accepted_iff :
      (path : String) (period : Option String) (events : Ledger)
      → (packet : Dict) × (build_receipt_merkle_audit h path period events ≡ some packet)
        × ((build_merkle_anchor_receipt h packet ≡ ok (anchor_receipt h packet)) ↔ (
            (is_empty events ≡ false)
            × (get (audit_receipt_ledger path events) "valid" ≡ bool true)))
  unfolding build_receipt_merkle_audit merkle_root build_merkle_anchor_receipt
  anchor-accepted_iff path period [] =
      (merkle_packet h path period [] none, refl, (λ q. absurd (cc), λ (q, _). absurd (cc)))
  anchor-accepted_iff path period (e ∷ events) =
      let (root, q, (x, g)) =
        merkle_root-IsDigest h lawful (event_leaf_hash h e) (map (event_leaf_hash h) events)
          (map-IsDigest h (e ∷ events)) in
      (
        merkle_packet h path period (e ∷ events) (some root),
        rw q refl,
        accepted_from path period e events root _ (rw (g, digest_not_empty lawful x) refl) refl,
      )
