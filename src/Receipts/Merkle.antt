-- ===== src/Receipts/Merkle.antt =====
-- eve_q/receipt_merkle_audit.py: the Merkle root over a ledger's events. An odd last hash is paired
-- with itself. `none` is the `ValueError` of `bytes.fromhex`.
pub mod Digests
pub mod Binding
pub mod Duplicate
use codex_trading_engine.Prelude.{
  ℕ, zero, suc, ◌+◌, String, ◌≡◌, Bool, true, false, ◌&&◌, not, Option, none, some, List, [], ◌∷◌,
  ◌++◌, length, is_empty, map, if◌then◌else◌, unless,
}
use codex_trading_engine.Prelude.Int.{pos}
use codex_trading_engine.Value.{
  Value, null, bool, int, str, list, dict, Dict, empty, field, get, items, strings, is_true, truthy,
}
use codex_trading_engine.Receipts.Hex.{from_hex}
use codex_trading_engine.Receipts.Hashing.{Hashing, sha256_hex}
use codex_trading_engine.Receipts.Seal.{Ledger}
use codex_trading_engine.Receipts.Envelope.{opt_str}
use codex_trading_engine.Receipts.Audit.{audit_receipt_ledger}

infixl 5 ◌>>=◌
abbrev pub ◌>>=◌ : {A B : Type 0} → Option A → (A → Option B) → Option B
none >>= f = none
some a >>= f = f a

unfoldable pub event_leaf_hash : Hashing → Dict → String
event_leaf_hash h event = sha256_hex h (h.canonical_json_bytes event)

unfoldable pub merkle_parent : Hashing → String → String → Option String
merkle_parent h left_hash right_hash = do
  left ← from_hex left_hash
  right ← from_hex right_hash
  some (sha256_hex h (left ++ right))

module _ (h : Hashing) where
  -- One round of the `while`: the level above.
  unfoldable pub next_level : List String → Option (List String)
  next_level [] = some []
  next_level (left ∷ []) = do parent ← merkle_parent h left left; some (parent ∷ [])
  next_level (left ∷ right ∷ level) = do
    parent ← merkle_parent h left right
    rest ← next_level level
    some (parent ∷ rest)

  -- `while len(level) > 1`, at most `fuel` rounds.
  unfoldable pub reduce_level : ℕ → List String → Option String
  reduce_level fuel [] = none
  reduce_level fuel (x ∷ []) = some x
  reduce_level zero (x ∷ y ∷ level) = none
  reduce_level (suc fuel) (x ∷ y ∷ level) = do
    above ← next_level (x ∷ y ∷ level)
    reduce_level fuel above

  -- Each round at least halves the level, so its length is fuel enough.
  unfoldable pub merkle_root : List String → Option (Option String)
  merkle_root [] = some none
  merkle_root (x ∷ xs) = do root ← reduce_level (length (x ∷ xs)) (x ∷ xs); some (some root)

  abbrev pub leaf_of : Dict → Value
  leaf_of event = dict (
      field "sequence" (get event "sequence")
        (field "cid" (get event "cid") (field "leaf_sha256" (str (event_leaf_hash h event)) empty)))

  -- The errors of the packet: an empty ledger, a ledger that its audit refuses.
  abbrev pub packet_errors : Ledger → Dict → List Value
  packet_errors events ledger_audit =
      unless (not (is_empty events)) (dict (field "error" (str "empty_ledger") empty))
      ++ unless (truthy (get ledger_audit "valid"))
          (dict (field "error" (str "ledger_audit_invalid") empty))

  abbrev pub merkle_packet : String → Option String → Ledger → Option String → Dict
  merkle_packet ledger_path period events root =
      let ledger_audit = audit_receipt_ledger ledger_path events in
      field "schema" (str "eve_q.receipt_merkle_audit.v0.1") (
        field "version" (str "0.1.0") (
          field "period" (opt_str period) (
            field "ledger_path" (str ledger_path) (
              field "event_count" (int (pos (length events))) (
                field "ledger_valid" (get ledger_audit "valid") (
                  field "valid" (bool (is_empty (packet_errors events ledger_audit))) (
                    field "errors" (list (items (packet_errors events ledger_audit))) (
                      field "merkle_root" (opt_str root) (
                        field "latest_cid" (get ledger_audit "latest_cid") (
                          field "leaves" (list (items (map leaf_of events))) (
                            field "ledger_audit" (dict ledger_audit) (
                              field "execution_authority" (str "none") (
                                field "artifact_is_command" (bool false) (
                                  field "may_execute" (bool false) (
                                    field "may_move_capital" (bool false) (
                                      field "boundary_law"
                                        (list (
                                          strings (
                                            "No receipt CID, no completion."
                                            ∷ "No pin verification, no completion."
                                            ∷ "No receipt chain, no next action."
                                            ∷ "The Merkle root compresses continuity."
                                            ∷ "The artifact records." ∷ "The human promotes."
                                            ∷ "The chain remembers." ∷ [])))
                                        empty))))))))))))))))

  unfoldable pub build_receipt_merkle_audit : String → Option String → Ledger → Option Dict
  build_receipt_merkle_audit ledger_path period events = do
    root ← merkle_root (map (event_leaf_hash h) events)
    some (merkle_packet ledger_path period events root)
